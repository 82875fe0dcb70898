-- ===== src/MessageStore/Tests.antt =====
-- The laws of the store and of the resend stream at a store with a heartbeat and an order.
use fix_engine.Prelude.{
  ℕ, ◌+◌, ◌≡◌, ◌≤◌, ◌<◌, refl, List, [], ◌∷◌, ◌++◌, Bytes, none, some, arith, length,
}
use fix_engine.Chars.{codes, soh, from_chars, index_of, same, scan_digits}
use fix_engine.MessageStore.{
  MsgIndex, MessageStore, init, create_message_index, note_field, scan_round, scan_index, new_index,
  store_outbound_message,
}
use fix_engine.MessageStore.Resend.{ResendAction, get_resend_stream, all_actions}
use fix_engine.MessageStore.Tiling.{Tiles, all_actions_lem}
use fix_engine.MessageStore.Store.{IsValid, init-IsValid, message_at, store_lem, store_out_of_turn}

-- A field.
abbrev fld : Bytes → Bytes
fld s = s ++ soh ∷ []

-- 8=X|35=0|34=n|10=000|
abbrev numbered : Bytes → Bytes
numbered n = fld (codes "35=0") ++ (fld (codes "34=" ++ n) ++ fld (codes "10=0"))

abbrev entry : MsgIndex → ℕ → MsgIndex
entry e seq = record e {
  seq = seq;
  off_34 = some 8;
  len_34 = 1;
  msg_size = 1;
  msg_type = b'0' ∷ 0 ∷ [];
}

entry_lem : create_message_index (numbered (codes "1")) 0 ≡ some (entry (new_index 0 15) 1)
unfolding create_message_index scan_index scan_round note_field same index_of from_chars scan_digits
entry_lem = refl

entry_three : create_message_index (numbered (codes "3")) 0 ≡ some (entry (new_index 0 15) 3)
unfolding create_message_index scan_index scan_round note_field same index_of from_chars scan_digits
entry_three = refl

-- An admin message, which is not sent again, and an order, which is.
abbrev two : List MsgIndex
two =
    entry (new_index 0 15) 1 ∷ record (entry (new_index 15 15) 2) { msg_type = b'D' ∷ 0 ∷ [] } ∷ []

store_example :
    (t : MessageStore) × (store_outbound_message init (numbered (codes "1")) ≡ some t)
    × IsValid t
    × (length t.outbound_index ≡ length init.outbound_index + 1)
    × (message_at t (length init.outbound_index + 1) ≡ some (numbered (codes "1")))
    × ((n : ℕ) → 0 < n → n ≤ length init.outbound_index → message_at t n ≡ message_at init n)
unfolding init
store_example =
    store_lem init (numbered (codes "1")) (entry (new_index 0 15) 1) init-IsValid (omega arith)
      entry_lem refl

store_out_of_turn_example : store_outbound_message init (numbered (codes "3")) ≡ none
unfolding init
store_out_of_turn_example =
    store_out_of_turn init (numbered (codes "3")) (entry (new_index 0 15) 3) entry_three
      (omega arith)

all_actions_example :
    (rest : List ResendAction) × (all_actions 2 (get_resend_stream two 1 2) ≡ some rest)
    × Tiles two 2 1 rest
all_actions_example =
    all_actions_lem two 2 2 1 (omega arith) (omega arith) (omega arith) (omega arith) (omega arith)
