-- ===== src/MessageStore/Resend.antt =====
-- `ResendStream` of include/fix/core/MessageStore.hpp: the sent messages that a resend request asks
-- for, each to be sent again or covered, with its neighbours, by a gap fill. The view of the blob
-- buffer that the source keeps in the stream is not used by it, and is left out.

use fix_engine.Prelude.{
  ℕ, zero, suc, ◌+◌, ◌-◌, ◌%◌, ◌^◌, Bool, false, not, ◌||◌, List, [], ◌∷◌, Bytes, Option, some, leb,
  ◌==◌, if◌then◌else◌, get_elem?, ◌>>=◌,
}
use fix_engine.MessageStore.{MsgIndex, get_msg_type}

pub record ResendAction : Type 0 where
  pub begin_seq_no : ℕ
  pub end_seq_no : ℕ
  pub gap_fill : Bool

pub record ResendStream : Type 0 where
  pub outbound_index : List MsgIndex
  pub current_index : ℕ
  pub end_seq_no : ℕ

unfoldable pub no_resend : Bytes → Bool
no_resend [] = false
no_resend (c ∷ []) =
    c == b'0' || c == b'A' || c == b'2' || c == b'1' || c == b'3' || c == b'4' || c == b'5'
no_resend (c ∷ d ∷ cs) = false

-- The constructor, and `MessageStore::get_resend_stream`.
unfoldable pub get_resend_stream : List MsgIndex → ℕ → ℕ → ResendStream
get_resend_stream index begin_seq_no end_seq_no = record {
  outbound_index = index;
  current_index = begin_seq_no;
  end_seq_no = end_seq_no;
}

unfoldable pub has_next : ResendStream → Bool
has_next s = leb s.current_index s.end_seq_no

-- Is the message with this number one that is not sent again? `outbound_index_[seq - 1]` is read
-- with the subtraction of a `uint32_t`.
unfoldable pub skipped : List MsgIndex → ℕ → Option Bool
unfolding no_resend get_msg_type
skipped index seq =
    get_elem? index ((seq + 2 ^ 32 - 1) % 2 ^ 32) >>= λ e. some (no_resend (get_msg_type e))

-- The loop of `next`: where it stops. Each round moves `current`, so that the distance to the end is
-- enough fuel.
unfoldable pub skip_from : ℕ → List MsgIndex → ℕ → ℕ → Option ℕ
unfolding skipped
skip_from zero index end_seq_no current = some current
skip_from (suc fuel) index end_seq_no current =
    let more = do
      skip ← skipped index current
      let rest = skip_from fuel index end_seq_no ((current + 1) % 2 ^ 32)
      if skip then rest else some current
    in if leb current end_seq_no then more else some current

unfoldable pub next : ResendStream → Option (ResendAction × ResendStream)
unfolding skip_from
next s = do
  let start = s.current_index
  stop ← skip_from (s.end_seq_no + 2 - start) s.outbound_index s.end_seq_no start
  let gap_fill = not (stop == start)
  some (
    record {
      begin_seq_no = start;
      end_seq_no = if gap_fill then (stop + 2 ^ 32 - 1) % 2 ^ 32 else stop;
      gap_fill = gap_fill;
    },
    record s { current_index = if gap_fill then stop else (stop + 1) % 2 ^ 32 },
  )

-- for (; stream.has_next(); ) stream.next()
unfoldable pub all_actions : ℕ → ResendStream → Option (List ResendAction)
unfolding has_next next
all_actions zero s = some []
all_actions (suc fuel) s =
    let more = do (a, s') ← next s; rest ← all_actions fuel s'; some (a ∷ rest)
    in if has_next s then more else some []
