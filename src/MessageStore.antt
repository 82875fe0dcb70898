-- ===== src/MessageStore.antt =====
-- include/fix/core/MessageStore.hpp and src/MessageStore.cpp: every message sent, in one buffer,
-- with an index entry for each; and the walk over that index that answers a resend request.
-- `none` is a violated `assert` or an access behind the end of the index.
pub mod Resend
pub mod Tiling
pub mod Store
mod Tests
use fix_engine.Prelude.{
  ℕ, zero, suc, ◌+◌, ◌-◌, ◌*◌, ◌%◌, ◌^◌, min, max, Bool, true, false, List, [], ◌∷◌, ◌++◌, Bytes,
  Option, none, some, ltb, leb, ◌&&◌, ◌==◌, if◌then◌else◌, length, get_elem?, take, drop, ◌>>=◌,
  ◌>>◌, assert,
}
use fix_engine.Prelude.Memory.{Memory, fresh, read, write}
use fix_engine.Chars.{codes, soh, same, find, from_chars, index_of}

-- `MsgIndex`. A patch point is `none` for the source's -1; offsets are below 2^31, as a message is.
pub record MsgIndex : Type 0 where
  pub off : ℕ
  pub len : ℕ
  pub seq : ℕ
  pub off_34 : Option ℕ
  pub off_52 : Option ℕ
  pub off_43 : Option ℕ
  pub off_122 : Option ℕ
  pub len_34 : ℕ
  pub len_43 : ℕ
  pub len_122 : ℕ
  pub len_52 : ℕ
  pub msg_type : Bytes
  pub msg_size : ℕ

-- `MsgIndex idx{}`, with the offset and the length set
abbrev pub new_index : ℕ → ℕ → MsgIndex
new_index off len = record {
  off = off;
  len = len;
  seq = 0;
  off_34 = none;
  off_52 = none;
  off_43 = none;
  off_122 = none;
  len_34 = 0;
  len_43 = 0;
  len_122 = 0;
  len_52 = 0;
  msg_type = 0 ∷ 0 ∷ [];
  msg_size = 1;
}

unfoldable pub get_msg_type : MsgIndex → Bytes
get_msg_type e = take e.msg_size e.msg_type

-- One field of the wire: what `create_message_index` does with a tag and its value, `at` being the
-- offset of the value.
unfoldable pub note_field : MsgIndex → Bytes → ℕ → Bytes → Option MsgIndex
note_field e tag at value =
    if same tag (codes "34")
    then (from_chars (2 ^ 32) value >>= λ r.
        some (record e { off_34 = some at; len_34 = length value % 2 ^ 16; seq = r.0 }))
    else if same tag (codes "52")
    then some (record e { off_52 = some at; len_52 = length value % 2 ^ 16 })
    else if same tag (codes "43")
    then some (record e { off_43 = some at; len_43 = length value % 2 ^ 16 })
    else if same tag (codes "122")
    then some (record e { off_122 = some at; len_122 = length value % 2 ^ 16 })
    else if same tag (codes "35")
    then (let n = min (length value) 2 in
        some (record e { msg_size = n; msg_type = take n value ++ drop n e.msg_type }))
    else some e

-- One round of the loop of `create_message_index`, with what is done from the next field on.
unfoldable pub scan_round :
    (ℕ → MsgIndex → Option MsgIndex) → Bytes → ℕ → MsgIndex → Option MsgIndex
scan_round go wire pos e = do
  eq_pos ← find b'=' wire pos
  soh_pos ← find soh wire (eq_pos + 1)
  let tag = take (eq_pos - pos) (drop pos wire)
  let value = take (soh_pos - eq_pos - 1) (drop (eq_pos + 1) wire)
  if same tag (codes "10")
      then some e
      else (note_field e tag (eq_pos + 1) value >>= go (soh_pos + 1))

-- The loop from `pos` on. It stops behind the wire, or at tag 10; each round moves `pos`, so the
-- length of the wire is enough fuel.
unfoldable pub scan_index : ℕ → Bytes → ℕ → MsgIndex → Option MsgIndex
unfolding scan_round
scan_index zero wire pos e = some e
scan_index (suc fuel) wire pos e =
    let round = scan_round (scan_index fuel wire) wire pos e in
    if ltb pos (length wire) then round else some e

unfoldable pub create_message_index : Bytes → ℕ → Option MsgIndex
create_message_index wire off =
    scan_index (length wire) wire 0 (new_index off (length wire % 2 ^ 32))

pub record MessageStore : Type 0 where
  pub outbound_index : List MsgIndex
  pub blob_buffer : Memory
  pub blob_buffer_size : ℕ
  pub blob_buffer_used : ℕ

abbrev pub blob_buffer_start_size : ℕ
blob_buffer_start_size = 8 * 1024 * 1024

abbrev pub min_blob_buffer_grow_size : ℕ
min_blob_buffer_grow_size = 4 * 1024 * 1024

-- The constructor.
unfoldable pub init : MessageStore
init = record {
  outbound_index = [];
  blob_buffer = fresh;
  blob_buffer_size = blob_buffer_start_size;
  blob_buffer_used = 0;
}

-- The size is kept in a `uint32_t`.
pub grow_blob_buffer : MessageStore → ℕ → MessageStore
grow_blob_buffer s additional_size = record s {
  blob_buffer = write fresh 0 (read s.blob_buffer 0 s.blob_buffer_used);
  blob_buffer_size = (s.blob_buffer_size + max min_blob_buffer_grow_size additional_size) % 2 ^ 32;
}

-- The growing step of `store_outbound_message`.
pub make_room : MessageStore → ℕ → MessageStore
make_room s n =
    if ltb s.blob_buffer_size (s.blob_buffer_used + n)
    then grow_blob_buffer s (n + s.blob_buffer_used - s.blob_buffer_size)
    else s

unfoldable pub store_outbound_message : MessageStore → Bytes → Option MessageStore
store_outbound_message s wire =
    let s' = make_room s (length wire) in
    do
      msg_index ← create_message_index wire s'.blob_buffer_used
      assert (msg_index.seq == length s'.outbound_index + 1)
      some (record s' {
        blob_buffer = write s'.blob_buffer s'.blob_buffer_used wire;
        outbound_index = s'.outbound_index ++ msg_index ∷ [];
        blob_buffer_used = (s'.blob_buffer_used + length wire) % 2 ^ 32;
      })

unfoldable pub get_message_index : MessageStore → ℕ → Option MsgIndex
get_message_index s seq_num = do
  assert (ltb 0 seq_num && leb seq_num (length s.outbound_index))
  get_elem? s.outbound_index (seq_num - 1)

unfoldable pub get_message_wire : MessageStore → MsgIndex → Bytes
get_message_wire s index = read s.blob_buffer index.off index.len

unfoldable pub all_messages : MessageStore → Bytes
all_messages s = read s.blob_buffer 0 s.blob_buffer_used
