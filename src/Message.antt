-- ===== src/Message.antt =====
-- include/fix/message/GenericMessage.hpp, include/fix/core/Message.hpp and src/Message.cpp: a parsed
-- message and the cache of its header fields.
use fix_engine.Prelude.{
  ℕ, ◌^◌, Bool, true, false, List, [], ◌∷◌, Bytes, Option, none, some, ◌==◌, if◌then◌else◌, length,
}
use fix_engine.Chars.{from_chars}

-- `GenericFieldView`
pub record FieldView : Type 0 where
  pub value : Bytes
  pub tag : ℕ

-- `HeaderCache`: the slots, and the number of tag 34.
pub record HeaderCache : Type 0 where
  pub msg_type : Option Bytes
  pub sender_comp_id : Option Bytes
  pub target_comp_id : Option Bytes
  pub sending_time : Option Bytes
  pub msg_seq_num_slot : Option Bytes
  pub poss_dup_flag : Option Bytes
  pub orig_sending_time : Option Bytes
  pub test_req_id : Option Bytes
  pub msg_seq_num : ℕ
  pub has_msg_seq_num : Bool

abbrev pub empty_cache : HeaderCache
empty_cache = record {
  msg_type = none;
  sender_comp_id = none;
  target_comp_id = none;
  sending_time = none;
  msg_seq_num_slot = none;
  poss_dup_flag = none;
  orig_sending_time = none;
  test_req_id = none;
  msg_seq_num = 0;
  has_msg_seq_num = false;
}

-- The case of tag 34: the number is taken also where something follows its digits, but counts as
-- present only where nothing does.
unfoldable pub note_seq_num : HeaderCache → Bytes → HeaderCache
note_seq_num c value = elim (from_chars (2 ^ 64) value) [
  | none ↦ record c { msg_seq_num_slot = some value }
  | some (v, k) ↦ record c {
    msg_seq_num_slot = some value;
    msg_seq_num = v;
    has_msg_seq_num = if k == length value then true else c.has_msg_seq_num;
  }
]

-- One round of the loop of `make_valid_message_view`.
unfoldable pub note : HeaderCache → FieldView → HeaderCache
note c f =
    if f.tag == 35
    then record c { msg_type = some f.value }
    else if f.tag == 49
    then record c { sender_comp_id = some f.value }
    else if f.tag == 56
    then record c { target_comp_id = some f.value }
    else if f.tag == 52
    then record c { sending_time = some f.value }
    else if f.tag == 43
    then record c { poss_dup_flag = some f.value }
    else if f.tag == 122
    then record c { orig_sending_time = some f.value }
    else if f.tag == 112
    then record c { test_req_id = some f.value }
    else if f.tag == 34
    then note_seq_num c f.value
    else c

unfoldable pub cache_from : HeaderCache → List FieldView → HeaderCache
cache_from c [] = c
cache_from c (f ∷ fs) = cache_from (note c f) fs

-- `ValidMessageView`
pub record ValidMessageView : Type 0 where
  pub message : List FieldView
  pub header_cache : HeaderCache

-- `make_valid_message_view`; `make_valid_message` fills its cache by the same cases, over a copy.
unfoldable pub make_valid_message_view : List FieldView → ValidMessageView
make_valid_message_view msg = record { message = msg; header_cache = cache_from empty_cache msg }

-- std::find_if over the tags: the value of the first field with this tag.
unfoldable pub find_field : ℕ → List FieldView → Option Bytes
find_field t [] = none
find_field t (f ∷ fs) = if f.tag == t then some f.value else find_field t fs
