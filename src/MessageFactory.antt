-- ===== src/MessageFactory.antt =====
-- `MessageFactory` of include/fix/core/MessageFactory.hpp over the clock of the engine: the messages
-- that a session sends. Each function returns the wire, the scratch buffer and the sequence numbers,
-- which the factory shares with its session.
pub mod WellFormed
pub mod Parsed
mod Tests
use fix_engine.Prelude.{
  ℕ, ◌+◌, ◌-◌, ◌%◌, ◌^◌, Bool, true, false, List, [], ◌∷◌, Bytes, Option, none, some, ltb, ◌==◌,
  if◌then◌else◌, length, ◌>>=◌, ◌>>◌, take, drop,
}
use fix_engine.Chars.{codes, soh, find, find_str, rfind_str, substr}
use fix_engine.Definitions.{SessionParameters, SeqProvider, next_out, update_out, now_fix}
use fix_engine.FactoryScratch.{
  FactoryScratch, reset, add_field, add_field_int, add_body_length_placeholder, insert_body_length,
  insert_checksum, get_buffer_view, edit_window, add_string,
}
use fix_engine.MessageStore.{MsgIndex}

pub record Factory : Type 0 where
  pub scratch : FactoryScratch
  pub seq_provider : SeqProvider

-- `GenericField`
pub record GenericField : Type 0 where
  pub value : Bytes
  pub tag : ℕ

-- `stamp_header_` with the number it stamps, and without the step of the numbers; the header of
-- `sequence_reset_gap_fill` is the same with another number.
unfoldable pub header : SessionParameters → FactoryScratch → Bytes → ℕ → FactoryScratch
header params s type seq =
    let s1 = add_body_length_placeholder (add_field s 8 params.fix_version) in
    let s2 = add_field_int (add_field s1 35 type) 34 seq in
    let s3 = add_field (add_field s2 49 params.sender_comp_id) 56 params.target_comp_id in
    add_field s3 52 now_fix

-- `stamp_header_`: the number is stepped as a `size_t`.
unfoldable pub stamp_header : SessionParameters → Factory → Bytes → Factory
stamp_header params f type = record {
  scratch = header params f.scratch type (next_out f.seq_provider);
  seq_provider = update_out f.seq_provider ((next_out f.seq_provider + 1) % 2 ^ 64);
}

unfoldable pub stamp_trailer : FactoryScratch → FactoryScratch
stamp_trailer s = insert_checksum (insert_body_length s)

-- The shape of the functions below: reset, header, fields, trailer, and the view of the buffer.
unfoldable pub build :
    SessionParameters → Factory → Bytes → (FactoryScratch → FactoryScratch) → Bytes × Factory
build params f type fields =
    let f1 = stamp_header params (record f { scratch = reset f.scratch }) type in
    let s = stamp_trailer (fields f1.scratch) in (get_buffer_view s, record f1 { scratch = s })

abbrev pub yes_no : Bool → Bytes
yes_no b = if b then codes "Y" else codes "N"

-- The 64 bits of the `int` that a `uint32_t` is passed as.
abbrev pub as_int : ℕ → ℕ
as_int v = if ltb v (2 ^ 31) then v else v + 2 ^ 64 - 2 ^ 32

unfoldable pub logon : SessionParameters → Factory → ℕ → Bool → Bytes × Factory
logon params f heartbeat_override echo_reset = build params f (codes "A") λ s.
    let s1 = add_field_int s 98 params.encrypt_method in
    add_field_int (add_field s1 141 (yes_no echo_reset)) 108 (as_int heartbeat_override)

-- A field that is left out where its value is empty.
unfoldable pub add_optional : FactoryScratch → ℕ → Bytes → FactoryScratch
add_optional s tag [] = s
add_optional s tag (c ∷ cs) = add_field s tag (c ∷ cs)

unfoldable pub heart_beat : SessionParameters → Factory → Bytes → Bytes × Factory
heart_beat params f test_req_id = build params f (codes "0") λ s. add_optional s 112 test_req_id

unfoldable pub test_request : SessionParameters → Factory → Bytes → Bytes × Factory
test_request params f id = build params f (codes "1") λ s. add_field s 112 id

unfoldable pub resend_request : SessionParameters → Factory → ℕ → ℕ → Bytes × Factory
resend_request params f begin_seq_no end_seq_no =
    build params f (codes "2") λ s. add_field_int (add_field_int s 7 begin_seq_no) 16 end_seq_no

unfoldable pub sequence_reset : SessionParameters → Factory → ℕ → Bool → Bytes × Factory
sequence_reset params f new_seq_no gapfill =
    build params f (codes "4")
      λ s. add_field_int (if gapfill then add_field s 123 (codes "Y") else s) 36 new_seq_no

-- The header carries the number given, and the factory's own number is not stepped.
unfoldable pub sequence_reset_gap_fill : SessionParameters → Factory → ℕ → ℕ → Bytes × Factory
sequence_reset_gap_fill params f msg_seq_num new_seq_no =
    let s1 = header params (reset f.scratch) (codes "4") msg_seq_num in
    let s2 = add_field_int (add_field s1 123 (codes "Y")) 36 new_seq_no in
    let s = stamp_trailer (add_field (add_field s2 43 (codes "Y")) 122 now_fix) in
    (get_buffer_view s, record f { scratch = s })

unfoldable pub logout : SessionParameters → Factory → Bytes → Bytes × Factory
logout params f text = build params f (codes "5") λ s. add_optional s 58 text

unfoldable pub reject : SessionParameters → Factory → ℕ → ℕ → ℕ → Bytes → Bytes × Factory
reject params f ref_seq_num reason tag text = build params f (codes "3") λ s.
    let s1 = add_field_int s 45 ref_seq_num in
    let s2 = if tag == 0 then s1 else add_field_int s1 371 tag in
    add_optional (add_field_int s2 373 reason) 58 text

-- `Message::Custom::MsgType`
abbrev pub custom_type : Bytes
custom_type = codes "cu"

unfoldable pub custom_message : SessionParameters → Factory → Bytes → Bytes × Factory
custom_message params f payload = build params f custom_type λ s. add_field s 9250 payload

unfoldable pub add_fields : List GenericField → FactoryScratch → FactoryScratch
add_fields [] s = s
add_fields (x ∷ xs) s = add_fields xs (add_field s x.tag x.value)

unfoldable pub from_app : SessionParameters → Factory → List GenericField → Bytes → Bytes × Factory
from_app params f msg msg_type = build params f msg_type (add_fields msg)

-- `get_msg_body_offset`; `none` where a search fails
unfoldable pub get_msg_body_offset : Bytes → Option ℕ
get_msg_body_offset wire = do
  nine ← find_str (codes "9=") wire 0
  at ← find soh wire nine
  some (at + 1)

unfoldable pub get_msg_body : Bytes → Option Bytes
get_msg_body wire = do
  begin ← get_msg_body_offset wire
  end ← rfind_str (codes "10=") wire
  some (substr wire begin ((end + 2 ^ 64 - begin) % 2 ^ 64))

-- A field of the message, replaced in place where the index has it and added where it has not.
unfoldable pub patch : FactoryScratch → ℕ → Option ℕ → ℕ → (ℕ → ℕ) → Bytes → Option FactoryScratch
patch s tag none len place value = some (add_field s tag value)
patch s tag (some off) len place value = edit_window s (place off) len value

unfoldable pub regenerate_message :
    SessionParameters → Factory → Bytes → MsgIndex → Option (Bytes × Factory)
regenerate_message params f original_wire index =
    let s1 = add_body_length_placeholder (add_field (reset f.scratch) 8 params.fix_version) in
    do
      body ← get_msg_body original_wire
      body_offset ← get_msg_body_offset original_wire
      off_52 ← index.off_52
      let place = λ (off : ℕ). (s1.position + off + 2 ^ 64 - body_offset) % 2 ^ 64
      let sent = substr original_wire off_52 index.len_52
      s3 ← patch (add_string s1 body) 43 index.off_43 index.len_43 place (codes "Y")
      s4 ← patch s3 122 index.off_122 index.len_122 place sent
      s5 ← edit_window s4 (place off_52) index.len_52 now_fix
      let s6 = stamp_trailer s5
      some (get_buffer_view s6, record f { scratch = s6 })
