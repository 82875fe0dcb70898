-- ===== src/MessageFactory/WellFormed.antt =====
-- What the factory sends is a FIX message: BeginString, BodyLength, the body, CheckSum, the length
-- that of the body and the checksum that of all bytes before its field.
use fix_engine.Prelude.{
  ℕ, ◌^◌, ◌≤◌, ◌<◌, ◌≡◌, refl, ◌∙◌, ap, subst, Bool, List, [], ◌∷◌, ◌++◌, Bytes, arith, length,
}
use fix_engine.Prelude.Memory.{read, read_none}
use fix_engine.Chars.{codes, to_chars_int64}
use fix_engine.Chars.Decimal.{length-to_chars}
use fix_engine.Definitions.{SessionParameters, next_out, now_fix}
use fix_engine.FactoryScratch.{
  FactoryScratch, reset, add_field, add_body_length_placeholder, insert_body_length,
  get_buffer_view,
}
use fix_engine.FactoryScratch.View.{
  view, field, Adds, Adds-trans, Adds-refl, add_field-Adds, add_field_int-Adds,
}
use fix_engine.FactoryScratch.Trailer.{
  Open, Adds-Open, placeholder-Open, with_length, insert_body_length_lem, insert_checksum_lem,
  checksum_field, position_lem,
}
use fix_engine.MessageFactory.{
  Factory, GenericField, header, stamp_header, stamp_trailer, build, yes_no, as_int, logon,
  add_optional, heart_beat, resend_request, sequence_reset_gap_fill, add_fields, from_app,
}

-- The bytes in front of the length.
abbrev pub preamble : SessionParameters → Bytes
preamble params = field 8 params.fix_version ++ codes "9="

-- The fields that every message has behind its length.
abbrev pub header_fields : SessionParameters → Bytes → ℕ → Bytes
header_fields params type seq =
    field 35 type
    ++ (field 34 (to_chars_int64 seq)
        ++ (field 49 params.sender_comp_id ++ (field 56 params.target_comp_id ++ field 52 now_fix)))

-- A message with this body.
abbrev pub message : SessionParameters → Bytes → Bytes
message params body =
    with_length (preamble params) body ++ checksum_field (with_length (preamble params) body)

-- Short enough for the ten digits of the placeholder and the offsets of the buffer.
abbrev pub Fits : SessionParameters → Bytes → Type 0
Fits params body = (length body < 10 ^ 10) × (length (preamble params) < 2 ^ 63)

reset_start : (s : FactoryScratch) → (view (reset s) ≡ []) × ((reset s).body_length_digit_size ≡ 10)
unfolding reset get_buffer_view
reset_start s = (view_zero (reset s) refl, refl)
  where
    view_zero : (t : FactoryScratch) → t.position ≡ 0 → view t ≡ []
    view_zero t e = ap (read t.buffer 0) e ∙ read_none t.buffer 0

header-Open :
    (params : SessionParameters) (s : FactoryScratch) (type : Bytes) (seq : ℕ)
    → Open (header params (reset s) type seq) (preamble params) (header_fields params type seq)
unfolding header
header-Open params s type seq =
    let a = add_field-Adds (reset s) 8 params.fix_version in
    let (empty, ten) = reset_start s in
    let o = placeholder-Open (add_field (reset s) 8 params.fix_version) (a.digits ∙ ten) in
    let start : view (add_field (reset s) 8 params.fix_version) ≡ field 8 params.fix_version =
      a.seen ∙ ap (λ v. v ++ field 8 params.fix_version) empty in
    let fields = Adds-trans (add_field-Adds _ 35 type) (
      Adds-trans (add_field_int-Adds _ 34 seq) (
        Adds-trans (add_field-Adds _ 49 params.sender_comp_id) (
          Adds-trans (add_field-Adds _ 56 params.target_comp_id) (add_field-Adds _ 52 now_fix)))) in
    Adds-Open
      (subst
        (λ v.
          Open (add_body_length_placeholder (add_field (reset s) 8 params.fix_version))
            (v ++ codes "9=") [])
        start o)
      fields

-- The trailer closes an open message.
finish :
    (params : SessionParameters) (s : FactoryScratch) (body : Bytes)
    → Open s (preamble params) body
    → Fits params body
    → get_buffer_view (stamp_trailer s) ≡ message params body
unfolding stamp_trailer
finish params s body o f =
    let short : s.position < 2 ^ 64 =
      omega (arith, f.0, f.1, position_lem s (preamble params) body o) in
    let (seen, _) =
      insert_body_length_lem s (preamble params) body o short
        (length-to_chars 9 (length body) f.0) in
    insert_checksum_lem (insert_body_length s) ∙ ap (λ v. v ++ checksum_field v) seen

-- `build` in terms of what its fields add.
build_lem :
    (params : SessionParameters) (f : Factory) (type : Bytes)
    (fields : FactoryScratch → FactoryScratch) (extra : Bytes)
    → ((s : FactoryScratch) → s.position ≤ s.buffer_size → Adds s (fields s) extra)
    → Fits params (header_fields params type (next_out f.seq_provider) ++ extra)
    → (build params f type fields).0
      ≡ message params (header_fields params type (next_out f.seq_provider) ++ extra)
unfolding build stamp_header
build_lem params f type fields extra adds fits =
    let o = header-Open params f.scratch type (next_out f.seq_provider) in
    let h = header params (reset f.scratch) type (next_out f.seq_provider) in
    finish params (fields h) _ (Adds-Open o (adds h o.inside)) fits

-- The field, or nothing for an empty value.
abbrev pub optional_field : ℕ → Bytes → Bytes
optional_field tag [] = []
optional_field tag (c ∷ cs) = field tag (c ∷ cs)

add_optional-Adds :
    (s : FactoryScratch) (tag : ℕ) (value : Bytes)
    → s.position ≤ s.buffer_size
    → Adds s (add_optional s tag value) (optional_field tag value)
unfolding add_optional
add_optional-Adds s tag [] h = Adds-refl s h
add_optional-Adds s tag (c ∷ cs) h = add_field-Adds s tag (c ∷ cs)

-- The fields of an application message.
abbrev pub app_fields : List GenericField → Bytes
app_fields [] = []
app_fields (x ∷ xs) = field x.tag x.value ++ app_fields xs

add_fields-Adds :
    (xs : List GenericField) (s : FactoryScratch)
    → s.position ≤ s.buffer_size
    → Adds s (add_fields xs s) (app_fields xs)
unfolding add_fields
add_fields-Adds [] s h = Adds-refl s h
add_fields-Adds (x ∷ xs) s h =
    let a = add_field-Adds s x.tag x.value in Adds-trans a (add_fields-Adds xs _ a.inside)

-- The wire of a message of this type with these fields behind its header.
abbrev pub wire_of : SessionParameters → Factory → Bytes → Bytes → Bytes
wire_of params f type extra =
    message params (header_fields params type (next_out f.seq_provider) ++ extra)

abbrev pub FitsWith : SessionParameters → Factory → Bytes → Bytes → Type 0
FitsWith params f type extra =
    Fits params (header_fields params type (next_out f.seq_provider) ++ extra)

abbrev pub logon_fields : SessionParameters → ℕ → Bool → Bytes
logon_fields params heartbeat echo =
    field 98 (to_chars_int64 params.encrypt_method)
    ++ (field 141 (yes_no echo) ++ field 108 (to_chars_int64 (as_int heartbeat)))

-- `logon` builds a message of type A with the header, the encryption method, the reset flag and the
-- heartbeat interval, in this order, its BodyLength and CheckSum those of the bytes they cover. The body
-- has fewer than 10^10 bytes.
pub logon_lem :
    (params : SessionParameters) (f : Factory) (heartbeat : ℕ) (echo : Bool)
    → FitsWith params f (codes "A") (logon_fields params heartbeat echo)
    → (logon params f heartbeat echo).0
      ≡ wire_of params f (codes "A") (logon_fields params heartbeat echo)
unfolding logon
logon_lem params f heartbeat echo = build_lem params f (codes "A") _ _ λ s _.
    Adds-trans (add_field_int-Adds s 98 params.encrypt_method) (
      Adds-trans (add_field-Adds _ 141 (yes_no echo)) (add_field_int-Adds _ 108 (as_int heartbeat)))

-- `heart_beat` builds a message of type 0, with the TestReqID if there is one, its BodyLength and
-- CheckSum those of the bytes they cover. The body has fewer than 10^10 bytes.
pub heart_beat_lem :
    (params : SessionParameters) (f : Factory) (id : Bytes)
    → FitsWith params f (codes "0") (optional_field 112 id)
    → (heart_beat params f id).0 ≡ wire_of params f (codes "0") (optional_field 112 id)
unfolding heart_beat
heart_beat_lem params f id = build_lem params f (codes "0") _ _ λ s h. add_optional-Adds s 112 id h

-- `resend_request` builds a message of type 2 for the range given, its BodyLength and CheckSum those
-- of the bytes they cover. The body has fewer than 10^10 bytes.
pub resend_request_lem :
    (params : SessionParameters) (f : Factory) (from to : ℕ)
    → FitsWith params f (codes "2") (field 7 (to_chars_int64 from) ++ field 16 (to_chars_int64 to))
    → (resend_request params f from to).0
      ≡ wire_of params f (codes "2") (field 7 (to_chars_int64 from) ++ field 16 (to_chars_int64 to))
unfolding resend_request
resend_request_lem params f from to =
    build_lem params f (codes "2") _ _
      λ s _. Adds-trans (add_field_int-Adds s 7 from) (add_field_int-Adds _ 16 to)

-- `from_app` builds a message of the type given with the application's fields in their order, its
-- BodyLength and CheckSum those of the bytes they cover. The body has fewer than 10^10 bytes.
pub from_app_lem :
    (params : SessionParameters) (f : Factory) (msg : List GenericField) (type : Bytes)
    → FitsWith params f type (app_fields msg)
    → (from_app params f msg type).0 ≡ wire_of params f type (app_fields msg)
unfolding from_app
from_app_lem params f msg type = build_lem params f type _ _ (add_fields-Adds msg)

-- The fields of a gap fill in a resend.
abbrev pub gap_fill_fields : ℕ → Bytes
gap_fill_fields new_seq_no =
    field 123 (codes "Y")
    ++ (field 36 (to_chars_int64 new_seq_no) ++ (field 43 (codes "Y") ++ field 122 now_fix))

-- A gap fill is a message of type 4 under the number given, marked as a duplicate, its BodyLength and
-- CheckSum those of the bytes they cover; the factory's own numbers stay. The body has fewer than
-- 10^10 bytes.
pub sequence_reset_gap_fill_lem :
    (params : SessionParameters) (f : Factory) (seq new_seq_no : ℕ)
    → Fits params (header_fields params (codes "4") seq ++ gap_fill_fields new_seq_no)
    → ((sequence_reset_gap_fill params f seq new_seq_no).0
        ≡ message params (header_fields params (codes "4") seq ++ gap_fill_fields new_seq_no))
      × ((sequence_reset_gap_fill params f seq new_seq_no).1.seq_provider ≡ f.seq_provider)
unfolding sequence_reset_gap_fill
sequence_reset_gap_fill_lem params f seq new_seq_no fits =
    let o = header-Open params f.scratch (codes "4") seq in
    let fields = Adds-trans (add_field-Adds _ 123 (codes "Y")) (
      Adds-trans (add_field_int-Adds _ 36 new_seq_no)
        (Adds-trans (add_field-Adds _ 43 (codes "Y")) (add_field-Adds _ 122 now_fix))) in
    (finish params _ _ (Adds-Open o fields) fits, refl)
