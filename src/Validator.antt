-- ===== src/Validator.antt =====
-- src/Validator.cpp: the test of a message against the schema of its type.
pub mod Result
pub mod TagScratch
pub mod Groups
pub mod Found
pub mod Steps
pub mod Coverage
pub mod Accepted
pub mod Acceptance
pub mod Required
mod Tests
use fix_engine.Prelude.{
  ℕ, zero, suc, ◌+◌, ◌^◌, Bool, true, false, not, ◌||◌, List, [], ◌∷◌, Bytes, Option, none, some,
  ltb, ◌==◌, if◌then◌else◌, length, get_elem?,
}
use fix_engine.Chars.{codes, same}
use fix_engine.Definitions.{SessionParameters}
use fix_engine.Message.{FieldView, ValidMessageView}
use fix_engine.Parser.{whole_number}
use fix_engine.Schema.{
  FieldType, int, string, boolean, float, double, char, group_count, FieldPresence, FieldSchema,
  field, GroupRef, no_group, group, Fields, nil, cons, is_required, tag_of, presence_of,
  validate_type,
}
use fix_engine.Schema.Registry.{MessageSchema, get}
use fix_engine.Schema.Tables.{standard_header, trailer}
use fix_engine.Validator.Result.{ValidatorResult, cleared, push, push_fatal}
use fix_engine.Validator.TagScratch
use fix_engine.Validator.Groups.{parse_int, Check, report, touch, Walk, validate_groups}

-- std::find_if over the tags, from the position given: the position and the value of the first.
unfoldable pub find_if : ℕ → ℕ → List FieldView → Option (ℕ × Bytes)
find_if tag i [] = none
find_if tag i (v ∷ vs) =
    let later = find_if tag (suc i) vs in if v.tag == tag then some (i, v.value) else later

-- A field of the schema that is there: whether the loop goes on, and the check.
unfoldable pub field_found : FieldSchema → List FieldView → ℕ → Bytes → Check → Bool × Check
unfolding parse_int validate_groups
field_found (field tag group_count presence g) msg i value c = elim (parse_int value) [
  | none ↦ (false, report c tag 16)
  | some n ↦ (true, (validate_groups g tag msg n (record { check = c; curr_index = i + 1 })).check)
]
field_found (field tag type presence g) msg i value c =
    if validate_type value type then (true, c) else (false, report c tag 6)

-- One round of the loop of `validate_fields_`.
unfoldable pub check_field : FieldSchema → List FieldView → Check → Bool × Check
unfolding field_found
check_field f msg c = elim (find_if (tag_of f) 0 msg) [
  | none ↦ if is_required (presence_of f) then (false, report c (tag_of f) 1) else (true, c)
  | some (i, value) ↦ field_found f msg i value (touch c i)
]

-- `validate_fields_`
unfoldable pub validate_fields : Fields → List FieldView → Check → Check
unfolding check_field
validate_fields nil msg c = c
validate_fields (cons f fs) msg c =
    let round = check_field f msg c in
    let rest = validate_fields fs msg (round.1) in if round.0 then rest else round.1

abbrev pub report_fatal : Check → Bytes → ℕ → ℕ → Check
report_fatal c info tag code = record c { results = push_fatal c.results info tag code }

-- A slot of the header cache that holds exactly this.
unfoldable pub slot_is : Option Bytes → Bytes → Bool
slot_is none expected = false
slot_is (some v) expected = same v expected

unfoldable pub slot_is_int : Option Bytes → Bool
slot_is_int none = false
slot_is_int (some v) = validate_type v int

-- `validate_header_` behind the first three fields.
unfoldable pub validate_ids : ValidMessageView → SessionParameters → Check → Check
unfolding slot_is slot_is_int validate_fields
validate_ids m params c =
    if not (slot_is_int m.header_cache.msg_seq_num_slot)
    then report_fatal c [] 34 6
    else if not (slot_is m.header_cache.sender_comp_id params.target_comp_id)
    then report_fatal c (codes "Sender CompID mismatch") 49 9
    else if not (slot_is m.header_cache.target_comp_id params.sender_comp_id)
    then report_fatal c (codes "Target CompID mismatch") 56 9
    else validate_fields standard_header m.message c

-- `validate_header_`; the type of its first three fields is fixed by the schema.
unfoldable pub validate_header :
    List FieldView → ValidMessageView → Bytes → SessionParameters → Check → Check
unfolding validate_ids
validate_header (v0 ∷ v1 ∷ v2 ∷ vs) m expected params c =
    if not (validate_type v0.value string) || not (same v0.value (codes "FIX.4.4"))
    then report_fatal c (codes "Unsupported FIX version") 8 99
    else if not (validate_type v1.value int)
    then report c 9 6
    else if not (validate_type v2.value string) || not (same v2.value expected)
    then report c 35 6
    else validate_ids m params c
validate_header short m expected params c = report_fatal c [] 8 1

-- The end of `validate_message`: fields that no schema names.
unfoldable pub flag_extra : ℕ → Check → Check
flag_extra size c = elim (c.results.errors) [
  | [] ↦ if TagScratch.full size c.scratch then c else report c 0 0
  | e ∷ rest ↦ c
]

-- `validate_message` with the type and its schema.
unfoldable pub validate_by : ValidMessageView → SessionParameters → Bytes → Fields → Check → Check
unfolding validate_header validate_fields flag_extra
validate_by m params type body c =
    let c1 = validate_header m.message m type params c in
    let c2 = validate_fields body m.message c1 in
    flag_extra (length m.message) (validate_fields trailer m.message c2)

-- `validate_message`, with the scratch that the message before left.
unfoldable pub validate_message :
    TagScratch.TagScratch → ValidMessageView → SessionParameters → Check
unfolding validate_by
validate_message scratch m params =
    let ready = TagScratch.clear (TagScratch.ensure_bits (length m.message) scratch) in
    let c : Check = record { results = cleared; scratch = ready } in
    elim m.header_cache.msg_type [
      | none ↦ report c 35 1
      | some type ↦ elim (get type) [
        | none ↦ report c 0 11
        | some schema ↦ validate_by m params type (schema.body) c
      ]
    ]
