-- ===== src/Schema.antt =====
-- include/fix/schema/Field.hpp: what a field of a message may hold, and the tests of its value.
pub mod Tables
pub mod Registry
pub mod Lookup
mod Tests
use fix_engine.Prelude.{
  ℕ, Bool, true, false, not, ◌&&◌, ◌||◌, List, [], ◌∷◌, Bytes, ◌==◌, if◌then◌else◌,
}
use fix_engine.Chars.{codes, same, is_digit}

pub data FieldType : Type 0 where
  int string boolean float double char group_count : FieldType

pub data FieldPresence : Type 0 where
  required optional conditional : FieldPresence

mutual
  -- `FieldSchema`: tag, type, presence, and the group that a count announces.
  pub data FieldSchema : Type 0 where
    field : ℕ → FieldType → FieldPresence → GroupRef → FieldSchema

  -- `const GroupSchema*`: null, or the fields of the group. A group whose `fields` is null has none.
  pub data GroupRef : Type 0 where
    no_group : GroupRef
    group : Fields → GroupRef

  pub data Fields : Type 0 where
    nil : Fields
    cons : FieldSchema → Fields → Fields

abbrev pub fields : List FieldSchema → Fields
fields [] = nil
fields (f ∷ fs) = cons f (fields fs)

abbrev pub tag_of : FieldSchema → ℕ
tag_of (field tag type presence g) = tag

abbrev pub presence_of : FieldSchema → FieldPresence
presence_of (field tag type presence g) = presence

abbrev pub is_required : FieldPresence → Bool
is_required required = true
is_required _ = false

unfoldable pub is_boolean_type : Bytes → Bool
is_boolean_type sv = same sv (codes "Y") || same sv (codes "N")

unfoldable pub is_char_type : Bytes → Bool
is_char_type [] = false
is_char_type (c ∷ []) = true
is_char_type (c ∷ d ∷ cs) = false

unfoldable pub all_digits : Bytes → Bool
all_digits [] = true
all_digits (c ∷ cs) = is_digit c && all_digits cs

abbrev is_sign : ℕ → Bool
is_sign c = c == b'+' || c == b'-'

-- The digits behind a sign: there is at least one.
unfoldable pub some_digits : Bytes → Bool
unfolding all_digits
some_digits [] = false
some_digits (c ∷ cs) = all_digits (c ∷ cs)

unfoldable pub is_int_type : Bytes → Bool
unfolding some_digits
is_int_type [] = false
is_int_type (c ∷ cs) = if is_sign c then some_digits cs else some_digits (c ∷ cs)

-- The loop behind the first digit, with whether the dot is behind it.
unfoldable pub double_rest : Bool → Bytes → Bool
double_rest singledot [] = true
double_rest singledot (c ∷ cs) =
    let dotted = double_rest true cs in
    let plain = double_rest singledot cs in
    if c == b'.' && not singledot then dotted else if is_digit c then plain else false

-- A sign alone makes the source look at the byte behind the value: that is the SOH of its field, and
-- no digit.
unfoldable pub double_digits : Bytes → Bool
unfolding double_rest
double_digits [] = false
double_digits (c ∷ cs) = if is_digit c then double_rest false cs else false

unfoldable pub is_double_type : Bytes → Bool
unfolding double_digits
is_double_type [] = false
is_double_type (c ∷ cs) = if is_sign c then double_digits cs else double_digits (c ∷ cs)

-- `Validator::validate_type_`
unfoldable pub validate_type : Bytes → FieldType → Bool
validate_type value group_count = is_int_type value
validate_type value int = is_int_type value
validate_type value string = true
validate_type value boolean = is_boolean_type value
validate_type value float = is_double_type value
validate_type value double = is_double_type value
validate_type value char = is_char_type value
