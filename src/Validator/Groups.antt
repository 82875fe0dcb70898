-- ===== src/Validator/Groups.antt =====
-- src/Validator.cpp, `validate_groups_`: the walk through a repeating group.
use fix_engine.Prelude.{
  ℕ, zero, suc, ◌+◌, ◌^◌, Bool, true, false, not, ◌||◌, List, [], ◌∷◌, Bytes, Option, none, some,
  ltb, ◌==◌, if◌then◌else◌, get_elem?,
}
use fix_engine.Chars.{codes}
use fix_engine.Message.{FieldView}
use fix_engine.Parser.{whole_number}
use fix_engine.Schema.{
  FieldType, group_count, field, GroupRef, no_group, group, Fields, nil, cons, is_required,
  validate_type,
}
use fix_engine.Validator.Result.{ValidatorResult, push}
use fix_engine.Validator.TagScratch

-- `Utils::parse_int`: a number that an `int` holds, with nothing behind it. A sign is read, but only
-- a minus before zeros leaves the number in range.
unfoldable pub parse_int : Bytes → Option ℕ
parse_int [] = none
parse_int (c ∷ cs) =
    let negative : Option ℕ = elim (whole_number (2 ^ 31 + 1) cs) [
      | none ↦ none
      | some n ↦ if n == 0 then some 0 else none
    ] in
    if c == b'-' then negative else whole_number (2 ^ 31) (c ∷ cs)

-- The results and the scratch of the validator.
pub record Check : Type 0 where
  pub results : ValidatorResult
  pub scratch : TagScratch.TagScratch

abbrev pub report : Check → ℕ → ℕ → Check
report c tag code = record c { results = push c.results [] tag code }

abbrev pub touch : Check → ℕ → Check
touch c index = record c { scratch = TagScratch.set index c.scratch }

-- The walk through a group has its place in the message too.
pub record Walk : Type 0 where
  pub check : Check
  pub curr_index : ℕ

abbrev pub complain : Walk → Bytes → ℕ → ℕ → Walk
complain w info tag code = record w {
  check = record (w.check) { results = push w.check.results info tag code };
}

-- A field of the group that is set.
abbrev pub mark : Walk → Walk
mark w = record w { check = touch w.check w.curr_index }

abbrev pub next_field : Walk → Walk
next_field w = record w { curr_index = w.curr_index + 1 }

-- One pass over the fields of a group: either `validate_groups_` returned in it, or the tags with a
-- count above 0 are known.
pub data Round : Type 0 where
  returned : Walk → Round
  passed : List ℕ → Walk → Round

unfoldable pub has_occured : ℕ → List ℕ → Bool
has_occured tag [] = false
has_occured tag (t ∷ ts) = (tag == t) || has_occured tag ts

-- The outer loop of `validate_groups_`, over one round. Every pass starts with the counts at 0.
unfoldable pub repeat_rounds : ℕ → ℕ → (Walk → Round) → Walk → Walk
repeat_rounds tag zero round w = w
repeat_rounds tag (suc n) round w = elim (round w) [
  | returned w1 ↦ w1
  | passed [] w1 ↦ complain w1 [] tag 16
  | passed (t ∷ ts) w1 ↦ repeat_rounds tag n round w1
]

unfoldable pub count_fields : Fields → ℕ
count_fields nil = 0
count_fields (cons f fs) = suc (count_fields fs)

abbrev is_group : FieldType → Bool
is_group group_count = true
is_group _ = false

-- A field of the group that is there, with what follows: the walk through the group that it counts,
-- which starts behind the count, and the rest of the pass.
unfoldable pub group_field :
    ℕ → FieldType → Bytes → (ℕ → Walk → Walk) → (Walk → Round) → Walk → Round
unfolding parse_int
group_field tag group_count value nested rest w = elim (parse_int value) [
  | none ↦ returned (complain (next_field w) [] tag 6)
  | some n ↦ rest (next_field (nested n (next_field w)))
]
group_field tag type value nested rest w =
    if validate_type value type then rest (next_field w) else returned (complain w [] tag 6)

-- The limits of `validate_groups_` on what it is given.
unfoldable pub guarded : Fields → ℕ → ℕ → (Walk → Round) → Walk → Walk
guarded fs tag zero round w = w
guarded nil tag (suc n) round w = complain w (codes "Missing group schema entry") tag 99
guarded (cons f fs) tag (suc n) round w =
    if ltb 32 (count_fields (cons f fs))
    then complain w (codes "Unsupported group size") tag 99
    else repeat_rounds tag (suc n) round w

unfoldable mutual
  -- `validate_groups_`: the group of the field with this tag, the message, the count.
  pub validate_groups : GroupRef → ℕ → List FieldView → ℕ → Walk → Walk
  validate_groups no_group tag msg zero w = w
  validate_groups no_group tag msg (suc n) w = complain w (codes "Missing group schema") tag 99
  validate_groups (group fs) tag msg n w = guarded fs tag n (λ w1. group_round fs msg [] w1) w

  -- The inner loop, from a field of the group on, with the tags counted so far.
  pub group_round : Fields → List FieldView → List ℕ → Walk → Round
  group_round nil msg count w = passed count w
  group_round (cons (field tag type presence g) fs) msg count w =
      elim (get_elem? msg w.curr_index) [
        | none ↦ returned (complain w [] tag 16)
        | some v ↦
            if not (v.tag == tag)
            then (if is_required presence
                then returned (complain w [] tag 1)
                else group_round fs msg count w)
            else if has_occured tag count
            then passed count w
            else group_field tag type v.value (λ n w1. validate_groups g tag msg n w1)
                (λ w1. group_round fs msg (tag ∷ count) w1) (mark w)
      ]
