-- ===== src/Validator/Steps.antt =====
-- What the validator's walks do to its state, as a relation: they report errors and set the bits of
-- fields whose tags the schema names.
use fix_engine.Prelude.{
  ℕ, zero, suc, ◌≡◌, sym, subst, Bool, true, false, not, List, [], ◌∷◌, Bytes, Option, none, some,
  if◌then◌else◌, ltb, ◌==◌, ==_iff, get_elem?,
}
use fix_engine.Message.{FieldView}
use fix_engine.Schema.{
  FieldType, group_count, FieldSchema, field, GroupRef, no_group, group, Fields, nil, cons,
  is_required, validate_type,
}
use fix_engine.Validator.Result.{push, push_fatal}
use fix_engine.Validator.Groups.{
  parse_int, Check, report, touch, Walk, complain, mark, next_field, Round, returned, passed,
  has_occured, repeat_rounds, group_field, guarded, validate_groups, group_round, count_fields,
}
use fix_engine.Validator.{find_if, field_found, check_field, validate_fields}
use fix_engine.Validator.Found.{Answer, find_if_lem}
use fix_engine.Prelude.{if_either, option_either, not-false}

module _ (msg : List FieldView) (Known : ℕ → Type 0) where
  pub data Steps (c : Check) : Check → Type 0 where
    stay : Steps c c
    reported :
        {d : Check} (info : Bytes) (tag code : ℕ)
        → Steps c d
        → Steps c (record d { results = push d.results info tag code })
    reported_fatal :
        {d : Check} (info : Bytes) (tag code : ℕ)
        → Steps c d
        → Steps c (record d { results = push_fatal d.results info tag code })
    touched :
        {d : Check} (i : ℕ) (v : FieldView)
        → get_elem? msg i ≡ some v
        → Known v.tag
        → Steps c d
        → Steps c (touch d i)

  pub Steps-trans : {c d e : Check} → Steps c d → Steps d e → Steps c e
  Steps-trans s stay = s
  Steps-trans s (reported info tag code t) = reported info tag code (Steps-trans s t)
  Steps-trans s (reported_fatal info tag code t) = reported_fatal info tag code (Steps-trans s t)
  Steps-trans s (touched i v e k t) = touched i v e k (Steps-trans s t)

  unfoldable mutual
    -- Every tag of the schema, the groups' included, is known.
    pub AllKnown : Fields → Type 0
    AllKnown nil = Unit {0}
    AllKnown (cons (field tag type presence g) fs) = Known tag × (GroupKnown g × AllKnown fs)

    pub GroupKnown : GroupRef → Type 0
    GroupKnown no_group = Unit {0}
    GroupKnown (group fs) = AllKnown fs

  abbrev walk_of : Round → Walk
  walk_of (returned w) = w
  walk_of (passed count w) = w

  abbrev Follows : Check → Walk → Type 0
  Follows c w = Steps c w.check

  abbrev Ends : Check → Round → Type 0
  Ends c r = Steps c (walk_of r).check

  repeat_rounds_lem :
      (tag n : ℕ) (round : Walk → Round)
      → ((w : Walk) → Ends w.check (round w))
      → (w : Walk) → Follows w.check (repeat_rounds tag n round w)
  unfolding repeat_rounds
  repeat_rounds_lem tag zero round q w = stay
  repeat_rounds_lem tag (suc n) round q w =
      after (λ w1. repeat_rounds_lem tag n round q w1) (round w) (q w)
    where
      after :
          ((w1 : Walk) → Follows w1.check (repeat_rounds tag n round w1))
          → (r : Round) → Ends w.check r
          → Follows w.check (elim r as (λ _. Walk) [
            | returned w1 ↦ w1
            | passed [] w1 ↦ complain w1 [] tag 16
            | passed (t ∷ ts) w1 ↦ repeat_rounds tag n round w1
          ])
      after more (returned w1) s = s
      after more (passed [] w1) s = reported [] tag 16 s
      after more (passed (t ∷ ts) w1) s = Steps-trans s (more w1)

  guarded_lem :
      (fs : Fields) (tag n : ℕ) (round : Walk → Round)
      → ((w : Walk) → Ends w.check (round w))
      → (w : Walk) → Follows w.check (guarded fs tag n round w)
  unfolding guarded
  guarded_lem fs tag zero round q w = stay
  guarded_lem nil tag (suc n) round q w = reported _ tag 99 stay
  guarded_lem (cons f fs) tag (suc n) round q w =
      if_either (Follows w.check) (ltb 32 (count_fields (cons f fs))) _ _
        (λ _. reported _ tag 99 stay) λ _. repeat_rounds_lem tag (suc n) round q w

  group_field_lem :
      (c : Check) (tag : ℕ) (type : FieldType) (value : Bytes) (nested : ℕ → Walk → Walk)
      (rest : Walk → Round) (w : Walk)
      → Steps c w.check
      → ((n : ℕ) (w1 : Walk) → Follows w1.check (nested n w1))
      → ((w1 : Walk) → Ends w1.check (rest w1))
      → Ends c (group_field tag type value nested rest w)
  unfolding group_field
  group_field_lem c tag group_count value nested rest w s q r =
      option_either (Ends c) (parse_int value) _ _ (λ _. reported [] tag 6 s)
        λ n _.
          Steps-trans (Steps-trans s (q n (next_field w)))
            (r (next_field (nested n (next_field w))))
  group_field_lem c tag type value nested rest w s q r =
      if_either (Ends c) (validate_type value type) _ _ (λ _. Steps-trans s (r (next_field w)))
        λ _. reported [] tag 6 s

  mutual
    unfolding validate_groups group_round AllKnown

    pub validate_groups_lem :
        (g : GroupRef) (tag n : ℕ) (w : Walk)
        → GroupKnown g
        → Follows w.check (validate_groups g tag msg n w)
    validate_groups_lem no_group tag zero w k = stay
    validate_groups_lem no_group tag (suc n) w k = reported _ tag 99 stay
    validate_groups_lem (group fs) tag n w k =
        guarded_lem fs tag n _ (λ w1. group_round_lem fs [] w1 k) w

    group_round_lem :
        (fs : Fields) (count : List ℕ) (w : Walk)
        → AllKnown fs
        → Ends w.check (group_round fs msg count w)
    group_round_lem nil count w k = stay
    group_round_lem (cons (field tag type presence g) fs) count w k =
        option_either (Ends w.check) (get_elem? msg w.curr_index) _ _ (λ _. reported [] tag 16 stay)
          λ v e.
            if_either (Ends w.check) (not (v.tag == tag)) _ _
              (λ _.
                if_either (Ends w.check) (is_required presence) _ _ (λ _. reported [] tag 1 stay)
                  λ _. group_round_lem fs count w k.1.1)
              λ same_tag.
                if_either (Ends w.check) (has_occured tag count) _ _ (λ _. stay)
                  λ _.
                    group_field_lem w.check tag type v.value _ _ (mark w)
                      (touched w.curr_index v e
                        (subst Known
                          (sym ((==_iff v.tag tag).0 (not-false (v.tag == tag) same_tag))) k.0)
                        stay)
                      (λ n w1. validate_groups_lem g tag n w1 k.1.0)
                      λ w1. group_round_lem fs (tag ∷ count) w1 k.1.1

  field_found_lem :
      (f : FieldSchema) (i : ℕ) (value : Bytes) (c d : Check)
      → AllKnown (cons f nil)
      → Steps c d
      → Steps c (field_found f msg i value d).1
  unfolding field_found AllKnown
  field_found_lem (field tag group_count presence g) i value c d k s =
      option_either (λ (r : Bool × Check). Steps c r.1) (parse_int value) _ _
        (λ _. reported [] tag 16 s) λ n _. Steps-trans s (validate_groups_lem g tag n _ k.1.0)
  field_found_lem (field tag type presence g) i value c d k s =
      if_either (λ (r : Bool × Check). Steps c r.1) (validate_type value type) _ _ (λ _. s)
        λ _. reported [] tag 6 s

  check_field_lem :
      (f : FieldSchema) (c : Check) → AllKnown (cons f nil) → Steps c (check_field f msg c).1
  unfolding check_field AllKnown Answer
  check_field_lem (field tag type presence g) c k =
      by_answer (find_if tag 0 msg) (find_if_lem tag msg)
    where
      by_answer :
          (o : Option (ℕ × Bytes))
          → Answer tag msg o
          → Steps c
              (elim o as (λ _. Bool × Check) [
                | none ↦ if is_required presence then (false, report c tag 1) else (true, c)
                | some (i, value) ↦ field_found (field tag type presence g) msg i value (touch c i)
              ]).1
      by_answer none a =
          if_either (λ (r : Bool × Check). Steps c r.1) (is_required presence) _ _
            (λ _. reported [] tag 1 stay) λ _. stay
      by_answer (some (i, value)) (_, found) =
          field_found_lem (field tag type presence g) i value c (touch c i) k
            (touched i found.view found.there (subst Known (sym found.tag_eq) k.0) stay)

  pub validate_fields_lem :
      (fs : Fields) (c : Check) → AllKnown fs → Steps c (validate_fields fs msg c)
  unfolding validate_fields AllKnown
  validate_fields_lem nil c k = stay
  validate_fields_lem (cons (field tag type presence g) fs) c k =
      let first = check_field_lem (field tag type presence g) c (k.0, (k.1.0, tt)) in
      if_either (Steps c) (check_field (field tag type presence g) msg c).0 _ _
        (λ _. Steps-trans first (validate_fields_lem fs _ k.1.1)) λ _. first
