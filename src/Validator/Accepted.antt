-- ===== src/Validator/Accepted.antt =====
-- What a message has that the validator accepts: what src/Validator.cpp tests, as a predicate.
use fix_engine.Prelude.{
  ℕ, ◌≡◌, refl, sym, ap, subst, Bool, true, false, not, List, [], ◌∷◌, ◌++◌, Bytes, Option, none,
  some, if◌then◌else◌, ◌⊎◌, inl, inr, arith,
}
use fix_engine.Chars.Search.{same_lem}
use fix_engine.Definitions.{SessionParameters}
use fix_engine.Message.{FieldView, ValidMessageView, find_field}
use fix_engine.Schema.{
  group_count, FieldSchema, field, GroupRef, no_group, group, Fields, nil, cons, is_required,
  tag_of, presence_of, validate_type,
}
use fix_engine.Schema.Tables.{standard_header}
use fix_engine.Validator.Result.{push, push_fatal}
use fix_engine.Validator.Groups.{parse_int, Check, report, touch}
use fix_engine.Validator.Found.{Answer, find_if_lem}
use fix_engine.Prelude.{if_either, option_either, not-false}
use fix_engine.Validator.Steps.{
  Steps, stay, reported, reported_fatal, touched, AllKnown, GroupKnown, validate_fields_lem,
}
use fix_engine.Validator.{
  find_if, field_found, check_field, validate_fields, slot_is, slot_is_int, validate_ids,
  report_fatal,
}

has_head : {A : Type 0} → List A → Bool
has_head [] = false
has_head (x ∷ xs) = true

pub cons-not_nil : {A : Type 0} {x : A} {xs : List A} → ¬ (x ∷ xs) ≡ []
unfolding has_head
cons-not_nil e = ground (arith, ap has_head e)

unfoldable mutual
  -- Is the tag in the schema, or in one of its groups?
  pub Names : Fields → ℕ → Type 0
  Names nil t = ⊥
  Names (cons (field tag type presence g) fs) t = (t ≡ tag) ⊎ (GroupNames g t ⊎ Names fs t)

  pub GroupNames : GroupRef → ℕ → Type 0
  GroupNames no_group t = ⊥
  GroupNames (group fs) t = Names fs t

unfoldable pub NoErrors : Check → Type 0
NoErrors c = c.results.errors ≡ []

-- A value that the field may have: of its type, and a count is a number.
unfoldable pub HasFormat : FieldSchema → Bytes → Type 0
HasFormat (field tag group_count presence g) value = (n : ℕ) × (parse_int value ≡ some n)
HasFormat (field tag type presence g) value = validate_type value type ≡ true

-- A field that is there has its format, and a required one is there.
unfoldable pub MeetsValue : FieldSchema → Option Bytes → Type 0
MeetsValue f none = is_required (presence_of f) ≡ false
MeetsValue f (some value) = HasFormat f value

unfoldable pub Meets : FieldSchema → List FieldView → Type 0
unfolding MeetsValue
Meets f msg = MeetsValue f (find_field (tag_of f) msg)

unfoldable pub MeetsAll : Fields → List FieldView → Type 0
unfolding Meets
MeetsAll nil msg = Unit {0}
MeetsAll (cons f fs) msg = Meets f msg × MeetsAll fs msg

mutual
  unfolding Names AllKnown

  pub AllKnown-Names :
      (msg : List FieldView) (Known : ℕ → Type 0) (fs : Fields)
      → ((t : ℕ) → Names fs t → Known t)
      → AllKnown msg Known fs
  AllKnown-Names msg Known nil k = tt
  AllKnown-Names msg Known (cons (field tag type presence g) fs) k = (
    k tag (inl refl),
    (
      GroupKnown-Names msg Known g (λ t h. k t (inr (inl h))),
      AllKnown-Names msg Known fs λ t h. k t (inr (inr h)),
    ),
  )

  GroupKnown-Names :
      (msg : List FieldView) (Known : ℕ → Type 0) (g : GroupRef)
      → ((t : ℕ) → GroupNames g t → Known t)
      → GroupKnown msg Known g
  GroupKnown-Names msg Known no_group k = tt
  GroupKnown-Names msg Known (group fs) k = AllKnown-Names msg Known fs k

append-not_empty : {A : Type 0} (xs : List A) (x : A) → ¬ (xs ++ x ∷ []) ≡ []
append-not_empty [] x e = cons-not_nil e
append-not_empty (y ∷ ys) x e = cons-not_nil e

module _ {msg : List FieldView} {Known : ℕ → Type 0} where
  -- An error that is reported stays.
  pub NoErrors-Steps : {c d : Check} → Steps msg Known c d → NoErrors d → NoErrors c
  unfolding NoErrors push push_fatal
  NoErrors-Steps stay h = h
  NoErrors-Steps (reported {d} info tag code s) h = absurd (append-not_empty d.results.errors _ h)
  NoErrors-Steps (reported_fatal {d} info tag code s) h =
      absurd (append-not_empty d.results.errors _ h)
  NoErrors-Steps (touched i v e k s) h = NoErrors-Steps s h

abbrev pub reported_any : Check → Bytes → ℕ → ℕ → Check
reported_any c info tag code = record c { results = push c.results info tag code }

-- There is an error after one is reported.
pub report_lem :
    (c : Check) (info : Bytes) (tag code : ℕ) → ¬ NoErrors (reported_any c info tag code)
unfolding NoErrors push
report_lem c info tag code h = append-not_empty c.results.errors _ h

-- The schema says nothing of tags here.
anything : (msg : List FieldView) (fs : Fields) → AllKnown msg (λ _. Unit {0}) fs
anything msg fs = AllKnown-Names msg (λ _. Unit {0}) fs λ _ _. tt

-- A round without errors lets the loop go on, and the field is as it should be.
Passes : (Check → Type 0) → Bool × Check → Type 0
Passes P r = NoErrors r.1 → (r.0 ≡ true) × P r.1

field_found_lem :
    (f : FieldSchema) (msg : List FieldView) (i : ℕ) (value : Bytes) (c : Check)
    → Passes (λ _. HasFormat f value) (field_found f msg i value c)
unfolding field_found HasFormat Passes
field_found_lem (field tag group_count presence g) msg i value c =
    option_either (Passes λ _. HasFormat (field tag group_count presence g) value) (parse_int value)
      _ _ (λ _ h. absurd (report_lem c [] tag 16 h)) λ n e h. (refl, (n, e))
field_found_lem (field tag type presence g) msg i value c =
    if_either (Passes λ _. validate_type value type ≡ true) (validate_type value type) _ _
      (λ e h. (refl, e)) λ _ h. absurd (report_lem c [] tag 6 h)

check_field_lem :
    (f : FieldSchema) (msg : List FieldView) (c : Check)
    → Passes (λ _. Meets f msg) (check_field f msg c)
unfolding check_field Meets MeetsValue Passes Answer
check_field_lem f msg c = by_answer (find_if (tag_of f) 0 msg) (find_if_lem (tag_of f) msg)
  where
    by_answer :
        (o : Option (ℕ × Bytes))
        → Answer (tag_of f) msg o
        → Passes
            (λ _. Meets f msg)
            (elim o as (λ _. Bool × Check) [
              | none ↦
                  if is_required (presence_of f) then (false, report c (tag_of f) 1) else (true, c)
              | some (i, value) ↦ field_found f msg i value (touch c i)
            ])
    by_answer none a =
        if_either (Passes λ _. Meets f msg) (is_required (presence_of f)) _ _
          (λ _ h. absurd (report_lem c [] (tag_of f) 1 h))
          λ e h. (refl, subst (MeetsValue f) (sym a) e)
    by_answer (some (i, value)) a = λ h.
        let ok = field_found_lem f msg i value (touch c i) h in
        (ok.0, subst (MeetsValue f) (sym a.0) ok.1)

-- The loop went on to the end.
pub validate_fields-MeetsAll :
    (fs : Fields) (msg : List FieldView) (c : Check)
    → NoErrors (validate_fields fs msg c)
    → MeetsAll fs msg
unfolding validate_fields MeetsAll Passes
validate_fields-MeetsAll nil msg c = λ _. tt
validate_fields-MeetsAll (cons f fs) msg c =
    let first = check_field_lem f msg c in
    let next = (check_field f msg c).1 in
    if_either (λ d. NoErrors d → MeetsAll (cons f fs) msg) (check_field f msg c).0
      (validate_fields fs msg next) next
      (λ _ h. (
        (first (
            NoErrors-Steps (validate_fields_lem msg (λ _. Unit {0}) fs next (anything msg fs))
              h)).1,
        validate_fields-MeetsAll fs msg next h,
      ))
      λ stops h. ground (arith, stops, (first h).0)

-- The slots of the header cache name the two sides, as the parameters have them, the other way round.
pub record IdsMatch (m : ValidMessageView) (params : SessionParameters) : Type 0 where
  pub seq_num_int : slot_is_int m.header_cache.msg_seq_num_slot ≡ true
  pub from_target : m.header_cache.sender_comp_id ≡ some params.target_comp_id
  pub to_sender : m.header_cache.target_comp_id ≡ some params.sender_comp_id
  pub header_met : MeetsAll standard_header m.message

slot_is_lem : (o : Option Bytes) (expected : Bytes) → slot_is o expected ≡ true → o ≡ some expected
unfolding slot_is
slot_is_lem none expected e = ground (arith, e)
slot_is_lem (some v) expected e = ap some (same_lem v expected e)

pub report_fatal_lem :
    (c : Check) (info : Bytes) (tag code : ℕ) → ¬ NoErrors (report_fatal c info tag code)
unfolding NoErrors push push_fatal
report_fatal_lem c info tag code h = append-not_empty c.results.errors _ h

pub validate_ids_lem :
    (m : ValidMessageView) (params : SessionParameters) (c : Check)
    → NoErrors (validate_ids m params c)
    → IdsMatch m params
unfolding validate_ids
validate_ids_lem m params c =
    let Goal : Check → Type 0 = λ d. NoErrors d → IdsMatch m params in
    if_either Goal (not (slot_is_int m.header_cache.msg_seq_num_slot)) _ _
      (λ _ h. absurd (report_fatal_lem c [] 34 6 h))
      λ number.
        if_either Goal (not (slot_is m.header_cache.sender_comp_id params.target_comp_id)) _ _
          (λ _ h. absurd (report_fatal_lem c _ 49 9 h))
          λ sender.
            if_either Goal (not (slot_is m.header_cache.target_comp_id params.sender_comp_id)) _ _
              (λ _ h. absurd (report_fatal_lem c _ 56 9 h))
              λ target h. record {
                seq_num_int = not-false _ number;
                from_target = slot_is_lem _ _ (not-false _ sender);
                to_sender = slot_is_lem _ _ (not-false _ target);
                header_met = validate_fields-MeetsAll standard_header m.message c h;
              }
