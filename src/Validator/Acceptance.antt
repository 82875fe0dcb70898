-- ===== src/Validator/Acceptance.antt =====
-- src/Validator.cpp, `validate_message`: what a message without errors has.
use fix_engine.Prelude.{
  ℕ, ◌<◌, ◌≡◌, refl, sym, ◌∙◌, Bool, true, false, not, ◌||◌, List, [], ◌∷◌, Bytes, Option, none,
  some, if◌then◌else◌, ◌⊎◌, inl, inr, length, get_elem?, arith,
}
use fix_engine.Chars.{codes, same}
use fix_engine.Chars.Search.{same_lem}
use fix_engine.Definitions.{SessionParameters}
use fix_engine.Message.{FieldView, ValidMessageView}
use fix_engine.Schema.{Fields, int, validate_type}
use fix_engine.Schema.Registry.{MessageSchema, get}
use fix_engine.Schema.Tables.{standard_header, trailer}
use fix_engine.Validator.Result.{ValidatorErrorContext, cleared}
use fix_engine.Validator.TagScratch
use fix_engine.Validator.Groups.{Check, report}
use fix_engine.Prelude.{if_either, not-false}
use fix_engine.Validator.Steps.{
  Steps, stay, reported, reported_fatal, Steps-trans, validate_fields_lem,
}
use fix_engine.Validator.Coverage.{full-get, KnownBits, KnownBits-clear, KnownBits-Steps, Known-at}
use fix_engine.Validator.Accepted.{
  Names, NoErrors, MeetsAll, IdsMatch, NoErrors-Steps, report_lem, report_fatal_lem,
  validate_ids_lem, AllKnown-Names, validate_fields-MeetsAll, cons-not_nil,
}
use fix_engine.Validator.{
  slot_is, slot_is_int, validate_fields, validate_ids, validate_header, flag_extra, validate_by,
  validate_message,
}

-- The first three fields.
pub Opens : Bytes → List FieldView → Type 0
Opens type (v0 ∷ v1 ∷ v2 ∷ vs) =
    (v0.value ≡ codes "FIX.4.4") × ((validate_type v1.value int ≡ true) × (v2.value ≡ type))
Opens type short = ⊥

-- The tags of the header, of the body given, and of the trailer.
pub Known : Fields → ℕ → Type 0
Known body t = Names standard_header t ⊎ (Names body t ⊎ Names trailer t)

or_false : (b : Bool) → (not true || not b) ≡ false → b ≡ true
or_false true e = refl
or_false false e = ground (arith, e)

validate_header_lem :
    (fields : List FieldView) (m : ValidMessageView) (type : Bytes) (params : SessionParameters)
    (c : Check)
    → NoErrors (validate_header fields m type params c)
    → Opens type fields × IdsMatch m params
unfolding validate_header validate_type Opens
validate_header_lem (v0 ∷ v1 ∷ v2 ∷ vs) m type params c =
    let Goal : Check → Type 0 =
      λ d. NoErrors d → Opens type (v0 ∷ v1 ∷ v2 ∷ vs) × IdsMatch m params in
    if_either Goal (not true || not (same v0.value (codes "FIX.4.4"))) _ _
      (λ _ h. absurd (report_fatal_lem c _ 8 99 h))
      λ version.
        if_either Goal (not (validate_type v1.value int)) _ _
          (λ _ h. absurd (report_lem c [] 9 6 h))
          λ number.
            if_either Goal (not true || not (same v2.value type)) _ _
              (λ _ h. absurd (report_lem c [] 35 6 h))
              λ same_type h. (
                (
                  same_lem _ _ (or_false _ version),
                  (not-false _ number, same_lem _ _ (or_false _ same_type)),
                ),
                validate_ids_lem m params c h,
              )
validate_header_lem [] m type params c = λ h. absurd (report_fatal_lem c [] 8 1 h)
validate_header_lem (v0 ∷ []) m type params c = λ h. absurd (report_fatal_lem c [] 8 1 h)
validate_header_lem (v0 ∷ v1 ∷ []) m type params c = λ h. absurd (report_fatal_lem c [] 8 1 h)

module _ (m : ValidMessageView) (params : SessionParameters) (type : Bytes) (body : Fields) where
  header-Known :
      (c : Check) → Steps m.message (Known body) c (validate_fields standard_header m.message c)
  unfolding Known
  header-Known c =
      validate_fields_lem m.message (Known body) standard_header c
        (AllKnown-Names m.message (Known body) standard_header λ t h. inl h)

  ids-Known : (c : Check) → Steps m.message (Known body) c (validate_ids m params c)
  unfolding validate_ids
  ids-Known c =
      let Goal : Check → Type 0 = Steps m.message (Known body) c in
      if_either Goal (not (slot_is_int m.header_cache.msg_seq_num_slot)) _ _
        (λ _. reported_fatal [] 34 6 stay)
        λ _.
          if_either Goal (not (slot_is m.header_cache.sender_comp_id params.target_comp_id)) _ _
            (λ _. reported_fatal _ 49 9 stay)
            λ _.
              if_either Goal (not (slot_is m.header_cache.target_comp_id params.sender_comp_id)) _ _
                (λ _. reported_fatal _ 56 9 stay) λ _. header-Known c

  validate_header-Known :
      (fields : List FieldView) (c : Check)
      → Steps m.message (Known body) c (validate_header fields m type params c)
  unfolding validate_header validate_type
  validate_header-Known (v0 ∷ v1 ∷ v2 ∷ vs) c =
      let Goal : Check → Type 0 = Steps m.message (Known body) c in
      if_either Goal (not true || not (same v0.value (codes "FIX.4.4"))) _ _
        (λ _. reported_fatal _ 8 99 stay)
        λ _.
          if_either Goal (not (validate_type v1.value int)) _ _ (λ _. reported [] 9 6 stay)
            λ _.
              if_either Goal (not true || not (same v2.value type)) _ _ (λ _. reported [] 35 6 stay)
                λ _. ids-Known c
  validate_header-Known [] c = reported_fatal [] 8 1 stay
  validate_header-Known (v0 ∷ []) c = reported_fatal [] 8 1 stay
  validate_header-Known (v0 ∷ v1 ∷ []) c = reported_fatal [] 8 1 stay

  body-Known : (c : Check) → Steps m.message (Known body) c (validate_fields body m.message c)
  unfolding Known
  body-Known c =
      validate_fields_lem m.message (Known body) body c
        (AllKnown-Names m.message (Known body) body λ t h. inr (inl h))

  trailer-Known : (c : Check) → Steps m.message (Known body) c (validate_fields trailer m.message c)
  unfolding Known
  trailer-Known c =
      validate_fields_lem m.message (Known body) trailer c
        (AllKnown-Names m.message (Known body) trailer λ t h. inr (inr h))

  -- What the message has, by the parts of `validate_message`.
  pub record Passed : Type 0 where
    pub opens : Opens type m.message
    pub ids : IdsMatch m params
    pub body_met : MeetsAll body m.message
    pub trailer_met : MeetsAll trailer m.message
    pub named :
        (i : ℕ)
        → i < length m.message
        → (v : FieldView) × ((get_elem? m.message i ≡ some v) × Known body v.tag)

  flag_extra_lem :
      (c : Check)
      → NoErrors (flag_extra (length m.message) c)
      → NoErrors c × (TagScratch.full (length m.message) c.scratch ≡ true)
  unfolding flag_extra NoErrors
  flag_extra_lem c = by_errors c.results.errors refl
    where
      by_errors :
          (errors : List ValidatorErrorContext)
          → c.results.errors ≡ errors
          → NoErrors (elim errors as (λ _. Check) [
            | [] ↦ if TagScratch.full (length m.message) c.scratch then c else report c 0 0
            | e ∷ rest ↦ c
          ])
          → (c.results.errors ≡ []) × (TagScratch.full (length m.message) c.scratch ≡ true)
      by_errors [] e =
          if_either
            (λ d.
              NoErrors d
              → (c.results.errors ≡ []) × (TagScratch.full (length m.message) c.scratch ≡ true))
            (TagScratch.full (length m.message) c.scratch) c (report c 0 0) (λ full _. (e, full))
            λ _ h. absurd (report_lem c [] 0 0 h)
      by_errors (x ∷ xs) e = λ h. absurd (cons-not_nil (sym e ∙ h))

  pub validate_by_lem :
      (c : Check)
      → KnownBits m.message (Known body) c.scratch
      → NoErrors (validate_by m params type body c)
      → Passed
  unfolding validate_by
  validate_by_lem c bits h =
      let c1 = validate_header m.message m type params c in
      let c2 = validate_fields body m.message c1 in
      let c3 = validate_fields trailer m.message c2 in
      let end = flag_extra_lem c3 h in
      let at2 = NoErrors-Steps (trailer-Known c2) end.0 in
      let at1 = NoErrors-Steps (body-Known c1) at2 in
      let head = validate_header_lem m.message m type params c at1 in
      let walked =
        Steps-trans m.message (Known body)
          (Steps-trans m.message (Known body) (validate_header-Known m.message c) (body-Known c1))
          (trailer-Known c2) in
      record {
        opens = head.0;
        ids = head.1;
        body_met = validate_fields-MeetsAll body m.message c1 at2;
        trailer_met = validate_fields-MeetsAll trailer m.message c2 end.0;
        named = λ i below.
            Known-at m.message (Known body) c3.scratch
              (KnownBits-Steps m.message (Known body) walked bits) i
              (full-get (length m.message) c3.scratch i end.1 below);
      }

-- What an accepted message has: a type that the registry knows, and what the schemas ask for.
pub record Accepted (m : ValidMessageView) (params : SessionParameters) : Type 0 where
  pub type : Bytes
  pub type_there : m.header_cache.msg_type ≡ some type
  pub schema : MessageSchema
  pub registered : get type ≡ some schema
  pub passed : Passed m params type schema.body

-- A message that the validator reports no error on has a registered type and the version FIX.4.4, the
-- body length and the number are integers, its comp IDs are those of the session's parameters, every
-- field of the header, the body and the trailer that is required is there, each of their fields that
-- is there has its format, and every field of the message has a tag of one of them.
pub validate_message-Accepted :
    (scratch : TagScratch.TagScratch) (m : ValidMessageView) (params : SessionParameters)
    → NoErrors (validate_message scratch m params)
    → Accepted m params
unfolding validate_message
validate_message-Accepted scratch m params = by_type m.header_cache.msg_type refl
  where
    ready : TagScratch.TagScratch
    ready = TagScratch.clear (TagScratch.ensure_bits (length m.message) scratch)

    start : Check
    start = record { results = cleared; scratch = ready }

    by_schema :
        (type : Bytes)
        → m.header_cache.msg_type ≡ some type
        → (o : Option MessageSchema) → get type ≡ o
        → NoErrors (elim o as (λ _. Check) [
          | none ↦ report start 0 11
          | some schema ↦ validate_by m params type (schema.body) start
        ])
        → Accepted m params
    by_schema type e none e' = λ h. absurd (report_lem start [] 0 11 h)
    by_schema type e (some schema) e' = λ h. record {
      type = type;
      type_there = e;
      schema = schema;
      registered = e';
      passed =
          validate_by_lem m params type schema.body start
            (KnownBits-clear m.message (Known schema.body)
              (TagScratch.ensure_bits (length m.message) scratch))
            h;
    }

    by_type :
        (o : Option Bytes)
        → m.header_cache.msg_type ≡ o
        → NoErrors (elim o as (λ _. Check) [
          | none ↦ report start 35 1
          | some type ↦ elim (get type) [
            | none ↦ report start 0 11
            | some schema ↦ validate_by m params type (schema.body) start
          ]
        ])
        → Accepted m params
    by_type none e = λ h. absurd (report_lem start [] 35 1 h)
    by_type (some type) e = by_schema type e (get type) refl
