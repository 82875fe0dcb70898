-- ===== src/Validator/Required.antt =====
-- The fields that src/Session.cpp's handlers read without a test: an accepted message has them.
use fix_engine.Prelude.{ℕ, ◌≡◌, refl, ◌∙◌, subst, true, List, Bytes, Option, none, some, arith}
use fix_engine.Chars.{codes, same}
use fix_engine.Definitions.{SessionParameters}
use fix_engine.Message.{FieldView, ValidMessageView, find_field}
use fix_engine.Schema.{
  FieldType, int, string, FieldSchema, field, no_group, required, validate_type, is_required,
  presence_of,
}
use fix_engine.Schema.Registry.{MessageSchema, message_schemas, get}
use fix_engine.Schema.Lookup.{find_schema, get-find_schema}
use fix_engine.Validator.TagScratch
use fix_engine.Validator.Accepted.{NoErrors, MeetsAll, Meets, MeetsValue, HasFormat}
use fix_engine.Validator.Acceptance.{Accepted, validate_message-Accepted}
use fix_engine.Validator.{validate_message}

-- The field is there, with a value of this type.
pub Has : List FieldView → ℕ → FieldType → Type 0
Has msg tag type =
    (value : Bytes) × ((find_field tag msg ≡ some value) × (validate_type value type ≡ true))

-- The body that the registry has for a type.
body_met :
    (m : ValidMessageView) (params : SessionParameters) (type : Bytes) (schema : MessageSchema)
    → Accepted m params
    → m.header_cache.msg_type ≡ some type
    → get type ≡ some schema
    → MeetsAll schema.body m.message
body_met m params type schema a e g =
    let same_type : a.type ≡ type = cc in
    let same_schema : a.schema ≡ schema = cc in
    subst (λ s. MeetsAll s.body m.message) same_schema a.passed.body_met

met_value :
    (f : FieldSchema) (o : Option Bytes)
    → is_required (presence_of f) ≡ true
    → MeetsValue f o
    → (value : Bytes) × ((o ≡ some value) × HasFormat f value)
unfolding MeetsValue
met_value f none r met = ground (arith, r, met)
met_value f (some value) r met = (value, (refl, met))

met_int :
    (tag : ℕ) (msg : List FieldView) → Meets (field tag int required no_group) msg → Has msg tag int
unfolding Meets Has HasFormat
met_int tag msg met = met_value (field tag int required no_group) (find_field tag msg) refl met

met_string :
    (tag : ℕ) (msg : List FieldView)
    → Meets (field tag string required no_group) msg
    → Has msg tag string
unfolding Meets Has HasFormat
met_string tag msg met =
    met_value (field tag string required no_group) (find_field tag msg) refl met

module _ (m : ValidMessageView) (params : SessionParameters) (a : Accepted m params) where
  -- The body that the table has for a type.
  body_of :
      (type : Bytes) (schema : MessageSchema)
      → m.header_cache.msg_type ≡ some type
      → find_schema type message_schemas ≡ some schema
      → MeetsAll schema.body m.message
  body_of type schema e g = body_met m params type schema a e (get-find_schema type ∙ g)

  logon_met : m.header_cache.msg_type ≡ some (codes "A") → Has m.message 108 int
  unfolding MeetsAll find_schema same
  logon_met e = met_int 108 m.message (body_of (codes "A") _ e refl).1.0

  test_request_met : m.header_cache.msg_type ≡ some (codes "1") → Has m.message 112 string
  unfolding MeetsAll find_schema same
  test_request_met e = met_string 112 m.message (body_of (codes "1") _ e refl).0

  resend_request_met :
      m.header_cache.msg_type ≡ some (codes "2") → Has m.message 7 int × Has m.message 16 int
  unfolding MeetsAll find_schema same
  resend_request_met e =
      let met = body_of (codes "2") _ e refl in
      (met_int 7 m.message met.0, met_int 16 m.message met.1.0)

  sequence_reset_met : m.header_cache.msg_type ≡ some (codes "4") → Has m.message 36 int
  unfolding MeetsAll find_schema same
  sequence_reset_met e = met_int 36 m.message (body_of (codes "4") _ e refl).0

  reject_met : m.header_cache.msg_type ≡ some (codes "3") → Has m.message 45 int
  unfolding MeetsAll find_schema same
  reject_met e = met_int 45 m.message (body_of (codes "3") _ e refl).0

-- A message that the validator reports no error on has the fields that the session's handlers read
-- without a test, each in its format: a logon HeartBtInt (108), a test request TestReqID (112), a
-- resend request BeginSeqNo and EndSeqNo (7, 16), a sequence reset NewSeqNo (36), a reject RefSeqNum
-- (45).
pub required_found :
    (scratch : TagScratch.TagScratch) (m : ValidMessageView) (params : SessionParameters)
    → NoErrors (validate_message scratch m params)
    → (m.header_cache.msg_type ≡ some (codes "A") → Has m.message 108 int)
      × ((m.header_cache.msg_type ≡ some (codes "1") → Has m.message 112 string)
          × ((m.header_cache.msg_type ≡ some (codes "2")
                → Has m.message 7 int × Has m.message 16 int)
              × ((m.header_cache.msg_type ≡ some (codes "4") → Has m.message 36 int)
                  × (m.header_cache.msg_type ≡ some (codes "3") → Has m.message 45 int))))
required_found scratch m params h =
    let a = validate_message-Accepted scratch m params h in
    (
      logon_met m params a,
      (
        test_request_met m params a,
        (resend_request_met m params a, (sequence_reset_met m params a, reject_met m params a)),
      ),
    )
