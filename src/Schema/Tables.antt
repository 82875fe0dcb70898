-- ===== src/Schema/Tables.antt =====
-- The schemas of include/fix/message: the header, the trailer, and the bodies of the admin messages.
use fix_engine.Prelude.{[], ◌∷◌}
use fix_engine.Schema.{
  field, no_group, group, Fields, fields, int, string, boolean, char, group_count, required,
  optional,
}

-- `Group627Schema`
abbrev pub hops : Fields
hops = fields (
    field 628 string optional no_group
    ∷ field 629 string optional no_group
    ∷ field 630 int optional no_group
    ∷ [])

-- `StandardHeaderSchema`
abbrev pub standard_header : Fields
standard_header = fields (
    field 8 string required no_group
    ∷ field 9 int required no_group
    ∷ field 35 string required no_group
    ∷ field 49 string required no_group
    ∷ field 56 string required no_group
    ∷ field 34 int required no_group
    ∷ field 52 string required no_group
    ∷ field 115 string optional no_group
    ∷ field 128 string optional no_group
    ∷ field 90 int optional no_group
    ∷ field 91 string optional no_group
    ∷ field 50 string optional no_group
    ∷ field 142 string optional no_group
    ∷ field 57 string optional no_group
    ∷ field 143 string optional no_group
    ∷ field 116 string optional no_group
    ∷ field 144 string optional no_group
    ∷ field 129 string optional no_group
    ∷ field 145 string optional no_group
    ∷ field 43 string optional no_group
    ∷ field 97 boolean optional no_group
    ∷ field 122 string optional no_group
    ∷ field 212 int optional no_group
    ∷ field 213 string optional no_group
    ∷ field 347 string optional no_group
    ∷ field 369 int optional no_group
    ∷ field 627 group_count optional (group hops)
    ∷ [])

-- `TrailerSchema`
abbrev pub trailer : Fields
trailer = fields (
    field 10 int required no_group
    ∷ field 83 string optional no_group
    ∷ field 93 int optional no_group
    ∷ [])

-- `Group384Schema`
abbrev pub msg_types : Fields
msg_types = fields (field 372 string required no_group ∷ field 385 char required no_group ∷ [])

-- `LogonSchema`
abbrev pub logon_body : Fields
logon_body = fields (
    field 98 int required no_group
    ∷ field 108 int required no_group
    ∷ field 141 boolean optional no_group
    ∷ field 95 int optional no_group
    ∷ field 96 string optional no_group
    ∷ field 553 string optional no_group
    ∷ field 554 string optional no_group
    ∷ field 789 int optional no_group
    ∷ field 383 int optional no_group
    ∷ field 384 group_count optional (group msg_types)
    ∷ field 464 boolean optional no_group
    ∷ [])

-- `HeartbeatSchema`
abbrev pub heartbeat_body : Fields
heartbeat_body = fields (field 112 string optional no_group ∷ [])

-- `TestRequestSchema`
abbrev pub test_request_body : Fields
test_request_body = fields (field 112 string required no_group ∷ [])

-- `SequenceResetSchema`
abbrev pub sequence_reset_body : Fields
sequence_reset_body =
    fields (field 36 int required no_group ∷ field 123 boolean optional no_group ∷ [])

-- `LogoutSchema`
abbrev pub logout_body : Fields
logout_body = fields (
    field 58 string optional no_group
    ∷ field 354 int optional no_group
    ∷ field 355 string optional no_group
    ∷ [])

-- `ResendRequestSchema`
abbrev pub resend_request_body : Fields
resend_request_body = fields (field 7 int required no_group ∷ field 16 int required no_group ∷ [])

-- `RejectSchema`
abbrev pub reject_body : Fields
reject_body = fields (
    field 45 int required no_group
    ∷ field 371 int optional no_group
    ∷ field 372 string optional no_group
    ∷ field 373 int optional no_group
    ∷ field 58 string optional no_group
    ∷ field 354 int optional no_group
    ∷ field 355 string optional no_group
    ∷ [])

-- `CustomSchema`
abbrev pub custom_body : Fields
custom_body = fields (field 9250 string required no_group ∷ [])
