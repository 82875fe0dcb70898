-- ===== src/Session/Dispatch.antt =====
-- A message received: `process_wire_message_`, `dispatch` and `drain_recovery_cache_`. The validator
-- is a parameter here: a function from the message and the session's parameters to its result.
use fix_engine.Prelude.{
  ℕ, zero, suc, ◌+◌, ◌-◌, ◌%◌, ◌^◌, Bool, false, not, ◌&&◌, ◌||◌, List, [], ◌∷◌, ◌++◌, Bytes,
  Option, none, some, ltb, ◌==◌, if◌then◌else◌, ◌>>=◌,
}
use fix_engine.Chars.{codes, same, to_chars}
use fix_engine.Definitions.{SessionParameters, next_in, update_in}
use fix_engine.Message.{FieldView, HeaderCache, ValidMessageView, make_valid_message_view}
use fix_engine.MessageFactory.{custom_type}
use fix_engine.Parser.{parse}
use fix_engine.RecoveryCache
use fix_engine.Session.State.{
  Session, recovering_resend, active, deliver, emit, is_state, is_running,
}
use fix_engine.Session.Io.{schedule_test_request_timeout}
use fix_engine.Validator.Result.{ValidatorErrorContext, ValidatorResult, is_fatal}
use fix_engine.Session.Send.{send_reject, send_logout, send_resend_request, stop_with_logout}
use fix_engine.Session.Handlers.{
  stop, handle_logon, handle_logout, handle_heartbeat, handle_test_request, handle_resend_request,
  handle_sequence_reset, handle_reject, handle_custom,
}

abbrev pub Validate : Type 0
Validate = ValidMessageView → SessionParameters → ValidatorResult

-- `is_app_message_type_`
unfoldable pub is_app_message_type : Bytes → Bool
is_app_message_type t = not (
    same t (codes "0")
    || same t (codes "1")
    || same t (codes "2")
    || same t (codes "3")
    || same t (codes "4")
    || same t (codes "5")
    || same t (codes "A"))

-- The last step of `dispatch`: the handler for the type.
unfoldable pub handle : Session → Bytes → List FieldView → Option Session
handle s type fields =
    if same type (codes "A")
    then handle_logon s fields
    else if same type (codes "5")
    then handle_logout s
    else if same type (codes "0")
    then some (handle_heartbeat s)
    else if same type (codes "1")
    then handle_test_request s fields
    else if same type (codes "2")
    then handle_resend_request s fields
    else if same type (codes "3")
    then handle_reject s fields
    else if same type (codes "4")
    then handle_sequence_reset s fields
    else if same type custom_type
    then handle_custom s fields
    else some (emit s (deliver fields))

-- A message ahead of its turn during recovery goes to the cache, if its window reaches so far.
unfoldable pub cache_ahead : Session → ℕ → Bytes → Option Session
cache_ahead s seq_num raw_msg =
    if not (RecoveryCache.in_window s.recovery_cache seq_num)
    then stop_with_logout s (codes "MsgSeqNum too high during recovery")
    else if RecoveryCache.contains s.recovery_cache seq_num
    then some s
    else (RecoveryCache.insert s.recovery_cache seq_num raw_msg >>= λ c.
        some (record s { recovery_cache = c }))

-- A message ahead of its turn starts recovery: what is missing is asked for.
unfoldable pub start_recovery : Session → ℕ → Bytes → Option Session
start_recovery s seq_num raw_msg =
    let expected = next_in s.seq_provider in
    do
      s1 ← send_resend_request s expected ((seq_num + 2 ^ 64 - 1) % 2 ^ 64)
      let c = RecoveryCache.start s1.recovery_cache expected
      let s2 = record s1 { state = recovering_resend; recovery_cache = c }
      if RecoveryCache.contains c seq_num
          then some s2
          else (RecoveryCache.insert c seq_num raw_msg >>= λ c'.
              some (record s2 { recovery_cache = c' }))

-- The text of the logout for an old number: it ends with the message itself.
abbrev pub too_low : ℕ → ℕ → Bytes → Bytes
too_low seq_num expected raw_msg =
    codes "Received MsgSeqNum "
    ++ (to_chars seq_num
        ++ (codes " but expected " ++ (to_chars expected ++ (codes "Message: " ++ raw_msg))))

-- The test of the sequence number.
unfoldable pub sequence : Session → Bytes → ℕ → Bool → List FieldView → Bytes → Option Session
sequence s type seq_num is_dup fields raw_msg =
    let expected = next_in s.seq_provider in
    if seq_num == expected
    then handle (record s { seq_provider = update_in s.seq_provider ((seq_num + 1) % 2 ^ 64) }) type
        fields
    else if ltb expected seq_num && is_state s.state recovering_resend
    then cache_ahead s seq_num raw_msg
    else if ltb expected seq_num
    then start_recovery s seq_num raw_msg
    else if ltb seq_num expected && is_dup
    then some s
    else stop_with_logout s (too_low seq_num expected raw_msg)

-- A message that the validator lets pass, with its type and its number.
unfoldable pub accept : Session → Bytes → HeaderCache → List FieldView → Bytes → Option Session
accept s type cache fields raw_msg =
    let s1 = if is_running s.state then schedule_test_request_timeout s else s in
    let is_dup = elim cache.poss_dup_flag as (λ _. Bool) [
      | none ↦ false
      | some v ↦ same v (codes "Y")
    ] in
    if not (is_running s1.state) && is_app_message_type type
    then stop_with_logout s1 (codes "Cannot process app messages yet")
    else sequence s1 type cache.msg_seq_num is_dup fields raw_msg

-- A message without errors.
unfoldable pub accept_valid :
    Session → Option Bytes → HeaderCache → List FieldView → Bytes → Option Session
accept_valid s none cache fields raw_msg = some s
accept_valid s (some type) cache fields raw_msg =
    if cache.has_msg_seq_num then accept s type cache fields raw_msg else some s

-- By the validator's errors.
unfoldable pub judge :
    Session → List ValidatorErrorContext → HeaderCache → List FieldView → Bytes → Option Session
judge s [] cache fields raw_msg = accept_valid s cache.msg_type cache fields raw_msg
judge s (e ∷ rest) cache fields raw_msg = send_reject s cache.msg_seq_num e.code e.tag e.info

-- The end of `drain_recovery_cache_`: an empty cache ends recovery, whatever the state is by then.
unfoldable pub end_recovery : Session → Session
end_recovery s = if RecoveryCache.empty s.recovery_cache then record s { state = active } else s

module _ (validate : Validate) where
  unfoldable pub dispatch : Session → List FieldView → Bytes → Option Session
  dispatch s fields raw_msg =
      let msg = make_valid_message_view fields in
      let results = validate msg s.params in
      if s.stopped
      then some s
      else if is_fatal results.severity
      then stop_with_logout s (codes "Fatal validation error")
      else judge s results.errors msg.header_cache fields raw_msg

  -- The loop of `drain_recovery_cache_`. Each round takes a message out of the cache, so its size is
  -- enough fuel.
  unfoldable pub drain : ℕ → Session → Option Session
  drain zero s = some (end_recovery s)
  drain (suc fuel) s =
      let expected = next_in s.seq_provider in
      let round = do
        raw_msg ← RecoveryCache.get s.recovery_cache expected
        let ctx = parse raw_msg
        let dispatched = dispatch s ctx.out_msg raw_msg
        let next = do
          s1 ← dispatched
          c ← RecoveryCache.consume s1.recovery_cache expected
          drain fuel (record s1 { recovery_cache = c })
        let logged_out = do s1 ← send_logout s (codes "Parse error during recovery"); some (stop s1)
        elim ctx.out_errs [ [] ↦ next | e ∷ rest ↦ logged_out ]
      in if RecoveryCache.contains s.recovery_cache expected then round else some (end_recovery s)

  unfoldable pub drain_recovery_cache : Session → Option Session
  drain_recovery_cache s =
      if RecoveryCache.empty s.recovery_cache || not (is_state s.state recovering_resend)
      then some s
      else drain s.recovery_cache.size s

  unfoldable pub process_wire_message : Session → Bytes → Option Session
  process_wire_message s msg_wire =
      let ctx = parse msg_wire in
      let handled : Option Session = elim ctx.out_errs [
        | [] ↦ dispatch s ctx.out_msg msg_wire
        | e ∷ rest ↦ stop_with_logout s (codes "Parse error")
      ] in
      handled >>= drain_recovery_cache
