-- ===== src/Session/Soundness/Received.antt =====
-- A message received, and those behind it, keep a session sound.
use fix_engine.Prelude.{
  ℕ, zero, suc, Bool, not, ◌&&◌, ◌||◌, List, [], ◌∷◌, Bytes, Option, none, some, if◌then◌else◌, ltb,
  ◌==◌, ◌>>=◌,
}
use fix_engine.Chars.{codes, same}
use fix_engine.Definitions.{next_in}
use fix_engine.Message.{FieldView, HeaderCache, make_valid_message_view}
use fix_engine.MessageFactory.{custom_type}
use fix_engine.Parser.{parse, ParseErrorInfo}
use fix_engine.RecoveryCache
use fix_engine.RecoveryCache.Invariant.{IsValid, insert-IsValid, consume-IsValid, start-IsValid}
use fix_engine.Session.State.{Session, is_state, is_running, recovering_resend}
use fix_engine.Session.Io.{schedule_test_request_timeout}
use fix_engine.Session.Send.{send_logout, stop_with_logout, send_resend_request}
use fix_engine.Session.Handlers.{stop}
use fix_engine.Validator.Result.{ValidatorErrorContext, is_fatal}
use fix_engine.Session.Dispatch.{
  Validate, handle, cache_ahead, start_recovery, sequence, accept, accept_valid, judge,
  end_recovery, dispatch, drain, drain_recovery_cache, process_wire_message, is_app_message_type,
}
use fix_engine.Session.Lifecycle.{process_all, on_read}
use fix_engine.Session.History.{Past}
use fix_engine.Session.Soundness.{Stays, Ends, Ends-then, Ends-with, Ends-if, Stays-if}
use fix_engine.Session.Soundness.Sending.{
  do_read_lem, send_reject_lem, send_logout_lem, send_resend_request_lem, stop_with_logout_lem,
  stop_lem,
}
use fix_engine.Session.Soundness.Admin.{
  handle_logon_lem, handle_logout_lem, handle_heartbeat_lem, handle_test_request_lem,
  handle_resend_request_lem, handle_sequence_reset_lem, handle_reject_lem, handle_custom_lem,
}

handle_lem :
    {o : Past} (s : Session) (type : Bytes) (fields : List FieldView)
    → Stays o s
    → Ends o (handle s type fields)
unfolding handle
handle_lem s type fields i =
    Ends-if _ (same type (codes "A")) _ _ (λ _. handle_logon_lem s fields i)
      λ _.
        Ends-if _ (same type (codes "5")) _ _ (λ _. handle_logout_lem s i)
          λ _.
            Ends-if _ (same type (codes "0")) _ _ (λ _. handle_heartbeat_lem s i)
              λ _.
                Ends-if _ (same type (codes "1")) _ _ (λ _. handle_test_request_lem s fields i)
                  λ _.
                    Ends-if _ (same type (codes "2")) _ _
                      (λ _. handle_resend_request_lem s fields i)
                      λ _.
                        Ends-if _ (same type (codes "3")) _ _ (λ _. handle_reject_lem s fields i)
                          λ _.
                            Ends-if _ (same type (codes "4")) _ _
                              (λ _. handle_sequence_reset_lem s fields i)
                              λ _.
                                Ends-if _ (same type custom_type) _ _
                                  (λ _. handle_custom_lem s fields i) λ _. i

with_cache :
    {o : Past} (s : Session) (c : RecoveryCache.RecoveryCache)
    → Stays o s
    → IsValid c
    → Stays o (record s { recovery_cache = c })
with_cache s c i v = record {
  same_id = i.same_id;
  cache_valid = v;
  no_leftover = i.no_leftover;
  quiet = i.quiet;
  history = i.history;
}

cache_ahead_lem :
    {o : Past} (s : Session) (n : ℕ) (raw : Bytes) → Stays o s → Ends o (cache_ahead s n raw)
unfolding cache_ahead
cache_ahead_lem s n raw i =
    Ends-if _ (not (RecoveryCache.in_window s.recovery_cache n)) _ _
      (λ _. stop_with_logout_lem s _ i)
      λ _.
        Ends-if _ (RecoveryCache.contains s.recovery_cache n) _ _ (λ _. i)
          λ _.
            Ends-with _ (RecoveryCache.insert s.recovery_cache n raw) _
              λ c e. with_cache s c i (insert-IsValid s.recovery_cache c n raw i.cache_valid e)

start_recovery_lem :
    {o : Past} (s : Session) (n : ℕ) (raw : Bytes) → Stays o s → Ends o (start_recovery s n raw)
unfolding start_recovery
start_recovery_lem s n raw i =
    let expected = next_in s.seq_provider in
    Ends-then (send_resend_request s expected _) _ (send_resend_request_lem s expected _ i) λ s1 i1.
      let c = RecoveryCache.start s1.recovery_cache expected in
      let v = start-IsValid s1.recovery_cache expected in
      Ends-if _ (RecoveryCache.contains c n) _ _ (λ _. with_cache s1 c i1 v)
        λ _.
          Ends-with _ (RecoveryCache.insert c n raw) _
            λ c' e. with_cache s1 c' i1 (insert-IsValid c c' n raw v e)

sequence_lem :
    {o : Past} (s : Session) (type : Bytes) (n : ℕ) (is_dup : Bool) (fields : List FieldView)
    (raw : Bytes)
    → Stays o s
    → Ends o (sequence s type n is_dup fields raw)
unfolding sequence
sequence_lem s type n is_dup fields raw i =
    let expected = next_in s.seq_provider in
    Ends-if _ (n == expected) _ _ (λ _. handle_lem _ type fields i)
      λ _.
        Ends-if _ (ltb expected n && is_state s.state recovering_resend) _ _
          (λ _. cache_ahead_lem s n raw i)
          λ _.
            Ends-if _ (ltb expected n) _ _ (λ _. start_recovery_lem s n raw i)
              λ _. Ends-if _ (ltb n expected && is_dup) _ _ (λ _. i) λ _. stop_with_logout_lem s _ i

keeps_alive :
    {o : Past} (s : Session)
    → Stays o s
    → Stays o (if is_running s.state then schedule_test_request_timeout s else s)
unfolding schedule_test_request_timeout
keeps_alive {o} s i = Stays-if (is_running s.state) _ _ (λ _. i) λ _. i

accept_lem :
    {o : Past} (s : Session) (type : Bytes) (cache : HeaderCache) (fields : List FieldView)
    (raw : Bytes)
    → Stays o s
    → Ends o (accept s type cache fields raw)
unfolding accept
accept_lem {o} s type cache fields raw i =
    let s1 : Session = if is_running s.state then schedule_test_request_timeout s else s in
    let i1 : Stays o s1 = keeps_alive s i in
    Ends-if _ (not (is_running s1.state) && is_app_message_type type) _ _
      (λ _. stop_with_logout_lem s1 _ i1)
      λ _. sequence_lem s1 type cache.msg_seq_num _ fields raw i1

accept_valid_lem :
    {o : Past} (s : Session) (type : Option Bytes) (cache : HeaderCache) (fields : List FieldView)
    (raw : Bytes)
    → Stays o s
    → Ends o (accept_valid s type cache fields raw)
unfolding accept_valid
accept_valid_lem s none cache fields raw i = i
accept_valid_lem s (some type) cache fields raw i =
    Ends-if _ cache.has_msg_seq_num _ _ (λ _. accept_lem s type cache fields raw i) λ _. i

judge_lem :
    {o : Past} (s : Session) (errors : List ValidatorErrorContext) (cache : HeaderCache)
    (fields : List FieldView) (raw : Bytes)
    → Stays o s
    → Ends o (judge s errors cache fields raw)
unfolding judge
judge_lem s [] cache fields raw i = accept_valid_lem s cache.msg_type cache fields raw i
judge_lem s (e ∷ rest) cache fields raw i = send_reject_lem s _ _ _ _ i

end_recovery_lem : {o : Past} (s : Session) → Stays o s → Stays o (end_recovery s)
unfolding end_recovery
end_recovery_lem s i = Stays-if (RecoveryCache.empty s.recovery_cache) _ _ (λ _. i) λ _. i

module _ (validate : Validate) where
  dispatch_lem :
      {o : Past} (s : Session) (fields : List FieldView) (raw : Bytes)
      → Stays o s
      → Ends o (dispatch validate s fields raw)
  unfolding dispatch
  dispatch_lem s fields raw i =
      let msg = make_valid_message_view fields in
      let results = validate msg s.params in
      Ends-if _ s.stopped _ _ (λ _. i)
        λ _.
          Ends-if _ (is_fatal results.severity) _ _ (λ _. stop_with_logout_lem s _ i)
            λ _. judge_lem s results.errors msg.header_cache fields raw i

  drain_lem : {o : Past} (fuel : ℕ) (s : Session) → Stays o s → Ends o (drain validate fuel s)
  unfolding drain
  drain_lem {o} zero s i = end_recovery_lem s i
  drain_lem {o} (suc fuel) s i =
      Ends-if _ (RecoveryCache.contains s.recovery_cache (next_in s.seq_provider)) _ _
        (λ _.
          Ends-with _ (RecoveryCache.get s.recovery_cache (next_in s.seq_provider)) _
            λ raw _. parsed (drain_lem fuel) raw (parse raw).out_errs)
        (λ _. end_recovery_lem s i)
    where
      parsed :
          ((t : Session) → Stays o t → Ends o (drain validate fuel t))
          → (raw : Bytes) (errs : List ParseErrorInfo)
          → Ends o (elim errs [
            | [] ↦
                (dispatch validate s (parse raw).out_msg raw >>= λ s1.
                RecoveryCache.consume s1.recovery_cache (next_in s.seq_provider) >>= λ c.
                drain validate fuel (record s1 { recovery_cache = c }))
            | e ∷ rest ↦
                (send_logout s (codes "Parse error during recovery") >>= λ s1. some (stop s1))
          ])
      parsed more raw [] =
          Ends-then (dispatch validate s (parse raw).out_msg raw) _ (dispatch_lem s _ raw i)
            λ s1 i1.
              Ends-with _ (RecoveryCache.consume s1.recovery_cache (next_in s.seq_provider)) _
                λ c e.
                  more _
                    (with_cache s1 c i1 (consume-IsValid s1.recovery_cache c _ i1.cache_valid e))
      parsed more raw (e ∷ rest) = Ends-then (send_logout s _) _ (send_logout_lem s _ i) stop_lem

  drain_recovery_cache_lem :
      {o : Past} (s : Session) → Stays o s → Ends o (drain_recovery_cache validate s)
  unfolding drain_recovery_cache
  drain_recovery_cache_lem s i =
      Ends-if _ (RecoveryCache.empty s.recovery_cache || not (is_state s.state recovering_resend)) _
        _ (λ _. i) λ _. drain_lem s.recovery_cache.size s i

  process_wire_message_lem :
      {o : Past} (s : Session) (wire : Bytes)
      → Stays o s
      → Ends o (process_wire_message validate s wire)
  unfolding process_wire_message
  process_wire_message_lem {o} s wire i =
      Ends-then _ _ (parsed (parse wire).out_errs) drain_recovery_cache_lem
    where
      parsed :
          (errs : List ParseErrorInfo)
          → Ends o (elim errs [
            | [] ↦ dispatch validate s (parse wire).out_msg wire
            | e ∷ rest ↦ stop_with_logout s (codes "Parse error")
          ])
      parsed [] = dispatch_lem s _ wire i
      parsed (e ∷ rest) = stop_with_logout_lem s _ i

  process_all_lem :
      {o : Past} (msgs : List Bytes) (s : Session)
      → Stays o s
      → Ends o (process_all validate s msgs)
  unfolding process_all
  process_all_lem [] s i = i
  process_all_lem (m ∷ rest) s i =
      Ends-then (process_wire_message validate s m) _ (process_wire_message_lem s m i)
        (process_all_lem rest)

  pub on_read_lem :
      {o : Past} (s : Session) (msgs : List Bytes) → Stays o s → Ends o (on_read validate s msgs)
  unfolding on_read
  on_read_lem s msgs i =
      Ends-if _ s.stopped _ _ (λ _. i)
        λ _. Ends-then (process_all validate s msgs) _ (process_all_lem msgs s i) do_read_lem
