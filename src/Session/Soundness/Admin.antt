-- ===== src/Session/Soundness/Admin.antt =====
-- The handlers of the admin messages received keep a session sound.
use fix_engine.Prelude.{
  ℕ, ◌^◌, Bool, true, false, not, ◌&&◌, List, [], ◌∷◌, ◌++◌, Option, none, some, ltb,
}
use fix_engine.Chars.{codes, find_str}
use fix_engine.Definitions.{Role, initiator, acceptor, next_in}
use fix_engine.Message.{FieldView, find_field}
use fix_engine.MessageStore
use fix_engine.MessageStore.Resend.{ResendAction, all_actions}
use fix_engine.Session.State.{Session, is_state, awaiting_logout}
use fix_engine.Session.Io.{schedule_heartbeat, schedule_test_request_timeout}
use fix_engine.Session.Send.{send_custom, stop_with_logout}
use fix_engine.Session.Handlers.{
  activate, answer_logon, validate_heartbeat_int, handle_logon, handle_logout, handle_heartbeat,
  handle_test_request, resend, resend_all, handle_resend_request, handle_sequence_reset,
  handle_reject, handle_custom, is_initiator, flag, number_or_zero, readable_id,
}
use fix_engine.Session.History.{Past}
use fix_engine.Session.Soundness.{Stays, Ends, Ends-then, Ends-with, Ends-if}
use fix_engine.Session.Soundness.Sending.{
  send_built_lem, send_logon_lem, send_logout_lem, send_heartbeat_lem, send_custom_lem,
  send_gap_fill_lem, stop_with_logout_lem, stop_lem,
}

schedule_lem :
    {o : Past} (s : Session)
    → Stays o s
    → Stays o (schedule_test_request_timeout (schedule_heartbeat s))
unfolding schedule_test_request_timeout schedule_heartbeat
schedule_lem s i = i

activate_lem : {o : Past} (s : Session) → Stays o s → Stays o (activate s)
unfolding activate
activate_lem s i = schedule_lem _ i

answer_logon_lem :
    {o : Past} (s : Session) (role : Role) (b : Bool) → Stays o s → Ends o (answer_logon s role b)
unfolding answer_logon
answer_logon_lem s acceptor b i =
    Ends-if _ b _ _
      (λ _.
        Ends-if _ s.params.acceptor_reset_on_logon _ _
          (λ _. Ends-then _ _ (send_logon_lem _ true i) activate_lem)
          (λ _. stop_with_logout_lem _ _ i))
      λ _. Ends-then _ _ (send_logon_lem _ false i) activate_lem
answer_logon_lem s initiator b i =
    Ends-if _ (b && not s.params.initiator_reset_on_logon) _ _ (λ _. stop_with_logout_lem s _ i)
      λ _. activate_lem s i

pub handle_logon_lem :
    {o : Past} (s : Session) (fields : List FieldView) → Stays o s → Ends o (handle_logon s fields)
unfolding handle_logon
handle_logon_lem {o} s fields i =
    Ends-with _ (find_field 108 fields) _
      λ v _. checked (validate_heartbeat_int s.params v (is_initiator s.role))
  where
    checked :
        (hb : Option ℕ)
        → Ends o (elim hb [
          | none ↦ stop_with_logout s (codes "Invalid HeartBtInt value")
          | some hb ↦
              answer_logon
                (record s { params = record (s.params) { heart_beat_int = hb } })
                s.role
                (flag 141 fields)
        ])
    checked none = stop_with_logout_lem s (codes "Invalid HeartBtInt value") i
    checked (some hb) = answer_logon_lem _ s.role (flag 141 fields) i

pub handle_logout_lem : {o : Past} (s : Session) → Stays o s → Ends o (handle_logout s)
unfolding handle_logout
handle_logout_lem s i =
    Ends-if _ (is_state s.state awaiting_logout) _ _ (λ _. stop_lem _ i)
      λ _. Ends-then _ _ (send_logout_lem s _ i) stop_lem

pub handle_heartbeat_lem : {o : Past} (s : Session) → Stays o s → Stays o (handle_heartbeat s)
unfolding handle_heartbeat
handle_heartbeat_lem s i = i

pub handle_test_request_lem :
    {o : Past} (s : Session) (fields : List FieldView)
    → Stays o s
    → Ends o (handle_test_request s fields)
unfolding handle_test_request
handle_test_request_lem s fields i =
    Ends-with _ (find_field 112 fields) _ λ id _. send_heartbeat_lem s id i

resend_lem : {o : Past} (s : Session) (a : ResendAction) → Stays o s → Ends o (resend s a)
unfolding resend
resend_lem s a i =
    Ends-if _ a.gap_fill _ _ (λ _. send_gap_fill_lem s _ _ i)
      λ _.
        Ends-with _ (MessageStore.get_message_index s.store a.begin_seq_no) _
          λ index _. Ends-with _ _ _ λ built _. send_built_lem s built true i

resend_all_lem :
    {o : Past} (actions : List ResendAction) (s : Session)
    → Stays o s
    → Ends o (resend_all s actions)
unfolding resend_all
resend_all_lem [] s i = i
resend_all_lem (a ∷ rest) s i = Ends-then (resend s a) _ (resend_lem s a i) (resend_all_lem rest)

pub handle_resend_request_lem :
    {o : Past} (s : Session) (fields : List FieldView)
    → Stays o s
    → Ends o (handle_resend_request s fields)
unfolding handle_resend_request
handle_resend_request_lem s fields i = Ends-with _ (find_field 7 fields) _ λ _ _.
    Ends-with _ (find_field 16 fields) _
      λ _ _. Ends-with _ (all_actions _ _) _ λ actions _. resend_all_lem actions s i

pub handle_sequence_reset_lem :
    {o : Past} (s : Session) (fields : List FieldView)
    → Stays o s
    → Ends o (handle_sequence_reset s fields)
unfolding handle_sequence_reset
handle_sequence_reset_lem s fields i = Ends-with _ (find_field 36 fields) _ λ v _.
    let n = number_or_zero (2 ^ 64) v in
    Ends-if _ (ltb n (next_in s.seq_provider) && not (flag 123 fields)) _ _
      (λ _. stop_with_logout_lem s _ i) λ _. i

pub handle_reject_lem :
    {o : Past} (s : Session) (fields : List FieldView) → Stays o s → Ends o (handle_reject s fields)
unfolding handle_reject
handle_reject_lem s fields i = Ends-with _ (find_field 45 fields) _ λ _ _. i

pub handle_custom_lem :
    {o : Past} (s : Session) (fields : List FieldView) → Stays o s → Ends o (handle_custom s fields)
unfolding handle_custom
handle_custom_lem {o} s fields i = answered (find_str (codes "custom_response") _ 0)
  where
    answered :
        (found : Option ℕ)
        → Ends o (elim found [
          | some _ ↦ some s
          | none ↦ send_custom s (codes "custom_response from" ++ readable_id s)
        ])
    answered (some _) = i
    answered none = send_custom_lem s _ i
