-- ===== src/Session/Handlers.antt =====
-- The admin messages received, `handle_logon` to `handle_custom`, and `stop_`. `stop()` and
-- `stop_with_logout` dispatch to the strand on which these handlers run, so they run at once.
-- `none` is also a required field that is missing, which the validator rules out.
use fix_engine.Prelude.{
  ℕ, ◌+◌, ◌-◌, ◌%◌, ◌^◌, Bool, true, false, not, ◌&&◌, ◌||◌, List, [], ◌∷◌, ◌++◌, Bytes, Option,
  none, some, ltb, leb, ◌==◌, if◌then◌else◌, ◌>>=◌,
}
use fix_engine.Chars.{codes, same, from_chars, find_str, to_chars}
use fix_engine.Definitions.{
  Role, initiator, acceptor, SessionParameters, next_in, next_out, update_in, acceptor_reset,
}
use fix_engine.Message.{FieldView, find_field}
use fix_engine.MessageFactory
use fix_engine.MessageStore
use fix_engine.MessageStore.Resend.{ResendAction, get_resend_stream, all_actions}
use fix_engine.Session.State.{
  Session, awaiting_logout, logon_received, active, disconnected, close_connection, emit, is_state,
}
use fix_engine.Session.Io.{schedule_heartbeat, schedule_test_request_timeout}
use fix_engine.Session.Send.{
  factory, send_built, send_logon, send_logout, send_heartbeat, send_custom,
  send_sequence_reset_gap_fill, stop_with_logout,
}

-- `stop_`
unfoldable pub stop : Session → Session
stop s =
    let ended = record s {
      state = disconnected;
      stopped = true;
      write_inflight = false;
      write_q = [];
    } in
    if s.stopped
    then s
    else if s.conn
    then emit
        (record ended {
          logon_timer = false;
          inbound_timer = false;
          heartbeat_timer = false;
          logout_timer = false;
        })
        close_connection
    else ended

-- A number read by from_chars into a variable that is 0.
abbrev pub number_or_zero : ℕ → Bytes → ℕ
number_or_zero limit value = elim (from_chars limit value) [ none ↦ 0 | some (v, k) ↦ v ]

-- Is there a field with this tag and the value "Y"?
abbrev pub flag : ℕ → List FieldView → Bool
flag tag fields = elim (find_field tag fields) [ none ↦ false | some v ↦ same v (codes "Y") ]

-- `validate_heartbeat_int`: the new interval, where the peer's is accepted.
unfoldable pub validate_heartbeat_int : SessionParameters → Bytes → Bool → Option ℕ
validate_heartbeat_int params incoming_value is_initiator =
    let hb = number_or_zero (2 ^ 32) incoming_value in
    if is_initiator && not (hb == params.heart_beat_int)
    then none
    else if ltb hb 10 || ltb 120 hb
    then none
    else some hb

-- The end of `handle_logon`.
unfoldable pub activate : Session → Session
activate s =
    let s1 = record s { logon_timer = false; state = active } in
    schedule_test_request_timeout (schedule_heartbeat s1)

abbrev pub not_allowed : Bytes
not_allowed = codes "ResetSeqNumFlag=Y not allowed by configuration"

-- The part of `handle_logon` behind the test of the heartbeat interval, by role.
unfoldable pub answer_logon : Session → Role → Bool → Option Session
answer_logon s acceptor reset_seq_nums =
    let s1 = record s { state = logon_received } in
    let s2 = record s1 { seq_provider = acceptor_reset s1.seq_provider } in
    if reset_seq_nums
    then (if s.params.acceptor_reset_on_logon
        then (send_logon s2 true >>= λ s3. some (activate s3))
        else stop_with_logout s1 not_allowed)
    else (send_logon s1 false >>= λ s3. some (activate s3))
answer_logon s initiator reset_seq_nums =
    if reset_seq_nums && not s.params.initiator_reset_on_logon
    then stop_with_logout s not_allowed
    else some (activate s)

abbrev pub is_initiator : Role → Bool
is_initiator initiator = true
is_initiator acceptor = false

unfoldable pub handle_logon : Session → List FieldView → Option Session
handle_logon s fields = do
  heart_bt_int ← find_field 108 fields
  elim (validate_heartbeat_int s.params heart_bt_int (is_initiator s.role)) [
    | none ↦ stop_with_logout s (codes "Invalid HeartBtInt value")
    | some hb ↦
        answer_logon (record s { params = record (s.params) { heart_beat_int = hb } }) s.role
          (flag 141 fields)
  ]

unfoldable pub handle_logout : Session → Option Session
handle_logout s =
    if is_state s.state awaiting_logout
    then some (stop (record s { logout_timer = false }))
    else (send_logout s (codes "Logout acknowledged") >>= λ s1. some (stop s1))

unfoldable pub handle_heartbeat : Session → Session
handle_heartbeat s = record s { awaiting_test_request_response = false }

unfoldable pub handle_test_request : Session → List FieldView → Option Session
handle_test_request s fields = do id ← find_field 112 fields; send_heartbeat s id

-- One action of the resend stream.
unfoldable pub resend : Session → ResendAction → Option Session
resend s action =
    if action.gap_fill
    then send_sequence_reset_gap_fill s action.begin_seq_no (action.end_seq_no + 1)
    else (MessageStore.get_message_index s.store action.begin_seq_no >>= λ index.
        MessageFactory.regenerate_message s.params (factory s)
          (MessageStore.get_message_wire s.store index) index
        >>= λ built. send_built s built true)

unfoldable pub resend_all : Session → List ResendAction → Option Session
resend_all s [] = some s
resend_all s (a ∷ rest) = resend s a >>= λ s1. resend_all s1 rest

-- The end of the range asked for, with 0 for all, and cut off at the last message sent. The
-- subtraction is that of a `uint32_t`.
abbrev pub resend_end : ℕ → ℕ → ℕ
resend_end end_seq_no out =
    if end_seq_no == 0 || leb out end_seq_no
    then (out % 2 ^ 32 + 2 ^ 32 - 1) % 2 ^ 32
    else end_seq_no

-- The stream looks at the index only, which no resend changes: its actions are listed first.
unfoldable pub handle_resend_request : Session → List FieldView → Option Session
handle_resend_request s fields = do
  begin_value ← find_field 7 fields
  end_value ← find_field 16 fields
  let begin_seq_no = number_or_zero (2 ^ 32) begin_value
  let end_seq_no = resend_end (number_or_zero (2 ^ 32) end_value) (next_out s.seq_provider)
  let stream = get_resend_stream s.store.outbound_index begin_seq_no end_seq_no
  actions ← all_actions (end_seq_no + 1 - begin_seq_no) stream
  resend_all s actions

unfoldable pub handle_sequence_reset : Session → List FieldView → Option Session
handle_sequence_reset s fields = do
  value ← find_field 36 fields
  let new_seq_no = number_or_zero (2 ^ 64) value
  if ltb new_seq_no (next_in s.seq_provider) && not (flag 123 fields)
      then stop_with_logout s (codes "NewSeqNo less than expected")
      else some (record s { seq_provider = update_in s.seq_provider new_seq_no })

-- A reject is logged, with its RefSeqNum.
unfoldable pub handle_reject : Session → List FieldView → Option Session
handle_reject s fields = do _ ← find_field 45 fields; some s

unfoldable pub readable_id : Session → Bytes
readable_id s =
    s.params.sender_comp_id
    ++ (codes "<->" ++ (s.params.target_comp_id ++ (codes " [" ++ (to_chars s.id.id ++ codes "]"))))

unfoldable pub handle_custom : Session → List FieldView → Option Session
handle_custom s fields =
    let payload = codes "custom_response from" ++ readable_id s in
    let received : Bytes = elim (find_field 9250 fields) [ none ↦ [] | some v ↦ v ] in
    elim (find_str (codes "custom_response") received 0) [
      | some _ ↦ some s
      | none ↦ send_custom s payload
    ]
