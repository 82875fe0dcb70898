-- ===== src/Session/Send.antt =====
-- The admin messages that a session sends: each is built by the factory, over the session's own
-- parameters, numbers and buffer, and handed to `send_message_`.
use fix_engine.Prelude.{ℕ, Bool, true, false, Bytes, Option, some, if◌then◌else◌, ◌>>=◌}
use fix_engine.MessageFactory
use fix_engine.MessageFactory.{Factory, GenericField}
use fix_engine.Session.State.{Session, awaiting_logout}
use fix_engine.Session.Io.{send_message}
use mathlib.Core.List.{List}

abbrev pub factory : Session → Factory
factory s = record { scratch = s.scratch; seq_provider = s.seq_provider }

-- The wire goes out, and the factory's state is the session's.
unfoldable pub send_built : Session → Bytes × Factory → Bool → Option Session
send_built s (wire, f) is_resend =
    send_message (record s { scratch = f.scratch; seq_provider = f.seq_provider }) wire is_resend

unfoldable pub send_logon : Session → Bool → Option Session
send_logon s reset_seq_nums =
    send_built s (MessageFactory.logon s.params (factory s) s.params.heart_beat_int reset_seq_nums)
      false

unfoldable pub send_reject : Session → ℕ → ℕ → ℕ → Bytes → Option Session
send_reject s ref_seq_num reason tag text =
    send_built s (MessageFactory.reject s.params (factory s) ref_seq_num reason tag text) false

unfoldable pub send_logout : Session → Bytes → Option Session
send_logout s reason = send_built s (MessageFactory.logout s.params (factory s) reason) false

unfoldable pub send_heartbeat : Session → Bytes → Option Session
send_heartbeat s test_req_id =
    send_built s (MessageFactory.heart_beat s.params (factory s) test_req_id) false

unfoldable pub send_test_request : Session → Bytes → Option Session
send_test_request s test_req_id =
    send_built s (MessageFactory.test_request s.params (factory s) test_req_id) false

unfoldable pub send_resend_request : Session → ℕ → ℕ → Option Session
send_resend_request s begin_seq_no end_seq_no =
    send_built s (MessageFactory.resend_request s.params (factory s) begin_seq_no end_seq_no) false

unfoldable pub send_custom : Session → Bytes → Option Session
send_custom s payload =
    send_built s (MessageFactory.custom_message s.params (factory s) payload) false

unfoldable pub send_sequence_reset : Session → ℕ → Bool → Option Session
send_sequence_reset s new_seq_no gapfill =
    send_built s (MessageFactory.sequence_reset s.params (factory s) new_seq_no gapfill) false

unfoldable pub send_sequence_reset_gap_fill : Session → ℕ → ℕ → Option Session
send_sequence_reset_gap_fill s msg_seq_num new_seq_no =
    send_built s
      (MessageFactory.sequence_reset_gap_fill s.params (factory s) msg_seq_num new_seq_no) true

-- The handler of `send_from_app`.
unfoldable pub send_from_app : Session → List GenericField → Bytes → Option Session
send_from_app s message msg_type =
    if s.stopped
    then some s
    else send_built s (MessageFactory.from_app s.params (factory s) message msg_type) false

-- The handler of `stop_with_logout`, which runs at once on the strand.
unfoldable pub stop_with_logout : Session → Bytes → Option Session
stop_with_logout s reason =
    if s.stopped
    then some s
    else (send_logout s reason >>= λ s1.
        some (record s1 { state = awaiting_logout; logout_timer = true }))
