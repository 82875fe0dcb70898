-- ===== src/Session/Lifecycle.antt =====
-- Start, loss of the connection, the completions of reads and writes, and the timers that fire. A
-- timer's handler is called with an error code of which only "aborted" and "none" matter here: the
-- third case is logged and changes nothing.
use fix_engine.Prelude.{
  ◌+◌, ◌%◌, ◌^◌, true, false, not, ◌||◌, List, [], ◌∷◌, ◌++◌, Bytes, Option, some, if◌then◌else◌,
  ◌>>=◌,
}
use fix_engine.Chars.{codes, to_chars}
use fix_engine.Definitions.{Role, initiator, acceptor, reset}
use fix_engine.RecoveryCache
use fix_engine.Session.State.{
  Session, SessionState, awaiting_logon, logon_sent, disconnected, close_connection, reconnect,
  emit, is_state,
}
use fix_engine.Session.Io.{
  ErrorCode, operation_aborted, permanent, transient, canceled, classify_readwrite_error, do_read,
  schedule_heartbeat, schedule_test_request_timeout, schedule_logon_timeout,
}
use fix_engine.Session.Send.{send_logon, send_heartbeat, send_test_request, stop_with_logout}
use fix_engine.Session.Handlers.{stop}
use fix_engine.Session.Dispatch.{Validate, process_wire_message}

-- The handler of `set_connection`.
unfoldable pub set_connection : Session → Session
set_connection s = record s { conn = true }

unfoldable pub await_logon : Session → SessionState → Session
await_logon s state = schedule_logon_timeout (record s { state = state })

-- The handshake of `start_normal_`.
unfoldable pub handshake_normal : Session → Role → Option Session
handshake_normal s acceptor = some (await_logon s awaiting_logon)
handshake_normal s initiator =
    let fresh = s.params.initiator_reset_on_logon in
    let s1 = if fresh then record s { seq_provider = reset s.seq_provider } else s in
    send_logon s1 fresh >>= λ s2. some (await_logon s2 logon_sent)

unfoldable pub start_normal : Session → Option Session
start_normal s = if s.conn then (do_read s >>= λ s1. handshake_normal s1 s1.role) else some s

-- The handshake of `start_after_reconnect_`: the numbers go on.
unfoldable pub handshake_again : Session → Role → Option Session
handshake_again s acceptor = some (await_logon s awaiting_logon)
handshake_again s initiator = send_logon s false >>= λ s1. some (await_logon s1 logon_sent)

unfoldable pub start_after_reconnect : Session → Option Session
start_after_reconnect s =
    let cleaned = record s {
      awaiting_test_request_response = false;
      reconnecting = false;
      test_req_id = 0;
      write_q = [];
      write_inflight = false;
      recovery_cache = RecoveryCache.clear s.recovery_cache;
    } in
    if not s.conn || s.stopped then some s else (handshake_again cleaned cleaned.role >>= do_read)

-- `on_transport_down_`. The framer and the parser's context are emptied there as well.
unfoldable pub on_transport_down : Session → Session
on_transport_down s =
    let closed = if s.conn then emit (record s { conn = false }) close_connection else s in
    let down = record closed {
      reconnecting = true;
      logon_timer = false;
      inbound_timer = false;
      heartbeat_timer = false;
      logout_timer = false;
      state = disconnected;
      write_inflight = false;
      write_q = [];
      recovery_cache = RecoveryCache.clear s.recovery_cache;
    } in
    if (is_state s.state disconnected || s.stopped) || s.reconnecting
    then s
    else emit down reconnect

-- The completion of a read or a write with an error: again, or the connection is lost.
unfoldable pub on_io_error : (Session → Option Session) → Session → ErrorCode → Option Session
on_io_error again s operation_aborted = some s
on_io_error again s ec = if s.stopped then some s else elim (classify_readwrite_error ec) [
  | transient ↦ again s
  | permanent ↦ some (on_transport_down s)
  | canceled ↦ some (on_transport_down s)
]

-- The timers, fired: the handlers without an error code.
unfoldable pub on_logon_timeout : Session → SessionState → Session
on_logon_timeout s expected_state =
    if s.stopped then s else if is_state s.state expected_state then stop s else s

unfoldable pub on_logout_timeout : Session → Session
on_logout_timeout s = if s.stopped then s else stop s

unfoldable pub on_heartbeat_timer : Session → Option Session
on_heartbeat_timer s =
    if s.stopped then some s else (send_heartbeat s [] >>= λ s1. some (schedule_heartbeat s1))

unfoldable pub on_inbound_timer : Session → Option Session
on_inbound_timer s =
    let id = codes "TESTREQ_" ++ to_chars s.test_req_id in
    let asking = record s {
      awaiting_test_request_response = true;
      test_req_id = (s.test_req_id + 1) % 2 ^ 64;
    } in
    if s.stopped
    then some s
    else if s.awaiting_test_request_response
    then stop_with_logout s (codes "No response to Test Request")
    else (send_test_request asking id >>= λ s1. some (schedule_test_request_timeout s1))

module _ (validate : Validate) where
  -- The messages that the framer has complete, one after the other.
  unfoldable pub process_all : Session → List Bytes → Option Session
  process_all s [] = some s
  process_all s (msg ∷ rest) = process_wire_message validate s msg >>= λ s1. process_all s1 rest

  -- The completion of a read after which the framer has these messages.
  unfoldable pub on_read : Session → List Bytes → Option Session
  on_read s msgs = if s.stopped then some s else (process_all s msgs >>= do_read)
