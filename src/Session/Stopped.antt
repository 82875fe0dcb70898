-- ===== src/Session/Stopped.antt =====
-- A session that has stopped: `stop_`, and what the handlers do behind it.
use fix_engine.Prelude.{◌≡◌, refl, true, false, Option, some, arith}
use fix_engine.Session.State.{Session}
use fix_engine.Session.Io.{ErrorCode, on_written}
use fix_engine.Session.Send.{send_from_app, stop_with_logout}
use fix_engine.Session.Handlers.{stop}
use fix_engine.Session.Dispatch.{Validate}
use fix_engine.Session.Lifecycle.{
  start_after_reconnect, on_io_error, on_logon_timeout, on_logout_timeout, on_heartbeat_timer,
  on_inbound_timer, on_read,
}
use fix_engine.Session.Events.{
  Event, app_message, stop_asked, logout_asked, connected, start_asked, restart_asked,
  messages_read, read_failed, bytes_written, write_failed, logon_due, logout_due, heartbeat_due,
  inbound_due, run, begins,
}

stop_again : (s : Session) → s.stopped ≡ true → stop s ≡ s
unfolding stop
stop_again s h = rw h refl

on_io_error_stopped :
    (again : Session → Option Session) (s : Session) (ec : ErrorCode)
    → s.stopped ≡ true
    → on_io_error again s ec ≡ some s
unfolding on_io_error
on_io_error_stopped again s ec h = ground (arith, h)

on_logon_timeout_stopped :
    (s : Session) (expected_state : _) → s.stopped ≡ true → on_logon_timeout s expected_state ≡ s
unfolding on_logon_timeout
on_logon_timeout_stopped s expected_state h = rw h refl

on_logout_timeout_stopped : (s : Session) → s.stopped ≡ true → on_logout_timeout s ≡ s
unfolding on_logout_timeout
on_logout_timeout_stopped s h = rw h refl

start_after_reconnect_stopped : (s : Session) → s.stopped ≡ true → start_after_reconnect s ≡ some s
unfolding start_after_reconnect
start_after_reconnect_stopped s h = ground arith

module _ (validate : Validate) where
  -- Behind a stop no event but those that begin a connection changes the session.
  pub run_stopped :
      (s : Session) (e : Event) → begins e ≡ false → s.stopped ≡ true → run validate s e ≡ some s
  unfolding run begins send_from_app stop_with_logout on_read on_written on_heartbeat_timer
      on_inbound_timer
  run_stopped s (app_message message msg_type) b h = rw h refl
  run_stopped s stop_asked b h = rw (stop_again s h) refl
  run_stopped s (logout_asked reason) b h = rw h refl
  run_stopped s connected b h = cc
  run_stopped s start_asked b h = cc
  run_stopped s restart_asked b h = start_after_reconnect_stopped s h
  run_stopped s (messages_read msgs) b h = rw h refl
  run_stopped s (read_failed ec) b h = on_io_error_stopped _ s ec h
  run_stopped s (bytes_written n) b h = rw h refl
  run_stopped s (write_failed ec) b h = on_io_error_stopped _ s ec h
  run_stopped s (logon_due expected_state) b h =
      rw (on_logon_timeout_stopped s expected_state h) refl
  run_stopped s logout_due b h = rw (on_logout_timeout_stopped s h) refl
  run_stopped s heartbeat_due b h = rw h refl
  run_stopped s inbound_due b h = rw h refl
