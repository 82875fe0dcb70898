-- ===== src/Session/Events.antt =====
-- The entry points of a session, as events that its strand runs one after the other: the handlers
-- posted by the application and the pool, and the completions of reads, writes and timers.
use fix_engine.Prelude.{ℕ, Bool, true, false, List, [], ◌∷◌, Bytes, Option, some, ◌>>=◌}
use fix_engine.MessageFactory.{GenericField}
use fix_engine.Session.State.{Session, SessionState}
use fix_engine.Session.Io.{ErrorCode, do_read, do_write, on_written}
use fix_engine.Session.Send.{send_from_app, stop_with_logout}
use fix_engine.Session.Handlers.{stop}
use fix_engine.Session.Dispatch.{Validate}
use fix_engine.Session.Lifecycle.{
  set_connection, start_normal, start_after_reconnect, on_io_error, on_logon_timeout,
  on_logout_timeout, on_heartbeat_timer, on_inbound_timer, on_read,
}

pub data Event : Type 0 where
  app_message : List GenericField → Bytes → Event
  stop_asked : Event
  logout_asked : Bytes → Event
  connected : Event
  start_asked : Event
  restart_asked : Event
  messages_read : List Bytes → Event
  read_failed : ErrorCode → Event
  bytes_written : ℕ → Event
  write_failed : ErrorCode → Event
  logon_due : SessionState → Event
  logout_due : Event
  heartbeat_due : Event
  inbound_due : Event

module _ (validate : Validate) where
  unfoldable pub run : Session → Event → Option Session
  run s (app_message message msg_type) = send_from_app s message msg_type
  run s stop_asked = some (stop s)
  run s (logout_asked reason) = stop_with_logout s reason
  run s connected = some (set_connection s)
  run s start_asked = start_normal s
  run s restart_asked = start_after_reconnect s
  run s (messages_read msgs) = on_read validate s msgs
  run s (read_failed ec) = on_io_error do_read s ec
  run s (bytes_written n) = on_written s n
  run s (write_failed ec) = on_io_error do_write s ec
  run s (logon_due expected_state) = some (on_logon_timeout s expected_state)
  run s logout_due = some (on_logout_timeout s)
  run s heartbeat_due = on_heartbeat_timer s
  run s inbound_due = on_inbound_timer s

  unfoldable pub run_all : Session → List Event → Option Session
  run_all s [] = some s
  run_all s (e ∷ rest) = run s e >>= λ s1. run_all s1 rest

-- The events that begin a connection: the pool posts them while it has the session.
unfoldable pub begins : Event → Bool
begins connected = true
begins start_asked = true
begins _ = false
