-- ===== src/Session/Tests.antt =====
-- The laws of a session at the session of an initiator that is logged on, or of a new acceptor.
use fix_engine.Prelude.{
  ℕ, ◌+◌, ◌≡◌, ◌≤◌, ◌<◌, refl, ◌∙◌, ap, true, false, not, ◌&&◌, List, [], ◌∷◌, ◌++◌, Bytes, none,
  some, arith, ◌==◌, if◌then◌else◌, length, drop,
}
use fix_engine.Chars.{
  codes, to_chars, to_chars_int64, digits_before, scan_digits, from_chars, index_of, same,
}
use fix_engine.Definitions.{initiator, acceptor, SessionId, default_parameters}
use fix_engine.FactoryScratch.View.{field}
use fix_engine.MessageFactory.{Factory, resend_request}
use fix_engine.MessageFactory.WellFormed.{wire_of, resend_request_lem}
use fix_engine.MessageStore.{
  MsgIndex, new_index, create_message_index, scan_index, scan_round, note_field,
  min_blob_buffer_grow_size,
}
use fix_engine.MessageStore.Store.{init-IsValid, message_at}
use fix_engine.FactoryScratch
use fix_engine.MessageStore
use fix_engine.RecoveryCache
use fix_engine.RecoveryCache.Map.{start_lem, get-none}
use fix_engine.RecoveryCache.Invariant.{IsValid, start-IsValid}
use fix_engine.Session.State.{
  Session, awaiting_logon, active, recovering_resend, disconnected, new_session, is_state,
  read_some, reconnect, close_connection,
}
use fix_engine.Session.Io.{
  eof, classify_readwrite_error, send_message, on_written, do_read, schedule_logon_timeout,
}
use fix_engine.Session.Send.{send_resend_request, send_built}
use fix_engine.Validator.Result.{na}
use fix_engine.Session.Dispatch.{Validate, sequence}
use fix_engine.Session.Lifecycle.{
  set_connection, start_normal, handshake_normal, await_logon, on_transport_down, on_io_error,
  start_after_reconnect, handshake_again,
}
use fix_engine.Session.Events.{
  Event, read_failed, write_failed, restart_asked, connected, start_asked, messages_read, begins,
  run, run_all,
}
use fix_engine.Session.Stopped.{run_stopped}
use fix_engine.Prelude.Counts.{one_if}
use fix_engine.Session.Connection.{run_all_once}
use fix_engine.Session.History.{reconnects, closes, restarts, connections}
use fix_engine.Session.Soundness.{IsSound}
use fix_engine.Session.Soundness.Run.{run_all-IsSound}
use fix_engine.Session.Recovery.{
  sequence_keeps_ahead, sequence_starts_recovery, sequence_gap_too_long,
}
use fix_engine.Session.Queue.{pending, on_written_in_order, send_message_queues}

abbrev peer : SessionId
peer = record { storage_index = 0; id = 1 }

-- A session that is logged on and has a connection.
abbrev logged_on : Session
logged_on = record (new_session peer initiator default_parameters) { conn = true; state = active }

abbrev factory0 : Factory
factory0 = record { scratch = logged_on.scratch; seq_provider = logged_on.seq_provider }

abbrev request_wire : Bytes
request_wire =
    wire_of default_parameters factory0 (codes "2")
      (field 7 (to_chars_int64 1) ++ field 16 (to_chars_int64 2))

abbrev request_index : MsgIndex
request_index = record (new_index 0 78) {
  seq = 1;
  off_34 = some 23;
  off_52 = some 58;
  len_34 = 1;
  len_52 = 3;
  msg_type = b'2' ∷ 0 ∷ [];
  msg_size = 1;
}

request_lem : (resend_request default_parameters factory0 1 2).0 ≡ request_wire
unfolding to_chars_int64 to_chars digits_before new_session
request_lem = resend_request_lem default_parameters factory0 1 2 (omega arith, omega arith)

request_size : length request_wire ≡ 78
unfolding new_session to_chars_int64 to_chars digits_before FactoryScratch.sum
request_size = refl

request-indexed : create_message_index request_wire 0 ≡ some request_index
unfolding new_session create_message_index scan_index scan_round note_field same index_of from_chars
    scan_digits to_chars_int64 to_chars digits_before FactoryScratch.sum
request-indexed = refl

send_message_example :
    (t : Session) × (send_message logged_on request_wire false ≡ some t)
    × (pending t.write_q ≡ pending logged_on.write_q ++ request_wire)
    × (t.write_inflight ≡ true)
    × (message_at t.store (length logged_on.store.outbound_index + 1) ≡ some request_wire)
    × ((n : ℕ)
        → 0 < n
        → n ≤ length logged_on.store.outbound_index
        → message_at t.store n ≡ message_at logged_on.store n)
unfolding new_session MessageStore.init
send_message_example =
    send_message_queues logged_on request_wire request_index refl (λ _. refl) init-IsValid
      (omega (arith, request_size)) request-indexed refl

-- A write under way of which two bytes are written.
abbrev writing : Session
writing = record logged_on {
  write_q =
      record { bytes = codes "abcde"; sent = 2 } ∷ record { bytes = codes "fg"; sent = 0 } ∷ [];
  write_inflight = true;
}

on_written_example :
    (t : Session) × (on_written writing 3 ≡ some t)
    × (pending t.write_q ≡ drop 3 (pending writing.write_q))
unfolding new_session
on_written_example = on_written_in_order writing _ _ 3 refl refl refl (omega arith)

-- A validator that finds no fault.
abbrev lenient : Validate
lenient _ _ = record { severity = na; errors = [] }

abbrev ended : Session
ended = record logged_on { stopped = true; state = disconnected }

stopped_example : run lenient ended (messages_read (codes "8=FIX" ∷ [])) ≡ some ended
unfolding begins
stopped_example = run_stopped lenient ended (messages_read (codes "8=FIX" ∷ [])) refl refl

-- A new acceptor that is started.
abbrev acceptor_started : Session
acceptor_started = record (new_session peer acceptor default_parameters) {
  conn = true;
  state = awaiting_logon;
  logon_timer = true;
  effects = read_some ∷ [];
}

acceptor_starts :
    run_all lenient (new_session peer acceptor default_parameters) (connected ∷ start_asked ∷ [])
    ≡ some acceptor_started
unfolding run_all run set_connection start_normal do_read handshake_normal await_logon
    schedule_logon_timeout new_session
acceptor_starts = refl

run_all_example : IsSound acceptor_started
run_all_example =
    run_all-IsSound lenient peer acceptor default_parameters (connected ∷ start_asked ∷ [])
      acceptor_started acceptor_starts

-- An acceptor that is started, loses its connection, is restarted and loses the next one.
abbrev two_losses : List Event
two_losses =
    connected ∷ start_asked ∷ read_failed eof ∷ connected ∷ restart_asked ∷ write_failed eof ∷ []

abbrev lost_twice : Session
lost_twice = record (new_session peer acceptor default_parameters) {
  recovery_cache =
      RecoveryCache.clear (RecoveryCache.clear (RecoveryCache.clear RecoveryCache.init));
  reconnecting = true;
  effects =
      reconnect ∷ close_connection ∷ read_some ∷ reconnect ∷ close_connection ∷ read_some ∷ [];
}

twice_lost :
    run_all lenient (new_session peer acceptor default_parameters) two_losses ≡ some lost_twice
unfolding run_all run set_connection start_normal do_read handshake_normal await_logon
    schedule_logon_timeout new_session on_io_error classify_readwrite_error on_transport_down
    is_state start_after_reconnect handshake_again
twice_lost = refl

run_all_once_example :
    (reconnects lost_twice.effects ≤ restarts two_losses + one_if lost_twice.reconnecting)
    × (one_if lost_twice.reconnecting ≤ reconnects lost_twice.effects)
    × (closes lost_twice.effects + one_if (lost_twice.conn && not lost_twice.stopped)
        ≤ connections two_losses)
run_all_once_example =
    run_all_once lenient peer acceptor default_parameters two_losses lost_twice twice_lost

-- The session that is logged on, in recovery, its cache started at 1.
abbrev recovering : Session
recovering = record logged_on {
  state = recovering_resend;
  recovery_cache = RecoveryCache.start RecoveryCache.init 1;
}

recovering-window :
    (RecoveryCache.in_window recovering.recovery_cache 3 ≡ true)
    × (RecoveryCache.contains recovering.recovery_cache 3 ≡ false)
recovering-window =
    let (_, blank, window, _) = start_lem RecoveryCache.init 1 3 in
    (window, get-none (RecoveryCache.start RecoveryCache.init 1) 3 blank)

keeps_ahead_example :
    (c : RecoveryCache.RecoveryCache) × (sequence recovering (codes "0") 3 false [] (codes "8=")
      ≡ some (record recovering { recovery_cache = c }))
    × IsValid c
    × ((k : ℕ)
        → RecoveryCache.get c k
          ≡ (if k == 3 then some (codes "8=") else RecoveryCache.get recovering.recovery_cache k))
unfolding new_session is_state
keeps_ahead_example =
    sequence_keeps_ahead recovering (codes "0") 3 false [] (codes "8=")
      (start-IsValid RecoveryCache.init 1) refl (omega arith) recovering-window.0
      recovering-window.1 (omega arith)

gap_too_long_example : sequence logged_on (codes "0") 600 false [] (codes "8=") ≡ none
unfolding new_session is_state
gap_too_long_example =
    sequence_gap_too_long logged_on (codes "0") 600 false [] (codes "8=") refl (omega arith)

-- The session once the resend request for 1 to 2 is sent.
asked : (t : Session) × (send_resend_request logged_on 1 2 ≡ some t)
unfolding new_session send_resend_request send_built MessageStore.init
asked =
    let f = (resend_request default_parameters factory0 1 2).1 in
    let (t, runs, _, _, _, _) =
      send_message_queues (record logged_on { scratch = f.scratch; seq_provider = f.seq_provider })
        (resend_request default_parameters factory0 1 2).0 request_index refl (λ _. refl)
        init-IsValid (omega (arith, ap length request_lem, request_size))
        (ap (λ w. create_message_index w 0) request_lem ∙ request-indexed) refl in
    (t, runs)

starts_recovery_example :
    (c : RecoveryCache.RecoveryCache) × (sequence logged_on (codes "0") 3 false [] (codes "8=")
      ≡ some (record (asked.0) { state = recovering_resend; recovery_cache = c }))
    × IsValid c
    × ((k : ℕ) → RecoveryCache.get c k ≡ (if k == 3 then some (codes "8=") else none))
unfolding new_session is_state
starts_recovery_example =
    sequence_starts_recovery logged_on asked.0 (codes "0") 3 false [] (codes "8=") refl
      (omega arith) (omega arith) (omega arith) asked.1
