-- ===== src/Session/Soundness/Lifecycle.antt =====
-- The start, the loss of the connection and the timers keep a session sound.
use fix_engine.Prelude.{
  ℕ, ◌≡◌, ◌≤◌, ◌+◌, arith, refl, ◌∙◌, Bool, true, false, not, ◌&&◌, ◌||◌, [], Option, none, some,
  if◌then◌else◌, subst, if_either,
}
use fix_engine.Prelude.Counts.{one_if}
use fix_engine.Chars.{same}
use fix_engine.Definitions.{Role, initiator, acceptor, reset}
use fix_engine.RecoveryCache
use fix_engine.RecoveryCache.Invariant.{clear-IsValid}
use fix_engine.Session.State.{
  Session, SessionState, is_state, disconnected, awaiting_logon, logon_sent, emit, reconnect,
  close_connection,
}
use fix_engine.Session.Io.{
  ErrorCode, operation_aborted, eof, would_block, try_again, timed_out, not_connected,
  connection_reset, connection_aborted, broken_pipe, network_down, network_unreachable,
  host_unreachable, bad_descriptor, other, RetryClass, permanent, transient, canceled, do_read,
  schedule_test_request_timeout, schedule_heartbeat, schedule_logon_timeout,
}
use fix_engine.Session.Send.{send_logon}
use fix_engine.Session.Lifecycle.{
  set_connection, await_logon, handshake_normal, start_normal, handshake_again,
  start_after_reconnect, on_transport_down, on_io_error, on_logon_timeout, on_logout_timeout,
  on_heartbeat_timer, on_inbound_timer,
}
use fix_engine.Session.Events.{Event, connected, restart_asked}
use fix_engine.Session.History.{Past, reconnects, closes, one_if_most, closing, no_more, after}
use fix_engine.Session.Soundness.{Kept, Stays, Ends, Ends-then, Ends-if, Stays-if}
use fix_engine.Session.Soundness.Sending.{
  do_read_lem, send_logon_lem, send_heartbeat_lem, send_test_request_lem, stop_with_logout_lem,
  stop_lem,
}

await_logon_lem :
    {o : Past} (s : Session) (state : SessionState) → Stays o s → Stays o (await_logon s state)
unfolding await_logon schedule_logon_timeout
await_logon_lem s state i = i

handshake_normal_lem :
    {o : Past} (s : Session) (role : Role) → Stays o s → Ends o (handshake_normal s role)
unfolding handshake_normal
handshake_normal_lem {o} s acceptor i = await_logon_lem s awaiting_logon i
handshake_normal_lem {o} s initiator i =
    let fresh = s.params.initiator_reset_on_logon in
    let s1 : Session = if fresh then record s { seq_provider = reset s.seq_provider } else s in
    let i1 : Stays o s1 = Stays-if fresh _ _ (λ _. i) λ _. i in
    Ends-then (send_logon s1 fresh) _ (send_logon_lem s1 fresh i1)
      λ s2 i2. await_logon_lem s2 logon_sent i2

pub start_normal_lem : {o : Past} (s : Session) → Stays o s → Ends o (start_normal s)
unfolding start_normal
start_normal_lem s i =
    Ends-if _ s.conn _ _
      (λ _. Ends-then (do_read s) _ (do_read_lem s i) λ s1 i1. handshake_normal_lem s1 s1.role i1)
      λ _. i

handshake_again_lem :
    {o : Past} (s : Session) (role : Role) → Stays o s → Ends o (handshake_again s role)
unfolding handshake_again
handshake_again_lem s acceptor i = await_logon_lem s awaiting_logon i
handshake_again_lem s initiator i =
    Ends-then (send_logon s false) _ (send_logon_lem s false i)
      λ s1 i1. await_logon_lem s1 logon_sent i1

-- What is kept under one past is kept under one with more of everything.
pub more :
    (o p : Past) (s : Session)
    → o.owner ≡ p.owner
    → o.earlier ≤ p.earlier
    → o.restarts ≤ p.restarts
    → o.connections ≤ p.connections
    → Stays o s
    → Stays p s
more o p s same le_e le_r le_c i = record {
  same_id = i.same_id ∙ same;
  cache_valid = i.cache_valid;
  no_leftover = i.no_leftover;
  quiet = i.quiet;
  history = record {
    asked_least = omega (arith, i.history.asked_least, le_e);
    asked_most = omega (arith, i.history.asked_most, le_r);
    closed_most = omega (arith, i.history.closed_most, le_c);
  };
}

pub later : {o : Past} (e : Event) (s : Session) → Stays o s → Stays (after o e) s
later {o} e s i = more o (after o e) s refl (omega arith) (omega arith) (omega arith) i

pub later-Ends : (o : Past) (e : Event) (m : Option Session) → Ends o m → Ends (after o e) m
later-Ends o e none i = tt
later-Ends o e (some s) i = later e s i

pub start_after_reconnect_lem :
    {o : Past} (s : Session) → Stays o s → Ends (after o restart_asked) (start_after_reconnect s)
unfolding start_after_reconnect
start_after_reconnect_lem s i =
    Ends-if _ (not s.conn || s.stopped) _ _ (λ _. later restart_asked s i)
      λ _.
        Ends-then _ _
          (handshake_again_lem _ s.role (record {
            same_id = i.same_id;
            cache_valid = clear-IsValid s.recovery_cache;
            no_leftover = λ _. refl;
            quiet = λ _. refl;
            history = record {
              asked_least = omega arith;
              asked_most = omega (arith, i.history.asked_most, one_if_most s.reconnecting);
              closed_most = omega (arith, i.history.closed_most);
            };
          }))
          do_read_lem

guards : (a b c : Bool) → ((a || b) || c) ≡ false → (b ≡ false) × (c ≡ false)
guards a b c e = (ground arith, ground arith)

on_transport_down_lem : {o : Past} (s : Session) → Stays o s → Stays o (on_transport_down s)
unfolding on_transport_down
on_transport_down_lem {o} s i =
    Stays-if ((is_state s.state disconnected || s.stopped) || s.reconnecting) _ _ (λ _. i)
      λ g. lost g
  where
    asked_once : s.reconnecting ≡ false → 1 + reconnects s.effects ≤ o.restarts + 1
    asked_once r =
        omega
          (arith, subst (λ b. reconnects s.effects ≤ o.restarts + one_if b) r i.history.asked_most)

    down :
        (conn : Bool) {closed : ℕ}
        → s.reconnecting ≡ false
        → closed + one_if (conn && not s.stopped) ≤ o.connections
        → Kept o s.id
            (RecoveryCache.clear s.recovery_cache)
            false
            []
            conn
            s.stopped
            true
            (1 + reconnects s.effects)
            closed
    down conn r le = record {
      same_id = i.same_id;
      cache_valid = clear-IsValid s.recovery_cache;
      no_leftover = λ _. refl;
      quiet = λ _. refl;
      history = record { asked_least = omega arith; asked_most = asked_once r; closed_most = le };
    }

    -- The session behind the loss, from what is left of the one before.
    lose : Session → Session
    lose t =
        emit
          (record t {
            reconnecting = true;
            logon_timer = false;
            inbound_timer = false;
            heartbeat_timer = false;
            logout_timer = false;
            state = disconnected;
            write_inflight = false;
            write_q = [];
            recovery_cache = RecoveryCache.clear s.recovery_cache;
          })
          reconnect

    lost :
        ((is_state s.state disconnected || s.stopped) || s.reconnecting) ≡ false
        → Stays o (lose (if s.conn then emit (record s { conn = false }) close_connection else s))
    lost g =
        let off = guards (is_state s.state disconnected) s.stopped s.reconnecting g in
        let one_less : s.conn ≡ true → 1 + closes s.effects ≤ o.connections = λ c.
          closing s.conn s.stopped (closes s.effects) o.connections c off.0 i.history.closed_most in
        if_either (λ (t : Session). Stays o (lose t)) s.conn
          (emit (record s { conn = false }) close_connection) s
          (λ c. down false off.1 (omega (arith, one_less c)))
          λ _. down s.conn off.1 i.history.closed_most

pub on_io_error_lem :
    {o : Past} (again : Session → Option Session) (s : Session) (ec : ErrorCode)
    → ((t : Session) → Stays o t → Ends o (again t))
    → Stays o s
    → Ends o (on_io_error again s ec)
unfolding on_io_error
on_io_error_lem {o} again s ec step i = by_code ec
  where
    by_class :
        (c : RetryClass)
        → Ends o (elim c [
          | transient ↦ again s
          | permanent ↦ some (on_transport_down s)
          | canceled ↦ some (on_transport_down s)
        ])
    by_class transient = step s i
    by_class permanent = on_transport_down_lem s i
    by_class canceled = on_transport_down_lem s i

    by_code : (ec : ErrorCode) → Ends o (on_io_error again s ec)
    by_code operation_aborted = i
    by_code eof = Ends-if _ s.stopped _ _ (λ _. i) λ _. by_class _
    by_code would_block = Ends-if _ s.stopped _ _ (λ _. i) λ _. by_class _
    by_code try_again = Ends-if _ s.stopped _ _ (λ _. i) λ _. by_class _
    by_code timed_out = Ends-if _ s.stopped _ _ (λ _. i) λ _. by_class _
    by_code not_connected = Ends-if _ s.stopped _ _ (λ _. i) λ _. by_class _
    by_code connection_reset = Ends-if _ s.stopped _ _ (λ _. i) λ _. by_class _
    by_code connection_aborted = Ends-if _ s.stopped _ _ (λ _. i) λ _. by_class _
    by_code broken_pipe = Ends-if _ s.stopped _ _ (λ _. i) λ _. by_class _
    by_code network_down = Ends-if _ s.stopped _ _ (λ _. i) λ _. by_class _
    by_code network_unreachable = Ends-if _ s.stopped _ _ (λ _. i) λ _. by_class _
    by_code host_unreachable = Ends-if _ s.stopped _ _ (λ _. i) λ _. by_class _
    by_code bad_descriptor = Ends-if _ s.stopped _ _ (λ _. i) λ _. by_class _
    by_code other = Ends-if _ s.stopped _ _ (λ _. i) λ _. by_class _

pub on_logon_timeout_lem :
    {o : Past} (s : Session) (state : SessionState) → Stays o s → Stays o (on_logon_timeout s state)
unfolding on_logon_timeout
on_logon_timeout_lem s state i =
    Stays-if s.stopped _ _ (λ _. i)
      λ _. Stays-if (is_state s.state state) _ _ (λ _. stop_lem s i) λ _. i

pub on_logout_timeout_lem : {o : Past} (s : Session) → Stays o s → Stays o (on_logout_timeout s)
unfolding on_logout_timeout
on_logout_timeout_lem s i = Stays-if s.stopped _ _ (λ _. i) λ _. stop_lem s i

pub on_heartbeat_timer_lem : {o : Past} (s : Session) → Stays o s → Ends o (on_heartbeat_timer s)
unfolding on_heartbeat_timer schedule_heartbeat
on_heartbeat_timer_lem s i =
    Ends-if _ s.stopped _ _ (λ _. i) λ _. Ends-then _ _ (send_heartbeat_lem s [] i) λ s1 i1. i1

pub on_inbound_timer_lem : {o : Past} (s : Session) → Stays o s → Ends o (on_inbound_timer s)
unfolding on_inbound_timer schedule_test_request_timeout
on_inbound_timer_lem s i =
    Ends-if _ s.stopped _ _ (λ _. i)
      λ _.
        Ends-if _ s.awaiting_test_request_response _ _ (λ _. stop_with_logout_lem s _ i)
          λ _. Ends-then _ _ (send_test_request_lem _ _ i) λ s1 i1. i1

pub set_connection_lem :
    {o : Past} (s : Session) → Stays o s → Stays (after o connected) (set_connection s)
unfolding set_connection
set_connection_lem s i = record {
  same_id = i.same_id;
  cache_valid = i.cache_valid;
  no_leftover = i.no_leftover;
  quiet = i.quiet;
  history = record {
    asked_least = i.history.asked_least;
    asked_most = omega (arith, i.history.asked_most);
    closed_most =
        omega
          (arith, one_if_most (not s.stopped), no_more s.conn s.stopped _ _ i.history.closed_most);
  };
}
