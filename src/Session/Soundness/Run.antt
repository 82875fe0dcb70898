-- ===== src/Session/Soundness/Run.antt =====
-- Every event keeps a session sound, and keeps count of what it asks for, so every session is sound
-- that runs events from its construction.
use fix_engine.Prelude.{◌≡◌, arith, refl, List, [], ◌∷◌, Option, none, some, ◌>>=◌, subst}
use fix_engine.Definitions.{Role, SessionId, SessionParameters}
use fix_engine.RecoveryCache.Invariant.{init-IsValid}
use fix_engine.Session.State.{Session, new_session}
use fix_engine.Session.Io.{do_read, do_write}
use fix_engine.Session.Handlers.{stop}
use fix_engine.Session.Dispatch.{Validate}
use fix_engine.Session.Lifecycle.{on_logon_timeout, on_logout_timeout}
use fix_engine.Session.Events.{
  Event, app_message, stop_asked, logout_asked, connected, start_asked, restart_asked,
  messages_read, read_failed, bytes_written, write_failed, logon_due, logout_due, heartbeat_due,
  inbound_due, run, run_all,
}
use fix_engine.Session.History.{Past, restarts, connections, after, after_all}
use fix_engine.Session.Soundness.Lifecycle.{
  start_normal_lem, more, later, later-Ends, start_after_reconnect_lem, on_io_error_lem,
  on_logon_timeout_lem, on_logout_timeout_lem, on_heartbeat_timer_lem, on_inbound_timer_lem,
  set_connection_lem,
}
use fix_engine.Session.Soundness.Received.{on_read_lem}
use fix_engine.Session.Soundness.{past_of, IsSound, Stays, Stays-IsSound, IsSound-Stays, Ends}
use fix_engine.Session.Soundness.Sending.{
  do_write_lem, do_read_lem, on_written_lem, send_from_app_lem, stop_with_logout_lem, stop_lem,
}

-- What an event leaves, and the events behind it.
one_more :
    (o : Past) (e : Event) (rest : List Event) (m : Option Session) (f : Session → Option Session)
    → Ends (after o e) m
    → ((s : Session) → Stays (after o e) s → Ends (after_all (after o e) rest) (f s))
    → Ends (after_all o (e ∷ rest)) (m >>= f)
one_more o e rest none f i step = tt
one_more o e rest (some s) f i step = again (f s) (step s i)
  where
    again :
        (m : Option Session) → Ends (after_all (after o e) rest) m → Ends (after_all o (e ∷ rest)) m
    again none _ = tt
    again (some t) kept =
        more (after_all (after o e) rest) (after_all o (e ∷ rest)) t refl (omega arith)
          (omega arith) (omega arith) kept

module _ (validate : Validate) where
  run_lem : {o : Past} (s : Session) (e : Event) → Stays o s → Ends (after o e) (run validate s e)
  unfolding run
  run_lem s (app_message message msg_type) i =
      later-Ends _ (app_message message msg_type) _ (send_from_app_lem s message msg_type i)
  run_lem s stop_asked i = later stop_asked (stop s) (stop_lem s i)
  run_lem s (logout_asked reason) i =
      later-Ends _ (logout_asked reason) _ (stop_with_logout_lem s reason i)
  run_lem s connected i = set_connection_lem s i
  run_lem s start_asked i = later-Ends _ start_asked _ (start_normal_lem s i)
  run_lem s restart_asked i = start_after_reconnect_lem s i
  run_lem s (messages_read msgs) i =
      later-Ends _ (messages_read msgs) _ (on_read_lem validate s msgs i)
  run_lem s (read_failed ec) i =
      later-Ends _ (read_failed ec) _ (on_io_error_lem do_read s ec do_read_lem i)
  run_lem s (bytes_written n) i = later-Ends _ (bytes_written n) _ (on_written_lem s n i)
  run_lem s (write_failed ec) i =
      later-Ends _ (write_failed ec) _ (on_io_error_lem do_write s ec do_write_lem i)
  run_lem s (logon_due state) i =
      later (logon_due state) (on_logon_timeout s state) (on_logon_timeout_lem s state i)
  run_lem s logout_due i = later logout_due (on_logout_timeout s) (on_logout_timeout_lem s i)
  run_lem s heartbeat_due i = later-Ends _ heartbeat_due _ (on_heartbeat_timer_lem s i)
  run_lem s inbound_due i = later-Ends _ inbound_due _ (on_inbound_timer_lem s i)

  run_all-Ends :
      (events : List Event) {o : Past} (s : Session)
      → Stays o s
      → Ends (after_all o events) (run_all validate s events)
  unfolding run_all
  run_all-Ends [] {o} s i = more o _ s refl (omega arith) (omega arith) (omega arith) i
  run_all-Ends (e ∷ rest) {o} s i =
      one_more o e rest (run validate s e) (λ s1. run_all validate s1 rest) (run_lem s e i)
        (run_all-Ends rest)

-- What a session runs leaves it sound, under the id that it had.
pub run-keeps :
    (validate : Validate) (s t : Session) (e : Event)
    → IsSound s
    → run validate s e ≡ some t
    → IsSound t × (t.id ≡ s.id)
run-keeps validate s t e i ran =
    let kept : Stays (after (past_of s) e) t =
      subst (Ends (after (past_of s) e)) ran (run_lem validate s e (IsSound-Stays s i)) in
    (Stays-IsSound t kept, kept.same_id)

pub new_session-IsSound :
    (id : SessionId) (role : Role) (params : SessionParameters)
    → IsSound (new_session id role params)
unfolding new_session
new_session-IsSound id role params = record {
  cache_valid = init-IsValid;
  no_leftover = λ _. refl;
  quiet = λ _. refl;
}

pub run_all-Stays :
    (validate : Validate) (id : SessionId) (role : Role) (params : SessionParameters)
    (events : List Event) (s : Session)
    → run_all validate (new_session id role params) events ≡ some s
    → Stays
        (record {
          owner = id;
          restarts = restarts events;
          connections = connections events;
          earlier = 0;
        })
        s
unfolding new_session
run_all-Stays validate id role params events s e =
    let start : Past = record { owner = id; restarts = 0; connections = 0; earlier = 0 } in
    let first : Stays start (new_session id role params) = record {
      same_id = refl;
      cache_valid = init-IsValid;
      no_leftover = λ _. refl;
      quiet = λ _. refl;
      history = record {
        asked_least = omega arith;
        asked_most = omega arith;
        closed_most = omega arith;
      };
    } in
    more (after_all start events) _ s refl (omega arith) (omega arith) (omega arith) (
      subst (Ends (after_all start events)) e
        (run_all-Ends validate events (new_session id role params) first))

-- Whatever events a session has run since its construction, in any order and with any validator: its
-- recovery cache is well formed, its write queue holds nothing while no write is under way, and no
-- write is under way once it has stopped.
pub run_all-IsSound :
    (validate : Validate) (id : SessionId) (role : Role) (params : SessionParameters)
    (events : List Event) (s : Session)
    → run_all validate (new_session id role params) events ≡ some s
    → IsSound s
run_all-IsSound validate id role params events s e =
    Stays-IsSound s (run_all-Stays validate id role params events s e)
