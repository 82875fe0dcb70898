-- ===== src/Session/Connection.antt =====
-- The reconnections that a session asks for and the connections that it closes, a stop, and the
-- heartbeat interval that a logon agrees on.
use fix_engine.Prelude.{
  ℕ, ◌≡◌, ◌≤◌, ◌+◌, ◌^◌, refl, Bool, true, false, not, ◌&&◌, ◌||◌, List, [], ◌∷◌, Bytes, Option,
  none, some, arith, if◌then◌else◌, ltb, ◌==◌, Bool-cases, inl, inr,
}
use fix_engine.Prelude.Counts.{one_if}
use fix_engine.Definitions.{Role, SessionId, SessionParameters}
use fix_engine.Session.State.{Session, new_session, disconnected, close_connection}
use fix_engine.Session.Dispatch.{Validate}
use fix_engine.Session.Events.{Event, run_all}
use fix_engine.Session.History.{reconnects, closes, restarts, connections}
use fix_engine.Session.Soundness.Run.{run_all-Stays}
use fix_engine.Session.Handlers.{stop, number_or_zero, validate_heartbeat_int}

-- Whatever events a session has run since its construction, in any order and with any validator: it
-- has asked for no more reconnections than it was restarted, or one more while it is reconnecting, and
-- then for one at least; and it has closed no more connections than it was given, and fewer while it
-- has one and has not stopped.
pub run_all_once :
    (validate : Validate) (id : SessionId) (role : Role) (params : SessionParameters)
    (events : List Event) (s : Session)
    → run_all validate (new_session id role params) events ≡ some s
    → (reconnects s.effects ≤ restarts events + one_if s.reconnecting)
      × (one_if s.reconnecting ≤ reconnects s.effects)
      × (closes s.effects + one_if (s.conn && not s.stopped) ≤ connections events)
run_all_once validate id role params events s e =
    let past = (run_all-Stays validate id role params events s e).history in
    (past.asked_most, omega (arith, past.asked_least), past.closed_most)

-- A stop stops for good: the session is disconnected, nothing is queued, a connection is closed once,
-- and a second stop changes nothing.
pub stop_twice :
    (s : Session)
    → s.stopped ≡ false
    → ((stop s).stopped ≡ true)
      × ((stop s).state ≡ disconnected)
      × ((stop s).write_q ≡ [])
      × ((stop s).effects ≡ (if s.conn then close_connection ∷ s.effects else s.effects))
      × (stop (stop s) ≡ stop s)
unfolding stop
stop_twice s h = elim (Bool-cases s.conn) [
  | inl c ↦ rw (h, c) (refl, refl, refl, refl, refl)
  | inr c ↦ rw (h, c) (refl, refl, refl, refl, refl)
]

-- The same tests on the number read.
interval :
    (received own hb : ℕ) (is_initiator : Bool)
    → (outcome : Option ℕ)
    → outcome ≡ (
        if is_initiator && not (received == own)
        then none
        else if ltb received 10 || ltb 120 received
        then none
        else some received)
    → (outcome ≡ some hb
        → (received ≡ hb) × (10 ≤ hb) × (hb ≤ 120) × (is_initiator ≡ true → hb ≡ own))
      × (received ≡ hb → 10 ≤ hb → hb ≤ 120 → (is_initiator ≡ true → hb ≡ own) → outcome ≡ some hb)
interval received own hb true outcome e = (λ e'. ground arith, λ e' lo hi h. ground (arith, h refl))
interval received own hb false outcome e =
    (λ e'. (ground arith, ground arith, ground arith, λ no. cc), λ e' lo hi h. ground arith)

-- An interval is accepted exactly if it lies between 10 and 120 and, by an initiator, is its own;
-- the interval accepted is the one received.
pub validate_heartbeat_int_lem :
    (params : SessionParameters) (value : Bytes) (is_initiator : Bool) (hb : ℕ)
    → let received = number_or_zero (2 ^ 32) value in
      ((validate_heartbeat_int params value is_initiator ≡ some hb)
        → (received ≡ hb)
          × (10 ≤ hb)
          × (hb ≤ 120)
          × (is_initiator ≡ true → hb ≡ params.heart_beat_int))
      × ((received ≡ hb)
          → 10 ≤ hb
          → hb ≤ 120
          → (is_initiator ≡ true → hb ≡ params.heart_beat_int)
          → validate_heartbeat_int params value is_initiator ≡ some hb)
unfolding validate_heartbeat_int
validate_heartbeat_int_lem params value is_initiator hb =
    interval (number_or_zero (2 ^ 32) value) params.heart_beat_int hb is_initiator _ refl
