-- ===== src/Session/History.antt =====
-- How often a session asks for a reconnection and closes a connection, and the events that give it
-- another one.
use fix_engine.Prelude.{ℕ, ◌+◌, ◌≡◌, ◌≤◌, refl, Bool, true, false, not, ◌&&◌, List, [], ◌∷◌, arith}
use fix_engine.Prelude.Counts.{one_if}
use fix_engine.Definitions.{SessionId}
use fix_engine.Session.State.{Effect, write_some, read_some, close_connection, reconnect, deliver}
use fix_engine.Session.Events.{Event, connected, restart_asked}

-- How often a reconnection was asked for, and how often a connection was closed.
abbrev pub reconnects : List Effect → ℕ
reconnects [] = 0
reconnects (reconnect ∷ es) = 1 + reconnects es
reconnects (write_some _ ∷ es) = reconnects es
reconnects (read_some ∷ es) = reconnects es
reconnects (close_connection ∷ es) = reconnects es
reconnects (deliver _ ∷ es) = reconnects es

abbrev pub closes : List Effect → ℕ
closes [] = 0
closes (close_connection ∷ es) = 1 + closes es
closes (write_some _ ∷ es) = closes es
closes (read_some ∷ es) = closes es
closes (reconnect ∷ es) = closes es
closes (deliver _ ∷ es) = closes es

-- Whose the session is, the restarts and the connections that it was given, and what it may have asked
-- for before its effects were recorded.
pub record Past : Type 0 where
  pub owner : SessionId
  pub restarts : ℕ
  pub connections : ℕ
  pub earlier : ℕ

-- A session that is reconnecting has asked for it, once for each restart and once more; a connection
-- that a running session has is one that it has not closed.
pub record History (o : Past) (asked closed : ℕ) (conn stopped reconnecting : Bool) : Type 0 where
  pub asked_least : one_if reconnecting ≤ asked + o.earlier
  pub asked_most : asked ≤ o.restarts + one_if reconnecting
  pub closed_most : closed + one_if (conn && not stopped) ≤ o.connections

abbrev pub restarts_it : Event → Bool
restarts_it restart_asked = true
restarts_it _ = false

abbrev pub connects_it : Event → Bool
connects_it connected = true
connects_it _ = false

-- How many of the events are restarts, and how many give the session a connection.
abbrev pub restarts : List Event → ℕ
restarts [] = 0
restarts (e ∷ rest) = one_if (restarts_it e) + restarts rest

abbrev pub connections : List Event → ℕ
connections [] = 0
connections (e ∷ rest) = one_if (connects_it e) + connections rest

-- What the session was given, one more event on, and a list of events on.
abbrev pub after : Past → Event → Past
after o e = record o {
  restarts = o.restarts + one_if (restarts_it e);
  connections = o.connections + one_if (connects_it e);
}

abbrev pub after_all : Past → List Event → Past
after_all o events = record o {
  restarts = o.restarts + restarts events;
  connections = o.connections + connections events;
}

pub one_if_most : (b : Bool) → one_if b ≤ 1
one_if_most true = omega arith
one_if_most false = omega arith

-- A stop, or a loss of the connection, closes the connection that a running session has.
pub closing :
    (conn stopped : Bool) (n k : ℕ)
    → conn ≡ true
    → stopped ≡ false
    → n + one_if (conn && not stopped) ≤ k
    → 1 + n ≤ k
closing conn stopped n k c h le = ground (arith, le)

pub no_more : (conn stopped : Bool) (n k : ℕ) → n + one_if (conn && not stopped) ≤ k → n ≤ k
no_more conn stopped n k le = omega (arith, le)

pub not_open : (conn : Bool) → one_if (conn && false) ≡ 0
not_open true = refl
not_open false = refl
