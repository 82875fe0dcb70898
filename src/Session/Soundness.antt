-- ===== src/Session/Soundness.antt =====
-- What every handler of a session keeps: the recovery cache is well formed, a queue with something in
-- it has a write under way, and a stopped session has none. The children: Admin (the
-- admin messages received), Sending (what is sent, a stop), Lifecycle (start, loss, timers),
-- Received (any message received), Run (the events).
pub mod Sending
pub mod Admin
pub mod Received
pub mod Lifecycle
pub mod Run
use fix_engine.Prelude.{
  ℕ, zero, suc, ◌+◌, ◌-◌, ◌%◌, ◌^◌, ◌≡◌, ◌≤◌, refl, sym, ◌∙◌, subst, Bool, true, false, not, ◌&&◌,
  List, [], ◌∷◌, ◌++◌, Bytes, Option, none, some, arith, if◌then◌else◌, ltb, ◌>>=◌, Bool-cases, inl,
  inr,
}
use fix_engine.Prelude.Counts.{one_if}
use fix_engine.Chars.{codes, find_str}
use fix_engine.Definitions.{SessionId, Role, initiator, acceptor, next_in, next_out}
use fix_engine.Message.{FieldView, find_field}
use fix_engine.MessageFactory
use fix_engine.MessageFactory.{Factory, GenericField}
use fix_engine.MessageStore
use fix_engine.MessageStore.Resend.{ResendAction, all_actions}
use fix_engine.RecoveryCache
use fix_engine.RecoveryCache.Invariant.{IsValid}
use fix_engine.Session.State.{
  Session, Effect, write_some, read_some, close_connection, reconnect, deliver, PendingWrite,
  is_running,
}
use fix_engine.Session.History.{
  Past, History, reconnects, closes, one_if_most, closing, no_more, not_open,
}
use fix_engine.Session.Io.{
  write_front, do_write, send_bytes, keep_alive, send_message, do_read, advance, on_written,
  schedule_heartbeat, schedule_test_request_timeout,
}
use fix_engine.Session.Send.{
  send_built, send_logon, send_reject, send_logout, send_heartbeat, send_test_request,
  send_resend_request, send_custom, send_sequence_reset_gap_fill, send_from_app, stop_with_logout,
}
use fix_engine.Session.Handlers.{
  stop, activate, answer_logon, validate_heartbeat_int, handle_logon, handle_logout,
  handle_heartbeat, handle_test_request, resend, resend_all, handle_resend_request,
  handle_sequence_reset, handle_reject, handle_custom, is_initiator, flag, number_or_zero,
  readable_id,
}

pub record Sound (cache : RecoveryCache.RecoveryCache) (write_inflight : Bool)
    (write_q : List PendingWrite) (stopped : Bool) : Type 0 where
  pub cache_valid : IsValid cache
  pub no_leftover : write_inflight ≡ false → write_q ≡ []
  pub quiet : stopped ≡ true → write_inflight ≡ false

abbrev pub IsSound : Session → Type 0
IsSound s = Sound s.recovery_cache s.write_inflight s.write_q s.stopped

-- The same as `Sound` of a session that has an owner's id and a history.
pub record Kept (o : Past) (id : SessionId) (cache : RecoveryCache.RecoveryCache)
    (write_inflight : Bool) (write_q : List PendingWrite) (conn stopped reconnecting : Bool)
    (asked closed : ℕ) : Type 0 where
  pub same_id : id ≡ o.owner
  pub cache_valid : IsValid cache
  pub no_leftover : write_inflight ≡ false → write_q ≡ []
  pub quiet : stopped ≡ true → write_inflight ≡ false
  pub history : History o asked closed conn stopped reconnecting

abbrev pub Stays : Past → Session → Type 0
Stays o s =
    Kept o s.id s.recovery_cache s.write_inflight s.write_q s.conn s.stopped s.reconnecting
      (reconnects s.effects) (closes s.effects)

pub Stays-IsSound : {o : Past} (s : Session) → Stays o s → IsSound s
Stays-IsSound s i = record {
  cache_valid = i.cache_valid;
  no_leftover = i.no_leftover;
  quiet = i.quiet;
}

abbrev pub past_of : Session → Past
past_of s = record {
  owner = s.id;
  restarts = reconnects s.effects;
  connections = closes s.effects + 1;
  earlier = 1;
}

pub IsSound-Stays : (s : Session) → IsSound s → Stays (past_of s) s
IsSound-Stays s i = record {
  same_id = refl;
  cache_valid = i.cache_valid;
  no_leftover = i.no_leftover;
  quiet = i.quiet;
  history = record {
    asked_least = omega (arith, one_if_most s.reconnecting);
    asked_most = omega arith;
    closed_most = omega (arith, one_if_most (s.conn && not s.stopped));
  };
}

-- The outcome, if there is one, is sound, and has the owner's id.
abbrev pub Ends : Past → Option Session → Type 0
Ends o none = Unit
Ends o (some s) = Stays o s

pub Ends-then :
    {o : Past} (m : Option Session) (f : Session → Option Session)
    → Ends o m
    → ((s : Session) → Stays o s → Ends o (f s))
    → Ends o (m >>= f)
Ends-then none f i step = tt
Ends-then (some s) f i step = step s i

-- The same behind a step that gives something else.
pub Ends-with :
    (o : Past) {A : Type 0} (m : Option A) (f : A → Option Session)
    → ((a : A) → m ≡ some a → Ends o (f a))
    → Ends o (m >>= f)
Ends-with o none f step = tt
Ends-with o (some a) f step = step a refl

pub Ends-if :
    (o : Past) (b : Bool) (x y : Option Session)
    → (b ≡ true → Ends o x)
    → (b ≡ false → Ends o y)
    → Ends o (if b then x else y)
Ends-if o true x y i j = i refl
Ends-if o false x y i j = j refl

pub Stays-if :
    {o : Past} (b : Bool) (x y : Session)
    → (b ≡ true → Stays o x)
    → (b ≡ false → Stays o y)
    → Stays o (if b then x else y)
Stays-if true x y i j = i refl
Stays-if false x y i j = j refl
