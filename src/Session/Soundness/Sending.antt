-- ===== src/Session/Soundness/Sending.antt =====
-- The messages sent, the reads and writes asked for, and a stop keep a session sound.
use fix_engine.Prelude.{
  ℕ, ◌+◌, ◌≡◌, ◌≤◌, refl, subst, Bool, true, false, ◌&&◌, List, [], ◌∷◌, Bytes, some, arith,
  Bool-cases, inl, inr,
}
use fix_engine.Prelude.Counts.{one_if}
use fix_engine.Definitions.{SessionId}
use fix_engine.MessageFactory.{Factory, GenericField}
use fix_engine.MessageStore
use fix_engine.RecoveryCache
use fix_engine.RecoveryCache.Invariant.{IsValid}
use fix_engine.Session.State.{Session, PendingWrite, is_running}
use fix_engine.Session.History.{Past, History, reconnects, closing, no_more, not_open}
use fix_engine.Session.Io.{
  write_front, do_write, send_bytes, keep_alive, send_message, do_read, advance, on_written,
  schedule_heartbeat,
}
use fix_engine.Session.Send.{
  send_built, send_logon, send_reject, send_logout, send_heartbeat, send_test_request,
  send_resend_request, send_custom, send_sequence_reset_gap_fill, send_from_app, stop_with_logout,
}
use fix_engine.Session.Handlers.{stop}
use fix_engine.Session.Soundness.{Kept, Stays, Ends, Ends-then, Ends-with, Ends-if, Stays-if}

-- A queue that a write is under way for.
busy :
    {o : Past} {id : SessionId} {c : RecoveryCache.RecoveryCache} {q : List PendingWrite}
    {conn b reconnecting : Bool} {asked closed : ℕ}
    → id ≡ o.owner
    → IsValid c
    → b ≡ false
    → History o asked closed conn b reconnecting
    → Kept o id c true q conn b reconnecting asked closed
busy e v h past = record {
  same_id = e;
  cache_valid = v;
  no_leftover = λ e. cc;
  quiet = λ e. cc;
  history = past;
}

write_front_lem :
    {o : Past} (s : Session) (q : List PendingWrite)
    → s.write_q ≡ q
    → Stays o s
    → Ends o (write_front s q)
unfolding write_front
write_front_lem s [] e i = record {
  same_id = i.same_id;
  cache_valid = i.cache_valid;
  no_leftover = λ _. e;
  quiet = λ _. refl;
  history = i.history;
}
write_front_lem s (front ∷ rest) e i =
    Ends-if _ s.stopped _ _ (λ _. i) λ _. Ends-if _ s.conn _ _ (λ _. i) λ _. tt

pub do_write_lem : {o : Past} (s : Session) → Stays o s → Ends o (do_write s)
unfolding do_write
do_write_lem s i = write_front_lem s s.write_q refl i

send_bytes_lem :
    {o : Past} (s : Session) (bytes : Bytes)
    → s.stopped ≡ false
    → Stays o s
    → Ends o (send_bytes s bytes)
unfolding send_bytes
send_bytes_lem s bytes h i =
    Ends-if _ s.write_inflight _ _
      (λ e. record {
        same_id = i.same_id;
        cache_valid = i.cache_valid;
        no_leftover = λ e'. cc;
        quiet = λ e'. cc;
        history = i.history;
      })
      λ e. do_write_lem _ (busy i.same_id i.cache_valid h i.history)

keep_alive_lem : {o : Past} (s : Session) → Stays o s → Stays o (keep_alive s)
unfolding keep_alive schedule_heartbeat
keep_alive_lem s i = elim (Bool-cases (is_running s.state)) [ inl e ↦ rw e i | inr e ↦ rw e i ]

pub send_message_lem :
    {o : Past} (s : Session) (wire : Bytes) (is_resend : Bool)
    → Stays o s
    → Ends o (send_message s wire is_resend)
unfolding send_message
send_message_lem s wire is_resend i =
    Ends-if _ s.stopped _ _ (λ _. i)
      λ h. Ends-then (send_bytes s wire) _ (send_bytes_lem s wire h i) λ s1 i1.
        Ends-if _ is_resend _ _ (λ _. keep_alive_lem s1 i1)
          λ _.
            Ends-with _ (MessageStore.store_outbound_message s1.store wire) _
              λ store _. keep_alive_lem (record s1 { store = store }) i1

pub do_read_lem : {o : Past} (s : Session) → Stays o s → Ends o (do_read s)
unfolding do_read
do_read_lem s i = Ends-if _ s.stopped _ _ (λ _. i) λ _. Ends-if _ s.conn _ _ (λ _. i) λ _. tt

pub on_written_lem : {o : Past} (s : Session) (n : ℕ) → Stays o s → Ends o (on_written s n)
unfolding on_written advance
on_written_lem s n i =
    Ends-if _ s.stopped _ _ (λ _. i)
      λ h. Ends-with _ (advance s.write_q n) _ λ q e.
        do_write_lem (record s { write_q = q })
          (record {
            same_id = i.same_id;
            cache_valid = i.cache_valid;
            no_leftover = λ idle. absurd (moved idle q e);
            quiet = i.quiet;
            history = i.history;
          })
  where
    nothing : (q : List PendingWrite) → advance [] n ≡ some q → ⊥
    nothing q e = cc

    moved : s.write_inflight ≡ false → (q : List PendingWrite) → advance s.write_q n ≡ some q → ⊥
    moved idle q e = nothing q (subst (λ p. advance p n ≡ some q) (i.no_leftover idle) e)

pub send_built_lem :
    {o : Past} (s : Session) (built : Bytes × Factory) (is_resend : Bool)
    → Stays o s
    → Ends o (send_built s built is_resend)
unfolding send_built
send_built_lem s (wire, f) is_resend i = send_message_lem _ wire is_resend i

pub send_logon_lem : {o : Past} (s : Session) (b : Bool) → Stays o s → Ends o (send_logon s b)
unfolding send_logon
send_logon_lem s b i = send_built_lem s _ false i

pub send_reject_lem :
    {o : Past} (s : Session) (n r t : ℕ) (text : Bytes)
    → Stays o s
    → Ends o (send_reject s n r t text)
unfolding send_reject
send_reject_lem s n r t text i = send_built_lem s _ false i

pub send_logout_lem :
    {o : Past} (s : Session) (reason : Bytes) → Stays o s → Ends o (send_logout s reason)
unfolding send_logout
send_logout_lem s reason i = send_built_lem s _ false i

pub send_heartbeat_lem :
    {o : Past} (s : Session) (id : Bytes) → Stays o s → Ends o (send_heartbeat s id)
unfolding send_heartbeat
send_heartbeat_lem s id i = send_built_lem s _ false i

pub send_test_request_lem :
    {o : Past} (s : Session) (id : Bytes) → Stays o s → Ends o (send_test_request s id)
unfolding send_test_request
send_test_request_lem s id i = send_built_lem s _ false i

pub send_resend_request_lem :
    {o : Past} (s : Session) (m n : ℕ) → Stays o s → Ends o (send_resend_request s m n)
unfolding send_resend_request
send_resend_request_lem s m n i = send_built_lem s _ false i

pub send_custom_lem :
    {o : Past} (s : Session) (payload : Bytes) → Stays o s → Ends o (send_custom s payload)
unfolding send_custom
send_custom_lem s payload i = send_built_lem s _ false i

pub send_gap_fill_lem :
    {o : Past} (s : Session) (m n : ℕ) → Stays o s → Ends o (send_sequence_reset_gap_fill s m n)
unfolding send_sequence_reset_gap_fill
send_gap_fill_lem s m n i = send_built_lem s _ true i

pub send_from_app_lem :
    {o : Past} (s : Session) (msg : List GenericField) (type : Bytes)
    → Stays o s
    → Ends o (send_from_app s msg type)
unfolding send_from_app
send_from_app_lem s msg type i = Ends-if _ s.stopped _ _ (λ _. i) λ _. send_built_lem s _ false i

pub stop_with_logout_lem :
    {o : Past} (s : Session) (reason : Bytes) → Stays o s → Ends o (stop_with_logout s reason)
unfolding stop_with_logout
stop_with_logout_lem s reason i =
    Ends-if _ s.stopped _ _ (λ _. i)
      λ _. Ends-then (send_logout s reason) _ (send_logout_lem s reason i) λ s1 i1. i1

pub stop_lem : {o : Past} (s : Session) → Stays o s → Stays o (stop s)
unfolding stop
stop_lem {o} s i =
    Stays-if s.stopped _ _ (λ _. i)
      λ h.
        Stays-if s.conn _ _
          (λ c. off (gone (closing s.conn s.stopped _ _ c h i.history.closed_most)))
          λ c. off (gone (no_more s.conn s.stopped _ _ i.history.closed_most))
  where
    gone : {n : ℕ} → n ≤ o.connections → n + one_if (s.conn && false) ≤ o.connections
    gone le = omega (arith, le, not_open s.conn)

    off :
        {closed : ℕ}
        → closed + one_if (s.conn && false) ≤ o.connections
        → Kept o s.id s.recovery_cache false [] s.conn true s.reconnecting
            (reconnects s.effects)
            closed
    off le = record {
      same_id = i.same_id;
      cache_valid = i.cache_valid;
      no_leftover = λ _. refl;
      quiet = λ _. refl;
      history = record {
        asked_least = i.history.asked_least;
        asked_most = i.history.asked_most;
        closed_most = le;
      };
    }
