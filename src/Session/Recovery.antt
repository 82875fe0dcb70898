-- ===== src/Session/Recovery.antt =====
-- Messages out of turn: what the test of the sequence number does with them.
use fix_engine.Prelude.{
  if_yes, if_no, ℕ, ◌+◌, ◌-◌, ◌%◌, ◌^◌, ◌≡◌, ◌≤◌, ◌<◌, refl, ◌∙◌, ap, Bool, true, false, not, ◌&&◌,
  List, Bytes, Option, none, some, arith, if◌then◌else◌, ltb, ◌==◌, length, ◌>>=◌,
}
use fix_engine.Definitions.{next_in}
use fix_engine.Message.{FieldView}
use fix_engine.RecoveryCache
use fix_engine.RecoveryCache.Invariant.{IsValid}
use fix_engine.RecoveryCache.Map.{insert_lem, insert_outside, start_lem, get-none}
use fix_engine.Session.State.{Session, recovering_resend, is_state}
use fix_engine.Session.Send.{send_resend_request}
use fix_engine.Session.Dispatch.{cache_ahead, start_recovery, sequence}

-- The cache once this message is in it.
record Cached (before after : RecoveryCache.RecoveryCache) (n : ℕ) (raw : Bytes) : Type 0 where
  pub valid : IsValid after
  pub holds :
      (k : ℕ)
      → RecoveryCache.get after k ≡ (if k == n then some raw else RecoveryCache.get before k)

cache_ahead_runs :
    (s : Session) (n : ℕ) (raw : Bytes)
    → IsValid s.recovery_cache
    → RecoveryCache.in_window s.recovery_cache n ≡ true
    → RecoveryCache.contains s.recovery_cache n ≡ false
    → 0 < length raw
    → (c : RecoveryCache.RecoveryCache) × (cache_ahead s n raw
        ≡ some (record s { recovery_cache = c }))
      × Cached s.recovery_cache c n raw
unfolding cache_ahead
cache_ahead_runs s n raw v w f l =
    let (c, runs, valid, holds) = insert_lem s.recovery_cache n raw v w f l in
    (
      c,
      if_no (not (RecoveryCache.in_window s.recovery_cache n)) _ _ (ap not w)
          ∙ if_no (RecoveryCache.contains s.recovery_cache n) _ _ f
          ∙ ap (λ m. m >>= λ c. some (record s { recovery_cache = c })) runs,
      record { valid = valid; holds = holds },
    )

-- The branches for a message ahead of its turn.
module _ (s : Session) (type : Bytes) (n : ℕ) (is_dup : Bool) (fields : List FieldView)
    (raw : Bytes) (ahead : next_in s.seq_provider < n) where
  sequence_to_cache :
      is_state s.state recovering_resend ≡ true
      → sequence s type n is_dup fields raw ≡ cache_ahead s n raw
  unfolding sequence
  sequence_to_cache st =
      if_no (n == next_in s.seq_provider) _ _ (ground arith)
      ∙ if_yes (ltb (next_in s.seq_provider) n && is_state s.state recovering_resend) _ _
          (ground arith)

  sequence_to_recovery :
      is_state s.state recovering_resend ≡ false
      → sequence s type n is_dup fields raw ≡ start_recovery s n raw
  unfolding sequence
  sequence_to_recovery st =
      if_no (n == next_in s.seq_provider) _ _ (ground arith)
      ∙ if_no (ltb (next_in s.seq_provider) n && is_state s.state recovering_resend) _ _
          (ground arith)
      ∙ if_yes (ltb (next_in s.seq_provider) n) _ _ (ground arith)

-- During recovery a message ahead of its turn, in the cache's window and not yet in the cache, is
-- kept there under its number; the session is otherwise as it was, and nothing is sent.
pub sequence_keeps_ahead :
    (s : Session) (type : Bytes) (n : ℕ) (is_dup : Bool) (fields : List FieldView) (raw : Bytes)
    → IsValid s.recovery_cache
    → is_state s.state recovering_resend ≡ true
    → next_in s.seq_provider < n
    → RecoveryCache.in_window s.recovery_cache n ≡ true
    → RecoveryCache.contains s.recovery_cache n ≡ false
    → 0 < length raw
    → (c : RecoveryCache.RecoveryCache) × (sequence s type n is_dup fields raw
        ≡ some (record s { recovery_cache = c }))
      × IsValid c
      × ((k : ℕ)
          → RecoveryCache.get c k
            ≡ (if k == n then some raw else RecoveryCache.get s.recovery_cache k))
sequence_keeps_ahead s type n is_dup fields raw v st ahead w f l =
    let (c, runs, kept) = cache_ahead_runs s n raw v w f l in
    (c, sequence_to_cache s type n is_dup fields raw ahead st ∙ runs, kept.valid, kept.holds)

-- What `start_recovery` does once its resend request is sent.
abbrev cached_from : ℕ → ℕ → Bytes → Session → Option Session
cached_from expected n raw s1 =
    let c = RecoveryCache.start s1.recovery_cache expected in
    let s2 = record s1 { state = recovering_resend; recovery_cache = c } in
    if RecoveryCache.contains c n
    then some s2
    else (RecoveryCache.insert c n raw >>= λ c'. some (record s2 { recovery_cache = c' }))

start_recovery_steps :
    (s : Session) (n : ℕ) (raw : Bytes)
    → start_recovery s n raw ≡ (
        send_resend_request s (next_in s.seq_provider) ((n + 2 ^ 64 - 1) % 2 ^ 64)
        >>= cached_from (next_in s.seq_provider) n raw)
unfolding start_recovery
start_recovery_steps s n raw = refl

start_recovery_runs :
    (s s1 : Session) (n : ℕ) (raw : Bytes)
    → next_in s.seq_provider < n
    → n < next_in s.seq_provider + 512
    → 0 < length raw
    → send_resend_request s (next_in s.seq_provider) ((n + 2 ^ 64 - 1) % 2 ^ 64) ≡ some s1
    → (c : RecoveryCache.RecoveryCache) × (start_recovery s n raw
        ≡ some (record s1 { state = recovering_resend; recovery_cache = c }))
      × Cached (RecoveryCache.start s1.recovery_cache (next_in s.seq_provider)) c n raw
start_recovery_runs s s1 n raw ahead near l sent =
    let c0 = RecoveryCache.start s1.recovery_cache (next_in s.seq_provider) in
    let (v0, none_at, window, _) = start_lem s1.recovery_cache (next_in s.seq_provider) n in
    let f0 = get-none c0 n none_at in
    let w0 : RecoveryCache.in_window c0 n ≡ true = window ∙ ground arith in
    let (c, runs, v, holds) = insert_lem c0 n raw v0 w0 f0 l in
    (
      c,
      start_recovery_steps s n raw
          ∙ ap (λ m. m >>= cached_from (next_in s.seq_provider) n raw) sent
          ∙ if_no (RecoveryCache.contains c0 n) _ _ f0
          ∙ ap
              (λ m. m >>= λ c'. some (record s1 { state = recovering_resend; recovery_cache = c' }))
              runs,
      record { valid = v; holds = holds },
    )

start_recovery_fails :
    (s : Session) (n : ℕ) (raw : Bytes)
    → next_in s.seq_provider + 512 ≤ n
    → start_recovery s n raw ≡ none
start_recovery_fails s n raw far =
    start_recovery_steps s n raw
    ∙ sent (send_resend_request s (next_in s.seq_provider) ((n + 2 ^ 64 - 1) % 2 ^ 64))
  where
    sent : (m : Option Session) → (m >>= cached_from (next_in s.seq_provider) n raw) ≡ none
    sent none = refl
    sent (some s1) =
        let c0 = RecoveryCache.start s1.recovery_cache (next_in s.seq_provider) in
        let (v0, none_at, window, _) = start_lem s1.recovery_cache (next_in s.seq_provider) n in
        let w0 : RecoveryCache.in_window c0 n ≡ false = window ∙ ground arith in
        if_no (RecoveryCache.contains c0 n) _ _ (get-none c0 n none_at)
        ∙ ap (λ m. m >>= λ c'. some (record s1 { state = recovering_resend; recovery_cache = c' }))
            (insert_outside c0 n raw w0)

-- Outside recovery a message ahead of its turn starts it, once the resend request for the numbers
-- between is sent: the cache then holds this message alone, in a window that begins at the number
-- expected. That is so if the gap is shorter than the window.
pub sequence_starts_recovery :
    (s s1 : Session) (type : Bytes) (n : ℕ) (is_dup : Bool) (fields : List FieldView) (raw : Bytes)
    → is_state s.state recovering_resend ≡ false
    → next_in s.seq_provider < n
    → n < next_in s.seq_provider + 512
    → 0 < length raw
    → send_resend_request s (next_in s.seq_provider) ((n + 2 ^ 64 - 1) % 2 ^ 64) ≡ some s1
    → (c : RecoveryCache.RecoveryCache) × (sequence s type n is_dup fields raw
        ≡ some (record s1 { state = recovering_resend; recovery_cache = c }))
      × IsValid c
      × ((k : ℕ) → RecoveryCache.get c k ≡ (if k == n then some raw else none))
sequence_starts_recovery s s1 type n is_dup fields raw st ahead near l sent =
    let (c, runs, kept) = start_recovery_runs s s1 n raw ahead near l sent in
    (
      c,
      sequence_to_recovery s type n is_dup fields raw ahead st ∙ runs,
      kept.valid,
      λ k. kept.holds k ∙ ap (λ m. if k == n then some raw else m) (blank k),
    )
  where
    blank :
        (k : ℕ)
        → RecoveryCache.get (RecoveryCache.start s1.recovery_cache (next_in s.seq_provider)) k
          ≡ none
    blank k = let (_, e, _, _) = start_lem s1.recovery_cache (next_in s.seq_provider) k in e

-- Outside recovery a message that is ahead by the whole window or more is not handled: the insert
-- into the cache fails.
pub sequence_gap_too_long :
    (s : Session) (type : Bytes) (n : ℕ) (is_dup : Bool) (fields : List FieldView) (raw : Bytes)
    → is_state s.state recovering_resend ≡ false
    → next_in s.seq_provider + 512 ≤ n
    → sequence s type n is_dup fields raw ≡ none
sequence_gap_too_long s type n is_dup fields raw st far =
    sequence_to_recovery s type n is_dup fields raw (omega arith) st
    ∙ start_recovery_fails s n raw far
