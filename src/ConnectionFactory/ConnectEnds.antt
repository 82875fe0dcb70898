-- ===== src/ConnectionFactory/ConnectEnds.antt =====
-- src/AsioConnectionFactory.cpp: however the network answers, connecting ends.
use fix_engine.Prelude.{
  ℕ, zero, suc, ◌+◌, ◌*◌, ◌-◌, ◌/◌, ◌^◌, ◌≤◌, min, ◌≡◌, ◌≢◌, refl, sym, ◌∙◌, ap, subst, List, [],
  ◌∷◌, ◌++◌, ltb, ◌==◌, ==_iff, if_either, if_yes, length, length-append, arith,
}
use fix_engine.Session.Io.{RetryClass, permanent, transient, canceled}
use fix_engine.ConnectionFactory.Errors.{ErrorCodes, success, classify_connect_error}
use fix_engine.ConnectionFactory.Connect.{
  ConnectOp, Pending, resolving, connecting, backing_off, done, abandoned, Outcome, call, Answer,
  max_attempts, raw_backoff, schedule_retry, retry_or_fail, answered, on_resolved, on_connected,
  run, failed, established, do_resolve,
}

-- Every number of a list lies between these.
unfoldable pub Within : ℕ → ℕ → List ℕ → Type 0
Within low high [] = 0 ≤ high
Within low high (x ∷ xs) = (low ≤ x) × ((x ≤ high) × Within low high xs)

pub Within-append :
    (low high : ℕ) (xs : List ℕ) (x : ℕ)
    → Within low high xs
    → low ≤ x
    → x ≤ high
    → Within low high (xs ++ x ∷ [])
unfolding Within
Within-append low high [] x h l u = (l, (u, h))
Within-append low high (y ∷ xs) x (a, (b, h)) l u = (a, (b, Within-append low high xs x h l u))

pow_pos : (n : ℕ) → 1 ≤ 2 ^ n
pow_pos zero = omega arith
pow_pos (suc n) = omega (arith, pow_pos n)

pub pow_lem : (n : ℕ) → 2 ≤ 2 ^ min (suc n) 12
pow_lem n =
    let e : min (suc n) 12 ≡ suc (min n 11) = omega arith in
    let h = pow_pos (min n 11) in subst (λ k. 2 ≤ 2 ^ k) (sym e) (omega arith)

pub raw_backoff_lem : (n : ℕ) → (400 ≤ raw_backoff (suc n)) × (raw_backoff (suc n) ≤ 3000)
unfolding raw_backoff
raw_backoff_lem n =
    let raw = 200 * 2 ^ min (suc n) 12 in
    let h : 400 ≤ raw = let p = pow_lem n in omega arith in
    if_either (λ r. (400 ≤ r) × (r ≤ 3000)) (ltb 3000 raw) 3000 raw
      (λ e. (omega arith, omega arith)) (λ e. (h, ground (arith, e)))

-- How many calls of the handler have been made, and how many answers may still be waited for.
unfoldable pub called : Pending → ℕ
called resolving = 0
called connecting = 0
called backing_off = 0
called done = 1
called abandoned = 0

unfoldable pub answers_left : Pending → ℕ → ℕ
answers_left resolving attempt = 3 * (8 - attempt) + 2
answers_left connecting attempt = 3 * (8 - attempt) + 1
answers_left backing_off attempt = 3 * (8 - attempt) + 3
answers_left done attempt = 0
answers_left abandoned attempt = 1

pub record IsValid (budget : ℕ) (op : ConnectOp) : Type 0 where
  pub going : op.pending ≢ abandoned
  pub budgeted : answers_left op.pending op.attempt ≤ budget
  pub counted : length op.calls ≡ called op.pending
  pub attempts : op.attempt ≤ max_attempts + called op.pending
  pub waits : Within 200 3000 op.delays
  pub waited : length op.delays ≤ max_attempts
  pub per_attempt : length op.delays ≤ op.attempt

module _ (codes : ErrorCodes) (part : ℕ → ℕ → ℕ) where
  call_lem :
      (budget : ℕ) (op : ConnectOp) (o : Outcome)
      → IsValid (suc budget) op
      → called op.pending ≡ 0
      → IsValid budget (call op o)
  unfolding answers_left called
  call_lem budget op o v open_ = record {
    going = λ h. absurd (cc);
    budgeted = omega arith;
    counted = omega (arith, length-append op.calls (o ∷ []), v.counted);
    attempts = omega (arith, v.attempts);
    waits = v.waits;
    waited = v.waited;
    per_attempt = v.per_attempt;
  }

  -- The part of a time that is waited is at least its half.
  module _ (halves : (n raw : ℕ) → (raw / 2 ≤ part n raw) × (part n raw ≤ raw)) where
    schedule_retry_lem :
        (budget : ℕ) (op : ConnectOp)
        → IsValid (suc budget) op
        → called op.pending ≡ 0
        → 3 * (8 - op.attempt) + 1 ≤ suc budget
        → IsValid budget (schedule_retry codes part op)
    unfolding answers_left called schedule_retry
    schedule_retry_lem budget op v open_ left =
        if_either (IsValid budget) (ltb max_attempts (op.attempt + 1)) _ _
          (λ e. record {
            going = λ h. absurd (cc);
            budgeted = omega arith;
            counted =
                omega (arith, length-append op.calls (failed codes.timed_out ∷ []), v.counted);
            attempts = omega (arith, v.attempts);
            waits = v.waits;
            waited = v.waited;
            per_attempt = omega (arith, v.per_attempt);
          })
          (λ e.
            let fits : op.attempt + 1 ≤ 8 = ground (arith, e) in
            let delay = part (op.attempt + 1) (raw_backoff (op.attempt + 1)) in
            let one_more = length-append op.delays (delay ∷ []) in
            let next : suc op.attempt ≡ op.attempt + 1 = omega arith in
            let raw : (400 ≤ raw_backoff (op.attempt + 1)) × (raw_backoff (op.attempt + 1) ≤ 3000) =
              subst (λ k. (400 ≤ raw_backoff k) × (raw_backoff k ≤ 3000)) next
                (raw_backoff_lem op.attempt) in
            let (half, whole) = halves (op.attempt + 1) (raw_backoff (op.attempt + 1)) in
            record {
              going = λ h. absurd (cc);
              budgeted = omega arith;
              counted = omega (arith, v.counted);
              attempts = omega arith;
              waits =
                  Within-append 200 3000 op.delays delay v.waits (omega (arith, raw.0))
                    (omega (arith, raw.1));
              waited = omega (arith, v.per_attempt);
              per_attempt = omega (arith, v.per_attempt);
            })

    on_resolved_lem :
        (budget : ℕ) (op : ConnectOp) (ec results : ℕ)
        → IsValid (suc budget) op
        → op.pending ≡ resolving
        → IsValid budget (on_resolved codes part op ec results)
    unfolding answers_left called on_resolved
    on_resolved_lem budget op ec results v e =
        let open_ : called op.pending ≡ 0 = ap called e in
        let left : 3 * (8 - op.attempt) + 2 ≤ suc budget =
          subst (λ p. answers_left p op.attempt ≤ suc budget) e v.budgeted in
        if_either (IsValid budget) (ec == success) _ _
          (λ ok.
            if_either (IsValid budget) (results == 0) _ _
              (λ none_. call_lem budget op (failed codes.host_not_found) v open_)
              (λ some_. record {
                going = λ h. absurd (cc);
                budgeted = omega arith;
                counted = v.counted ∙ open_;
                attempts = omega (arith, v.attempts);
                waits = v.waits;
                waited = v.waited;
                per_attempt = v.per_attempt;
              }))
          (λ bad.
            if_either (IsValid budget) (ec == codes.host_not_found_try_again) _ _
              (λ again. schedule_retry_lem budget op v open_ (omega arith))
              (λ final. call_lem budget op (failed ec) v open_))

    retry_or_fail_lem :
        (budget : ℕ) (op : ConnectOp) (ec : ℕ) (class : RetryClass)
        → IsValid (suc budget) op
        → called op.pending ≡ 0
        → 3 * (8 - op.attempt) + 1 ≤ suc budget
        → IsValid budget (retry_or_fail codes part class op ec)
    unfolding retry_or_fail
    retry_or_fail_lem budget op ec transient v open_ left =
        schedule_retry_lem budget op v open_ left
    retry_or_fail_lem budget op ec permanent v open_ left = call_lem budget op (failed ec) v open_
    retry_or_fail_lem budget op ec canceled v open_ left = call_lem budget op (failed ec) v open_

    on_connected_lem :
        (budget : ℕ) (op : ConnectOp) (ec : ℕ)
        → IsValid (suc budget) op
        → op.pending ≡ connecting
        → IsValid budget (on_connected codes part op ec)
    unfolding answers_left called on_connected
    on_connected_lem budget op ec v e =
        let open_ : called op.pending ≡ 0 = ap called e in
        let left : 3 * (8 - op.attempt) + 1 ≤ suc budget =
          subst (λ p. answers_left p op.attempt ≤ suc budget) e v.budgeted in
        if_either (IsValid budget) (ec == success) _ _
          (λ ok. call_lem budget op established v open_)
          (λ bad. retry_or_fail_lem budget op ec (classify_connect_error codes ec) v open_ left)

    on_backoff_lem :
        (budget : ℕ) (op : ConnectOp)
        → IsValid (suc budget) op
        → op.pending ≡ backing_off
        → IsValid budget (do_resolve op)
    unfolding answers_left called
    on_backoff_lem budget op v e =
        let open_ : called op.pending ≡ 0 = ap called e in
        let left : 3 * (8 - op.attempt) + 3 ≤ suc budget =
          subst (λ p. answers_left p op.attempt ≤ suc budget) e v.budgeted in
        record {
          going = λ h. absurd (cc);
          budgeted = omega arith;
          counted = v.counted ∙ open_;
          attempts = omega (arith, v.attempts);
          waits = v.waits;
          waited = v.waited;
          per_attempt = v.per_attempt;
        }

    answered_lem :
        (budget : ℕ) (op : ConnectOp) (answer : Answer) (p : Pending)
        → op.pending ≡ p
        → p ≢ abandoned
        → (p ≡ backing_off → answer.ec ≡ success)
        → IsValid (suc budget) op
        → IsValid budget (answered codes part p op answer)
    unfolding answered answers_left
    answered_lem budget op answer resolving e going timer v =
        on_resolved_lem budget op answer.ec answer.results v e
    answered_lem budget op answer connecting e going timer v =
        on_connected_lem budget op answer.ec v e
    answered_lem budget op answer backing_off e going timer v =
        subst (IsValid budget)
          (sym (if_yes (answer.ec == success) _ _ ((==_iff answer.ec 0).1 (timer refl))))
          (on_backoff_lem budget op v e)
    answered_lem budget op answer done e going timer v =
        let nothing_left : 0 ≤ budget = omega arith in
        record {
          going = v.going;
          budgeted = subst (λ p. answers_left p op.attempt ≤ budget) (sym e) nothing_left;
          counted = v.counted;
          attempts = v.attempts;
          waits = v.waits;
          waited = v.waited;
          per_attempt = v.per_attempt;
        }
    answered_lem budget op answer abandoned e going timer v = absurd (going refl)

    run_lem :
        (answers : ℕ → Answer)
        → ((n : ℕ) → (run codes part answers n).pending ≡ backing_off → (answers n).ec ≡ success)
        → (n k : ℕ) → n + k ≡ 26
        → IsValid k (run codes part answers n)
    unfolding run answers_left called Within
    run_lem answers timer zero k e = record {
      going = λ h. absurd (cc);
      budgeted = omega arith;
      counted = refl;
      attempts = omega arith;
      waits = omega arith;
      waited = omega arith;
      per_attempt = omega arith;
    }
    run_lem answers timer (suc n) k e =
        let v = run_lem answers timer n (suc k) (omega arith) in
        let op = run codes part answers n in
        answered_lem k op (answers n) op.pending refl v.going (timer n) v

    settled : (p : Pending) (attempt : ℕ) → answers_left p attempt ≤ 0 → p ≡ done
    unfolding answers_left
    settled resolving attempt h = absurd (omega arith)
    settled connecting attempt h = absurd (omega arith)
    settled backing_off attempt h = absurd (omega arith)
    settled done attempt h = refl
    settled abandoned attempt h = absurd (omega arith)

    -- With delays between the half and the whole of the time of the attempt, and a timer that nobody
    -- cancels, connecting has ended after at most 26 answers of any kind: the handler has been called
    -- exactly once, after at most nine attempts and eight waits, each of 200 to 3000 milliseconds.
    pub run-done :
        (answers : ℕ → Answer)
        → ((n : ℕ) → (run codes part answers n).pending ≡ backing_off → (answers n).ec ≡ success)
        → let op = run codes part answers 26 in
          (op.pending ≡ done)
          × ((length op.calls ≡ 1)
              × ((op.attempt ≤ 9) × ((length op.delays ≤ 8) × Within 200 3000 op.delays)))
    unfolding called
    run-done answers timer =
        let op = run codes part answers 26 in
        let v = run_lem answers timer 26 0 (omega arith) in
        let e = settled op.pending op.attempt v.budgeted in
        (
          e,
          (
            v.counted ∙ ap called e,
            (let h = ap called e in omega (arith, v.attempts), (v.waited, v.waits)),
          ),
        )
