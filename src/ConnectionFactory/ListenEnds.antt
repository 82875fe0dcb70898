-- ===== src/ConnectionFactory/ListenEnds.antt =====
-- src/AsioConnectionFactory.cpp: however the system answers, listening ends.
use fix_engine.Prelude.{
  ℕ, zero, suc, ◌+◌, ◌*◌, ◌-◌, ◌^◌, ◌≤◌, min, ◌≡◌, ◌≢◌, refl, sym, ◌∙◌, ap, subst, Bool, true,
  false, [], ◌∷◌, ltb, ◌==◌, ==_iff, if_either, if_yes, length, length-append, arith,
}
use fix_engine.ConnectionFactory.Errors.{
  ErrorCodes, success, is_transient_open, is_transient_bind, is_transient_listen,
}
use fix_engine.ConnectionFactory.Connect.{Outcome, failed, established}
use fix_engine.ConnectionFactory.ConnectEnds.{Within, Within-append, pow_lem}
use fix_engine.ConnectionFactory.Listen.{
  ListenOp, Waiting, accepting, backing_off, done, abandoned, Answers, Answer, call, max_attempts,
  next_backoff, schedule_retry, retry_or_fail, do_accept, on_accepted, try_listen, on_backoff,
  answered, run,
}

next_backoff_lem : (n : ℕ) → (400 ≤ next_backoff (suc n)) × (next_backoff (suc n) ≤ 3000)
unfolding next_backoff
next_backoff_lem n =
    let ms = 200 * 2 ^ min (suc n) 12 in
    let h : 400 ≤ ms = let p = pow_lem n in omega arith in
    if_either (λ r. (400 ≤ r) × (r ≤ 3000)) (ltb 3000 ms) 3000 ms (λ e. (omega arith, omega arith))
      (λ e. (h, ground (arith, e)))

-- How many calls of the handler have been made, and how many answers may still be waited for.
unfoldable called : Waiting → ℕ
called accepting = 0
called backing_off = 0
called done = 1
called abandoned = 0

unfoldable answers_left : Waiting → ℕ → ℕ
answers_left accepting attempt = 1
answers_left backing_off attempt = (6 - attempt) + 2
answers_left done attempt = 0
answers_left abandoned attempt = 1

record IsValid (budget : ℕ) (op : ListenOp) : Type 0 where
  going : op.waiting ≢ abandoned
  budgeted : answers_left op.waiting op.attempt ≤ budget
  counted : length op.calls ≡ called op.waiting
  attempts : op.attempt ≤ max_attempts + called op.waiting
  waits : Within 400 3000 op.delays
  waited : length op.delays ≤ max_attempts
  per_attempt : length op.delays ≤ op.attempt

-- An operation that has not called its handler.
record Open (op : ListenOp) : Type 0 where
  uncalled : length op.calls ≡ 0
  few : op.attempt ≤ max_attempts
  waits : Within 400 3000 op.delays
  per_attempt : length op.delays ≤ op.attempt

opened : (budget : ℕ) (op : ListenOp) → IsValid budget op → called op.waiting ≡ 0 → Open op
opened budget op v e = record {
  uncalled = v.counted ∙ e;
  few = omega (arith, v.attempts);
  waits = v.waits;
  per_attempt = v.per_attempt;
}

call_lem : (budget : ℕ) (op : ListenOp) (o : Outcome) → Open op → IsValid budget (call op o)
unfolding answers_left called
call_lem budget op o v = record {
  going = λ h. absurd (cc);
  budgeted = omega arith;
  counted = omega (arith, length-append op.calls (o ∷ []), v.uncalled);
  attempts = omega (arith, v.few);
  waits = v.waits;
  waited = omega (arith, v.per_attempt, v.few);
  per_attempt = v.per_attempt;
}

schedule_retry_lem :
    (budget : ℕ) (op : ListenOp) (ec : ℕ)
    → Open op
    → (6 - op.attempt) + 1 ≤ budget
    → IsValid budget (schedule_retry op ec)
unfolding answers_left called schedule_retry
schedule_retry_lem budget op ec v left =
    if_either (IsValid budget) (ltb max_attempts (op.attempt + 1)) _ _
      (λ e. record {
        going = λ h. absurd (cc);
        budgeted = omega arith;
        counted = omega (arith, length-append op.calls (failed ec ∷ []), v.uncalled);
        attempts = omega (arith, v.few);
        waits = v.waits;
        waited = omega (arith, v.per_attempt, v.few);
        per_attempt = omega (arith, v.per_attempt);
      })
      (λ e.
        let fits : op.attempt + 1 ≤ 6 = ground (arith, e) in
        let delay = next_backoff (op.attempt + 1) in
        let one_more = length-append op.delays (delay ∷ []) in
        let next : suc op.attempt ≡ op.attempt + 1 = omega arith in
        let bounds : (400 ≤ next_backoff (op.attempt + 1))
            × (next_backoff (op.attempt + 1) ≤ 3000) =
          subst (λ k. (400 ≤ next_backoff k) × (next_backoff k ≤ 3000)) next
            (next_backoff_lem op.attempt) in
        record {
          going = λ h. absurd (cc);
          budgeted = omega arith;
          counted = v.uncalled;
          attempts = omega arith;
          waits = Within-append 400 3000 op.delays delay v.waits bounds.0 bounds.1;
          waited = omega (arith, v.per_attempt);
          per_attempt = omega (arith, v.per_attempt);
        })

retry_or_fail_lem :
    (budget : ℕ) (op : ListenOp) (again : Bool) (ec : ℕ)
    → Open op
    → (6 - op.attempt) + 1 ≤ budget
    → IsValid budget (retry_or_fail op again ec)
retry_or_fail_lem budget op true ec v left = schedule_retry_lem budget op ec v left
retry_or_fail_lem budget op false ec v left = call_lem budget op (failed ec) v

do_accept_lem : (budget : ℕ) (op : ListenOp) → Open op → 1 ≤ budget → IsValid budget (do_accept op)
unfolding answers_left called
do_accept_lem budget op v left = record {
  going = λ h. absurd (cc);
  budgeted = left;
  counted = v.uncalled;
  attempts = omega (arith, v.few);
  waits = v.waits;
  waited = omega (arith, v.per_attempt, v.few);
  per_attempt = v.per_attempt;
}

on_accepted_lem :
    (budget : ℕ) (op : ListenOp) (ec : ℕ) → Open op → IsValid budget (on_accepted op ec)
unfolding on_accepted
on_accepted_lem budget op ec v =
    if_either (IsValid budget) (ec == success) _ _ (λ ok. call_lem budget op established v)
      (λ bad. call_lem budget op (failed ec) v)

module _ (codes : ErrorCodes) where
  try_listen_lem :
      (budget : ℕ) (op : ListenOp) (net : Answers)
      → Open op
      → (6 - op.attempt) + 1 ≤ budget
      → IsValid budget (try_listen codes op net)
  unfolding try_listen
  try_listen_lem budget op net v left =
      if_either (IsValid budget) (net.open_error == success) _ _
        (λ o.
          if_either (IsValid budget) (net.option_error == success) _ _
            (λ s.
              if_either (IsValid budget) (net.bind_error == success) _ _
                (λ b.
                  if_either (IsValid budget) (net.listen_error == success) _ _
                    (λ l. do_accept_lem budget op v (omega arith))
                    (λ l.
                      retry_or_fail_lem budget op (is_transient_listen codes net.listen_error)
                        net.listen_error v left))
                (λ b.
                  retry_or_fail_lem budget op (is_transient_bind codes net.bind_error)
                    net.bind_error v left))
            (λ s. call_lem budget op (failed net.option_error) v))
        (λ o.
          retry_or_fail_lem budget op (is_transient_open codes net.open_error) net.open_error v
            left)

  answered_lem :
      (budget : ℕ) (op : ListenOp) (answer : Answer) (p : Waiting)
      → op.waiting ≡ p
      → (p ≡ backing_off → answer.ec ≡ success)
      → IsValid (suc budget) op
      → IsValid budget (answered codes p op answer)
  unfolding answered answers_left called on_backoff
  answered_lem budget op answer accepting e timer v =
      on_accepted_lem budget op answer.ec (opened (suc budget) op v (ap called e))
  answered_lem budget op answer backing_off e timer v =
      let left : (6 - op.attempt) + 2 ≤ suc budget =
        subst (λ p. answers_left p op.attempt ≤ suc budget) e v.budgeted in
      subst (IsValid budget)
        (sym (if_yes (answer.ec == success) _ _ ((==_iff answer.ec 0).1 (timer refl))))
        (try_listen_lem budget op answer.net (opened (suc budget) op v (ap called e)) (omega arith))
  answered_lem budget op answer done e timer v =
      let nothing_left : 0 ≤ budget = omega arith in
      record {
        going = v.going;
        budgeted = subst (λ p. answers_left p op.attempt ≤ budget) (sym e) nothing_left;
        counted = v.counted;
        attempts = v.attempts;
        waits = v.waits;
        waited = v.waited;
        per_attempt = v.per_attempt;
      }
  answered_lem budget op answer abandoned e timer v = absurd (v.going e)

  run_lem :
      (net : Answers) (answers : ℕ → Answer)
      → ((n : ℕ) → (run codes net answers n).waiting ≡ backing_off → (answers n).ec ≡ success)
      → (n k : ℕ) → n + k ≡ 7
      → IsValid k (run codes net answers n)
  unfolding run Within
  run_lem net answers timer zero k e =
      try_listen_lem k (record { attempt = 0; waiting = done; calls = []; delays = [] }) net
        (record {
          uncalled = refl;
          few = omega arith;
          waits = omega arith;
          per_attempt = omega arith;
        })
        (omega arith)
  run_lem net answers timer (suc n) k e =
      let v = run_lem net answers timer n (suc k) (omega arith) in
      let op = run codes net answers n in answered_lem k op (answers n) op.waiting refl (timer n) v

  settled : (p : Waiting) (attempt : ℕ) → answers_left p attempt ≤ 0 → p ≡ done
  unfolding answers_left
  settled accepting attempt h = absurd (omega arith)
  settled backing_off attempt h = absurd (omega arith)
  settled done attempt h = refl
  settled abandoned attempt h = absurd (omega arith)

  -- With a timer that nobody cancels, listening has ended after at most seven answers of any kind: the
  -- handler has been called exactly once, with at most seven tries to open the port and six waits, each
  -- of 400 to 3000 milliseconds.
  pub start-done :
      (net : Answers) (answers : ℕ → Answer)
      → ((n : ℕ) → (run codes net answers n).waiting ≡ backing_off → (answers n).ec ≡ success)
      → let op = run codes net answers 7 in
        (op.waiting ≡ done)
        × ((length op.calls ≡ 1)
            × ((op.attempt ≤ 7) × ((length op.delays ≤ 6) × Within 400 3000 op.delays)))
  unfolding called
  start-done net answers timer =
      let op = run codes net answers 7 in
      let v = run_lem net answers timer 7 0 (omega arith) in
      let e = settled op.waiting op.attempt v.budgeted in
      (
        e,
        (
          v.counted ∙ ap called e,
          (let h = ap called e in omega (arith, v.attempts), (v.waited, v.waits)),
        ),
      )
