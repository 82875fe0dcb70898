-- ===== src/ConnectionFactory/Listen.antt =====
-- src/AsioConnectionFactory.cpp: `ListenOP`, which opens a port, tries again where that may help, and
-- accepts one connection.
use fix_engine.Prelude.{
  ℕ, zero, suc, ◌+◌, ◌*◌, ◌^◌, min, Bool, List, [], ◌∷◌, ◌++◌, ltb, ◌==◌, if◌then◌else◌,
}
use fix_engine.ConnectionFactory.Errors.{
  ErrorCodes, success, is_transient_open, is_transient_bind, is_transient_listen,
}
use fix_engine.ConnectionFactory.Connect.{Outcome, failed, established}

abbrev pub max_attempts : ℕ
max_attempts = 6

abbrev pub base : ℕ
base = 200

abbrev pub cap : ℕ
cap = 3000

pub data Waiting : Type 0 where
  accepting : Waiting
  backing_off : Waiting
  done : Waiting
  abandoned : Waiting

pub record ListenOp : Type 0 where
  pub attempt : ℕ
  pub waiting : Waiting
  pub calls : List Outcome
  pub delays : List ℕ

-- What the calls of the acceptor answer: the errors of open, set_option, bind and listen.
pub record Answers : Type 0 where
  pub open_error : ℕ
  pub option_error : ℕ
  pub bind_error : ℕ
  pub listen_error : ℕ

abbrev pub call : ListenOp → Outcome → ListenOp
call op outcome = record op { waiting = done; calls = op.calls ++ outcome ∷ [] }

unfoldable pub next_backoff : ℕ → ℕ
next_backoff attempt = let ms = base * 2 ^ min attempt 12 in if ltb cap ms then cap else ms

unfoldable pub schedule_retry : ListenOp → ℕ → ListenOp
unfolding next_backoff
schedule_retry op ec =
    let attempt = op.attempt + 1 in
    let next = record op { attempt = attempt } in
    if ltb max_attempts attempt
    then call next (failed ec)
    else record next { waiting = backing_off; delays = op.delays ++ next_backoff attempt ∷ [] }

-- An error that is tried again, or reported.
abbrev pub retry_or_fail : ListenOp → Bool → ℕ → ListenOp
retry_or_fail op again ec = if again then schedule_retry op ec else call op (failed ec)

abbrev pub do_accept : ListenOp → ListenOp
do_accept op = record op { waiting = accepting }

unfoldable pub on_accepted : ListenOp → ℕ → ListenOp
on_accepted op ec = if ec == success then call op established else call op (failed ec)

-- An answer to what the operation waits for: the error of the timer or of the accept, and what the calls
-- of the acceptor answer then.
pub record Answer : Type 0 where
  pub ec : ℕ
  pub net : Answers

module _ (codes : ErrorCodes) where
  unfoldable pub try_listen : ListenOp → Answers → ListenOp
  unfolding is_transient_open is_transient_bind is_transient_listen
  try_listen op net =
      if net.open_error == success
      then if net.option_error == success
        then if net.bind_error == success
          then if net.listen_error == success
            then do_accept op
            else retry_or_fail op (is_transient_listen codes net.listen_error) net.listen_error
          else retry_or_fail op (is_transient_bind codes net.bind_error) net.bind_error
        else call op (failed net.option_error)
      else retry_or_fail op (is_transient_open codes net.open_error) net.open_error

  -- The handler of the timer, with what the acceptor answers then.
  unfoldable pub on_backoff : ListenOp → ℕ → Answers → ListenOp
  unfolding try_listen
  on_backoff op ec net =
      if ec == success then try_listen op net else record op { waiting = abandoned }

  abbrev pub start : Answers → ListenOp
  start net = try_listen (record { attempt = 0; waiting = done; calls = []; delays = [] }) net

  unfoldable pub answered : Waiting → ListenOp → Answer → ListenOp
  unfolding on_accepted on_backoff
  answered accepting op answer = on_accepted op answer.ec
  answered backing_off op answer = on_backoff op answer.ec answer.net
  answered done op answer = op
  answered abandoned op answer = op

  -- The operation behind so many answers.
  unfoldable pub run : Answers → (ℕ → Answer) → ℕ → ListenOp
  unfolding answered
  run net answers zero = start net
  run net answers (suc n) = let op = run net answers n in answered op.waiting op (answers n)
