-- ===== src/ConnectionFactory/Connect.antt =====
-- src/AsioConnectionFactory.cpp: `ResolveConnectOP`, which resolves a name and connects, and tries again
-- after a while where that may help.
use fix_engine.Prelude.{
  ℕ, zero, suc, ◌+◌, ◌*◌, ◌^◌, min, List, [], ◌∷◌, ◌++◌, ltb, ◌==◌, if◌then◌else◌,
}
use fix_engine.Session.Io.{RetryClass, permanent, transient, canceled}
use fix_engine.ConnectionFactory.Errors.{ErrorCodes, success, classify_connect_error}

-- How often the operation tries again, and its times in milliseconds.
abbrev pub max_attempts : ℕ
max_attempts = 8

abbrev pub base_delay : ℕ
base_delay = 200

abbrev pub max_delay : ℕ
max_delay = 3000

-- What the operation waits for: the answer of the network library, the timer, nothing any more since it
-- has called its handler, or nothing since the wait for the timer was given up.
pub data Pending : Type 0 where
  resolving : Pending
  connecting : Pending
  backing_off : Pending
  done : Pending
  abandoned : Pending

-- A call of the handler, with an error or with the connection.
pub data Outcome : Type 0 where
  failed : ℕ → Outcome
  established : Outcome

pub record ConnectOp : Type 0 where
  pub attempt : ℕ
  pub pending : Pending
  pub calls : List Outcome
  pub delays : List ℕ

abbrev pub call : ConnectOp → Outcome → ConnectOp
call op outcome = record op { pending = done; calls = op.calls ++ outcome ∷ [] }

-- `raw` of `next_backoff`
unfoldable pub raw_backoff : ℕ → ℕ
raw_backoff attempt =
    let raw = base_delay * 2 ^ min attempt 12 in if ltb max_delay raw then max_delay else raw

abbrev pub do_resolve : ConnectOp → ConnectOp
do_resolve op = record op { pending = resolving }

abbrev pub do_connect : ConnectOp → ConnectOp
do_connect op = record op { pending = connecting }

abbrev pub start : ConnectOp
start = do_resolve (record { attempt = 0; pending = done; calls = []; delays = [] })

-- An error, and of the resolver the number of results.
pub record Answer : Type 0 where
  pub ec : ℕ
  pub results : ℕ

-- The random number of each attempt takes a part of a time.
module _ (codes : ErrorCodes) (part : ℕ → ℕ → ℕ) where
  abbrev pub next_backoff : ℕ → ℕ
  next_backoff attempt = part attempt (raw_backoff attempt)

  unfoldable pub schedule_retry : ConnectOp → ConnectOp
  unfolding raw_backoff
  schedule_retry op =
      let attempt = op.attempt + 1 in
      let next = record op { attempt = attempt } in
      if ltb max_attempts attempt
      then call next (failed codes.timed_out)
      else record next { pending = backing_off; delays = op.delays ++ next_backoff attempt ∷ [] }

  -- The handlers of the answers: of the resolver with an error and the number of results, of the
  -- connection attempt, and of the timer.
  unfoldable pub on_resolved : ConnectOp → ℕ → ℕ → ConnectOp
  unfolding schedule_retry
  on_resolved op ec results =
      if ec == success
      then if results == 0 then call op (failed codes.host_not_found) else do_connect op
      else if ec == codes.host_not_found_try_again
      then schedule_retry op
      else call op (failed ec)

  -- An error of this class.
  unfoldable pub retry_or_fail : RetryClass → ConnectOp → ℕ → ConnectOp
  unfolding schedule_retry
  retry_or_fail transient op ec = schedule_retry op
  retry_or_fail permanent op ec = call op (failed ec)
  retry_or_fail canceled op ec = call op (failed ec)

  unfoldable pub on_connected : ConnectOp → ℕ → ConnectOp
  unfolding retry_or_fail classify_connect_error
  on_connected op ec =
      if ec == success
      then call op established
      else retry_or_fail (classify_connect_error codes ec) op ec

  unfoldable pub on_backoff : ConnectOp → ℕ → ConnectOp
  on_backoff op ec = if ec == success then do_resolve op else record op { pending = abandoned }

  -- An answer to what the operation waits for.
  unfoldable pub answered : Pending → ConnectOp → Answer → ConnectOp
  unfolding on_resolved on_connected on_backoff
  answered resolving op answer = on_resolved op answer.ec answer.results
  answered connecting op answer = on_connected op answer.ec
  answered backing_off op answer = on_backoff op answer.ec
  answered done op answer = op
  answered abandoned op answer = op

  abbrev pub advance : ConnectOp → Answer → ConnectOp
  advance op answer = answered op.pending op answer

  -- The operation behind so many answers.
  unfoldable pub run : (ℕ → Answer) → ℕ → ConnectOp
  unfolding answered
  run answers zero = start
  run answers (suc n) = advance (run answers n) (answers n)
