-- ===== src/MpscRing/Order.antt =====
-- include/fix/log/MpscRing.hpp: what the threads get from the ring, in every interleaving.
use fix_engine.Prelude.{
  ℕ, ◌+◌, ◌≤◌, ◌<◌, ◌≡◌, ◌≢◌, sym, ◌∙◌, ap, true, ==_iff, update_ne, ltb, Bool-cases, inl, inr,
  arith,
}
use fix_engine.MpscRing.{cell, is_turn, may_pop}
use fix_engine.MpscRing.Threads.{
  waiting, writing, written, published, failed, Consumer, idle, reading, releasing, Threads, Step,
  Steps, start, draws, goes_on, gives_up, puts, publishes, pops, takes, gives_back, stays, later,
}
use fix_engine.MpscRing.Invariant.{
  drawn, begun, filled, done, phase-InTurn, busy, handed, firsts, IsValid, in_window, other_cell,
}
use fix_engine.MpscRing.Accesses.{Steps-IsValid, start-IsValid}

module _ {Data : Type 0} (data_of : ℕ → Data) (nothing : Data) where
  reached : {s : Threads Data} → Steps data_of (start nothing) s → IsValid data_of s
  reached steps = Steps-IsValid data_of steps (start-IsValid data_of nothing)

  handed-busy : (c : Consumer) → handed c ≤ busy c
  unfolding handed busy
  handed-busy idle = omega arith
  handed-busy reading = omega arith
  handed-busy releasing = omega arith

  busy_once : (c : Consumer) → busy c ≤ 1
  unfolding busy
  busy_once idle = omega arith
  busy_once reading = omega arith
  busy_once releasing = omega arith

  -- What was popped had been published.
  popped-done :
      (s : Threads Data)
      → IsValid data_of s
      → (t : ℕ) → t < s.ring.tail + handed s.consumer
      → done (s.phase t) ≡ 1
  popped-done s v t h = elim (Bool-cases (ltb t s.ring.tail)) [
    | inl e ↦ v.past t (ground (arith, e))
    | inr e ↦
        let not_past : s.ring.tail ≤ t = ground (arith, e) in
        let more = handed-busy s.consumer in
        let once = busy_once s.consumer in
        let same : s.ring.tail ≡ t = omega arith in
        ap (λ k. done (s.phase k)) (sym same) ∙ v.reader (omega arith)
  ]

  -- However the accesses of the threads are interleaved, the data popped are those of the tickets in the
  -- order in which these were drawn, from the first on, each once and none left out, and only of tickets
  -- that were drawn.
  pub popped-firsts :
      (s : Threads Data)
      → Steps data_of (start nothing) s
      → (s.popped ≡ firsts data_of (s.ring.tail + handed s.consumer))
        × (s.ring.tail + handed s.consumer ≤ s.ring.head)
  popped-firsts s steps =
      let v = reached steps in
      (
        v.out,
        elim (Bool-cases (ltb s.ring.head (s.ring.tail + handed s.consumer))) [
          | inl e ↦
              let d = popped-done s v s.ring.head (ground (arith, e)) in
              let n = v.undrawn s.ring.head (omega arith) in
              let p = phase-InTurn (s.phase s.ring.head) in
              absurd (omega (arith, p.begun_drawn, p.filled_begun, p.done_filled))
          | inr e ↦ ground (arith, e)
        ],
      )

  -- No two accesses race: threads between the turn and the publication of their tickets are at different
  -- cells, and the consumer, between its test and the return of the cell, is at another cell.
  pub cells_apart :
      (s : Threads Data)
      → Steps data_of (start nothing) s
      → (t : ℕ) → begun (s.phase t) ≡ 1
      → done (s.phase t) ≡ 0
      → ((u : ℕ) → begun (s.phase u) ≡ 1 → done (s.phase u) ≡ 0 → t ≢ u → cell t ≢ cell u)
        × (busy s.consumer ≡ 1 → cell t ≢ cell s.ring.tail)
  cells_apart s steps t has_begun not_done =
      let v = reached steps in
      let (low, high) = in_window data_of s t v not_done has_begun in
      (
        λ u has_begun' not_done' apart.
            let (low', high') = in_window data_of s u v not_done' has_begun' in
            other_cell data_of s.ring.tail t u low high low' high' apart,
        λ reads.
            other_cell data_of s.ring.tail t s.ring.tail low high (omega arith) (omega arith) (λ e.
              let r : done (s.phase t) ≡ 1 = ap (λ k. done (s.phase k)) e ∙ v.reader reads in
              absurd (omega arith)),
      )

  -- The next ticket in line is never held up by another thread: until it is published its turn has come,
  -- and once it is, pop finds it.
  pub next_in_line :
      (s : Threads Data)
      → Steps data_of (start nothing) s
      → (done (s.phase s.ring.tail) ≡ 0 → is_turn s.ring s.ring.tail ≡ true)
        × (done (s.phase s.ring.tail) ≡ 1 → may_pop s.ring ≡ true)
  unfolding is_turn may_pop
  next_in_line s steps =
      let v = reached steps in
      let now = v.turn s.ring.tail (omega arith) (omega arith) in
      (
        λ d. (==_iff s.ring.tail (s.ring.epoch (cell s.ring.tail))).1 (omega arith),
        λ d. (==_iff (s.ring.epoch (cell s.ring.tail)) (s.ring.tail + 1)).1 (omega arith),
      )

  Step-failed :
      {s u : Threads Data}
      → Step data_of s u
      → (t : ℕ) → IsValid data_of s
      → s.phase t ≡ failed
      → u.phase t ≡ failed
  unfolding drawn begun filled done
  Step-failed {s} draws t v e =
      update_ne s.phase s.ring.head t waiting
        (λ r. absurd (let n = v.undrawn t (omega arith) in let d = ap drawn e in omega arith))
      ∙ e
  Step-failed {s} (goes_on k w turn) t v e =
      update_ne s.phase k t writing
        (λ r. absurd (let h : failed ≡ waiting = sym e ∙ ap s.phase r ∙ w in cc))
      ∙ e
  Step-failed {s} (gives_up k w turn) t v e =
      update_ne s.phase k t failed
        (λ r. absurd (let h : failed ≡ waiting = sym e ∙ ap s.phase r ∙ w in cc))
      ∙ e
  Step-failed {s} (puts k w) t v e =
      update_ne s.phase k t written
        (λ r. absurd (let h : failed ≡ writing = sym e ∙ ap s.phase r ∙ w in cc))
      ∙ e
  Step-failed {s} (publishes k w) t v e =
      update_ne s.phase k t published
        (λ r. absurd (let h : failed ≡ written = sym e ∙ ap s.phase r ∙ w in cc))
      ∙ e
  Step-failed (pops i full) t v e = e
  Step-failed (takes i) t v e = e
  Step-failed (gives_back i) t v e = e

  Steps-failed :
      {s u : Threads Data}
      → Steps data_of s u
      → (t : ℕ) → IsValid data_of s
      → s.phase t ≡ failed
      → u.phase t ≡ failed
  Steps-failed stays t v e = e
  Steps-failed (later steps step) t v e =
      Step-failed step t (Steps-IsValid data_of steps v) (Steps-failed steps t v e)

  -- A try_push that returned false has drawn a ticket, and nothing pushed with a later one is ever popped,
  -- whatever the threads do then.
  pub failed_blocks :
      (s u : Threads Data)
      → Steps data_of (start nothing) s
      → (t : ℕ) → s.phase t ≡ failed
      → Steps data_of s u
      → u.ring.tail + handed u.consumer ≤ t
  unfolding done busy handed
  failed_blocks s u steps t e steps' =
      let v = Steps-IsValid data_of steps' (reached steps) in
      let not_done : done (u.phase t) ≡ 0 = ap done (Steps-failed steps' t (reached steps) e) in
      elim (Bool-cases (ltb t (u.ring.tail + handed u.consumer))) [
        | inl h ↦ let d = popped-done u v t (ground (arith, h)) in absurd (omega arith)
        | inr h ↦ ground (arith, h)
      ]
