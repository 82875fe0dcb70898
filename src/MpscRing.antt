-- ===== src/MpscRing.antt =====
-- include/fix/log/MpscRing.hpp: a ring into which many threads push, and from which one pops. Each atomic
-- access is an operation of its own, so that they may be interleaved.
pub mod Threads
pub mod Invariant
pub mod Accesses
pub mod Order
mod Tests
use fix_engine.Prelude.{
  ℕ, ◌+◌, ◌%◌, Bool, true, false, Option, none, some, ◌==◌, if◌then◌else◌, update,
}

abbrev pub capacity : ℕ
capacity = 1024

-- The cells by their index: the number that says whose turn it is, and the data. The counters are
-- `uint64_t`, taken not to reach 2^64.
pub record MpscRing (Data : Type 0) : Type 0 where
  pub epoch : ℕ → ℕ
  pub item : ℕ → Data
  pub head : ℕ
  pub tail : ℕ

-- The cell of a ticket: `ticket & mask`.
abbrev pub cell : ℕ → ℕ
cell ticket = ticket % capacity

module _ {Data : Type 0} where
  abbrev pub new_ring : Data → MpscRing Data
  new_ring nothing = record { epoch = λ i. i; item = λ i. nothing; head = 0; tail = 0 }

  -- `fetch_add` of the head, which gives the ticket
  abbrev pub draw_ticket : MpscRing Data → MpscRing Data × ℕ
  draw_ticket r = (record r { head = r.head + 1 }, r.head)

  unfoldable pub is_turn : MpscRing Data → ℕ → Bool
  is_turn r ticket = ticket == r.epoch (cell ticket)

  abbrev pub put : MpscRing Data → ℕ → Data → MpscRing Data
  put r ticket d = record r { item = update r.item (cell ticket) d }

  abbrev pub publish : MpscRing Data → ℕ → MpscRing Data
  publish r ticket = record r { epoch = update r.epoch (cell ticket) (ticket + 1) }

  unfoldable pub may_pop : MpscRing Data → Bool
  may_pop r = r.epoch (cell r.tail) == r.tail + 1

  abbrev pub taken : MpscRing Data → Data
  taken r = r.item (cell r.tail)

  abbrev pub give_back : MpscRing Data → MpscRing Data
  give_back r = record r {
    epoch = update r.epoch (cell r.tail) (r.tail + capacity);
    tail = r.tail + 1;
  }

  -- `try_push` and `pop`, run with no other thread between.
  unfoldable pub try_push : MpscRing Data → Data → MpscRing Data × Bool
  unfolding is_turn
  try_push r d =
      let (drawn, ticket) = draw_ticket r in
      if is_turn drawn ticket then (publish (put drawn ticket d) ticket, true) else (drawn, false)

  unfoldable pub pop : MpscRing Data → MpscRing Data × Option Data
  unfolding may_pop
  pop r = if may_pop r then (give_back r, some (taken r)) else (r, none)
