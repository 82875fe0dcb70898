-- ===== src/Ring.antt =====
-- include/fix/core/Ring.hpp: a queue in a circular buffer. The cells are a function of the index; a
-- cell of a new buffer holds the default value of its type.
pub mod Contents
pub mod Queue
mod Tests
use fix_engine.Prelude.{
  ℕ, ◌+◌, ◌-◌, ◌%◌, Bool, true, false, ltb, ◌==◌, if◌then◌else◌, Option, none, some,
}

pub data RingPolicy : Type 0 where
  grow reject overwrite : RingPolicy

pub record Ring (A : Type 0) : Type 0 where
  pub head : ℕ
  pub tail : ℕ
  pub capacity : ℕ
  pub size : ℕ
  pub buffer : ℕ → A

module _ {A : Type 0} where
  abbrev pub new_ring : ℕ → A → Ring A
  new_ring capacity blank = record {
    head = 0;
    tail = 0;
    capacity = capacity;
    size = 0;
    buffer = λ _. blank;
  }

  abbrev pub empty : Ring A → Bool
  empty r = r.size == 0

  abbrev pub full : Ring A → Bool
  full r = r.size == r.capacity

  abbrev pub next : Ring A → ℕ → ℕ
  next r idx = (idx + 1) % r.capacity

  abbrev pub prev : Ring A → ℕ → ℕ
  prev r idx = if idx == 0 then r.capacity - 1 else idx - 1

  -- `push` of a full ring that grows: the items are copied to the start of a larger buffer.
  unfoldable pub enlarge : ℕ → A → Ring A → Ring A
  enlarge min_grow_size blank r = record {
    head = 0;
    tail = r.size;
    capacity = r.capacity + min_grow_size;
    size = r.size;
    buffer = λ k. if ltb k r.size then r.buffer ((r.head + k) % r.capacity) else blank;
  }

  -- The oldest item is given up.
  unfoldable pub drop_oldest : Ring A → Ring A
  drop_oldest r = record r { head = next r r.head; size = r.size - 1 }

  -- The end of `push`.
  unfoldable pub put : Ring A → A → Ring A
  put r item = record r {
    buffer = λ i. if i == r.tail then item else r.buffer i;
    tail = next r r.tail;
    size = r.size + 1;
  }

  -- `push` of a full ring, by its policy.
  unfoldable pub push_full : RingPolicy → ℕ → A → Ring A → A → Ring A × Bool
  unfolding enlarge drop_oldest put
  push_full grow min_grow_size blank r item = (put (enlarge min_grow_size blank r) item, true)
  push_full overwrite min_grow_size blank r item = (put (drop_oldest r) item, true)
  push_full reject min_grow_size blank r item = (r, false)

  unfoldable pub push : RingPolicy → ℕ → A → Ring A → A → Ring A × Bool
  unfolding push_full put
  push policy min_grow_size blank r item =
      if full r then push_full policy min_grow_size blank r item else (put r item, true)

  -- `none` is a violated assert, here and below.
  unfoldable pub front : Ring A → Option A
  front r = if empty r then none else some (r.buffer r.head)

  unfoldable pub back : Ring A → Option A
  back r = if empty r then none else some (r.buffer (prev r r.tail))

  unfoldable pub pop_front : Ring A → Option (Ring A)
  unfolding drop_oldest
  pop_front r = if empty r then none else some (drop_oldest r)

  unfoldable pub drop_newest : Ring A → Ring A
  drop_newest r = record r { tail = prev r r.tail; size = r.size - 1 }

  unfoldable pub pop_back : Ring A → Option (Ring A)
  unfolding drop_newest
  pop_back r = if empty r then none else some (drop_newest r)

  unfoldable pub clear : Ring A → Ring A
  clear r = record r { head = 0; tail = 0; size = 0 }
