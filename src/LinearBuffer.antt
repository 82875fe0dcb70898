-- ===== src/LinearBuffer.antt =====
-- include/fix/core/LinearBuffer.hpp: the bytes read from a connection, with positions that stay the
-- same while the bytes move.
pub mod View
mod Tests
use fix_engine.Prelude.{
  ℕ, ◌+◌, ◌-◌, ◌*◌, ◌/◌, Bool, true, false, ◌&&◌, ltb, leb, ◌==◌, if◌then◌else◌, Option, none, some,
  Bytes, length, max,
}
use fix_engine.Prelude.Memory.{Memory, fresh, read, write}

pub record LinearBuffer : Type 0 where
  pub capacity : ℕ
  pub memory : Memory
  pub head : ℕ
  pub tail : ℕ
  pub base_abs : ℕ

abbrev pub start_capacity : ℕ
start_capacity = 64 * 1024

abbrev pub min_grow : ℕ
min_grow = 16 * 1024

abbrev pub new_buffer : LinearBuffer
new_buffer = record { capacity = start_capacity; memory = fresh; head = 0; tail = 0; base_abs = 0 }

abbrev pub readable_size : LinearBuffer → ℕ
readable_size b = b.tail - b.head

-- The position of a readable byte, counted over all that was ever pushed.
abbrev pub readable_rel_to_abs : LinearBuffer → ℕ → ℕ
readable_rel_to_abs b rel = b.base_abs + (b.head + rel)

-- `none` is a violated assert, here and below.
unfoldable pub abs_to_readable_rel : LinearBuffer → ℕ → Option ℕ
abs_to_readable_rel b abs =
    if ltb abs b.base_abs
    then none
    else if ltb (abs - b.base_abs) b.head
    then none
    else some (abs - b.base_abs - b.head)

-- The bytes that `readable` spans.
unfoldable pub readable : LinearBuffer → Bytes
readable b = read b.memory b.head (readable_size b)

-- The readable bytes at the start of a buffer.
unfoldable pub moved : LinearBuffer → Memory → ℕ → LinearBuffer
moved b into capacity = record {
  capacity = capacity;
  memory = write into 0 (read b.memory b.head (readable_size b));
  head = 0;
  tail = readable_size b;
  base_abs = b.base_abs + b.head;
}

unfoldable pub emptied : LinearBuffer → LinearBuffer
emptied b = record b { base_abs = b.base_abs + b.head; head = 0; tail = 0 }

unfoldable pub compact : LinearBuffer → LinearBuffer
unfolding moved emptied
compact b = if readable_size b == 0 then emptied b else moved b b.memory b.capacity

-- The capacity that `grow` takes.
unfoldable pub grown_capacity : LinearBuffer → ℕ → ℕ
grown_capacity b n =
    let required = readable_size b + n in
    let new_capacity = b.capacity + max n min_grow in
    if ltb new_capacity required then required else new_capacity

unfoldable pub grow : LinearBuffer → ℕ → LinearBuffer
unfolding moved grown_capacity
grow b n = moved b fresh (grown_capacity b n)

unfoldable pub ensure_writable : LinearBuffer → ℕ → LinearBuffer
unfolding compact grow
ensure_writable b n =
    if leb (b.tail + n) b.capacity
    then b
    else if ltb 0 b.head && leb (readable_size b + n) b.capacity
    then compact b
    else grow b n

unfoldable pub append : LinearBuffer → Bytes → LinearBuffer
append b items = record b { memory = write b.memory b.tail items; tail = b.tail + length items }

unfoldable pub push : LinearBuffer → Bytes → LinearBuffer
unfolding append ensure_writable
push b items = append (ensure_writable b (length items)) items

-- `discard_prefix` behind its assert.
unfoldable pub settle : LinearBuffer → LinearBuffer
unfolding emptied compact
settle b =
    if b.head == b.tail then emptied b else if leb (b.capacity / 2) b.head then compact b else b

unfoldable pub discard_prefix : LinearBuffer → ℕ → Option LinearBuffer
unfolding settle
discard_prefix b count =
    if leb count (readable_size b) then some (settle (record b { head = b.head + count })) else none

unfoldable pub reset : LinearBuffer → LinearBuffer
reset b = record b { base_abs = 0; head = 0; tail = 0 }
