-- ===== src/WireWriter.antt =====
-- include/fix/core/WireWriter.hpp and src/WireWriter.cpp: bytes written one after the other into the
-- memory of a handle.
pub mod View
mod Tests
use fix_engine.Prelude.{ℕ, ◌+◌, [], ◌∷◌, Bytes, length}
use fix_engine.Prelude.Memory.{Memory, fresh, read, write}
use fix_engine.Chars.{soh, to_chars_int64}
use fix_engine.Arena.{Arena, ArenaHandle, on_heap, in_arena, block_pointer, allocate}

-- The memory of a handle on the heap is the writer's alone.
pub record WireWriter : Type 0 where
  pub handle : ArenaHandle
  pub heap : Memory
  pub size : ℕ

abbrev pub new_writer : ArenaHandle → WireWriter
new_writer handle = record { handle = handle; heap = fresh; size = 0 }

-- `append` of some bytes; the memory is taken to reach so far.
unfoldable pub append : Arena → WireWriter → Bytes → Arena × WireWriter
append a w bytes = elim (w.handle) [
  | on_heap capacity ↦
      (a, record w { heap = write w.heap w.size bytes; size = w.size + length bytes })
  | in_arena index ↦ (
    record a { memory = write a.memory (block_pointer index + w.size) bytes },
    record w { size = w.size + length bytes },
  )
]

abbrev pub append_char : Arena → WireWriter → ℕ → Arena × WireWriter
append_char a w c = append a w (c ∷ [])

abbrev pub append_eq : Arena → WireWriter → Arena × WireWriter
append_eq a w = append_char a w b'='

abbrev pub append_soh : Arena → WireWriter → Arena × WireWriter
append_soh a w = append_char a w soh

-- The number by the bit pattern of its `int64_t`.
abbrev pub append_int : Arena → WireWriter → ℕ → Arena × WireWriter
append_int a w value = append a w (to_chars_int64 value)

unfoldable pub from_arena : Arena → Bytes → Arena × WireWriter
unfolding append
from_arena a msg_wire =
    let (b, handle) = allocate a (length msg_wire) in append b (new_writer handle) msg_wire

unfoldable pub view : Arena → WireWriter → Bytes
view a w = elim (w.handle) [
  | on_heap capacity ↦ read w.heap 0 w.size
  | in_arena index ↦ read a.memory (block_pointer index) w.size
]
