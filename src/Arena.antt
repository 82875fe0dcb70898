-- ===== src/Arena.antt =====
-- include/fix/core/Arena.hpp and src/Arena.cpp: sixteen blocks of memory, the free ones in a list that
-- runs through the blocks themselves.
pub mod FreeList
pub mod Leases
mod Tests
use fix_engine.Prelude.{
  ℕ, zero, suc, ◌+◌, ◌*◌, ◌-◌, ◌/◌, ◌%◌, ◌^◌, Bool, true, false, ◌||◌, List, [], ◌∷◌, Bytes, ltb,
  ◌==◌, if◌then◌else◌, length,
}
use fix_engine.Prelude.Memory.{Memory, fresh, read, write}

abbrev pub block_size : ℕ
block_size = 8 * 1024

abbrev pub block_count : ℕ
block_count = 16

-- UINT32_MAX, the index that ends the list
abbrev pub end : ℕ
end = 2 ^ 32 - 1

pub record Arena : Type 0 where
  pub memory : Memory
  pub free_index : ℕ

-- memcpy of a `uint32_t` into memory, its lowest byte first, and back.
abbrev pub word_bytes : ℕ → Bytes
word_bytes n = n % 256 ∷ n / 256 % 256 ∷ n / 65536 % 256 ∷ n / 16777216 % 256 ∷ []

unfoldable pub word_of : Bytes → ℕ
word_of [] = 0
word_of (b ∷ bs) = b + 256 * word_of bs

-- The offset of a block: `block_pointer`.
abbrev pub block_pointer : ℕ → ℕ
block_pointer index = index * block_size

unfoldable pub write_next : Memory → ℕ → ℕ → Memory
write_next m idx next = write m (block_pointer idx) (word_bytes next)

unfoldable pub read_next : Memory → ℕ → ℕ
unfolding word_of
read_next m idx = word_of (read m (block_pointer idx) 4)

-- The loop of the constructor, from block `i` on for `n` blocks.
unfoldable pub chain_blocks : ℕ → ℕ → Memory → Memory
unfolding write_next
chain_blocks zero i m = m
chain_blocks (suc n) i m = chain_blocks n (i + 1) (write_next m i (i + 1))

unfoldable pub new_arena : Arena
unfolding chain_blocks
new_arena = record {
  memory = write_next (chain_blocks block_count 0 fresh) (block_count - 1) end;
  free_index = 0;
}

-- A handle that holds memory: of the heap, of this size, or a block of the arena.
pub data ArenaHandle : Type 0 where
  on_heap : ℕ → ArenaHandle
  in_arena : ℕ → ArenaHandle

unfoldable pub capacity : ArenaHandle → ℕ
capacity (on_heap size) = size
capacity (in_arena index) = block_size

-- `release`
unfoldable pub release : Arena → ℕ → Arena
unfolding write_next
release a index = record { memory = write_next a.memory index a.free_index; free_index = index }

-- `allocate_arena`
unfoldable pub allocate_arena : Arena → Arena × ArenaHandle
unfolding read_next
allocate_arena a =
    (record a { free_index = read_next a.memory a.free_index }, in_arena a.free_index)

-- `allocate`; the heap is taken never to be exhausted.
unfoldable pub allocate : Arena → ℕ → Arena × ArenaHandle
unfolding allocate_arena
allocate a size =
    if ltb block_size size || a.free_index == end then (a, on_heap size) else allocate_arena a

-- The destructor of a handle, and what a handle assigned to gives up. Of one that was moved from
-- nothing is left.
unfoldable pub destroy : Arena → ArenaHandle → Arena
unfolding release
destroy a (on_heap size) = a
destroy a (in_arena index) = release a index
