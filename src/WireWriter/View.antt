-- ===== src/WireWriter/View.antt =====
-- src/WireWriter.cpp: what a writer shows is what was written to it, whatever else uses the arena.
use fix_engine.Prelude.{
  ℕ, ◌+◌, ◌≤◌, ◌<◌, ◌≡◌, ◌≢◌, sym, ◌∙◌, ap, ap₂, List, [], ◌∷◌, ◌++◌, Bytes, length, arith, ◌==◌,
  ==_iff,
}
use fix_engine.Prelude.Memory.{
  Memory, fresh, read, write, read_none, read-append, read-write_self, read-write_below,
}
use fix_engine.Arena.{
  Arena, ArenaHandle, on_heap, in_arena, block_size, block_pointer, word_bytes, capacity, allocate,
  release, destroy,
}
use fix_engine.Prelude.Counts.{one_if, occurrences, occurrences_cons, here}
use fix_engine.Arena.FreeList.{read-other_block, write_next-write}
use fix_engine.Arena.Leases.{
  IsValid, Leases, leased, Gives, allocate_lem, fill_lem, Step, takes, writes, gives_back,
}
use fix_engine.WireWriter.{WireWriter, new_writer, append, from_arena, view}

-- The bytes of a region, and what is written right behind them.
written_behind :
    (m : Memory) (off n : ℕ) (bytes : Bytes)
    → read (write m (off + n) bytes) off (n + length bytes) ≡ read m off n ++ bytes
written_behind m off n bytes =
    read-append (write m (off + n) bytes) off n (length bytes)
    ∙ ap₂ ◌++◌ (read-write_below m (off + n) bytes off n (omega arith))
        (read-write_self m (off + n) bytes)

-- append puts the bytes behind those that the writer shows.
pub view-append :
    (a : Arena) (w : WireWriter) (bytes : Bytes)
    → view (append a w bytes).0 (append a w bytes).1 ≡ view a w ++ bytes
unfolding view append
view-append a w bytes = by_handle w.handle
  where
    by_handle :
        (h : ArenaHandle)
        → let w0 : WireWriter = record w { handle = h } in
          view (append a w0 bytes).0 (append a w0 bytes).1 ≡ view a w0 ++ bytes
    by_handle (on_heap n) =
        ap (λ k. read (write w.heap k bytes) 0 (w.size + length bytes)) (omega arith)
        ∙ written_behind w.heap 0 w.size bytes
    by_handle (in_arena i) = written_behind a.memory (block_pointer i) w.size bytes

other_block :
    (m : Memory) (i off : ℕ) (bytes : Bytes) (j n : ℕ)
    → i ≢ j
    → off + length bytes ≤ block_size
    → n ≤ block_size
    → read (write m (block_pointer i + off) bytes) (block_pointer j) n ≡ read m (block_pointer j) n
other_block m i off bytes j n apart inside fits =
    let w = write m (block_pointer i + off) bytes in
    let here : block_pointer j ≡ block_pointer j + 0 = omega arith in
    ap (λ k. read w k n) here
    ∙ read-other_block m i off bytes j 0 n apart inside (omega arith)
    ∙ ap (λ k. read m k n) (sym here)

-- Does the step leave the holder of this block alone?
pub Spares : (j : ℕ) {s t : Leases} → Step s t → Type 0
Spares j (takes size) = Unit {0}
Spares j (writes i off bytes holds fits) = i ≢ j
Spares j (gives_back i xs ys e) = i ≢ j

-- A block holds its bytes over every step of others.
pub block_kept :
    {s t : Leases} (j n : ℕ) (st : Step s t)
    → IsValid s.arena s.held
    → n ≤ block_size
    → Spares j st
    → read t.arena.memory (block_pointer j) n ≡ read s.arena.memory (block_pointer j) n
unfolding Spares destroy release
block_kept {s} j n (takes size) v fits spares =
    ap (λ m. read m (block_pointer j) n) (allocate_lem s.arena s.held size v).same_memory
block_kept {s} j n (writes i off bytes holds inside) v fits spares =
    other_block s.arena.memory i off bytes j n spares inside fits
block_kept {s} j n (gives_back i xs ys e) v fits spares =
    ap (λ m. read m (block_pointer j) n) (write_next-write s.arena.memory i s.arena.free_index)
    ∙ other_block s.arena.memory i 0 (word_bytes s.arena.free_index) j n spares (omega arith) fits

-- A message taken into a writer: the arena with the writer's block held, the message shown, and what
-- others hold left as it is.
pub record Carries (a : Arena) (held : List ℕ) (msg : Bytes) (b : Arena) (w : WireWriter)
    : Type 0 where
  pub valid : IsValid b (leased w.handle held)
  pub shows : view b w ≡ msg
  pub others :
      (j n : ℕ)
      → 0 < occurrences j held
      → n ≤ block_size
      → read b.memory (block_pointer j) n ≡ read a.memory (block_pointer j) n

fresh_block :
    (b : Arena) (held : List ℕ) (i j : ℕ) → IsValid b (i ∷ held) → 0 < occurrences j held → i ≢ j
fresh_block b held i j v holds same =
    let all = v.accounted j in
    let twice : one_if (i == j) ≡ 1 = ap one_if ((==_iff i j).1 same) in
    ground (arith, all, occurrences_cons j i held, twice, holds)

view_new : (b : Arena) (h : ArenaHandle) → view b (new_writer h) ≡ []
unfolding view
view_new b (on_heap n) = read_none fresh 0
view_new b (in_arena i) = read_none b.memory (block_pointer i)

append_new :
    (a : Arena) (held : List ℕ) (msg : Bytes) (b : Arena) (h : ArenaHandle)
    → Gives a held (length msg) b h
    → Carries a held msg (append b (new_writer h) msg).0 (append b (new_writer h) msg).1
unfolding append view capacity
append_new a held msg b (on_heap n) g = record {
  valid = g.valid;
  shows = view-append b (new_writer (on_heap n)) msg ∙ ap (λ r. r ++ msg) (view_new b (on_heap n));
  others = λ j n holds fits. ap (λ m. read m (block_pointer j) n) g.same_memory;
}
append_new a held msg b (in_arena i) g = record {
  valid =
      fill_lem b (i ∷ held) i 0 msg g.valid (omega (arith, occurrences_cons i i held, here i))
        (omega (arith, g.room));
  shows =
      view-append b (new_writer (in_arena i)) msg ∙ ap (λ r. r ++ msg) (view_new b (in_arena i));
  others = λ j n holds fits.
      other_block b.memory i 0 msg j n (fresh_block b held i j g.valid holds)
        (omega (arith, g.room)) fits
      ∙ ap (λ m. read m (block_pointer j) n) g.same_memory;
}

-- From a valid arena a message of any size is taken into a writer that shows exactly this message, with
-- memory that nobody else holds: the blocks that others hold keep their bytes.
pub from_arena-Carries :
    (a : Arena) (held : List ℕ) (msg : Bytes)
    → IsValid a held
    → Carries a held msg (from_arena a msg).0 (from_arena a msg).1
unfolding from_arena
from_arena-Carries a held msg v =
    append_new a held msg (allocate a (length msg)).0 (allocate a (length msg)).1
      (allocate_lem a held (length msg) v)
