-- ===== src/Arena/FreeList.antt =====
-- src/Arena.cpp: the list of the free blocks, as it lies in memory.
use fix_engine.Prelude.{
  ℕ, zero, suc, ◌+◌, ◌^◌, ◌≤◌, ◌<◌, ◌≡◌, ◌≢◌, sym, ◌∙◌, ap, Bool, true, List, [], ◌∷◌, Bytes, ltb,
  ◌==◌, ==_iff, subst, and-true, ◌&&◌, ltb→lt, length, arith, Bool-cases, inl, inr,
}
use fix_engine.Prelude.Counts.{one_if, occurrences, occurrences_cons, here}
use fix_engine.Prelude.Memory.{
  Memory, read, write, read-write_self, read-write_below, read-write_above,
}
use fix_engine.Arena.{
  block_size, block_count, end, block_pointer, word_bytes, word_of, write_next, read_next,
}

-- The blocks that the list runs through, from this index on.
unfoldable pub Chain : Memory → ℕ → List ℕ → Type 0
Chain m index [] = index ≡ end
Chain m index (i ∷ is) = (index ≡ i) × ((i < block_count) × Chain m (read_next m i) is)

-- The test that the list runs so, and that it finds it.
unfoldable pub runs_through : Memory → ℕ → List ℕ → Bool
runs_through m index [] = index == end
runs_through m index (i ∷ is) =
    index == i && (ltb i block_count && runs_through m (read_next m i) is)

pub runs_through-Chain :
    (m : Memory) (index : ℕ) (is : List ℕ) → runs_through m index is ≡ true → Chain m index is
unfolding runs_through Chain
runs_through-Chain m index [] e = (==_iff index end).0 e
runs_through-Chain m index (i ∷ is) e =
    let first = and-true (index == i) _ e in
    let second = and-true (ltb i block_count) _ first.1 in
    (
      (==_iff index i).0 first.0,
      (ltb→lt i block_count second.0, runs_through-Chain m (read_next m i) is second.1),
    )

-- The numbers from i on, n of them.
unfoldable pub count_up : ℕ → ℕ → List ℕ
count_up i zero = []
count_up i (suc n) = i ∷ count_up (i + 1) n

pub occurrences-count_up :
    (x i n : ℕ) → occurrences x (count_up i n) + one_if (ltb x i) ≡ one_if (ltb x (i + n))
unfolding occurrences count_up
occurrences-count_up x i zero = ground arith
occurrences-count_up x i (suc n) = ground (arith, occurrences-count_up x (i + 1) n)

pub read_next-write_next :
    (m : Memory) (i next : ℕ) → next < 2 ^ 32 → read_next (write_next m i next) i ≡ next
unfolding read_next write_next word_of
read_next-write_next m i next small =
    ap word_of (read-write_self m (block_pointer i) (word_bytes next)) ∙ omega arith

-- A write inside one block leaves every other block as it is.
pub read-other_block :
    (m : Memory) (i off : ℕ) (bytes : Bytes) (j from n : ℕ)
    → i ≢ j
    → off + length bytes ≤ block_size
    → from + n ≤ block_size
    → read (write m (block_pointer i + off) bytes) (block_pointer j + from) n
      ≡ read m (block_pointer j + from) n
read-other_block m i off bytes j from n apart fits inside = elim (Bool-cases (ltb i j)) [
  | inl below ↦
      read-write_above m (block_pointer i + off) bytes (block_pointer j + from) n
        (let h : i < j = ground (arith, below) in omega arith)
  | inr not_below ↦
      read-write_below m (block_pointer i + off) bytes (block_pointer j + from) n
        (let h : j < i = ground (arith, not_below, apart) in omega arith)
]

-- The list is the same in memories that agree on the links of its blocks.
pub Chain-ext :
    (m n : Memory) (index : ℕ) (is : List ℕ)
    → ((i : ℕ) → 0 < occurrences i is → read_next n i ≡ read_next m i)
    → Chain m index is
    → Chain n index is
unfolding Chain
Chain-ext m n index [] same c = c
Chain-ext m n index (i ∷ is) same (e, (low, c)) = (
  e,
  (
    low,
    Chain-ext m n (read_next n i) is (λ j h. same j (omega (arith, occurrences_cons j i is, h)))
        (subst (λ k. Chain m k is) (sym (same i (omega (arith, occurrences_cons i i is, here i))))
          c),
  ),
)

-- The link of one block is as it was before a write inside another.
pub link_kept :
    (m : Memory) (i off : ℕ) (bytes : Bytes) (j : ℕ)
    → i ≢ j
    → off + length bytes ≤ block_size
    → read_next (write m (block_pointer i + off) bytes) j ≡ read_next m j
unfolding read_next
link_kept m i off bytes j apart fits =
    let w = write m (block_pointer i + off) bytes in
    let here : block_pointer j ≡ block_pointer j + 0 = omega arith in
    ap (λ k. word_of (read w k 4)) here
    ∙ ap word_of (read-other_block m i off bytes j 0 4 apart fits (omega arith))
    ∙ ap (λ k. word_of (read m k 4)) (sym here)

pub write_next-write :
    (m : Memory) (i next : ℕ)
    → write_next m i next ≡ write m (block_pointer i + 0) (word_bytes next)
unfolding write_next
write_next-write m i next = ap (λ k. write m k (word_bytes next)) (omega arith)

pub Chain-small : (m : Memory) (index : ℕ) (is : List ℕ) → Chain m index is → index < 2 ^ 32
unfolding Chain
Chain-small m index [] e = omega (arith, e)
Chain-small m index (i ∷ is) (e, (low, c)) = omega (arith, e, low)
