-- ===== src/Arena/Leases.antt =====
-- src/Arena.cpp: blocks handed out, written by those who hold them, and given back, in any order.
use fix_engine.Prelude.{
  ℕ, ◌+◌, ◌≤◌, ◌<◌, ◌≡◌, ◌≢◌, refl, sym, ◌∙◌, ap, subst, true, ◌||◌, List, [], ◌∷◌, ◌++◌, Bytes,
  ltb, ◌==◌, if_either, length, arith,
}
use fix_engine.Prelude.Memory.{read, write}
use fix_engine.Arena.{
  Arena, word_bytes, block_size, block_count, end, block_pointer, read_next, write_next, word_of,
  new_arena, chain_blocks, ArenaHandle, on_heap, in_arena, capacity, release, allocate_arena,
  allocate, destroy,
}
use fix_engine.Prelude.Counts.{one_if, occurrences, occurrences-append, occurrences_cons, here}
use fix_engine.Arena.FreeList.{
  runs_through, runs_through-Chain, count_up, occurrences-count_up, Chain, Chain-ext,
  read_next-write_next, link_kept, write_next-write, Chain-small,
}

-- Each of the blocks is free or held, once; nothing else is either.
pub record IsValid (a : Arena) (held : List ℕ) : Type 0 where
  pub free : List ℕ
  pub chain : Chain a.memory a.free_index free
  pub accounted : (x : ℕ) → occurrences x free + occurrences x held ≡ one_if (ltb x block_count)

all_free : runs_through new_arena.memory 0 (count_up 0 block_count) ≡ true
unfolding new_arena chain_blocks runs_through count_up read_next write_next word_of read write
all_free = refl

new_arena-IsValid : IsValid new_arena []
unfolding new_arena occurrences
new_arena-IsValid = record {
  free = count_up 0 block_count;
  chain = runs_through-Chain new_arena.memory 0 (count_up 0 block_count) all_free;
  accounted = λ x. ground (arith, occurrences-count_up x 0 block_count);
}

abbrev pub leased : ArenaHandle → List ℕ → List ℕ
leased (on_heap size) held = held
leased (in_arena index) held = index ∷ held

-- What an allocation gives: room for the size, and of the arena a block that nobody holds.
pub record Gives (a : Arena) (held : List ℕ) (size : ℕ) (b : Arena) (h : ArenaHandle) : Type 0 where
  pub room : size ≤ capacity h
  pub valid : IsValid b (leased h held)
  pub same_memory : b.memory ≡ a.memory

not_held :
    (a : Arena) (held : List ℕ) (size : ℕ)
    → IsValid a held
    → size ≤ block_size
    → (a.free_index ≡ end → ⊥)
    → Gives a held size (allocate_arena a).0 (allocate_arena a).1
unfolding allocate_arena capacity Chain
not_held a held size v small some_free = by_free v.free v.chain v.accounted
  where
    by_free :
        (free : List ℕ)
        → Chain a.memory a.free_index free
        → ((x : ℕ) → occurrences x free + occurrences x held ≡ one_if (ltb x block_count))
        → Gives a held size
            (record a { free_index = read_next a.memory a.free_index })
            (in_arena a.free_index)
    by_free [] c all = absurd (some_free c)
    by_free (i ∷ is) (e, (low, c)) all = record {
      room = small;
      valid = record {
        free = is;
        chain = subst (λ k. Chain a.memory (read_next a.memory k) is) (sym e) c;
        accounted = λ x.
            let at = all x in
            let first : one_if (a.free_index == x) ≡ one_if (i == x) =
              ap (λ k. one_if (k == x)) e in
            omega (arith, at, occurrences_cons x i is, occurrences_cons x a.free_index held, first);
      };
      same_memory = refl;
    }

-- Every size is given room, of the arena or of the heap.
pub allocate_lem :
    (a : Arena) (held : List ℕ) (size : ℕ)
    → IsValid a held
    → Gives a held size (allocate a size).0 (allocate a size).1
unfolding allocate capacity
allocate_lem a held size v =
    if_either (λ (r : Arena × ArenaHandle). Gives a held size r.0 r.1)
      (ltb block_size size || a.free_index == end) _ _
      (λ _. record { room = omega arith; valid = v; same_memory = refl })
      λ no. not_held a held size v (ground (arith, no)) (ground (arith, no))

-- A block that is held is none of the free ones.
held_apart :
    (a : Arena) (held : List ℕ) (i j : ℕ) (v : IsValid a held)
    → 0 < occurrences i held
    → 0 < occurrences j v.free
    → i ≢ j
held_apart a held i j v holds free same =
    let all = v.accounted j in
    let at : 0 < occurrences j held = subst (λ k. 0 < occurrences k held) same holds in
    ground (arith, all, at, free)

-- A block written by one who holds it.
pub fill_lem :
    (a : Arena) (held : List ℕ) (i off : ℕ) (bytes : Bytes)
    → IsValid a held
    → 0 < occurrences i held
    → off + length bytes ≤ block_size
    → IsValid (record a { memory = write a.memory (block_pointer i + off) bytes }) held
fill_lem a held i off bytes v holds fits = record {
  free = v.free;
  chain =
      Chain-ext a.memory (write a.memory (block_pointer i + off) bytes) a.free_index v.free
        (λ j free. link_kept a.memory i off bytes j (held_apart a held i j v holds free) fits)
        v.chain;
  accounted = v.accounted;
}

release_lem :
    (a : Arena) (xs ys : List ℕ) (i : ℕ)
    → IsValid a (xs ++ i ∷ ys)
    → IsValid (release a i) (xs ++ ys)
unfolding release Chain
release_lem a xs ys i v =
    let held = xs ++ i ∷ ys in
    let after = write_next a.memory i a.free_index in
    let all = v.accounted in
    let holds : 0 < occurrences i held =
      omega (arith, occurrences-append i xs (i ∷ ys), occurrences_cons i i ys, here i) in
    let kept : (j : ℕ) → 0 < occurrences j v.free → read_next after j ≡ read_next a.memory j =
      λ j free.
        ap (λ m. read_next m j) (write_next-write a.memory i a.free_index)
        ∙ link_kept a.memory i 0 (word_bytes a.free_index) j (held_apart a held i j v holds free)
            (omega arith) in
    record {
      free = i ∷ v.free;
      chain = (
        refl,
        (
          ground (arith, all i, holds),
          subst (λ k. Chain after k v.free)
              (sym (
                read_next-write_next a.memory i a.free_index
                  (Chain-small a.memory a.free_index v.free v.chain)))
              (Chain-ext a.memory after a.free_index v.free kept v.chain),
        ),
      );
      accounted = λ x. omega (
        arith,
        all x,
        occurrences_cons x i v.free,
        occurrences-append x xs (i ∷ ys),
        occurrences_cons x i ys,
        occurrences-append x xs ys,
      );
    }

-- Who holds which blocks, and the arena.
pub record Leases : Type 0 where
  pub arena : Arena
  pub held : List ℕ

-- What happens to an arena: an allocation of any size, a write inside a block that is held, and the end
-- of a handle on one.
pub data Step (s : Leases) : Leases → Type 0 where
  takes :
      (size : ℕ)
      → Step s (record {
        arena = (allocate s.arena size).0;
        held = leased (allocate s.arena size).1 s.held;
      })
  writes :
      (i off : ℕ) (bytes : Bytes)
      → 0 < occurrences i s.held
      → off + length bytes ≤ block_size
      → Step s (record s {
        arena = record (s.arena) { memory = write s.arena.memory (block_pointer i + off) bytes };
      })
  gives_back :
      (i : ℕ) (xs ys : List ℕ)
      → s.held ≡ xs ++ i ∷ ys
      → Step s (record { arena = destroy s.arena (in_arena i); held = xs ++ ys })

pub data Reach : Leases → Type 0 where
  start : Reach (record { arena = new_arena; held = [] })
  later : {s t : Leases} → Reach s → Step s t → Reach t

pub Step-IsValid : {s t : Leases} → Step s t → IsValid s.arena s.held → IsValid t.arena t.held
unfolding destroy
Step-IsValid {s} (takes size) v = (allocate_lem s.arena s.held size v).valid
Step-IsValid {s} (writes i off bytes holds fits) v =
    fill_lem s.arena s.held i off bytes v holds fits
Step-IsValid {s} (gives_back i xs ys e) v =
    release_lem s.arena xs ys i (subst (IsValid s.arena) e v)

-- Whatever sequence of allocations, writes by holders and releases an arena has seen, each of its
-- sixteen blocks is either free or held, by one holder, and the list through the memory of the free
-- blocks runs through exactly these.
pub Reach-IsValid : (s : Leases) → Reach s → IsValid s.arena s.held
Reach-IsValid s start = new_arena-IsValid
Reach-IsValid t (later r st) = Step-IsValid st (Reach-IsValid _ r)
