-- ===== src/Prelude/Memory.antt =====
-- Flat memory: what `new std::byte[n]` returns, by offset, with `memcpy` in and out of it. Offsets
-- are not bounded here: that each access lies below the capacity is an invariant of each owner.
use Prim.Native.Nat.{ℕ, zero, suc, ◌+◌, ◌-◌, ◌≤◌, ◌<◌}
use mathlib.Core.Path.{◌≡◌, refl, ap, ap₂, ◌∙◌}
use mathlib.Core.List.{List, [], ◌∷◌, ◌++◌}
use mathlib.Core.Option.{none, some}
use native.Mathlib.Omega.{arith}
use fix_engine.Prelude.Tests.{ltb, if◌then◌else◌}
use fix_engine.Prelude.Lists.{length, get_elem?, get_elem?_beyond}

abbrev pub Memory : Type 0
Memory = ℕ → ℕ

-- The bytes of a new allocation. Nothing reads one before it is written.
abbrev pub fresh : Memory
fresh i = 0

-- memcpy(m + off, bytes, length bytes)
unfoldable pub write : Memory → ℕ → List ℕ → Memory
write m off bytes i =
    if ltb i off then m i else elim (get_elem? bytes (i - off)) [ none ↦ m i | some b ↦ b ]

-- The `n` bytes from `off` on.
unfoldable pub read : Memory → ℕ → ℕ → List ℕ
read m off zero = []
read m off (suc n) = m off ∷ read m (off + 1) n

pub read_none : (m : Memory) (off : ℕ) → read m off 0 ≡ []
unfolding read
read_none m off = refl

pub length-read : (m : Memory) (off n : ℕ) → length (read m off n) ≡ n
unfolding read
length-read m off zero = refl
length-read m off (suc n) = ap suc (length-read m (off + 1) n)

pub read_ext :
    (m m' : Memory) (off n : ℕ)
    → ((i : ℕ) → off ≤ i → i < off + n → m i ≡ m' i)
    → read m off n ≡ read m' off n
unfolding read
read_ext m m' off zero h = refl
read_ext m m' off (suc n) h =
    ap₂ ◌∷◌ (h off (omega arith) (omega arith))
      (read_ext m m' (off + 1) n (λ i lo hi. h i (omega arith) (omega arith)))

write_below : (m : Memory) (off : ℕ) (bytes : List ℕ) (i : ℕ) → i < off → write m off bytes i ≡ m i
unfolding write
write_below m off bytes i h = ground arith

write_head : (m : Memory) (off b : ℕ) (bs : List ℕ) → write m off (b ∷ bs) off ≡ b
unfolding write
write_head m off b bs = let e : off - off ≡ 0 = omega arith in ground (arith, e)

write_tail :
    (m : Memory) (off b : ℕ) (bs : List ℕ) (i : ℕ)
    → off < i
    → write m off (b ∷ bs) i ≡ write m (off + 1) bs i
unfolding write
write_tail m off b bs i h = let e : i - off ≡ suc (i - (off + 1)) = omega arith in ground (arith, e)

pub read-write_self :
    (m : Memory) (off : ℕ) (bytes : List ℕ) → read (write m off bytes) off (length bytes) ≡ bytes
unfolding read
read-write_self m off [] = refl
read-write_self m off (b ∷ bs) = ap₂ ◌∷◌ (write_head m off b bs) (
    read_ext (write m off (b ∷ bs)) (write m (off + 1) bs) (off + 1) (length bs)
      (λ i lo hi. write_tail m off b bs i (omega arith))
    ∙ read-write_self m (off + 1) bs)

pub read-write_below :
    (m : Memory) (off : ℕ) (bytes : List ℕ) (from n : ℕ)
    → from + n ≤ off
    → read (write m off bytes) from n ≡ read m from n
read-write_below m off bytes from n h =
    read_ext (write m off bytes) m from n (λ i lo hi. write_below m off bytes i (omega arith))

write_above :
    (m : Memory) (off : ℕ) (bytes : List ℕ) (i : ℕ)
    → off + length bytes ≤ i
    → write m off bytes i ≡ m i
unfolding write
write_above m off bytes i h =
    let e : get_elem? bytes (i - off) ≡ none = get_elem?_beyond bytes (i - off) (omega arith) in
    ground (arith, e)

pub read-write_above :
    (m : Memory) (off : ℕ) (bytes : List ℕ) (from n : ℕ)
    → off + length bytes ≤ from
    → read (write m off bytes) from n ≡ read m from n
read-write_above m off bytes from n h =
    read_ext (write m off bytes) m from n (λ i lo hi. write_above m off bytes i (omega arith))

pub read-append :
    (m : Memory) (off a b : ℕ) → read m off (a + b) ≡ read m off a ++ read m (off + a) b
unfolding read
read-append m off zero b =
    let e : off + 0 ≡ off = omega arith in rw e (ap (read m off) (omega arith))
read-append m off (suc a) b =
    let e : suc a + b ≡ suc (a + b) = omega arith in
    let e' : off + suc a ≡ off + 1 + a = omega arith in
    rw (e, e') (ap (λ r. m off ∷ r) (read-append m (off + 1) a b))

pub read-append_start : (m : Memory) (a b : ℕ) → read m 0 (a + b) ≡ read m 0 a ++ read m a b
read-append_start m a b = let e : 0 + a ≡ a = omega arith in read-append m 0 a b ∙ rw e refl

get_elem?-read :
    (m : Memory) (off n i : ℕ) → i < n → get_elem? (read m off n) i ≡ some (m (off + i))
unfolding read
get_elem?-read m off zero i h = absurd (omega arith)
get_elem?-read m off (suc n) zero h = ap (λ k. some (m k)) (omega arith)
get_elem?-read m off (suc n) (suc i) h =
    get_elem?-read m (off + 1) n i (omega arith) ∙ ap (λ k. some (m k)) (omega arith)

-- A copy of the first `n` bytes serves every read among them.
pub read_copy :
    (m d : Memory) (n from k : ℕ)
    → from + k ≤ n
    → read (write d 0 (read m 0 n)) from k ≡ read m from k
unfolding write
read_copy m d n from k h = read_ext (write d 0 (read m 0 n)) m from k at
  where
    at : (i : ℕ) → from ≤ i → i < from + k → write d 0 (read m 0 n) i ≡ m i
    at i lo hi =
        let e : 0 + i ≡ i = omega arith in
        let e' : i - 0 ≡ i = omega arith in
        ground (arith, get_elem?-read m 0 n i (omega arith), e, e')
