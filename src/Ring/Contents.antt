-- ===== src/Ring/Contents.antt =====
-- include/fix/core/Ring.hpp: the items of a ring in order, and how they lie in the buffer.
use fix_engine.Prelude.{
  ℕ, zero, suc, ◌+◌, ◌-◌, ◌%◌, ◌≤◌, ◌<◌, ◌≡◌, ◌≢◌, refl, sym, ◌∙◌, ap, ap₂, false, ◌⊎◌, inl, inr,
  List, [], ◌∷◌, ◌++◌, length, length-append, if◌then◌else◌, if_no, if_yes, ◌==◌, ==_iff, ltb,
  lt→ltb, Bool-cases, arith,
}
use native.Mathlib.Nat.{mod-add-mod, mod-lt, mod-eq_of_lt, mod-eq-sub-mod}
use fix_engine.Ring.{Ring, prev, enlarge, drop_oldest, put, drop_newest}

-- The first n values of a function.
unfoldable pub upto {ℓ} : {A : Type ℓ} → (ℕ → A) → ℕ → List A
upto f zero = []
upto f (suc n) = upto f n ++ f n ∷ []

module _ {A : Type 0} where
  pub upto_ext : (f g : ℕ → A) (n : ℕ) → ((k : ℕ) → k < n → f k ≡ g k) → upto f n ≡ upto g n
  unfolding upto
  upto_ext f g zero e = refl
  upto_ext f g (suc n) e =
      ap (λ xs. xs ++ f n ∷ []) (upto_ext f g n λ k h. e k (omega arith))
      ∙ ap (λ x. upto g n ++ x ∷ []) (e n (omega arith))

  pub upto_cons : (f : ℕ → A) (n : ℕ) → upto f (suc n) ≡ f 0 ∷ upto (λ k. f (suc k)) n
  unfolding upto
  upto_cons f zero = refl
  upto_cons f (suc n) = ap (λ xs. xs ++ f (suc n) ∷ []) (upto_cons f n)

  pub length-upto : (f : ℕ → A) (n : ℕ) → length (upto f n) ≡ n
  unfolding upto
  length-upto f zero = refl
  length-upto f (suc n) = omega (arith, length-append (upto f n) (f n ∷ []), length-upto f n)

  -- The items, the oldest first.
  unfoldable pub contents : Ring A → List A
  unfolding upto
  contents r = upto (λ k. r.buffer ((r.head + k) % r.capacity)) r.size

  pub length-contents : (r : Ring A) → length (contents r) ≡ r.size
  unfolding contents
  length-contents r = length-upto _ r.size

  pub record IsValid (r : Ring A) : Type 0 where
    pub head_below : r.head < r.capacity
    pub fits : r.size ≤ r.capacity
    pub tail_at : r.tail ≡ (r.head + r.size) % r.capacity

-- An index that goes round at most once.
wrap : (a c : ℕ) → a < c + c → ((a < c) × (a % c ≡ a)) ⊎ ((c ≤ a) × (a % c ≡ a - c))
wrap a c h = elim (Bool-cases (ltb a c)) [
  | inl below ↦ inl (ground (arith, below), mod-eq_of_lt (ground (arith, below)))
  | inr over ↦
      let above : c ≤ a = ground (arith, over) in
      inr (above, mod-eq-sub-mod above ∙ mod-eq_of_lt (omega arith))
]

==_miss : (a b : ℕ) → a ≢ b → (a == b) ≡ false
==_miss a b n = elim (Bool-cases (a == b)) [
  | inl hit ↦ absurd (n ((==_iff a b).0 hit))
  | inr miss ↦ miss
]

-- Different items lie in different cells.
apart : (h k n c : ℕ) → h < c → k < n → n < c → (h + k) % c ≢ (h + n) % c
apart h k n c low before fits e = elim (wrap (h + k) c (omega arith)) [
  | inl (b1, e1) ↦ elim (wrap (h + n) c (omega arith)) [
    | inl (b2, e2) ↦ omega arith
    | inr (b2, e2) ↦ omega arith
  ]
  | inr (b1, e1) ↦ elim (wrap (h + n) c (omega arith)) [
    | inl (b2, e2) ↦ omega arith
    | inr (b2, e2) ↦ omega arith
  ]
]

module _ {A : Type 0} (r : Ring A) (v : IsValid r) where
  pub drop_oldest-IsValid : 0 < r.size → IsValid (drop_oldest r)
  unfolding drop_oldest
  drop_oldest-IsValid some_item =
      let low = v.head_below in
      let fit = v.fits in
      record {
        head_below = mod-lt (r.head + 1) (omega arith);
        fits = omega arith;
        tail_at =
            v.tail_at
            ∙ ap (λ i. i % r.capacity) (omega arith)
            ∙ sym (mod-add-mod (r.head + 1) r.capacity (r.size - 1));
      }

  pub drop_oldest-contents : 0 < r.size → contents r ≡ r.buffer r.head ∷ contents (drop_oldest r)
  unfolding contents drop_oldest
  drop_oldest-contents some_item =
      let f : ℕ → A = λ k. r.buffer ((r.head + k) % r.capacity) in
      let low = v.head_below in
      let size : r.size ≡ suc (r.size - 1) = omega arith in
      let first : (r.head + 0) % r.capacity ≡ r.head =
        ap (λ i. i % r.capacity) (omega arith) ∙ mod-eq_of_lt low in
      ap (upto f) size
      ∙ upto_cons f (r.size - 1)
      ∙ ap₂ (λ x xs. x ∷ xs) (ap r.buffer first)
          (upto_ext _ _ (r.size - 1) λ k _.
            ap r.buffer (
              ap (λ i. i % r.capacity) (omega arith) ∙ sym (mod-add-mod (r.head + 1) r.capacity k)))

  pub put-IsValid : (item : A) → r.size < r.capacity → IsValid (put r item)
  unfolding put
  put-IsValid item room =
      let low = v.head_below in
      record {
        head_below = low;
        fits = omega arith;
        tail_at =
            ap (λ t. (t + 1) % r.capacity) v.tail_at
            ∙ mod-add-mod (r.head + r.size) r.capacity 1
            ∙ ap (λ i. i % r.capacity) (omega arith);
      }

  pub put-contents :
      (item : A) → r.size < r.capacity → contents (put r item) ≡ contents r ++ item ∷ []
  unfolding contents put upto
  put-contents item room =
      let at : ℕ → ℕ = λ k. (r.head + k) % r.capacity in
      let g : ℕ → A = λ k. if at k == r.tail then item else r.buffer (at k) in
      let size : r.size + 1 ≡ suc r.size = omega arith in
      ap (upto g) size
      ∙ ap₂ (λ xs x. xs ++ x ∷ [])
          (upto_ext g _ r.size λ k below. if_no (at k == r.tail) _ _ (
            ==_miss (at k) r.tail
              λ e. apart r.head k r.size r.capacity v.head_below below room (e ∙ v.tail_at)))
          (if_yes (at r.size == r.tail) _ _ ((==_iff (at r.size) r.tail).1 (sym v.tail_at)))

  pub enlarge-IsValid :
      (min_grow_size : ℕ) (blank : A) → 0 < min_grow_size → IsValid (enlarge min_grow_size blank r)
  unfolding enlarge
  enlarge-IsValid min_grow_size blank grows =
      let low = v.head_below in
      let fit = v.fits in
      record {
        head_below = omega arith;
        fits = omega arith;
        tail_at =
            sym (mod-eq_of_lt (omega arith))
            ∙ ap (λ i. i % (r.capacity + min_grow_size)) (omega arith);
      }

  pub enlarge-contents :
      (min_grow_size : ℕ) (blank : A) → contents (enlarge min_grow_size blank r) ≡ contents r
  unfolding contents enlarge
  enlarge-contents min_grow_size blank =
      let fit = v.fits in
      let c = r.capacity + min_grow_size in
      upto_ext _ _ r.size λ k below.
        let same_cell : (0 + k) % c ≡ k =
          ap (λ i. i % c) (omega arith) ∙ mod-eq_of_lt (omega arith) in
        ap (λ i. if ltb i r.size then r.buffer ((r.head + i) % r.capacity) else blank) same_cell
        ∙ if_yes (ltb k r.size) _ _ (lt→ltb k r.size below)

  newest_cell : 0 < r.size → prev r r.tail ≡ (r.head + (r.size - 1)) % r.capacity
  newest_cell some_item =
      let low = v.head_below in
      let fit = v.fits in
      let t = v.tail_at in
      elim (wrap (r.head + r.size) r.capacity (omega arith)) [
        | inl (b1, e1) ↦ elim (wrap (r.head + (r.size - 1)) r.capacity (omega arith)) [
          | inl (b2, e2) ↦ ground arith
          | inr (b2, e2) ↦ ground arith
        ]
        | inr (b1, e1) ↦ elim (wrap (r.head + (r.size - 1)) r.capacity (omega arith)) [
          | inl (b2, e2) ↦ ground arith
          | inr (b2, e2) ↦ ground arith
        ]
      ]

  pub drop_newest-IsValid : 0 < r.size → IsValid (drop_newest r)
  unfolding drop_newest
  drop_newest-IsValid some_item =
      let fit = v.fits in
      record { head_below = v.head_below; fits = omega arith; tail_at = newest_cell some_item }

  pub drop_newest-contents :
      0 < r.size → contents r ≡ contents (drop_newest r) ++ r.buffer (prev r r.tail) ∷ []
  unfolding contents drop_newest upto
  drop_newest-contents some_item =
      let f : ℕ → A = λ k. r.buffer ((r.head + k) % r.capacity) in
      let size : r.size ≡ suc (r.size - 1) = omega arith in
      ap (upto f) size
      ∙ ap (λ i. upto f (r.size - 1) ++ r.buffer i ∷ []) (sym (newest_cell some_item))
