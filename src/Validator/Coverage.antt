-- ===== src/Validator/Coverage.antt =====
-- The bits of the scratch: what `full` says of them, and what the walks leave set.
use fix_engine.Prelude.{
  ℕ, zero, suc, ◌/◌, ◌%◌, ◌<◌, ◌≡◌, refl, ◌∙◌, ap, true, false, List, [], ◌∷◌, some, ltb, ◌==◌,
  ==_iff, Bool-cases, ◌⊎◌, inl, inr, and-true, get_elem?, arith,
}
use fix_engine.Message.{FieldView}
use fix_engine.Validator.Groups.{Check}
use fix_engine.Validator.Steps.{Steps, stay, reported, reported_fatal, touched}
use fix_engine.Validator.TagScratch.{
  TagScratch, Word, all_set, clear, set_in, set, word_at, get, full_words, full,
}

all_set_lem : (n : ℕ) (w : Word) (i : ℕ) → all_set n w ≡ true → i < n → w i ≡ true
unfolding all_set
all_set_lem zero w i e h = ground (arith, h)
all_set_lem (suc n) w i e h =
    let both = and-true (all_set n w) (w n) e in
    elim (Bool-cases (i == n)) [
      | inl hit ↦ ap w ((==_iff i n).0 hit) ∙ both.1
      | inr miss ↦ all_set_lem n w i both.0 (ground (arith, h, miss))
    ]

full_words_lem :
    (q : ℕ) (ws : TagScratch) (k : ℕ)
    → full_words q ws ≡ true
    → k < q
    → all_set 64 (word_at k ws) ≡ true
unfolding full_words
full_words_lem zero ws k e h = ground (arith, h)
full_words_lem (suc q) ws k e h =
    let both = and-true (full_words q ws) (all_set 64 (word_at q ws)) e in
    elim (Bool-cases (k == q)) [
      | inl hit ↦ ap (λ j. all_set 64 (word_at j ws)) ((==_iff k q).0 hit) ∙ both.1
      | inr miss ↦ full_words_lem q ws k both.0 (ground (arith, h, miss))
    ]

-- A scratch that is full up to a size has every bit below it set.
pub full-get :
    (size : ℕ) (ws : TagScratch) (i : ℕ) → full size ws ≡ true → i < size → get i ws ≡ true
unfolding full
full-get size ws i e h =
    let both = and-true (full_words (size / 64) ws) _ e in
    elim (Bool-cases (ltb (i / 64) (size / 64))) [
      | inl below ↦
          all_set_lem 64 (word_at (i / 64) ws) (i % 64)
            (full_words_lem (size / 64) ws (i / 64) both.0 (ground (arith, below))) (omega arith)
      | inr not_below ↦
          let last : i / 64 ≡ size / 64 = ground (arith, h, not_below) in
          ap (λ k. word_at k ws (i % 64)) last
          ∙ all_set_lem (size % 64) (word_at (size / 64) ws) (i % 64) both.1 (omega arith)
    ]

get-clear : (ws : TagScratch) (k b : ℕ) → word_at k (clear ws) b ≡ false
unfolding clear word_at
get-clear [] k b = refl
get-clear (w ∷ ws) zero b = refl
get-clear (w ∷ ws) (suc k) b = get-clear ws k b

set_in_lem :
    (k i : ℕ) (ws : TagScratch) (l j : ℕ)
    → word_at l (set_in k i ws) j ≡ true
    → ((l ≡ k) × (j ≡ i)) ⊎ (word_at l ws j ≡ true)
unfolding set_in word_at
set_in_lem k i [] l j e = inr e
set_in_lem zero i (w ∷ ws) zero j e = elim (Bool-cases (j == i)) [
  | inl hit ↦ inl (refl, (==_iff j i).0 hit)
  | inr miss ↦ inr (ground (arith, e, miss))
]
set_in_lem zero i (w ∷ ws) (suc l) j e = inr e
set_in_lem (suc k) i (w ∷ ws) zero j e = inr e
set_in_lem (suc k) i (w ∷ ws) (suc l) j e = elim (set_in_lem k i ws l j e) [
  | inl (h, h') ↦ inl (ap suc h, h')
  | inr h ↦ inr h
]

-- Setting a bit sets no other.
pub get-set :
    (i : ℕ) (ws : TagScratch) (j : ℕ) → get j (set i ws) ≡ true → (j ≡ i) ⊎ (get j ws ≡ true)
get-set i ws j e = elim (set_in_lem (i / 64) (i % 64) ws (j / 64) (j % 64) e) [
  | inl (h, h') ↦ inl (omega arith)
  | inr h ↦ inr h
]

module _ (msg : List FieldView) (Known : ℕ → Type 0) where
  -- Every field whose bit is set has a tag that the schema names.
  pub KnownBits : TagScratch → Type 0
  KnownBits ws =
      (i : ℕ) → get i ws ≡ true → (v : FieldView) × ((get_elem? msg i ≡ some v) × Known v.tag)

  pub KnownBits-clear : (ws : TagScratch) → KnownBits (clear ws)
  unfolding KnownBits
  KnownBits-clear ws i e = ground (arith, e, get-clear ws (i / 64) (i % 64))

  pub KnownBits-Steps :
      {c d : Check} → Steps msg Known c d → KnownBits c.scratch → KnownBits d.scratch
  unfolding KnownBits
  KnownBits-Steps stay k = k
  KnownBits-Steps (reported info tag code s) k = KnownBits-Steps s k
  KnownBits-Steps (reported_fatal info tag code s) k = KnownBits-Steps s k
  KnownBits-Steps (touched {d} i v e known s) k = λ j b. elim (get-set i d.scratch j b) [
    | inl same ↦ (v, (ap (get_elem? msg) same ∙ e, known))
    | inr before ↦ KnownBits-Steps s k j before
  ]

  pub Known-at :
      (ws : TagScratch)
      → KnownBits ws
      → (i : ℕ) → get i ws ≡ true
      → (v : FieldView) × ((get_elem? msg i ≡ some v) × Known v.tag)
  unfolding KnownBits
  Known-at ws k i e = k i e
