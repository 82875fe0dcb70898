-- ===== src/RecoveryCache/Slots.antt =====
-- How many slots of the recovery cache hold a message.
use fix_engine.Prelude.{
  ℕ, zero, suc, ◌+◌, ◌≤◌, ◌<◌, ◌≡◌, refl, List, [], ◌∷◌, arith, if◌then◌else◌, length, get_or, set,
  replicate,
}
use fix_engine.RecoveryCache.{MessageBounds, bounds_eq, kempty}

-- 1 for a slot in use
abbrev pub weight : MessageBounds → ℕ
weight b = if bounds_eq b kempty then 0 else 1

pub occupied : List MessageBounds → ℕ
occupied [] = 0
occupied (b ∷ bs) = weight b + occupied bs

pub occupied-le-length : (bs : List MessageBounds) → occupied bs ≤ length bs
unfolding occupied
occupied-le-length [] = omega arith
occupied-le-length (b ∷ bs) = ground (arith, occupied-le-length bs)

pub occupied-set :
    (bs : List MessageBounds) (i : ℕ) (v : MessageBounds)
    → i < length bs
    → occupied (set bs i v) + weight (get_or bs i kempty) ≡ occupied bs + weight v
unfolding occupied
occupied-set [] i v h = absurd (omega arith)
occupied-set (b ∷ bs) zero v h = omega arith
occupied-set (b ∷ bs) (suc i) v h = omega (arith, occupied-set bs i v (omega arith))

pub occupied-replicate : (n : ℕ) → occupied (replicate n kempty) ≡ 0
unfolding occupied
occupied-replicate zero = refl
occupied-replicate (suc n) = omega (arith, occupied-replicate n)

pub weight_zero : (b : MessageBounds) → weight b ≡ 0 → b ≡ kempty
weight_zero b h = ground arith

pub occupied_zero :
    (bs : List MessageBounds) (i : ℕ) → occupied bs ≡ 0 → get_or bs i kempty ≡ kempty
unfolding occupied
occupied_zero [] i h = refl
occupied_zero (b ∷ bs) zero h = weight_zero b (omega arith)
occupied_zero (b ∷ bs) (suc i) h = occupied_zero bs i (omega arith)
