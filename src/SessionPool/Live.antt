-- ===== src/SessionPool/Live.antt =====
-- src/SessionPool.cpp: `size` and `get_all`.
use fix_engine.Prelude.{
  ℕ, suc, ◌+◌, ◌≡◌, refl, ◌∙◌, ap, true, false, List, [], ◌∷◌, Option, none, some, ◌==◌, if_no,
  length, get_elem?, Bool-cases, inl, inr, arith,
}
use fix_engine.Prelude.Counts.{one_if, occurrences}
use fix_engine.Session.State.{Session}
use fix_engine.SessionPool.{SessionPool, is_in, collect, get_all, size}
use fix_engine.SessionPool.Slots.{nulls, IsValid, slot_of_session}

-- The sessions of the slots that are no null pointers, in order.
unfoldable pub live : List (Option Session) → List Session
live [] = []
live (none ∷ slots) = live slots
live (some s ∷ slots) = s ∷ live slots

live-nulls : (slots : List (Option Session)) → length slots ≡ length (live slots) + nulls slots
unfolding live nulls
live-nulls [] = refl
live-nulls (none ∷ slots) = omega (arith, live-nulls slots)
live-nulls (some s ∷ slots) = omega (arith, live-nulls slots)

not_in : (x : ℕ) (xs : List ℕ) → occurrences x xs ≡ 0 → is_in x xs ≡ false
unfolding is_in occurrences
not_in x [] e = refl
not_in x (y ∷ ys) e = elim (Bool-cases (y == x)) [
  | inl t ↦ let h : one_if (y == x) ≡ 1 = ap one_if t in absurd (omega arith)
  | inr t ↦ if_no (y == x) true (is_in x ys) t ∙ not_in x ys (omega arith)
]

collect-live :
    (free : List ℕ) (slots : List (Option Session))
    → ((i : ℕ) (s : Session)
        → get_elem? slots i ≡ some (some s)
        → occurrences s.id.storage_index free ≡ 0)
    → collect free slots ≡ live slots
unfolding collect live
collect-live free [] h = refl
collect-live free (none ∷ slots) h = collect-live free slots (λ i s e. h (suc i) s e)
collect-live free (some s ∷ slots) h =
    let rest = collect-live free slots (λ i t e. h (suc i) t e) in
    if_no (is_in s.id.storage_index free) (collect free slots) (s ∷ collect free slots)
      (not_in s.id.storage_index free (h 0 s refl))
    ∙ ap (λ r. s ∷ r) rest

-- In a valid pool, `get_all` gives the sessions that are left, in the order of their positions, and
-- `size` their number.
pub get_all-live :
    (p : SessionPool)
    → IsValid p
    → (get_all p ≡ live p.sessions) × (size p ≡ length (live p.sessions))
get_all-live p v = (
  collect-live p.free_indices p.sessions (λ i s e.
      let (unused, (pos, _)) = slot_of_session p v i s e in
      ap (λ k. occurrences k p.free_indices) pos ∙ unused),
  omega (arith, live-nulls p.sessions, v.counted),
)
