-- ===== src/SessionPool/Slots.antt =====
-- src/SessionPool.cpp: the positions to use again are those of the null pointers, and ids are never used
-- again.
use fix_engine.Prelude.{
  ℕ, zero, suc, ◌+◌, ◌<◌, ◌≡◌, ◌≢◌, refl, sym, ◌∙◌, ap, subst, List, [], ◌∷◌, ◌++◌, Option, none,
  some, ltb, length, length-append, get_elem?, set, get_elem?-set_self, get_elem?-set_ne,
  get_elem?-append_lt, get_elem?_beyond, Bool-cases, inl, inr, arith,
}
use fix_engine.Prelude.Counts.{occurrences}
use fix_engine.Session.State.{Session}
use fix_engine.SessionPool.{SessionPool, new_pool}

-- How often a position is to be used again, by its slot; a session knows its position, and has an id
-- that was given out.
unfoldable pub SlotOk : ℕ → ℕ → ℕ → Option (Option Session) → Type 0
SlotOk i next free none = free ≡ 0
SlotOk i next free (some none) = free ≡ 1
SlotOk i next free (some (some s)) = (free ≡ 0) × ((s.id.storage_index ≡ i) × (s.id.id < next))

-- How many slots are null pointers.
unfoldable pub nulls : List (Option Session) → ℕ
nulls [] = 0
nulls (none ∷ slots) = suc (nulls slots)
nulls (some s ∷ slots) = nulls slots

pub record IsValid (p : SessionPool) : Type 0 where
  pub slots : (i : ℕ) → SlotOk i p.next_idx (occurrences i p.free_indices) (get_elem? p.sessions i)
  pub counted : nulls p.sessions ≡ length p.free_indices
  pub unique :
      (i j : ℕ) (s t : Session)
      → get_elem? p.sessions i ≡ some (some s)
      → get_elem? p.sessions j ≡ some (some t)
      → s.id.id ≡ t.id.id
      → i ≡ j

pub new_pool-IsValid : IsValid new_pool
unfolding SlotOk occurrences nulls
new_pool-IsValid = record {
  slots = λ i. refl;
  counted = refl;
  unique = λ i j s t e e' same. absurd (cc);
}

pub slot_grows :
    (i next free : ℕ) (o : Option (Option Session))
    → SlotOk i next free o
    → SlotOk i (next + 1) free o
unfolding SlotOk
slot_grows i next free none h = h
slot_grows i next free (some none) h = h
slot_grows i next free (some (some s)) (h, (h', low)) = (h, (h', omega arith))

-- What is known of the slot of a session.
pub slot_of_session :
    (p : SessionPool)
    → IsValid p
    → (i : ℕ) (s : Session) → get_elem? p.sessions i ≡ some (some s)
    → (occurrences i p.free_indices ≡ 0) × ((s.id.storage_index ≡ i) × (s.id.id < p.next_idx))
unfolding SlotOk
slot_of_session p v i s e = subst (SlotOk i p.next_idx (occurrences i p.free_indices)) e (v.slots i)

-- A pool that differs in one slot, and holds this there.
pub record Puts (p : SessionPool) (i : ℕ) (o : Option Session) (q : SessionPool) : Type 0 where
  pub at_place : get_elem? q.sessions i ≡ some o
  pub elsewhere : (j : ℕ) → j ≢ i → get_elem? q.sessions j ≡ get_elem? p.sessions j

pub set-Puts :
    (slots : List (Option Session)) (i : ℕ) (o : Option Session)
    → i < length slots
    → (get_elem? (set slots i o) i ≡ some o)
      × ((j : ℕ) → j ≢ i → get_elem? (set slots i o) j ≡ get_elem? slots j)
set-Puts slots i o h =
    (get_elem?-set_self slots i o h, λ j apart. get_elem?-set_ne slots i j o (λ e. apart (sym e)))

pub append_else :
    (slots : List (Option Session)) (o : Option Session) (j : ℕ)
    → j ≢ length slots
    → get_elem? (slots ++ o ∷ []) j ≡ get_elem? slots j
append_else slots o j apart = elim (Bool-cases (ltb j (length slots))) [
  | inl e ↦ get_elem?-append_lt slots (o ∷ []) j (ground (arith, e))
  | inr e ↦
      let h : length slots < j = ground (arith, e, apart) in
      get_elem?_beyond (slots ++ o ∷ []) j (omega (arith, length-append slots (o ∷ [])))
      ∙ sym (get_elem?_beyond slots j (omega arith))
]

pub nulls-append :
    (slots : List (Option Session)) (s : Session) → nulls (slots ++ some s ∷ []) ≡ nulls slots
unfolding nulls
nulls-append [] s = refl
nulls-append (none ∷ slots) s = ap suc (nulls-append slots s)
nulls-append (some t ∷ slots) s = nulls-append slots s

pub nulls-set-some :
    (slots : List (Option Session)) (i : ℕ) (s : Session)
    → get_elem? slots i ≡ some none
    → nulls slots ≡ suc (nulls (set slots i (some s)))
unfolding nulls
nulls-set-some [] i s e = absurd (cc)
nulls-set-some (none ∷ slots) zero s e = refl
nulls-set-some (some t ∷ slots) zero s e = absurd (cc)
nulls-set-some (none ∷ slots) (suc i) s e = ap suc (nulls-set-some slots i s e)
nulls-set-some (some t ∷ slots) (suc i) s e = nulls-set-some slots i s e

pub nulls-set-none :
    (slots : List (Option Session)) (i : ℕ) (s : Session)
    → get_elem? slots i ≡ some (some s)
    → nulls (set slots i none) ≡ suc (nulls slots)
unfolding nulls
nulls-set-none [] i s e = absurd (cc)
nulls-set-none (none ∷ slots) zero s e = absurd (cc)
nulls-set-none (some t ∷ slots) zero s e = refl
nulls-set-none (none ∷ slots) (suc i) s e = ap suc (nulls-set-none slots i s e)
nulls-set-none (some t ∷ slots) (suc i) s e = nulls-set-none slots i s e

-- The slot of a position that is to be used again is a null pointer.
pub free_slot :
    (i next n : ℕ) (o : Option (Option Session)) → SlotOk i next (suc n) o → o ≡ some none
unfolding SlotOk
free_slot i next n none h = absurd (omega arith)
free_slot i next n (some none) h = refl
free_slot i next n (some (some s)) (h, h') = absurd (omega arith)
