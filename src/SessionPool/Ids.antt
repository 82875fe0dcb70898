-- ===== src/SessionPool/Ids.antt =====
-- src/SessionPool.cpp: what `get` finds, and that a removed session is never found again.
use fix_engine.Prelude.{
  ℕ, ◌<◌, ◌≡◌, ◌≢◌, refl, sym, ◌∙◌, ap, subst, true, false, Option, none, some, ◌==◌, ==_iff,
  if_yes, if_no, ◌>>=◌, get_elem?, Bool-cases, Option-cases, inl, inr, arith,
}
use fix_engine.Definitions.{Role, SessionId, same_session, SessionParameters}
use fix_engine.Session.State.{Session, new_session}
use fix_engine.SessionPool.{SessionPool, dropped, changed, emplace_session, of_id, get, remove}
use fix_engine.SessionPool.Slots.{IsValid, slot_of_session}
use fix_engine.SessionPool.Operations.{found_either, place_lem, drop_lem, change_lem}

-- What `get` finds depends on the slot.
pub get_slot :
    (p : SessionPool) (id : SessionId) (o : Option Session)
    → get_elem? p.sessions id.storage_index ≡ some o
    → get p id ≡ some (of_id id o)
unfolding get
get_slot p id o e = rw e refl

of_id-some :
    (id : SessionId) (o : Option Session) (s : Session)
    → of_id id o ≡ some s
    → (o ≡ some s) × (s.id.id ≡ id.id)
unfolding of_id same_session
of_id-some id none s e = absurd (cc)
of_id-some id (some t) s e = elim (Bool-cases (id.id == t.id.id)) [
  | inl same ↦
      let h : t ≡ s = some-inj (sym (if_yes (id.id == t.id.id) (some t) none same) ∙ e) in
      (ap some h, sym (ap (λ r. r.id.id) h) ∙ sym ((==_iff id.id t.id.id).0 same))
  | inr other ↦
      let h : none ≡ some s = sym (if_no (id.id == t.id.id) (some t) none other) ∙ e in absurd (cc)
]
  where
    some-inj : {x y : Session} → some x ≡ some y → x ≡ y
    some-inj h = cc

pub found_slot :
    (p : SessionPool) (id : SessionId) (s : Session)
    → get p id ≡ some (some s)
    → (get_elem? p.sessions id.storage_index ≡ some (some s)) × (s.id.id ≡ id.id)
unfolding get
found_slot p id s e = elim (Option-cases (get_elem? p.sessions id.storage_index)) [
  | inl out ↦ let h : none ≡ some (some s) = sym (rw out refl) ∙ e in absurd (cc)
  | inr (o, at) ↦
      let h : of_id id o ≡ some s = let r = sym (get_slot p id o at) ∙ e in cc in
      let (same, ids) = of_id-some id o s h in (at ∙ ap some same, ids)
]

pub get_session :
    (p : SessionPool) (id : SessionId) (s : Session)
    → get_elem? p.sessions id.storage_index ≡ some (some s)
    → s.id.id ≡ id.id
    → get p id ≡ some (some s)
unfolding of_id same_session
get_session p id s e same =
    get_slot p id (some s) e
    ∙ ap some (if_yes (same_session s.id id) (some s) none ((==_iff id.id s.id.id).1 (sym same)))

-- In a valid pool, `emplace_session` gives an id that no session had, under which `get` finds the new
-- session; whatever `get` found before, it finds still; and the pool is valid again.
pub emplace_session_lem :
    (p : SessionPool) (role : Role) (params : SessionParameters)
    → IsValid p
    → let (q, id) = emplace_session p role params in
      IsValid q
      × ((id.id ≡ p.next_idx)
          × ((get q id ≡ some (some (new_session id role params)))
              × ((j : SessionId) (s : Session)
                  → get p j ≡ some (some s)
                  → get q j ≡ some (some s))))
unfolding new_session
emplace_session_lem p role params v =
    let (q, id) = emplace_session p role params in
    let a = place_lem p p.free_indices role params v refl in
    (
      a.valid,
      (
        a.new_id,
        (
          get_session q id (new_session id role params) a.place.at_place refl,
          λ j s e.
              let (at, same) = found_slot p j s e in
              get_session q j s
                (a.place.elsewhere j.storage_index
                    (λ h. a.was_empty s (ap (get_elem? p.sessions) (sym h) ∙ at))
                  ∙ at)
                same,
        ),
      ),
    )

remove_found :
    (p : SessionPool) (id : SessionId) (s : Session)
    → get p id ≡ some (some s)
    → remove p id ≡ some (dropped p id, true)
unfolding remove
remove_found p id s e = rw e refl

-- In a valid pool, `remove` of an id that `get` finds removes it, so that `get` finds none, leaves what
-- `get` gives at every other position, and the pool is valid again.
pub remove_lem :
    (p : SessionPool) (id : SessionId) (s : Session)
    → IsValid p
    → get p id ≡ some (some s)
    → (q : SessionPool) × ((remove p id ≡ some (q, true))
        × (IsValid q
            × ((get q id ≡ some none)
                × ((j : SessionId) → j.storage_index ≢ id.storage_index → get q j ≡ get p j))))
unfolding of_id get
remove_lem p id s v e =
    let (at, same) = found_slot p id s e in
    let d = drop_lem p id s v at in
    (
      dropped p id,
      (
        remove_found p id s e,
        (
          d.valid,
          (
            get_slot (dropped p id) id none d.place.at_place,
            λ j apart.
                ap (λ o. o >>= λ slot. some (of_id j slot))
                  (d.place.elsewhere j.storage_index apart),
          ),
        ),
      ),
    )

-- What happens to the pool: a session is put in, or removed, or one in it changes but for its id.
pub data Step (p : SessionPool) : SessionPool → Type 0 where
  adds : (role : Role) (params : SessionParameters) → Step p (emplace_session p role params).0
  removes : (id : SessionId) (s : Session) → get p id ≡ some (some s) → Step p (dropped p id)
  changes :
      (id : SessionId) (s t : Session)
      → get p id ≡ some (some s)
      → t.id ≡ s.id
      → Step p (changed p id t)

pub data Run (p : SessionPool) : SessionPool → Type 0 where
  stays : Run p p
  goes : {q r : SessionPool} → Run p q → Step q r → Run p r

-- An id that was given to a session, and that no session has.
record Gone (p : SessionPool) (n : ℕ) : Type 0 where
  given : n < p.next_idx
  nobody : (i : ℕ) (s : Session) → get_elem? p.sessions i ≡ some (some s) → s.id.id ≢ n

pub Step-IsValid : {p q : SessionPool} → IsValid p → Step p q → IsValid q
Step-IsValid v (adds role params) = (place_lem _ _ role params v refl).valid
Step-IsValid v (removes id s e) = (drop_lem _ id s v (found_slot _ id s e).0).valid
Step-IsValid v (changes id s t e same) = (change_lem _ id s t v (found_slot _ id s e).0 same).valid

Gone-Step : {p q : SessionPool} (n : ℕ) → IsValid p → Gone p n → Step p q → Gone q n
unfolding new_session
Gone-Step {p} n v g (adds role params) =
    let a = place_lem p p.free_indices role params v refl in
    let id = (emplace_session p role params).1 in
    record {
      given = let low = g.given in let next = a.next in omega arith;
      nobody = λ i s e h. elim (found_either p _ id.storage_index _ a.place i s e) [
        | inl (_, r) ↦
            let new : id.id ≡ s.id.id = ap (λ t. t.id.id) (some-inj r) in
            let low = g.given in let next = a.new_id in absurd (omega arith)
        | inr (_, r) ↦ g.nobody i s r h
      ];
    }
  where
    some-inj : {x y : Session} → some x ≡ some y → x ≡ y
    some-inj h = cc
Gone-Step {p} n v g (removes id s e) =
    let d = drop_lem p id s v (found_slot p id s e).0 in
    record {
      given = let low = g.given in let next = d.next in omega arith;
      nobody = λ i t f h. elim (found_either p (dropped p id) id.storage_index none d.place i t f) [
        | inl (_, r) ↦ absurd (none_some r)
        | inr (_, r) ↦ g.nobody i t r h
      ];
    }
  where
    none_some : {t : Session} → none ≢ some t
    none_some r = cc
Gone-Step {p} n v g (changes id s t e same) =
    let at = (found_slot p id s e).0 in
    let c = change_lem p id s t v at same in
    record {
      given = g.given;
      nobody = λ i u f h.
          elim (found_either p (changed p id t) id.storage_index (some t) c.place i u f) [
            | inl (_, r) ↦
                let ids : t.id.id ≡ u.id.id = ap (λ w. w.id.id) (some-inj r) in
                let old : t.id.id ≡ s.id.id = ap (λ w. w.id) same in
                g.nobody id.storage_index s at (sym old ∙ ids ∙ h)
            | inr (_, r) ↦ g.nobody i u r h
          ];
    }
  where
    some-inj : {x y : Session} → some x ≡ some y → x ≡ y
    some-inj h = cc

Run-Gone : {p q : SessionPool} (n : ℕ) → IsValid p → Gone p n → Run p q → IsValid q × Gone q n
Run-Gone n v g stays = (v, g)
Run-Gone n v g (goes run step) =
    let (v', g') = Run-Gone n v g run in (Step-IsValid v' step, Gone-Step n v' g' step)

pub remove-some :
    (p q : SessionPool) (id : SessionId)
    → remove p id ≡ some (q, true)
    → (s : Session) × ((get p id ≡ some (some s)) × (q ≡ dropped p id))
unfolding remove
remove-some p q id e = elim (Option-cases (get p id)) [
  | inl out ↦ let h : none ≡ some (q, true) = sym (rw out refl) ∙ e in absurd (cc)
  | inr (none, f) ↦ let h : some (p, false) ≡ some (q, true) = sym (rw f refl) ∙ e in absurd (cc)
  | inr (some s, f) ↦
      let h : some (dropped p id, true) ≡ some (q, true) = sym (rw f refl) ∙ e in (s, (f, cc))
]

dropped-Gone :
    (p : SessionPool) (id : SessionId) (s : Session)
    → IsValid p
    → get p id ≡ some (some s)
    → Gone (dropped p id) id.id
dropped-Gone p id s v e =
    let (at, same) = found_slot p id s e in
    let (_, (_, low)) = slot_of_session p v id.storage_index s at in
    let d = drop_lem p id s v at in
    record {
      given = omega arith;
      nobody = λ i t f h. elim (found_either p (dropped p id) id.storage_index none d.place i t f) [
        | inl (_, r) ↦ absurd (none_some r)
        | inr (apart, r) ↦ apart (v.unique i id.storage_index t s r at (h ∙ sym same))
      ];
    }
  where
    none_some : {t : Session} → none ≢ some t
    none_some r = cc

-- Whatever operations follow on a valid pool from which `remove` took a session, `get` of its id never
-- finds a session, also when its position is used again.
pub remove-get :
    (p q r : SessionPool) (id : SessionId)
    → IsValid p
    → remove p id ≡ some (q, true)
    → Run q r
    → (s : Session) → get r id ≢ some (some s)
remove-get p q r id v e run s f =
    let (s', (found, same)) = remove-some p q id e in
    let d = drop_lem p id s' v (found_slot p id s' found).0 in
    let (_, gone) =
      Run-Gone id.id d.valid (dropped-Gone p id s' v found) (subst (λ x. Run x r) same run) in
    let (at, ids) = found_slot r id s f in gone.nobody id.storage_index s at ids
