-- ===== src/SessionPool/Operations.antt =====
-- src/SessionPool.cpp: what `emplace_session` and `remove` do to a valid pool.
use fix_engine.Prelude.{
  ℕ, zero, suc, ◌+◌, ◌<◌, ◌≡◌, ◌≢◌, refl, sym, ◌∙◌, ap, subst, true, false, List, [], ◌∷◌, Option,
  none, some, ◌==◌, ==_iff, length, get_elem?, set, get_elem?-append_last, get_elem?-some,
  Bool-cases, ◌⊎◌, inl, inr, arith,
}
use fix_engine.Prelude.Counts.{occurrences, occurrences_cons, here, not_here}
use fix_engine.Definitions.{Role, SessionId, SessionParameters}
use fix_engine.Session.State.{Session, new_session}
use fix_engine.SessionPool.{SessionPool, place, dropped, changed}
use fix_engine.SessionPool.Slots.{
  SlotOk, nulls, IsValid, slot_grows, slot_of_session, Puts, set-Puts, append_else, nulls-append,
  nulls-set-some, nulls-set-none, free_slot,
}

-- A session found in a pool that differs in one slot was put there, or was found before.
pub found_either :
    (p q : SessionPool) (k : ℕ) (o : Option Session)
    → Puts p k o q
    → (i : ℕ) (s : Session) → get_elem? q.sessions i ≡ some (some s)
    → ((i ≡ k) × (o ≡ some s)) ⊎ ((i ≢ k) × (get_elem? p.sessions i ≡ some (some s)))
found_either p q k o puts i s e = elim (Bool-cases (i == k)) [
  | inl t ↦
      let h : i ≡ k = (==_iff i k).0 t in
      let e' : some o ≡ some (some s) = sym puts.at_place ∙ ap (get_elem? q.sessions) (sym h) ∙ e in
      inl (h, cc)
  | inr t ↦
      let h : i ≢ k = λ r. absurd (true_false (sym ((==_iff i k).1 r) ∙ t)) in
      inr (h, sym (puts.elsewhere i h) ∙ e)
]
  where
    true_false : true ≢ false
    true_false r = cc

-- A slot with no session gets a new one.
filled :
    (p q : SessionPool) (k : ℕ) (s : Session)
    → IsValid p
    → Puts p k (some s) q
    → s.id.storage_index ≡ k
    → s.id.id ≡ p.next_idx
    → q.next_idx ≡ p.next_idx + 1
    → occurrences k q.free_indices ≡ 0
    → ((j : ℕ) → j ≢ k → occurrences j q.free_indices ≡ occurrences j p.free_indices)
    → nulls q.sessions ≡ length q.free_indices
    → IsValid q
unfolding SlotOk
filled p q k s v puts pos new nxt not_free others counted = record {
  slots = λ i. elim (Bool-cases (i == k)) [
    | inl t ↦
        let h : i ≡ k = (==_iff i k).0 t in
        subst (λ j. SlotOk j q.next_idx (occurrences j q.free_indices) (get_elem? q.sessions j))
          (sym h)
          (subst (SlotOk k q.next_idx (occurrences k q.free_indices)) (sym puts.at_place)
            (not_free, (pos, omega arith)))
    | inr t ↦
        let h : i ≢ k = ground (arith, t) in
        subst (λ n. SlotOk i n (occurrences i q.free_indices) (get_elem? q.sessions i)) (sym nxt)
          (subst (SlotOk i (p.next_idx + 1) (occurrences i q.free_indices))
            (sym (puts.elsewhere i h))
            (subst (λ n. SlotOk i (p.next_idx + 1) n (get_elem? p.sessions i)) (sym (others i h))
              (slot_grows i p.next_idx (occurrences i p.free_indices) (get_elem? p.sessions i)
                (v.slots i))))
  ];
  counted = counted;
  unique = λ i j s' t e e' same. elim (found_either p q k (some s) puts i s' e) [
    | inl (h, a) ↦ elim (found_either p q k (some s) puts j t e') [
      | inl (h', _) ↦ h ∙ sym h'
      | inr (_, b) ↦
          let (_, (_, low)) = slot_of_session p v j t b in
          let r : s.id.id ≡ s'.id.id = cc in absurd (omega arith)
    ]
    | inr (_, a) ↦ elim (found_either p q k (some s) puts j t e') [
      | inl (_, b) ↦
          let (_, (_, low)) = slot_of_session p v i s' a in
          let r : s.id.id ≡ t.id.id = cc in absurd (omega arith)
      | inr (_, b) ↦ v.unique i j s' t a b same
    ]
  ];
}

-- A pool with a new session in it.
pub record Adds (p : SessionPool) (role : Role) (params : SessionParameters) (q : SessionPool)
    (id : SessionId) : Type 0 where
  pub valid : IsValid q
  pub new_id : id.id ≡ p.next_idx
  pub next : q.next_idx ≡ p.next_idx + 1
  pub place : Puts p id.storage_index (some (new_session id role params)) q
  pub was_empty : (s : Session) → get_elem? p.sessions id.storage_index ≢ some (some s)

pub place_lem :
    (p : SessionPool) (free : List ℕ) (role : Role) (params : SessionParameters)
    → IsValid p
    → p.free_indices ≡ free
    → let r = place p free role params in Adds p role params r.0 r.1
unfolding place new_session occurrences SlotOk
place_lem p [] role params v e =
    let id : SessionId = record { storage_index = length p.sessions; id = p.next_idx } in
    let s = new_session id role params in
    let puts : Puts p (length p.sessions) (some s) (place p [] role params).0 = record {
      at_place = get_elem?-append_last p.sessions (some s);
      elsewhere = append_else p.sessions (some s);
    } in
    record {
      valid =
          filled p (place p [] role params).0 (length p.sessions) s v puts refl refl refl refl
            (λ j h. ap (occurrences j) (sym e))
            (nulls-append p.sessions s ∙ v.counted ∙ ap length e);
      new_id = refl;
      next = refl;
      place = puts;
      was_empty = λ t f.
          let h : length p.sessions < length p.sessions =
            get_elem?-some p.sessions (length p.sessions) f in
          absurd (omega arith);
    }
place_lem p (nxt ∷ free) role params v e =
    let id : SessionId = record { storage_index = nxt; id = p.next_idx } in
    let s = new_session id role params in
    let once : occurrences nxt p.free_indices ≡ suc (occurrences nxt free) =
      omega (arith, ap (occurrences nxt) e, here nxt) in
    let empty : get_elem? p.sessions nxt ≡ some none =
      free_slot nxt p.next_idx (occurrences nxt free) (get_elem? p.sessions nxt)
        (subst (λ n. SlotOk nxt p.next_idx n (get_elem? p.sessions nxt)) once (v.slots nxt)) in
    let (at_place, elsewhere) =
      set-Puts p.sessions nxt (some s) (get_elem?-some p.sessions nxt empty) in
    let puts : Puts p nxt (some s) (place p (nxt ∷ free) role params).0 = record {
      at_place = at_place;
      elsewhere = elsewhere;
    } in
    record {
      valid =
          filled p (place p (nxt ∷ free) role params).0 nxt s v puts refl refl refl
            (let one : occurrences nxt p.free_indices ≡ 1 =
                subst (SlotOk nxt p.next_idx (occurrences nxt p.free_indices)) empty
                  (v.slots nxt) in
              omega arith)
            (λ j h.
              sym (
                ap (occurrences j) e
                ∙ omega (arith, occurrences_cons j nxt free, not_here nxt j h)))
            (omega (arith, nulls-set-some p.sessions nxt s empty, v.counted, ap length e));
      new_id = refl;
      next = refl;
      place = puts;
      was_empty = λ t f. absurd (none_some (sym empty ∙ f));
    }
  where
    none_some : {t : Session} → some none ≢ some (some t)
    none_some r = cc

-- A pool without this session.
pub record Drops (p : SessionPool) (id : SessionId) (q : SessionPool) : Type 0 where
  pub valid : IsValid q
  pub next : q.next_idx ≡ p.next_idx
  pub place : Puts p id.storage_index none q

pub drop_lem :
    (p : SessionPool) (id : SessionId) (s : Session)
    → IsValid p
    → get_elem? p.sessions id.storage_index ≡ some (some s)
    → Drops p id (dropped p id)
unfolding SlotOk
drop_lem p id s v e =
    let k = id.storage_index in
    let free = k ∷ p.free_indices in
    let slots = set p.sessions k none in
    let (at_place, elsewhere) = set-Puts p.sessions k none (get_elem?-some p.sessions k e) in
    let q : SessionPool = record p { sessions = slots; free_indices = free } in
    let puts : Puts p k none q = record { at_place = at_place; elsewhere = elsewhere } in
    let (unused, _) = slot_of_session p v k s e in
    let kept : (i : ℕ) (t : Session)
        → get_elem? slots i ≡ some (some t)
        → get_elem? p.sessions i ≡ some (some t) =
      λ i t f. elim (found_either p q k none puts i t f) [
        | inl (_, r) ↦ absurd (none_some r)
        | inr (_, r) ↦ r
      ] in
    record {
      valid = record {
        slots = λ i. elim (Bool-cases (i == k)) [
          | inl t ↦
              let h : k ≡ i = sym ((==_iff i k).0 t) in
              subst (λ j. SlotOk j p.next_idx (occurrences j free) (get_elem? slots j)) h
                (subst (SlotOk k p.next_idx (occurrences k free)) (sym at_place)
                  (omega (arith, occurrences_cons k k p.free_indices, here k)))
          | inr t ↦
              let h : i ≢ k = ground (arith, t) in
              let same : occurrences i p.free_indices ≡ occurrences i free =
                omega (arith, occurrences_cons i k p.free_indices, not_here k i h) in
              subst (SlotOk i p.next_idx (occurrences i free)) (sym (elsewhere i h))
                (subst (λ n. SlotOk i p.next_idx n (get_elem? p.sessions i)) same (v.slots i))
        ];
        counted = nulls-set-none p.sessions k s e ∙ ap suc v.counted;
        unique = λ i j s' t f f' same. v.unique i j s' t (kept i s' f) (kept j t f') same;
      };
      next = refl;
      place = puts;
    }
  where
    none_some : {t : Session} → none ≢ some t
    none_some r = cc

pub record Changes (p : SessionPool) (id : SessionId) (t : Session) : Type 0 where
  pub valid : IsValid (changed p id t)
  pub place : Puts p id.storage_index (some t) (changed p id t)

nulls-set_over :
    (slots : List (Option Session)) (i : ℕ) (s t : Session)
    → get_elem? slots i ≡ some (some s)
    → nulls (set slots i (some t)) ≡ nulls slots
unfolding nulls
nulls-set_over [] i s t e = absurd (cc)
nulls-set_over (none ∷ slots) zero s t e = absurd (cc)
nulls-set_over (some u ∷ slots) zero s t e = refl
nulls-set_over (none ∷ slots) (suc i) s t e = ap suc (nulls-set_over slots i s t e)
nulls-set_over (some u ∷ slots) (suc i) s t e = nulls-set_over slots i s t e

pub change_lem :
    (p : SessionPool) (id : SessionId) (s t : Session)
    → IsValid p
    → get_elem? p.sessions id.storage_index ≡ some (some s)
    → t.id ≡ s.id
    → Changes p id t
unfolding SlotOk
change_lem p id s t v e same =
    let k = id.storage_index in
    let q = changed p id t in
    let (at_place, elsewhere) = set-Puts p.sessions k (some t) (get_elem?-some p.sessions k e) in
    let puts : Puts p k (some t) q = record { at_place = at_place; elsewhere = elsewhere } in
    let (unused, (pos, low)) = slot_of_session p v k s e in
    let old : (i : ℕ) (u : Session)
        → get_elem? q.sessions i ≡ some (some u)
        → (w : Session) × ((get_elem? p.sessions i ≡ some (some w)) × (w.id ≡ u.id)) =
      λ i u f. elim (found_either p q k (some t) puts i u f) [
        | inl (h, r) ↦
            (s, (ap (get_elem? p.sessions) h ∙ e, sym same ∙ ap (λ w. w.id) (some-inj r)))
        | inr (_, r) ↦ (u, (r, refl))
      ] in
    record {
      valid = record {
        slots = λ i. elim (Bool-cases (i == k)) [
          | inl h ↦
              subst
                (λ j. SlotOk j p.next_idx (occurrences j p.free_indices) (get_elem? q.sessions j))
                (sym ((==_iff i k).0 h))
                (subst (SlotOk k p.next_idx (occurrences k p.free_indices)) (sym at_place) (
                  subst
                    (λ d.
                      (occurrences k p.free_indices ≡ 0)
                      × ((d.storage_index ≡ k) × (d.id < p.next_idx)))
                    (sym same) (unused, (pos, low))))
          | inr h ↦
              subst (SlotOk i p.next_idx (occurrences i p.free_indices))
                (sym (elsewhere i (ground (arith, h)))) (v.slots i)
        ];
        counted = nulls-set_over p.sessions k s t e ∙ v.counted;
        unique = λ i j a b f f' ids.
            let (a', (g, i1)) = old i a f in
            let (b', (g', i2)) = old j b f' in
            v.unique i j a' b' g g' (ap (λ d. d.id) i1 ∙ ids ∙ ap (λ d. d.id) (sym i2));
      };
      place = puts;
    }
  where
    some-inj : {x y : Session} → some x ≡ some y → x ≡ y
    some-inj h = cc
