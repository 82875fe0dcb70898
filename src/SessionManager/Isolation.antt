-- ===== src/SessionManager/Isolation.antt =====
-- src/SessionManager.cpp: whom a task of the manager reaches.
use fix_engine.Prelude.{
  ℕ, ◌<◌, ◌≡◌, ◌≢◌, refl, sym, ◌∙◌, ap, List, [], ◌∷◌, Option, none, some, ◌>>=◌, length, arith,
  get_elem?, get_elem?_within, Bool-cases, ◌==◌, ==_iff, inl, inr, if_no,
}
use fix_engine.Definitions.{SessionId, same_session}
use fix_engine.Session.State.{Session}
use fix_engine.Session.Dispatch.{Validate}
use fix_engine.Session.Events.{Event, start_asked, run}
use fix_engine.Session.Soundness.Run.{run-keeps}
use fix_engine.SessionPool.{SessionPool, changed, get, of_id}
use fix_engine.SessionPool.Slots.{IsValid, nulls, slot_of_session}
use fix_engine.SessionPool.Operations.{change_lem}
use fix_engine.SessionPool.Ids.{get_slot, get_session}
use fix_engine.SessionManager.{
  SessionManager, deliver, deliver_to, start_slots, start_all, with_pool,
}
use fix_engine.SessionManager.AllSound.{AllSound, changed_lem}

module _ (validate : Validate) where
  -- A pool after an event for an id: the session with this id, wherever it lies, has run the event and
  -- kept its id; sessions with other ids and empty slots are as they were.
  pub record Reaches (p : SessionPool) (id : SessionId) (e : Event) (q : SessionPool) : Type 0 where
    pub all_sound : AllSound q
    pub its_own :
        (i : ℕ) (s : Session)
        → get_elem? p.sessions i ≡ some (some s)
        → s.id ≡ id
        → (t : Session) × ((run validate s e ≡ some t)
            × ((t.id ≡ id) × (get_elem? q.sessions i ≡ some (some t))))
    pub others :
        (i : ℕ) (s : Session)
        → get_elem? p.sessions i ≡ some (some s)
        → s.id.id ≢ id.id
        → get_elem? q.sessions i ≡ some (some s)
    pub empties : (i : ℕ) → get_elem? p.sessions i ≡ some none → get_elem? q.sessions i ≡ some none

  deliver_found :
      (p : SessionPool) (id : SessionId) (e : Event) (s t : Session)
      → get p id ≡ some (some s)
      → run validate s e ≡ some t
      → deliver validate p id e ≡ some (changed p id t)
  unfolding deliver deliver_to
  deliver_found p id e s t found ran = rw found (rw ran refl)

  deliver_nobody :
      (p : SessionPool) (id : SessionId) (e : Event)
      → get p id ≡ some none
      → deliver validate p id e ≡ some p
  unfolding deliver deliver_to
  deliver_nobody p id e found = rw found refl

  -- A session that has the id of an event lies at the id's position.
  at_place :
      (p : SessionPool) (id : SessionId) (i : ℕ) (s : Session)
      → IsValid p
      → get_elem? p.sessions i ≡ some (some s)
      → s.id ≡ id
      → i ≡ id.storage_index
  at_place p id i s v at same =
      let (_, (pos, _)) = slot_of_session p v i s at in
      sym pos ∙ ap (λ (k : SessionId). k.storage_index) same

  nobody_lem :
      (p : SessionPool) (id : SessionId) (e : Event)
      → AllSound p
      → ((s : Session) → get_elem? p.sessions id.storage_index ≡ some (some s) → s.id ≢ id)
      → Reaches p id e p
  nobody_lem p id e a nobody = record {
    all_sound = a;
    its_own = λ i s at same.
        absurd (
          nobody s (ap (get_elem? p.sessions) (sym (at_place p id i s a.valid at same)) ∙ at) same);
    others = λ i s at other. at;
    empties = λ i at. at;
  }

  somebody_lem :
      (p : SessionPool) (id : SessionId) (e : Event) (s t : Session)
      → AllSound p
      → get_elem? p.sessions id.storage_index ≡ some (some s)
      → s.id.id ≡ id.id
      → run validate s e ≡ some t
      → Reaches p id e (changed p id t)
  somebody_lem p id e s t a at same ran =
      let k = id.storage_index in
      let (sound, kept) = run-keeps validate s t e (a.sound k s at) ran in
      let c = change_lem p id s t a.valid at kept in
      record {
        all_sound = changed_lem validate p id s t a (get_session p id s at same) sound kept;
        its_own = λ i s' at' same'.
            let place = at_place p id i s' a.valid at' same' in
            let one : s' ≡ s = some-inj (sym at' ∙ ap (get_elem? p.sessions) place ∙ at) in
            (
              t,
              (
                ap (λ r. run validate r e) one ∙ ran,
                (
                  kept ∙ ap (λ (r : Session). r.id) (sym one) ∙ same',
                  ap (get_elem? (changed p id t).sessions) place ∙ c.place.at_place,
                ),
              ),
            );
        others = λ i s' at' other.
            c.place.elsewhere i (λ place.
              let one : s' ≡ s = some-inj (sym at' ∙ ap (get_elem? p.sessions) place ∙ at) in
              other (ap (λ (r : Session). r.id.id) one ∙ same))
            ∙ at';
        empties = λ i at'.
            c.place.elsewhere i
              (λ place. absurd (none_some (sym at' ∙ ap (get_elem? p.sessions) place ∙ at)))
            ∙ at';
      }
    where
      some-inj : {x y : Session} → some (some x) ≡ some (some y) → x ≡ y
      some-inj h = cc

      none_some : {x : Session} → some none ≢ some (some x)
      none_some h = cc

  slot_cases :
      (p : SessionPool) (id : SessionId) (e : Event) (o : Option Session)
      → AllSound p
      → get_elem? p.sessions id.storage_index ≡ some o
      → ((s : Session)
          → get_elem? p.sessions id.storage_index ≡ some (some s)
          → s.id.id ≡ id.id
          → (t : Session) × (run validate s e ≡ some t))
      → (q : SessionPool) × ((deliver validate p id e ≡ some q) × Reaches p id e q)
  unfolding of_id same_session
  slot_cases p id e none a at runs = (
    p,
    (
      deliver_nobody p id e (get_slot p id none at),
      nobody_lem p id e a (λ s at' same. absurd (none_some (sym at ∙ at'))),
    ),
  )
    where
      none_some : {x : Session} → some none ≢ some (some x)
      none_some h = cc
  slot_cases p id e (some s) a at runs = elim (Bool-cases (id.id == s.id.id)) [
    | inl yes_ ↦
        let same : s.id.id ≡ id.id = sym ((==_iff id.id s.id.id).0 yes_) in
        let (t, ran) = runs s at same in
        (
          changed p id t,
          (
            deliver_found p id e s t (get_session p id s at same) ran,
            somebody_lem p id e s t a at same ran,
          ),
        )
    | inr no_ ↦
        let other : id.id ≢ s.id.id = ground (arith, no_) in
        (
          p,
          (
            deliver_nobody p id e
                (get_slot p id (some s) at ∙ ap some (if_no (id.id == s.id.id) (some s) none no_)),
            nobody_lem p id e a (λ s' at' same. other (
                ap (λ (k : SessionId). k.id) (sym same)
                ∙ ap (λ (r : Session). r.id.id) (some-inj (sym at' ∙ at)))),
          ),
        )
  ]
    where
      some-inj : {x y : Session} → some (some x) ≡ some (some y) → x ≡ y
      some-inj h = cc

  -- In a pool in order, an event for an id whose position exists is delivered if the session with this
  -- id, where the pool has it, can run the event. Then exactly this session has run it, and keeps its id;
  -- a session with another id is as it was, also one that has taken the position of a removed session, and
  -- so is an empty slot; and the pool is in order again.
  pub deliver-Reaches :
      (p : SessionPool) (id : SessionId) (e : Event)
      → AllSound p
      → id.storage_index < length p.sessions
      → ((s : Session)
          → get_elem? p.sessions id.storage_index ≡ some (some s)
          → s.id.id ≡ id.id
          → (t : Session) × (run validate s e ≡ some t))
      → (q : SessionPool) × ((deliver validate p id e ≡ some q) × Reaches p id e q)
  deliver-Reaches p id e a within runs =
      let (o, at) = get_elem?_within p.sessions id.storage_index within in
      slot_cases p id e o a at runs

  then-none :
      {A B : Type 0} (m : Option A) (f : A → Option B) → ((a : A) → f a ≡ none) → (m >>= f) ≡ none
  then-none none f h = refl
  then-none (some a) f h = h a

  start_slots-none :
      (p : SessionPool) (slots : List (Option Session))
      → 0 < nulls slots
      → start_slots validate p slots ≡ none
  unfolding start_slots nulls
  start_slots-none p [] h = absurd (omega arith)
  start_slots-none p (none ∷ slots) h = refl
  start_slots-none p (some s ∷ slots) h =
      then-none (deliver validate p s.id start_asked) _ (λ q. start_slots-none q slots h)

  -- While a position of the pool is free, since a session was removed and none took its place, start_all
  -- does not run: it follows the null pointer.
  pub start_all-none :
      (m : SessionManager)
      → IsValid m.session_pool
      → 0 < length m.session_pool.free_indices
      → start_all validate m ≡ none
  start_all-none m v h =
      let fails =
        start_slots-none m.session_pool m.session_pool.sessions
          (let n = v.counted in omega arith) in
      ap (λ o. o >>= λ p. some (with_pool m p)) fails
