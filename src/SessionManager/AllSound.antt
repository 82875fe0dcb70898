-- ===== src/SessionManager/AllSound.antt =====
-- src/SessionManager.cpp: whatever happens to a manager, its pool is in order and each session is sound.
use fix_engine.Prelude.{
  ℕ, ◌≡◌, ◌≢◌, refl, ◌∙◌, ap, subst, Bool, true, false, List, [], ◌∷◌, Option, none, some, ◌==◌,
  if_either, ◌>>=◌, option_either, get_elem?, inl, inr,
}
use fix_engine.Definitions.{Role, SessionId, SessionParameters}
use fix_engine.Session.State.{Session, new_session}
use fix_engine.Session.Dispatch.{Validate}
use fix_engine.Session.Events.{Event, connected, start_asked, run}
use fix_engine.Session.Soundness.{IsSound}
use fix_engine.Session.Soundness.Run.{run-keeps, new_session-IsSound}
use fix_engine.SessionPool.{SessionPool, emplace_session, dropped, changed, get, remove}
use fix_engine.SessionPool.Slots.{IsValid, new_pool-IsValid, Puts}
use fix_engine.SessionPool.Operations.{found_either, place_lem, drop_lem, change_lem}
use fix_engine.SessionPool.Ids.{found_slot}
use fix_engine.ConnectionFactory.Errors.{success}
use fix_engine.SessionManager.{
  SessionManager, SessionCreationConfig, Request, new_manager, with_pool, after_removal,
  create_session, reconnect_session, deliver, deliver_to, hand_over, ask_again, deliver_each,
  start_slots, start_event, on_connection, ask, reconnect, Operation, creates, removes, reconnects,
  sends, stops, stops_all, starts_all, connects, tells, apply, apply_all,
}

-- The pool is valid, and each session in it is sound.
pub record AllSound (p : SessionPool) : Type 0 where
  pub valid : IsValid p
  pub sound : (i : ℕ) (s : Session) → get_elem? p.sessions i ≡ some (some s) → IsSound s

-- The outcome, if there is one, has a property.
abbrev pub Holds : {A : Type 0} → (A → Type 0) → Option A → Type 0
Holds P none = Unit
Holds P (some a) = P a

Holds-then :
    {A B : Type 0} (P : A → Type 0) (Q : B → Type 0) (m : Option A) (f : A → Option B)
    → Holds P m
    → ((a : A) → m ≡ some a → P a → Holds Q (f a))
    → Holds Q (m >>= f)
Holds-then P Q none f h step = tt
Holds-then P Q (some a) f h step = step a refl h

Holds-with :
    {A B : Type 0} (Q : B → Type 0) (m : Option A) (f : A → Option B)
    → ((a : A) → m ≡ some a → Holds Q (f a))
    → Holds Q (m >>= f)
Holds-with Q none f step = tt
Holds-with Q (some a) f step = step a refl

abbrev pub ManagerSound : SessionManager → Type 0
ManagerSound m = AllSound m.session_pool

put_lem :
    (p q : SessionPool) (k : ℕ) (o : Option Session)
    → AllSound p
    → IsValid q
    → Puts p k o q
    → ((s : Session) → o ≡ some s → IsSound s)
    → AllSound q
put_lem p q k o a v puts new = record {
  valid = v;
  sound = λ i s e. elim (found_either p q k o puts i s e) [
    | inl (_, r) ↦ new s r
    | inr (_, r) ↦ a.sound i s r
  ];
}

emplace_lem :
    (p : SessionPool) (role : Role) (params : SessionParameters)
    → AllSound p
    → AllSound (emplace_session p role params).0
emplace_lem p role params a =
    let r = place_lem p p.free_indices role params a.valid refl in
    let id = (emplace_session p role params).1 in
    put_lem p (emplace_session p role params).0 id.storage_index (some (new_session id role params))
      a r.valid r.place (λ s e. subst IsSound (some-inj e) (new_session-IsSound id role params))
  where
    some-inj : {x y : Session} → some x ≡ some y → x ≡ y
    some-inj h = cc

dropped_lem :
    (p : SessionPool) (id : SessionId) (s : Session)
    → AllSound p
    → get p id ≡ some (some s)
    → AllSound (dropped p id)
dropped_lem p id s a e =
    let d = drop_lem p id s a.valid (found_slot p id s e).0 in
    put_lem p (dropped p id) id.storage_index none a d.valid d.place (λ t r. absurd (none_some r))
  where
    none_some : {t : Session} → none ≢ some t
    none_some r = cc

module _ (validate : Validate) where
  pub changed_lem :
      (p : SessionPool) (id : SessionId) (s t : Session)
      → AllSound p
      → get p id ≡ some (some s)
      → IsSound t
      → t.id ≡ s.id
      → AllSound (changed p id t)
  changed_lem p id s t a e i same =
      let c = change_lem p id s t a.valid (found_slot p id s e).0 same in
      put_lem p (changed p id t) id.storage_index (some t) a c.valid c.place
        (λ w r. subst IsSound (some-inj r) i)
    where
      some-inj : {x y : Session} → some x ≡ some y → x ≡ y
      some-inj h = cc

  deliver_to_lem :
      (p : SessionPool) (id : SessionId) (e : Event) (o : Option Session)
      → AllSound p
      → get p id ≡ some o
      → Holds AllSound (deliver_to validate p id e o)
  unfolding deliver_to
  deliver_to_lem p id e none a found = a
  deliver_to_lem p id e (some s) a found =
      let sound = a.sound id.storage_index s (found_slot p id s found).0 in
      Holds-with AllSound (run validate s e) _ (λ t ran.
        let (i, same) = run-keeps validate s t e sound ran in changed_lem p id s t a found i same)

  pub deliver_lem :
      (p : SessionPool) (id : SessionId) (e : Event)
      → AllSound p
      → Holds AllSound (deliver validate p id e)
  unfolding deliver
  deliver_lem p id e a =
      Holds-with AllSound (get p id) _ (λ o found. deliver_to_lem p id e o a found)

  deliver_each_lem :
      (p : SessionPool) (ids : List SessionId) (e : Event)
      → AllSound p
      → Holds AllSound (deliver_each validate p ids e)
  unfolding deliver_each
  deliver_each_lem p [] e a = a
  deliver_each_lem p (id ∷ ids) e a =
      Holds-then AllSound AllSound (deliver validate p id e) _ (deliver_lem p id e a)
        (λ q ran b. deliver_each_lem q ids e b)

  start_slots_lem :
      (p : SessionPool) (slots : List (Option Session))
      → AllSound p
      → Holds AllSound (start_slots validate p slots)
  unfolding start_slots
  start_slots_lem p [] a = a
  start_slots_lem p (none ∷ slots) a = tt
  start_slots_lem p (some s ∷ slots) a =
      Holds-then AllSound AllSound (deliver validate p s.id start_asked) _
        (deliver_lem p s.id start_asked a) (λ q ran b. start_slots_lem q slots b)

  -- A manager whose pool comes out of this.
  with_lem :
      (m : SessionManager) (o : Option SessionPool)
      → Holds AllSound o
      → Holds ManagerSound (o >>= λ p. some (with_pool m p))
  with_lem m o h = Holds-then AllSound ManagerSound o _ h (λ p ran a. a)

  abbrev AnswerSound : SessionManager × Bool → Type 0
  AnswerSound r = ManagerSound r.0

  hand_over_lem :
      (m : SessionManager) (r : Request) (o : Option Session)
      → ManagerSound m
      → Holds AnswerSound (hand_over validate m r o)
  unfolding hand_over
  hand_over_lem m r none a = a
  hand_over_lem m r (some s) a =
      Holds-then AllSound AnswerSound (deliver validate m.session_pool r.session connected) _
        (deliver_lem m.session_pool r.session connected a)
        (λ p ran b.
          Holds-then AllSound AnswerSound (deliver validate p r.session (start_event r.mode)) _
            (deliver_lem p r.session (start_event r.mode) b) (λ q ran' c. c))

  on_connection_lem :
      (m : SessionManager) (r : Request) (ec : ℕ)
      → ManagerSound m
      → Holds AnswerSound (on_connection validate m r ec)
  unfolding on_connection
  on_connection_lem m r ec a =
      if_either (Holds AnswerSound) (ec == success) _ _
        (λ ok.
          Holds-with AnswerSound (get m.session_pool r.session) _
            (λ o found. hand_over_lem m r o a))
        (λ failed. a)

  ask_again_lem :
      (m : SessionManager) (id : SessionId) (o : Option SessionCreationConfig)
      → ManagerSound m
      → Holds ManagerSound (ask_again m id o)
  unfolding ask_again
  ask_again_lem m id none a = a
  ask_again_lem m id (some config) a = Holds-with ManagerSound (get m.session_pool id) _ (λ found e.
      option_either (Holds ManagerSound) found (some m) (λ s. some (ask m id config reconnect))
        (λ nobody. a) (λ s somebody. a))

  remove_lem :
      (p : SessionPool) (id : SessionId) → AllSound p → Holds (λ r. AllSound r.0) (remove p id)
  unfolding remove
  remove_lem p id a =
      Holds-with (λ r. AllSound r.0) (get p id) _
        (λ o found.
          option_either (Holds (λ r. AllSound r.0)) o (some (p, false))
            (λ s. some (dropped p id, true)) (λ nobody. a)
            (λ s somebody. dropped_lem p id s a (found ∙ ap some somebody)))

  removed_lem :
      (m : SessionManager) (o : Option (SessionPool × Bool))
      → Holds (λ r. AllSound r.0) o
      → Holds ManagerSound ((o >>= λ r. some (after_removal m r)) >>= λ r. some r.0)
  removed_lem m none h = tt
  removed_lem m (some r) h = h

  apply_lem :
      (m : SessionManager) (o : Operation)
      → ManagerSound m
      → Holds ManagerSound (apply validate m o)
  unfolding apply create_session reconnect_session
  apply_lem m (creates config) a = emplace_lem m.session_pool config.role config.params a
  apply_lem m (removes id) a = removed_lem m _ (remove_lem m.session_pool id a)
  apply_lem m (reconnects id) a = ask_again_lem m id _ a
  apply_lem m (sends id message msg_type) a = with_lem m _ (deliver_lem m.session_pool id _ a)
  apply_lem m (stops id) a = with_lem m _ (deliver_lem m.session_pool id _ a)
  apply_lem m stops_all a = with_lem m _ (deliver_each_lem m.session_pool _ _ a)
  apply_lem m starts_all a = with_lem m _ (start_slots_lem m.session_pool _ a)
  apply_lem m (connects r ec) a =
      Holds-then AnswerSound ManagerSound (on_connection validate m r ec) _
        (on_connection_lem m r ec a) (λ r1 ran b. b)
  apply_lem m (tells id e) a = with_lem m _ (deliver_lem m.session_pool id e a)

  apply_all_lem :
      (m : SessionManager) (operations : List Operation)
      → ManagerSound m
      → Holds ManagerSound (apply_all validate m operations)
  unfolding apply_all
  apply_all_lem m [] a = a
  apply_all_lem m (o ∷ rest) a =
      Holds-then ManagerSound ManagerSound (apply validate m o) _ (apply_lem m o a)
        (λ m1 ran b. apply_all_lem m1 rest b)

  new_manager-ManagerSound : ManagerSound new_manager
  new_manager-ManagerSound = record { valid = new_pool-IsValid; sound = λ i s e. absurd (cc) }

  -- Whatever a manager has done since its construction, creations and removals of sessions, messages,
  -- stops, starts and connections, and whatever its sessions were told: its pool is valid, and every
  -- session in it has a well-formed recovery cache, an empty queue while no write is under way, and no
  -- write under way once it has stopped.
  pub apply_all-AllSound :
      (operations : List Operation) (m : SessionManager)
      → apply_all validate new_manager operations ≡ some m
      → AllSound m.session_pool
  apply_all-AllSound operations m e =
      subst (Holds ManagerSound) e (apply_all_lem new_manager operations new_manager-ManagerSound)
