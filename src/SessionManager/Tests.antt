-- ===== src/SessionManager/Tests.antt =====
-- The laws of the manager with one session, and with one that was removed.
use fix_engine.Prelude.{◌≡◌, refl, [], ◌∷◌, none, some, arith}
use fix_engine.Definitions.{initiator, SessionId, default_parameters, same_session}
use fix_engine.Session.State.{Session, new_session}
use fix_engine.Session.Events.{stop_asked, run}
use fix_engine.Session.Dispatch.{Validate}
use fix_engine.Validator.Result.{na}
use fix_engine.Session.Handlers.{stop}
use fix_engine.SessionPool.{SessionPool, dropped, of_id, get, remove, place}
use fix_engine.SessionPool.Slots.{IsValid, new_pool-IsValid}
use fix_engine.SessionPool.Ids.{Step-IsValid, adds, removes}
use fix_engine.SessionManager.{
  SessionManager, SessionCreationConfig, new_manager, with_pool, create_session, deliver, creates,
  apply, apply_all, start_all, deliver_to, remove_session,
}
use fix_engine.SessionManager as Manager
use fix_engine.SessionManager.AllSound.{AllSound, apply_all-AllSound}
use fix_engine.SessionManager.Isolation.{Reaches, deliver-Reaches, start_all-none}

abbrev lenient : Validate
lenient _ _ = record { severity = na; errors = [] }

abbrev config : SessionCreationConfig
config = record {
  role = initiator;
  conn_config = record { ip = []; port = 9000; role = initiator; backlog = 0 };
  params = default_parameters;
}

abbrev one : SessionManager
one = (create_session new_manager config).0

abbrev first : SessionId
first = record { storage_index = 0; id = 0 }

abbrev first_session : Session
first_session = new_session first initiator default_parameters

abbrev left_again : SessionManager
left_again = with_pool one (dropped one.session_pool first)

operations_run :
    apply_all lenient new_manager (creates config ∷ Manager.removes first ∷ []) ≡ some left_again
unfolding apply_all apply create_session place remove get of_id same_session new_session
operations_run = refl

apply_all-AllSound_example : AllSound left_again.session_pool
apply_all-AllSound_example =
    apply_all-AllSound lenient (creates config ∷ Manager.removes first ∷ []) left_again
      operations_run

one-IsValid : IsValid one.session_pool
unfolding create_session
one-IsValid = Step-IsValid new_pool-IsValid (adds initiator default_parameters)

found : get one.session_pool first ≡ some (some first_session)
unfolding get of_id same_session place new_session create_session
found = refl

left_again-IsValid : IsValid left_again.session_pool
left_again-IsValid = Step-IsValid one-IsValid (removes first first_session found)

-- Two sessions, of which the first is told to stop.
abbrev two : SessionManager
two = (create_session one config).0

two_run : apply_all lenient new_manager (creates config ∷ creates config ∷ []) ≡ some two
unfolding apply_all apply
two_run = refl

deliver-Reaches_example :
    (q : SessionPool) × ((deliver lenient two.session_pool first stop_asked ≡ some q)
      × Reaches lenient two.session_pool first stop_asked q)
unfolding create_session place run
deliver-Reaches_example =
    deliver-Reaches lenient two.session_pool first stop_asked
      (apply_all-AllSound lenient (creates config ∷ creates config ∷ []) two two_run) (omega arith)
      (λ s at same. (stop s, refl))

start_all-none_example : start_all lenient left_again ≡ none
unfolding create_session place
start_all-none_example = start_all-none lenient left_again left_again-IsValid (omega arith)
