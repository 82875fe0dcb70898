-- ===== src/SessionPool/Tests.antt =====
-- The laws of the session pool at a pool in which a position was used twice.
use fix_engine.Prelude.{◌≡◌, ◌≢◌, refl, true, some, length}
use fix_engine.Definitions.{initiator, acceptor, SessionId, default_parameters, same_session}
use fix_engine.Session.State.{Session, new_session}
use fix_engine.SessionPool.{
  SessionPool, new_pool, size, place, emplace_session, dropped, of_id, get, remove, get_all,
}
use fix_engine.SessionPool.Slots.{IsValid, new_pool-IsValid}
use fix_engine.SessionPool.Ids.{adds, stays, goes, Step-IsValid, emplace_session_lem, remove-get}
use fix_engine.SessionPool.Live.{live, get_all-live}

abbrev one : SessionPool
one = (emplace_session new_pool initiator default_parameters).0

abbrev first : SessionId
first = record { storage_index = 0; id = 0 }

abbrev first_session : Session
first_session = new_session first initiator default_parameters

one-IsValid : IsValid one
one-IsValid = Step-IsValid new_pool-IsValid (adds initiator default_parameters)

found : get one first ≡ some (some first_session)
unfolding get of_id same_session place new_session
found = refl

removed : remove one first ≡ some (dropped one first, true)
unfolding remove get of_id same_session place new_session
removed = refl

-- The position is used again.
abbrev again : SessionPool
again = (emplace_session (dropped one first) acceptor default_parameters).0

emplace_session_example :
    let (q, id) = emplace_session one acceptor default_parameters in
    IsValid q
    × ((id.id ≡ one.next_idx)
        × ((get q id ≡ some (some (new_session id acceptor default_parameters)))
            × ((j : SessionId) (s : Session)
                → get one j ≡ some (some s)
                → get q j ≡ some (some s))))
emplace_session_example = emplace_session_lem one acceptor default_parameters one-IsValid

remove-get_example : get again first ≢ some (some first_session)
remove-get_example =
    remove-get one (dropped one first) again first one-IsValid removed
      (goes stays (adds acceptor default_parameters)) first_session

get_all-live_example : (get_all one ≡ live one.sessions) × (size one ≡ length (live one.sessions))
get_all-live_example = get_all-live one one-IsValid
