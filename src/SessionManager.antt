-- ===== src/SessionManager.antt =====
-- src/SessionManager.cpp: the sessions of the engine, their configurations, and the connections asked for.
pub mod AllSound
pub mod Isolation
mod Tests
use fix_engine.Prelude.{
  ℕ, ◌+◌, ◌*◌, Bool, true, false, List, [], ◌∷◌, ◌++◌, map, Bytes, Option, none, some, ◌==◌,
  if◌then◌else◌, ◌>>=◌,
}
use fix_engine.Definitions.{Role, initiator, acceptor, SessionId, same_session, SessionParameters}
use fix_engine.MessageFactory.{GenericField}
use fix_engine.Session.State.{Session}
use fix_engine.Session.Dispatch.{Validate}
use fix_engine.Session.Events.{
  Event, app_message, stop_asked, connected, start_asked, restart_asked, run,
}
use fix_engine.SessionPool.{
  SessionPool, new_pool, emplace_session, changed, get, remove, get_all, get_all_at_start, size,
}
use fix_engine.ConnectionFactory.{ConnectionConfig}
use fix_engine.ConnectionFactory.Errors.{success}

pub data StartMode : Type 0 where
  normal : StartMode
  reconnect : StartMode

pub record SessionCreationConfig : Type 0 where
  pub role : Role
  pub conn_config : ConnectionConfig
  pub params : SessionParameters

-- A call of `async_listen` or `async_connect`, by the role, with what its handler captures: the session,
-- which its id stands for, and how it is started then.
pub record Request : Type 0 where
  pub role : Role
  pub conn_config : ConnectionConfig
  pub session : SessionId
  pub mode : StartMode

pub record SessionManager : Type 0 where
  pub session_pool : SessionPool
  pub session_configs : List (SessionId × SessionCreationConfig)
  pub requests : List Request

abbrev pub new_manager : SessionManager
new_manager = record { session_pool = new_pool; session_configs = []; requests = [] }

abbrev pub with_pool : SessionManager → SessionPool → SessionManager
with_pool m p = record m { session_pool = p }

-- The configuration of a session: `find` in the map.
unfoldable pub find_config :
    List (SessionId × SessionCreationConfig) → SessionId → Option SessionCreationConfig
find_config [] id = none
find_config ((k, config) ∷ configs) id =
    if same_session k id then some config else find_config configs id

abbrev pub ask : SessionManager → SessionId → SessionCreationConfig → StartMode → SessionManager
ask m id config mode = record m {
  requests =
      m.requests
      ++ (record {
        role = config.role;
        conn_config = config.conn_config;
        session = id;
        mode = mode;
      })
        ∷ [];
}

-- `create_session`; the id is new to the map.
unfoldable pub create_session : SessionManager → SessionCreationConfig → SessionManager × SessionId
create_session m config =
    let (pool, id) = emplace_session m.session_pool config.role config.params in
    (
      ask
          (record {
            session_pool = pool;
            session_configs = (id, config) ∷ m.session_configs;
            requests = m.requests;
          })
          id config normal,
      id,
    )

unfoldable pub create_all :
    SessionManager → List SessionCreationConfig → SessionManager × List SessionId
unfolding create_session
create_all m [] = (m, [])
create_all m (config ∷ configs) =
    let (m1, id) = create_session m config in
    let (m2, ids) = create_all m1 configs in (m2, id ∷ ids)

-- `reconnect_session_impl_`. From here on `none` is an exception of the pool's `at`, a null pointer that is
-- followed, or a failure of the session.
unfoldable pub ask_again :
    SessionManager → SessionId → Option SessionCreationConfig → Option SessionManager
ask_again m id none = some m
ask_again m id (some config) = get m.session_pool id >>= λ found. elim found [
  | none ↦ some m
  | some s ↦ some (ask m id config reconnect)
]

unfoldable pub reconnect_session : SessionManager → SessionId → Option SessionManager
unfolding find_config ask_again
reconnect_session m id = ask_again m id (find_config m.session_configs id)

-- `findSession`, `sessionCount` and `remove_session`
abbrev pub find_session : SessionManager → SessionId → Option (Option Session)
find_session m id = get m.session_pool id

abbrev pub session_count : SessionManager → ℕ
session_count m = size m.session_pool

abbrev pub after_removal : SessionManager → SessionPool × Bool → SessionManager × Bool
after_removal m r = (with_pool m r.0, r.1)

abbrev pub remove_session : SessionManager → SessionId → Option (SessionManager × Bool)
remove_session m id = remove m.session_pool id >>= λ r. some (after_removal m r)

abbrev pub start_event : StartMode → Event
start_event normal = start_asked
start_event reconnect = restart_asked

-- What happens to a manager: its operations, and what a session is told from elsewhere.
pub data Operation : Type 0 where
  creates : SessionCreationConfig → Operation
  removes : SessionId → Operation
  reconnects : SessionId → Operation
  sends : SessionId → List GenericField → Bytes → Operation
  stops : SessionId → Operation
  stops_all : Operation
  starts_all : Operation
  connects : Request → ℕ → Operation
  tells : SessionId → Event → Operation

module _ (validate : Validate) where
  -- A session of the pool runs an event.
  unfoldable pub deliver_to : SessionPool → SessionId → Event → Option Session → Option SessionPool
  deliver_to p id e none = some p
  deliver_to p id e (some s) = run validate s e >>= λ t. some (changed p id t)

  unfoldable pub deliver : SessionPool → SessionId → Event → Option SessionPool
  unfolding deliver_to
  deliver p id e = get p id >>= deliver_to p id e

  unfoldable pub deliver_each : SessionPool → List SessionId → Event → Option SessionPool
  unfolding deliver
  deliver_each p [] e = some p
  deliver_each p (id ∷ ids) e = deliver p id e >>= λ q. deliver_each q ids e

  -- The tasks that the manager posts to its strand.
  abbrev pub send : SessionManager → SessionId → List GenericField → Bytes → Option SessionManager
  send m id message msg_type =
      deliver m.session_pool id (app_message message msg_type) >>= λ p. some (with_pool m p)

  abbrev pub stop_session : SessionManager → SessionId → Option SessionManager
  stop_session m id = deliver m.session_pool id stop_asked >>= λ p. some (with_pool m p)

  abbrev pub stop_all : SessionManager → Option SessionManager
  stop_all m =
      deliver_each m.session_pool (map (λ s. s.id) (get_all m.session_pool)) stop_asked >>= λ p.
      some (with_pool m p)

  -- The loop of `start_all`, which follows every pointer.
  unfoldable pub start_slots : SessionPool → List (Option Session) → Option SessionPool
  unfolding deliver
  start_slots p [] = some p
  start_slots p (none ∷ slots) = none
  start_slots p (some s ∷ slots) = deliver p s.id start_asked >>= λ q. start_slots q slots

  abbrev pub start_all : SessionManager → Option SessionManager
  start_all m =
      start_slots m.session_pool (get_all_at_start m.session_pool) >>= λ p. some (with_pool m p)

  -- The handler of a request, with an error or a connection; it gives whether it closes the connection.
  unfoldable pub hand_over :
      SessionManager → Request → Option Session → Option (SessionManager × Bool)
  unfolding deliver
  hand_over m r none = some (m, elim (r.role) [ initiator ↦ true | acceptor ↦ false ])
  hand_over m r (some s) = deliver m.session_pool r.session connected >>= λ p.
      deliver p r.session (start_event r.mode) >>= λ q. some (with_pool m q, false)

  unfoldable pub on_connection : SessionManager → Request → ℕ → Option (SessionManager × Bool)
  unfolding hand_over
  on_connection m r ec =
      if ec == success then get m.session_pool r.session >>= hand_over m r else some (m, false)

  unfoldable pub apply : SessionManager → Operation → Option SessionManager
  unfolding create_session reconnect_session start_slots on_connection
  apply m (creates config) = some (create_session m config).0
  apply m (removes id) = remove_session m id >>= λ r. some r.0
  apply m (reconnects id) = reconnect_session m id
  apply m (sends id message msg_type) = send m id message msg_type
  apply m (stops id) = stop_session m id
  apply m stops_all = stop_all m
  apply m starts_all = start_all m
  apply m (connects r ec) = on_connection m r ec >>= λ r1. some r1.0
  apply m (tells id e) = deliver m.session_pool id e >>= λ p. some (with_pool m p)

  unfoldable pub apply_all : SessionManager → List Operation → Option SessionManager
  unfolding apply
  apply_all m [] = some m
  apply_all m (o ∷ rest) = apply m o >>= λ m1. apply_all m1 rest
