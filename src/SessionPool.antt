-- ===== src/SessionPool.antt =====
-- include/fix/core/SessionPool.hpp and src/SessionPool.cpp: the sessions in a vector of pointers, with the
-- positions to use again.
pub mod Slots
pub mod Operations
pub mod Ids
pub mod Live
mod Tests
use fix_engine.Prelude.{
  ℕ, ◌+◌, ◌-◌, ◌<◌, Bool, true, false, not, List, [], ◌∷◌, ◌++◌, Option, none, some, ltb, ◌==◌,
  if◌then◌else◌, ◌>>=◌, length, get_elem?, set,
}
use fix_engine.Definitions.{Role, SessionId, same_session, SessionParameters}
use fix_engine.Session.State.{Session, new_session}

-- The counter of the ids is a `std::size_t`, taken not to reach 2^64. A null pointer is `none`; the
-- positions to use again have the back of the vector first.
pub record SessionPool : Type 0 where
  pub sessions : List (Option Session)
  pub free_indices : List ℕ
  pub next_idx : ℕ

abbrev pub new_pool : SessionPool
new_pool = record { sessions = []; free_indices = []; next_idx = 0 }

abbrev pub size : SessionPool → ℕ
size p = length p.sessions - length p.free_indices

-- `emplace_session` with these positions to use again, the last one first, and the id of the session
-- that it returns.
unfoldable pub place : SessionPool → List ℕ → Role → SessionParameters → SessionPool × SessionId
place p [] role params =
    let id : SessionId = record { storage_index = length p.sessions; id = p.next_idx } in
    (
      record {
        sessions = p.sessions ++ some (new_session id role params) ∷ [];
        free_indices = [];
        next_idx = p.next_idx + 1;
      },
      id,
    )
place p (nxt ∷ free) role params =
    let id : SessionId = record { storage_index = nxt; id = p.next_idx } in
    (
      record {
        sessions = set p.sessions nxt (some (new_session id role params));
        free_indices = free;
        next_idx = p.next_idx + 1;
      },
      id,
    )

abbrev pub emplace_session : SessionPool → Role → SessionParameters → SessionPool × SessionId
emplace_session p role params = place p p.free_indices role params

-- The session of a slot, if it has this id.
unfoldable pub of_id : SessionId → Option Session → Option Session
of_id id none = none
of_id id (some s) = if same_session s.id id then some s else none

-- `get`: the outer `none` is the exception of `at`.
unfoldable pub get : SessionPool → SessionId → Option (Option Session)
unfolding of_id
get p id = get_elem? p.sessions id.storage_index >>= λ slot. some (of_id id slot)

-- The pool without the session at this position.
abbrev pub dropped : SessionPool → SessionId → SessionPool
dropped p id = record p {
  sessions = set p.sessions id.storage_index none;
  free_indices = id.storage_index ∷ p.free_indices;
}

-- A pool in which one session has changed, but for its id.
abbrev pub changed : SessionPool → SessionId → Session → SessionPool
changed p id t = record p { sessions = set p.sessions id.storage_index (some t) }

unfoldable pub remove : SessionPool → SessionId → Option (SessionPool × Bool)
remove p id =
    get p id >>= λ found. elim found [ none ↦ some (p, false) | some s ↦ some (dropped p id, true) ]

-- std::find in the positions to use again
unfoldable pub is_in : ℕ → List ℕ → Bool
is_in x [] = false
is_in x (y ∷ ys) = if y == x then true else is_in x ys

-- The loop of `get_all`.
unfoldable pub collect : List ℕ → List (Option Session) → List Session
unfolding is_in
collect free [] = []
collect free (none ∷ slots) = collect free slots
collect free (some s ∷ slots) =
    let rest = collect free slots in if is_in s.id.storage_index free then rest else s ∷ rest

abbrev pub get_all : SessionPool → List Session
get_all p = collect p.free_indices p.sessions

-- A span over the slots, null pointers and all.
abbrev pub get_all_at_start : SessionPool → List (Option Session)
get_all_at_start p = p.sessions
