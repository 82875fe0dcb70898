-- ===== src/LogFileSink.antt =====
-- include/fix/log/LogFileSink.hpp and src/LogFileSink.cpp: a file for each session, of which at most 128
-- are open. The list of the sessions with open files has the one written last in front; its elements
-- have numbers, which stand for the iterators.
pub mod Eviction
mod Tests
use fix_engine.Prelude.{
  ℕ, zero, suc, ◌+◌, ◌-◌, Bool, true, false, not, List, [], ◌∷◌, ◌++◌, map, Bytes, Option, none,
  some, leb, ◌==◌, if◌then◌else◌, ◌>>=◌,
}
use fix_engine.Chars.{codes}
use fix_engine.Definitions.{SessionId, same_session}
use fix_engine.LogEntry.{Entry, Category, info, error, Layer, peripheral, to_json}
use fix_engine.Validator.Result.{low, high}

abbrev pub max_lru_cache_size : ℕ
max_lru_cache_size = 128

-- A file has what was ever written to it, since it is opened to append.
pub record SinkNode : Type 0 where
  pub path : Bytes
  pub is_open : Bool
  pub written : Bytes
  pub lru_iterator : ℕ
  pub in_lru : Bool
  pub first_write : Bool

-- The elements of the list ever made are counted, for their numbers. The log of the sink itself has a file
-- that is open or not, from the start; if not, its entries go to the standard error.
pub record LogFileSink : Type 0 where
  pub lru_cache : List (ℕ × SessionId)
  pub cells : ℕ
  pub sess_to_file : List (SessionId × SinkNode)
  pub core_is_open : Bool
  pub core_log : List Entry
  pub std_err : List Entry
  pub currently_open_files : ℕ

abbrev pub new_sink : Bool → LogFileSink
new_sink core_is_open = record {
  lru_cache = [];
  cells = 0;
  sess_to_file = [];
  core_is_open = core_is_open;
  core_log = [];
  std_err = [];
  currently_open_files = 0;
}

unfoldable pub find_node : List (SessionId × SinkNode) → SessionId → Option SinkNode
find_node [] id = none
find_node ((k, n) ∷ nodes) id = if same_session k id then some n else find_node nodes id

-- The node of a session is changed in place.
unfoldable pub set_node :
    List (SessionId × SinkNode) → SessionId → SinkNode → List (SessionId × SinkNode)
set_node [] id n = []
set_node ((k, m) ∷ nodes) id n =
    let rest = set_node nodes id n in if same_session k id then (k, n) ∷ nodes else (k, m) ∷ rest

abbrev pub with_node : LogFileSink → SessionId → SinkNode → LogFileSink
with_node s id n = record s { sess_to_file = set_node s.sess_to_file id n }

abbrev pub kept :
    ℕ × SessionId → (ℕ × SessionId) × List (ℕ × SessionId) → (ℕ × SessionId) × List (ℕ × SessionId)
kept c r = (r.0, c ∷ r.1)

-- The element with a number, and the others in their order.
unfoldable pub take_out : ℕ → List (ℕ × SessionId) → Option ((ℕ × SessionId) × List (ℕ × SessionId))
take_out i [] = none
take_out i ((k, id) ∷ cells) =
    let rest = take_out i cells in
    if k == i then some ((k, id), cells) else (rest >>= λ r. some (kept (k, id) r))

unfoldable pub last : List (ℕ × SessionId) → Option (ℕ × SessionId)
last [] = none
last (c ∷ []) = some c
last (c ∷ (d ∷ cells)) = last (d ∷ cells)

unfoldable pub pop_back : List (ℕ × SessionId) → List (ℕ × SessionId)
pop_back [] = []
pop_back (c ∷ []) = []
pop_back (c ∷ (d ∷ cells)) = c ∷ pop_back (d ∷ cells)

-- `touch` of a session for the node of another, which `key` finds. Here and below `none` is an iterator
-- whose element is gone, an exception of `at`, or a recursion without end.
unfoldable pub touch : LogFileSink → SessionId → SessionId → SinkNode → Option LogFileSink
unfolding take_out
touch s sess_id key node =
    if not node.in_lru
    then some (
        with_node (record s { lru_cache = (s.cells, sess_id) ∷ s.lru_cache; cells = s.cells + 1 })
          key (record node { lru_iterator = s.cells; in_lru = true }))
    else (take_out node.lru_iterator s.lru_cache >>= λ r. some (record s { lru_cache = r.0 ∷ r.1 }))

abbrev pub log_internal : LogFileSink → Entry → LogFileSink
log_internal s e =
    if s.core_is_open
    then record s { core_log = s.core_log ++ e ∷ [] }
    else record s { std_err = s.std_err ++ e ∷ [] }

-- `SessionID{}`
abbrev pub no_session : SessionId
no_session = record { storage_index = 0; id = 0 }

abbrev pub unregistered : SessionId → Entry
unregistered id = record {
  message = codes "Attempted to log to unregistered session";
  sess_id = id;
  context = record { layer = peripheral; cat = error; sev = high };
}

abbrev pub added : SessionId → Entry
added id = record {
  message = codes "Added session to LogFileSink";
  sess_id = id;
  context = record { layer = peripheral; cat = info; sev = low };
}

abbrev pub create_sink_node : Bytes → SinkNode
create_sink_node path = record {
  path = path;
  is_open = false;
  written = [];
  lru_iterator = 0;
  in_lru = false;
  first_write = true;
}

-- `emplace` leaves a session as it is that is there.
abbrev pub emplaced :
    List (SessionId × SinkNode) → SessionId → SinkNode → List (SessionId × SinkNode)
emplaced nodes id n = elim (find_node nodes id) [ none ↦ (id, n) ∷ nodes | some m ↦ nodes ]

-- The end of `close_file`: the closing bracket, which an open stream takes, and the close.
unfoldable pub write_end : LogFileSink → SessionId → Option LogFileSink
unfolding find_node set_node
write_end s key = find_node s.sess_to_file key >>= λ node. some (
    with_node s key (record node {
      written = if node.is_open then node.written ++ codes "\n]" else node.written;
    }))

unfoldable pub close_stream : LogFileSink → SessionId → Option LogFileSink
unfolding find_node set_node
close_stream s key = find_node s.sess_to_file key >>= λ node.
    some (with_node s key (record node { is_open = false }))

-- The end of `evict_one`: the last element of the list goes.
unfoldable pub forget : LogFileSink → SessionId → Option LogFileSink
unfolding find_node set_node pop_back
forget s victim = find_node s.sess_to_file victim >>= λ v.
    some (record (with_node s victim (record v { in_lru = false })) {
      lru_cache = pop_back s.lru_cache;
      currently_open_files = s.currently_open_files - 1;
    })

-- Whether the system opens the file of a path.
module _ (opens : Bytes → Bool) where
  abbrev pub open_failed : Bytes → Entry
  open_failed path = record {
    message = codes "Failed to open log file: " ++ path;
    sess_id = record { storage_index = 0; id = 0 };
    context = record { layer = peripheral; cat = error; sev = high };
  }

  -- `open_file` of the node of a session
  abbrev pub open_file : LogFileSink → SessionId → SinkNode → LogFileSink
  open_file s key node =
      if opens node.path
      then with_node s key (record node { is_open = true })
      else log_internal s (open_failed node.path)

  -- The rest of `ensure_open`, once there is room.
  unfoldable pub opened_file : LogFileSink → SessionId → SessionId → Option LogFileSink
  unfolding find_node set_node touch
  opened_file s sess_id key = find_node s.sess_to_file key >>= λ node.
      let s1 = open_file s key node in
      find_node s1.sess_to_file key >>= λ node1.
      if not node1.is_open
      then some s1
      else touch (record s1 { currently_open_files = s1.currently_open_files + 1 }) sess_id key
          node1

  -- How deep these may call each other is the first argument.
  unfoldable mutual
    pub ensure_open : ℕ → LogFileSink → SessionId → SessionId → Option LogFileSink
    ensure_open zero s sess_id key = none
    ensure_open (suc fuel) s sess_id key =
        let room = evict_one fuel s in
        find_node s.sess_to_file key >>= λ node.
        if node.is_open
        then touch s sess_id key node
        else ((if leb max_lru_cache_size s.currently_open_files then room else some s) >>= λ s1.
            opened_file s1 sess_id key)

    pub close_file : ℕ → LogFileSink → SessionId → Option LogFileSink
    close_file zero s key = none
    close_file (suc fuel) s key =
        let opened = ensure_open fuel s no_session key in
        find_node s.sess_to_file key >>= λ node.
        (if node.first_write then some s else (opened >>= λ s1. write_end s1 key)) >>= λ s2.
        close_stream s2 key

    pub evict_one : ℕ → LogFileSink → Option LogFileSink
    evict_one zero s = none
    evict_one (suc fuel) s =
        let closed =
          last s.lru_cache >>= λ victim. close_file fuel s victim.1 >>= λ s1. forget s1 victim.1 in
        if s.currently_open_files == 0 then some s else closed

  abbrev pub bare_write : LogFileSink → SessionId → SinkNode → Bytes → LogFileSink
  bare_write s key node bytes = with_node s key (record node {
    written = if node.is_open then node.written ++ bytes else node.written;
    first_write = false;
  })

  unfoldable pub write : ℕ → LogFileSink → Entry → Option (LogFileSink × Bool)
  unfolding ensure_open to_json
  write fuel s e = elim (find_node s.sess_to_file e.sess_id) [
    | none ↦ some (log_internal s (unregistered e.sess_id), false)
    | some node ↦ ensure_open fuel s e.sess_id e.sess_id >>= λ s1.
        find_node s1.sess_to_file e.sess_id >>= λ n. some (
          bare_write s1 e.sess_id n
              (if n.first_write then codes "[\n" ++ to_json e else codes ",\n" ++ to_json e),
          true,
        )
  ]

  -- `add_session`; the path of the file is made outside.
  unfoldable pub add_session : ℕ → LogFileSink → SessionId → Bytes → Option (LogFileSink × Bool)
  unfolding write
  add_session fuel s id path =
      write fuel (record s { sess_to_file = emplaced s.sess_to_file id (create_sink_node path) })
        (added id)

  -- The loop of `shutdown`, over the sessions in some order.
  unfoldable pub close_all : ℕ → LogFileSink → List SessionId → Option LogFileSink
  unfolding close_file
  close_all fuel s [] = some s
  close_all fuel s (id ∷ ids) = close_file fuel s id >>= λ s1. close_all fuel s1 ids

  unfoldable pub shutdown : ℕ → LogFileSink → Option LogFileSink
  unfolding close_all
  shutdown fuel s = close_all fuel s (map (λ e. e.0) s.sess_to_file) >>= λ s1.
      some (record s1 { sess_to_file = []; lru_cache = []; currently_open_files = 0 })
