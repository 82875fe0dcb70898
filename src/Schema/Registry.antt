-- ===== src/Schema/Registry.antt =====
-- include/fix/schema/MessageSchema.hpp and include/fix/schema/Registry.hpp: the schema of a message by
-- its type, found by binary search in the sorted table.
use fix_engine.Prelude.{
  ℕ, zero, suc, ◌+◌, ◌-◌, ◌/◌, Bool, true, false, List, [], ◌∷◌, Bytes, Option, none, some, ltb,
  if◌then◌else◌, length, get_elem?,
}
use fix_engine.Chars.{codes, same}
use fix_engine.MessageFactory.{custom_type}
use fix_engine.Schema.{Fields}
use fix_engine.Schema.Tables.{
  logon_body, heartbeat_body, test_request_body, sequence_reset_body, logout_body,
  resend_request_body, reject_body, custom_body,
}

pub record MessageSchema : Type 0 where
  pub msg_type : Bytes
  pub body : Fields

abbrev schema : Bytes → Fields → MessageSchema
schema type body = record { msg_type = type; body = body }

abbrev pub message_schemas : List MessageSchema
message_schemas =
    schema (codes "A") logon_body
    ∷ schema (codes "0") heartbeat_body
    ∷ schema (codes "1") test_request_body
    ∷ schema (codes "4") sequence_reset_body
    ∷ schema (codes "5") logout_body
    ∷ schema (codes "2") resend_request_body
    ∷ schema (codes "3") reject_body
    ∷ schema custom_type custom_body
    ∷ []

-- operator< of two string views
unfoldable pub less : Bytes → Bytes → Bool
less xs [] = false
less [] (y ∷ ys) = true
less (x ∷ xs) (y ∷ ys) =
    let rest = less xs ys in if ltb x y then true else if ltb y x then false else rest

-- The key of an entry of the table.
unfoldable pub key_at : ℕ → Bytes
key_at idx = elim (get_elem? message_schemas idx) [ none ↦ [] | some s ↦ s.msg_type ]

-- `std::sort` of indices by their keys, which are distinct: what it gives is this insertion sort.
unfoldable pub insert_index : ℕ → List ℕ → List ℕ
insert_index i [] = i ∷ []
insert_index i (j ∷ js) =
    let later = j ∷ insert_index i js in if less (key_at j) (key_at i) then later else i ∷ j ∷ js

unfoldable pub sort_indices : List ℕ → List ℕ
sort_indices [] = []
sort_indices (i ∷ is) = insert_index i (sort_indices is)

-- `make_sorted_registry_indices`
unfoldable pub sorted_indices : List ℕ
sorted_indices = sort_indices (0 ∷ 1 ∷ 2 ∷ 3 ∷ 4 ∷ 5 ∷ 6 ∷ 7 ∷ [])

-- The entry at a position of the sorted table.
unfoldable pub entry_at : ℕ → Option MessageSchema
entry_at pos = elim (get_elem? sorted_indices pos) [
  | none ↦ none
  | some idx ↦ get_elem? message_schemas idx
]

unfoldable pub mid_key : ℕ → Bytes
mid_key mid = elim (entry_at mid) [ none ↦ [] | some s ↦ s.msg_type ]

-- The loop of `get`: each round halves the range, so its size is enough fuel.
unfoldable pub lower_bound : ℕ → Bytes → ℕ → ℕ → ℕ
lower_bound zero message_type left right = left
lower_bound (suc fuel) message_type left right =
    let mid = left + (right - left) / 2 in
    let above = lower_bound fuel message_type (mid + 1) right in
    let below = lower_bound fuel message_type left mid in
    if ltb left right then (if less (mid_key mid) message_type then above else below) else left

unfoldable pub get : Bytes → Option MessageSchema
get message_type =
    let left = lower_bound (length message_schemas) message_type 0 (length message_schemas) in
    elim (entry_at left) [
      | none ↦ none
      | some s ↦ if same s.msg_type message_type then some s else none
    ]
