-- ===== src/Schema/Lookup.antt =====
-- include/fix/schema/Registry.hpp: the binary search of `get` against a search of the whole table.
use fix_engine.Prelude.{
  ℕ, zero, suc, ◌≡◌, refl, sym, ◌∙◌, subst, false, List, [], ◌∷◌, Bytes, Option, none, some,
  if◌then◌else◌, Bool-cases, inl, inr, ◌⊎◌, get_elem?, length,
}
use fix_engine.Chars.{same}
use fix_engine.Chars.Search.{same_lem}
use fix_engine.Schema.Registry.{
  MessageSchema, message_schemas, sort_indices, sorted_indices, insert_index, key_at, less,
  entry_at, lower_bound, mid_key, get,
}

-- The first schema of a table with this type.
unfoldable pub find_schema : Bytes → List MessageSchema → Option MessageSchema
find_schema t [] = none
find_schema t (s ∷ ss) = if same s.msg_type t then some s else find_schema t ss

-- No schema of the table has this type.
Absent : Bytes → List MessageSchema → Type 0
Absent t [] = Unit {0}
Absent t (s ∷ ss) = (same s.msg_type t ≡ false) × Absent t ss

-- The answer of `get` at an entry.
answer : Bytes → Option MessageSchema → Option MessageSchema
answer t o = elim o [ none ↦ none | some s ↦ if same s.msg_type t then some s else none ]

Absent-at :
    (t : Bytes) (ss : List MessageSchema) (i : ℕ) → Absent t ss → answer t (get_elem? ss i) ≡ none
unfolding Absent answer
Absent-at t [] i h = refl
Absent-at t (s ∷ ss) zero h = rw (h.0) refl
Absent-at t (s ∷ ss) (suc i) h = Absent-at t ss i h.1

Absent-find : (t : Bytes) (ss : List MessageSchema) → Absent t ss → find_schema t ss ≡ none
unfolding Absent find_schema
Absent-find t [] h = refl
Absent-find t (s ∷ ss) h = rw (h.0) (Absent-find t ss h.1)

Absent-entry : (t : Bytes) (pos : ℕ) → Absent t message_schemas → answer t (entry_at pos) ≡ none
unfolding entry_at answer
Absent-entry t pos h = by_index (get_elem? sorted_indices pos)
  where
    by_index :
        (o : Option ℕ)
        → answer t (elim o as (λ _. Option MessageSchema) [
          | none ↦ none
          | some idx ↦ get_elem? message_schemas idx
        ])
          ≡ none
    by_index none = refl
    by_index (some idx) = Absent-at t message_schemas idx h

-- The schema of a type that the table has, by computation.
Hits : List MessageSchema → Type 0
Hits [] = Unit {0}
Hits (s ∷ ss) = (get s.msg_type ≡ find_schema s.msg_type message_schemas) × Hits ss

all_hit : Hits message_schemas
unfolding Hits get find_schema same entry_at sorted_indices sort_indices insert_index less key_at
    lower_bound mid_key
all_hit = (refl, (refl, (refl, (refl, (refl, (refl, (refl, (refl, tt))))))))

-- The type is one of the table's, or none has it.
search :
    (t : Bytes) (ss : List MessageSchema)
    → Hits ss
    → (get t ≡ find_schema t message_schemas) ⊎ Absent t ss
unfolding Hits Absent
search t [] h = inr tt
search t (s ∷ ss) h = elim (Bool-cases (same s.msg_type t)) [
  | inl hit ↦
      inl (subst (λ x. get x ≡ find_schema x message_schemas) (same_lem s.msg_type t hit) h.0)
  | inr miss ↦ elim (search t ss h.1) [ inl found ↦ inl found | inr absent ↦ inr (miss, absent) ]
]

-- For every message type, the binary search in the sorted table gives what a search of the table from
-- its start gives: the schema of the type, or none.
pub get-find_schema : (t : Bytes) → get t ≡ find_schema t message_schemas
unfolding get answer
get-find_schema t = elim (search t message_schemas all_hit) [
  | inl found ↦ found
  | inr absent ↦
      Absent-entry t (lower_bound (length message_schemas) t 0 (length message_schemas)) absent
      ∙ sym (Absent-find t message_schemas absent)
]
