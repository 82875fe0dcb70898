-- ===== src/Schema/Tests.antt =====
-- The registry at a type that it has.
use fix_engine.Prelude.{◌≡◌}
use fix_engine.Chars.{codes}
use fix_engine.Schema.Registry.{get, message_schemas}
use fix_engine.Schema.Lookup.{find_schema, get-find_schema}

get-find_schema_example : get (codes "2") ≡ find_schema (codes "2") message_schemas
get-find_schema_example = get-find_schema (codes "2")
