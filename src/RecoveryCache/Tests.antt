-- ===== src/RecoveryCache/Tests.antt =====
-- The laws of the recovery cache at a cache that begins at 2 and takes message 3.
use fix_engine.Prelude.{
  ℕ, ◌+◌, ◌≡◌, refl, true, false, ◌&&◌, [], ◌∷◌, Bytes, none, some, arith, ◌==◌, if◌then◌else◌, ltb,
  leb,
}
use fix_engine.RecoveryCache.{
  RecoveryCache, init, start, insert, consume, contains, in_window, get, empty, occupy,
  append_message, make_room,
}
use fix_engine.RecoveryCache.Invariant.{IsValid, inserted, inserted-IsValid, start-IsValid}
use fix_engine.RecoveryCache.Map.{insert_lem, consume_lem, start_lem}

abbrev started : RecoveryCache
started = start init 2

abbrev three : Bytes
three = 51 ∷ 1 ∷ []

abbrev holding : RecoveryCache
holding = inserted started 3 three

started-in_window : in_window started 3 ≡ true
unfolding in_window start
started-in_window = refl

started-contains : contains started 3 ≡ false
unfolding contains start
started-contains = refl

holding-contains : contains holding 3 ≡ true
unfolding contains occupy append_message make_room start init
holding-contains = refl

insert_example :
    (c' : RecoveryCache) × (insert started 3 three ≡ some c')
    × IsValid c'
    × ((k : ℕ) → get c' k ≡ (if k == 3 then some three else get started k))
insert_example =
    insert_lem started 3 three (start-IsValid init 2) started-in_window started-contains
      (omega arith)

consume_example :
    (c' : RecoveryCache) × (consume holding 3 ≡ some c')
    × IsValid c'
    × ((k : ℕ) → get c' k ≡ (if k == 3 then none else get holding k))
consume_example =
    consume_lem holding 3
      (inserted-IsValid started 3 three (start-IsValid init 2) started-in_window started-contains
        (omega arith))
      holding-contains

start_example :
    IsValid (start holding 7)
    × (get (start holding 7) 9 ≡ none)
    × (in_window (start holding 7) 9 ≡ leb 7 9 && ltb 9 (7 + 512))
    × (empty (start holding 7) ≡ true)
start_example = start_lem holding 7 9
