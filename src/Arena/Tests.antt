-- ===== src/Arena/Tests.antt =====
-- The laws of the arena with one block taken.
use fix_engine.Prelude.{[]}
use fix_engine.Arena.{new_arena, allocate}
use fix_engine.Arena.Leases.{IsValid, Leases, start, later, takes, leased, Reach-IsValid}

-- One block taken.
abbrev one_taken : Leases
one_taken = record {
  arena = (allocate new_arena 100).0;
  held = leased (allocate new_arena 100).1 [];
}

Reach-IsValid_example : IsValid one_taken.arena one_taken.held
Reach-IsValid_example = Reach-IsValid one_taken (later start (takes 100))
