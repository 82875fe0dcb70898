-- ===== src/WireWriter/Tests.antt =====
-- A message in the first block of a new arena.
use fix_engine.Prelude.{[]}
use fix_engine.Chars.{codes}
use fix_engine.Arena.{new_arena}
use fix_engine.Arena.Leases.{start, Reach-IsValid}
use fix_engine.WireWriter.{from_arena}
use fix_engine.WireWriter.View.{Carries, from_arena-Carries}

from_arena-Carries_example :
    Carries new_arena []
      (codes "8=FIX.4.4")
      (from_arena new_arena (codes "8=FIX.4.4")).0
      (from_arena new_arena (codes "8=FIX.4.4")).1
from_arena-Carries_example =
    from_arena-Carries new_arena [] (codes "8=FIX.4.4") (Reach-IsValid _ start)
