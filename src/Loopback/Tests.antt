-- ===== src/Loopback/Tests.antt =====
-- The law of the channel at a read that pends, and one of a part of what arrived.
use fix_engine.Prelude.{[], ◌∷◌}
use fix_engine.Chars.{codes}
use fix_engine.Loopback.{ErrorCodes, new_channel, use_all, reads, gets, disconnects}
use fix_engine.Loopback.Bytewise.{IsWhole, use_all-IsWhole}

abbrev linux : ErrorCodes
linux = record { operation_aborted = 125; broken_pipe = 32 }

use_all-IsWhole_example : IsWhole (
    use_all
      (new_channel linux)
      (reads 4 ∷ gets (codes "8=FIX.4.4") ∷ reads 2 ∷ disconnects 104 ∷ []))
use_all-IsWhole_example =
    use_all-IsWhole linux (reads 4 ∷ gets (codes "8=FIX.4.4") ∷ reads 2 ∷ disconnects 104 ∷ [])
