-- ===== src/MpscRing/Tests.antt =====
-- The laws of the ring after one push that went through, and after 1025 tries to push into it.
use fix_engine.Prelude.{ℕ, zero, suc, ◌+◌, ◌≤◌, ◌≡◌, ◌≢◌, refl, true}
use fix_engine.MpscRing.{cell, draw_ticket, is_turn, may_pop}
use fix_engine.MpscRing.Threads
use fix_engine.MpscRing.Invariant.{done, begun, busy, handed, firsts}
use fix_engine.MpscRing.Order.{popped-firsts, cells_apart, next_in_line, failed_blocks}

-- Ticket n pushes the number n.
abbrev numbers : ℕ → ℕ
numbers n = n

-- So many threads have drawn their tickets.
abbrev crowd : ℕ → Threads.Threads ℕ
crowd zero = Threads.start 0
crowd (suc n) =
    let s = crowd n in
    Threads.set_phase (record s { ring = (draw_ticket s.ring).0 }) (draw_ticket s.ring).1
      Threads.waiting

crowd_reached : (n : ℕ) → Threads.Steps numbers (Threads.start 0) (crowd n)
crowd_reached zero = Threads.stays
crowd_reached (suc n) = Threads.later (crowd_reached n) Threads.draws

-- The first of three has its turn.
abbrev one_turn : Threads.Threads ℕ
one_turn = Threads.set_phase (crowd 3) 0 Threads.writing

one_turn_reached : Threads.Steps numbers (Threads.start 0) one_turn
unfolding is_turn
one_turn_reached = Threads.later (crowd_reached 3) (Threads.goes_on 0 refl refl)

-- The last of 1025 has given up.
abbrev full : Threads.Threads ℕ
full = Threads.set_phase (crowd 1025) 1024 Threads.failed

full_reached : Threads.Steps numbers (Threads.start 0) full
unfolding is_turn
full_reached = Threads.later (crowd_reached 1025) (Threads.gives_up 1024 refl refl)

popped-firsts_example : (one_turn.popped ≡ firsts numbers (0 + 0)) × (0 + 0 ≤ 3)
unfolding handed
popped-firsts_example = popped-firsts numbers 0 one_turn one_turn_reached

cells_apart_example :
    ((u : ℕ) → begun (one_turn.phase u) ≡ 1 → done (one_turn.phase u) ≡ 0 → 0 ≢ u → cell 0 ≢ cell u)
    × (busy one_turn.consumer ≡ 1 → cell 0 ≢ cell 0)
unfolding begun done
cells_apart_example = cells_apart numbers 0 one_turn one_turn_reached 0 refl refl

next_in_line_example :
    (done (one_turn.phase 0) ≡ 0 → is_turn one_turn.ring 0 ≡ true)
    × (done (one_turn.phase 0) ≡ 1 → may_pop one_turn.ring ≡ true)
next_in_line_example = next_in_line numbers 0 one_turn one_turn_reached

failed_blocks_example : full.ring.tail + handed full.consumer ≤ 1024
failed_blocks_example = failed_blocks numbers 0 full full full_reached 1024 refl Threads.stays
