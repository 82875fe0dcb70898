-- ===== src/LinearBuffer/Tests.antt =====
-- A buffer of eight bytes that has to move what it holds.
use fix_engine.Prelude.{◌+◌, ◌≡◌, ◌++◌, some, arith, drop}
use fix_engine.Chars.{codes}
use fix_engine.LinearBuffer.{LinearBuffer, new_buffer, readable, push, discard_prefix}
use fix_engine.LinearBuffer.View.{IsValid, Shows, begin, push_lem, discard_prefix_lem}

-- Five of the eight bytes are read; the others are "abc".
abbrev partly_read : LinearBuffer
partly_read = record new_buffer { capacity = 8; memory = λ i. i + 92; head = 5; tail = 8 }

partly_read-IsValid : IsValid partly_read
partly_read-IsValid = record { in_order = omega arith; inside = omega arith }

push_lem_example :
    Shows (readable partly_read ++ codes "de") (begin partly_read) (push partly_read (codes "de"))
push_lem_example = push_lem partly_read (codes "de") partly_read-IsValid

discard_prefix_lem_example :
    (c : LinearBuffer) × ((discard_prefix partly_read 2 ≡ some c)
      × Shows (drop 2 (readable partly_read)) (begin partly_read + 2) c)
discard_prefix_lem_example = discard_prefix_lem partly_read 2 partly_read-IsValid (omega arith)
