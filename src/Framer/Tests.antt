-- ===== src/Framer/Tests.antt =====
-- Two messages in one read, and a message queued.
use fix_engine.Prelude.{◌+◌, ◌≡◌, refl, List, [], ◌∷◌, arith, length, some}
use fix_engine.Prelude.Memory.{fresh, write, length-read, read-write_self}
use fix_engine.Chars.{codes}
use fix_engine.LinearBuffer.{readable, new_buffer}
use fix_engine.LinearBuffer.View.{Shows, begin}
use fix_engine.Ring
use fix_engine.Ring.Contents.{IsValid, contents, upto}
use fix_engine.Framer.{Framer, new_framer, append, no_window, get_message, consume_message}
use fix_engine.Framer.Queued.{SearchesAt, window}
use fix_engine.Framer.Stream.{WireMessage, wire_all, Drained}
use fix_engine.Framer.Delivery.{deliver_first}
use fix_engine.Framer.Append.{filled, append_queues}

abbrev short_message : WireMessage
short_message = record {
  body_len = 5;
  body = codes "35=0\u{1}10=163\u{1}";
  whole = refl;
  small = omega arith;
}

abbrev two_messages : List WireMessage
two_messages = short_message ∷ short_message ∷ []

new_framer-SearchesAt : SearchesAt (length (readable new_framer.buffer)) new_framer
unfolding readable
new_framer-SearchesAt = record { finding = refl; scans = omega (arith, length-read fresh 0 0) }

append_queues_example :
    Drained
      (filled new_framer (wire_all two_messages))
      (length (readable new_framer.buffer))
      two_messages
      (append new_framer (wire_all two_messages))
append_queues_example =
    append_queues new_framer two_messages (record { in_order = omega arith; inside = omega arith })
      new_framer-SearchesAt
      (record { head_below = omega arith; fits = omega arith; tail_at = refl }) (omega arith)

-- Three bytes are queued, and one is behind them.
abbrev holding : Framer
holding = record new_framer {
  buffer = record new_buffer { memory = write fresh 0 (codes "abcd"); tail = 4 };
  completed_messages = record (Ring.new_ring 1024 no_window) {
    tail = 1;
    size = 1;
    buffer = λ _. record { begin = 0; end = 3 };
  };
}

held : readable holding.buffer ≡ codes "abcd"
unfolding readable
held = read-write_self fresh 0 (codes "abcd")

deliver_first_example :
    (get_message holding ≡ some (codes "abc"))
    × ((g : Framer) × ((consume_message holding ≡ some g)
          × ((contents g.completed_messages ≡ [])
              × (IsValid g.completed_messages
                  × Shows (codes "d") (begin holding.buffer + 3) g.buffer))))
unfolding contents upto window
deliver_first_example =
    deliver_first holding [] (codes "abc") (codes "d") [] held
      (record { head_below = omega arith; fits = omega arith; tail_at = refl }) refl
      (record { in_order = omega arith; inside = omega arith })
