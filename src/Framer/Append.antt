-- ===== src/Framer/Append.antt =====
-- src/Framer.cpp, `append`: what a read brings is framed, if it is whole messages.
use fix_engine.Prelude.{ℕ, ◌+◌, ◌≤◌, ap, List, [], ◌∷◌, Bytes, length, length-append, arith}
use fix_engine.LinearBuffer
use fix_engine.LinearBuffer.{LinearBuffer, readable, readable_rel_to_abs}
use fix_engine.LinearBuffer.View
use fix_engine.LinearBuffer.View.{Shows, begin, push_lem}
use fix_engine.Ring.Contents.{IsValid}
use fix_engine.Framer.{Framer, append}
use fix_engine.Framer.Frames.{wire_frame}
use fix_engine.Framer.Queued.{SearchesAt}
use fix_engine.Framer.Stream.{WireMessage, bytes_of, wire_all, Drained, parse_all_queues}

-- The framer with these bytes in its buffer.
abbrev pub filled : Framer → Bytes → Framer
filled f bytes = record f { buffer = LinearBuffer.push f.buffer bytes }

some_bytes : (ms : List WireMessage) → length ms ≤ length (wire_all ms)
unfolding wire_all wire_frame
some_bytes [] = omega arith
some_bytes (m ∷ ms) = omega (arith, length-append (bytes_of m) (wire_all ms), some_bytes ms)

still_at :
    (f : Framer) (bytes : Bytes) (at : ℕ)
    → View.IsValid f.buffer
    → SearchesAt at f
    → SearchesAt at (filled f bytes)
still_at f bytes at v s =
    let shows = push_lem f.buffer bytes v in
    record { finding = s.finding; scans = omega (arith, s.scans, shows.begins_at) }

-- A framer that has scanned all it holds and is inside no message takes whole messages of at most
-- 1 MiB: if its ring has room for them, append runs and queues the positions of exactly these messages,
-- in order.
pub append_queues :
    (f : Framer) (ms : List WireMessage)
    → View.IsValid f.buffer
    → SearchesAt (length (readable f.buffer)) f
    → IsValid f.completed_messages
    → f.completed_messages.size + length ms ≤ f.completed_messages.capacity
    → Drained (filled f (wire_all ms)) (length (readable f.buffer)) ms (append f (wire_all ms))
unfolding append
append_queues f ms v s r room =
    let shows = push_lem f.buffer (wire_all ms) v in
    parse_all_queues ms (length (readable (LinearBuffer.push f.buffer (wire_all ms))) + 1)
      (filled f (wire_all ms)) (readable f.buffer) shows.bytes_are
      (still_at f (wire_all ms) (length (readable f.buffer)) v s) r room
      (omega (
        arith,
        some_bytes ms,
        ap length shows.bytes_are,
        length-append (readable f.buffer) (wire_all ms),
      ))
