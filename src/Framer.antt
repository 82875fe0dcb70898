-- ===== src/Framer.antt =====
-- include/fix/core/Framer.hpp and src/Framer.cpp: the bytes of a connection, cut into messages.
pub mod Frames
pub mod Queued
pub mod Stream
pub mod Append
pub mod Delivery
pub mod Total
mod Tests
use fix_engine.Prelude.{
  ℕ, zero, suc, ◌+◌, ◌-◌, ◌*◌, ◌^◌, Bool, true, false, not, ◌||◌, List, [], ◌∷◌, Bytes, Option,
  none, some, ltb, leb, ◌==◌, if◌then◌else◌, ◌>>=◌, length, take, drop, get_elem?,
}
use fix_engine.Chars.{codes, soh, find, find_str, substr, starts_with}
use fix_engine.Parser.{whole_number}
use fix_engine.LinearBuffer
use fix_engine.LinearBuffer.{LinearBuffer, readable, readable_rel_to_abs, abs_to_readable_rel}
use fix_engine.Ring
use fix_engine.Ring.{Ring, reject}

pub data FramerContextState : Type 0 where
  finding_begin reading_body complete : FramerContextState

pub data FramerParseResult : Type 0 where
  queued_message progress_no_msg need_more_data : FramerParseResult

pub record MessageWindow : Type 0 where
  pub begin : ℕ
  pub end : ℕ

pub record FramerContext : Type 0 where
  pub begin : ℕ
  pub end : ℕ
  pub body_len : ℕ
  pub state : FramerContextState

abbrev pub empty_context : FramerContext
empty_context = record { begin = 0; end = 0; body_len = 0; state = finding_begin }

pub record Framer : Type 0 where
  pub current_context : FramerContext
  pub buffer : LinearBuffer
  pub completed_messages : Ring MessageWindow
  pub scan_abs : ℕ

abbrev pub no_window : MessageWindow
no_window = record { begin = 0; end = 0 }

abbrev pub new_framer : Framer
new_framer = record {
  current_context = empty_context;
  buffer = LinearBuffer.new_buffer;
  completed_messages = Ring.new_ring 1024 no_window;
  scan_abs = 0;
}

abbrev pub fix_first_field : Bytes
fix_first_field = codes "8=FIX.4.4\u{1}"

abbrev pub max_message_size : ℕ
max_message_size = 1024 * 1024

abbrev pub has_message : Framer → Bool
has_message f = ltb 0 f.completed_messages.size

-- What a parse gives; `none` is a violated assert.
abbrev pub Parsed : Type 0
Parsed = Option (Framer × FramerParseResult)

abbrev more_data : Framer → Parsed
more_data f = some (f, need_more_data)

-- Malformed: the search goes on one byte behind the begin found.
unfoldable pub resync : Framer → Parsed
resync f = some (
  record f { scan_abs = f.current_context.begin + 1; current_context = empty_context },
  progress_no_msg,
)

-- The message of the context is complete.
unfoldable pub queue_message : Framer → Parsed
queue_message f =
    let window : MessageWindow = record {
      begin = f.current_context.begin;
      end = f.current_context.end;
    } in
    some (
      record f {
        scan_abs = f.current_context.end;
        completed_messages = (Ring.push reject 0 no_window f.completed_messages window).0;
        current_context = empty_context;
      },
      queued_message,
    )

-- Behind the length of the body: where the message ends, and whether it is all there.
unfoldable pub read_end : Framer → ℕ → ℕ → Parsed
unfolding queue_message
read_end f body_end_pos body_len =
    let end = body_end_pos + 1 + body_len + 7 in
    let g = record f {
      current_context = record (f.current_context) {
        body_len = body_len;
        state = reading_body;
        end = readable_rel_to_abs f.buffer end;
      };
    } in
    if ltb (length (readable f.buffer)) end then more_data g else queue_message g

-- The length of the body, from `body_start` to the SOH.
unfoldable pub read_length : Framer → ℕ → ℕ → Parsed
unfolding resync read_end
read_length f body_start body_end_pos =
    elim (whole_number (2 ^ 64)
      (substr (readable f.buffer) body_start (body_end_pos - body_start))) [
        | none ↦ resync f
        | some body_len ↦
            if ltb max_message_size body_len then resync f else read_end f body_end_pos body_len
      ]

-- Behind the first field, which starts at `begin_pos`.
unfoldable pub read_header : Framer → ℕ → Parsed
unfolding resync read_length
read_header f begin_pos =
    let view = readable f.buffer in
    let body_start = begin_pos + length fix_first_field in
    if ltb (length view) (body_start + 2)
    then more_data f
    else if not (starts_with (codes "9=") (drop body_start view))
    then resync f
    else elim (find soh view (body_start + 2)) [
      | none ↦ more_data f
      | some body_end_pos ↦ read_length f (body_start + 2) body_end_pos
    ]

-- No message begins in what is readable.
unfoldable pub no_begin : Framer → Parsed
no_begin f =
    let size = length (readable f.buffer) in
    let k = length fix_first_field in
    let keep = if ltb size (k - 1) then size else k - 1 in
    if Ring.empty f.completed_messages
    then (LinearBuffer.discard_prefix f.buffer (size - keep) >>= λ b.
        more_data (record f { buffer = b; scan_abs = readable_rel_to_abs b 0 }))
    else more_data f

unfoldable pub find_begin : Framer → ℕ → Parsed
unfolding no_begin read_header
find_begin f relative_start = elim (find_str fix_first_field (readable f.buffer) relative_start) [
  | none ↦ no_begin f
  | some begin_pos ↦
      let begin = readable_rel_to_abs f.buffer begin_pos in
      read_header
        (record f {
          current_context = record (f.current_context) { begin = begin };
          scan_abs = begin;
        })
        begin_pos
]

unfoldable pub read_body : Framer → Parsed
unfolding queue_message
read_body f =
    if ltb (readable_rel_to_abs f.buffer (length (readable f.buffer))) f.current_context.end
    then more_data f
    else queue_message f

-- The search starts among the readable bytes.
unfoldable pub clamp_scan : Framer → Framer
clamp_scan f =
    let readable_begin_abs = readable_rel_to_abs f.buffer 0 in
    if ltb f.scan_abs readable_begin_abs then record f { scan_abs = readable_begin_abs } else f

unfoldable pub parse_from : Framer → ℕ → Parsed
unfolding find_begin read_body
parse_from f relative_start =
    if leb (length (readable f.buffer)) relative_start
    then more_data f
    else elim (f.current_context.state) [
      | finding_begin ↦ find_begin f relative_start
      | reading_body ↦ read_body f
      | complete ↦ read_body f
    ]

unfoldable pub parse_buffer : Framer → Parsed
unfolding clamp_scan parse_from
parse_buffer f =
    let g = clamp_scan f in abs_to_readable_rel g.buffer g.scan_abs >>= λ start. parse_from g start

-- The loop of `append`.
unfoldable pub parse_all : ℕ → Framer → Option Framer
unfolding parse_buffer
parse_all zero f = some f
parse_all (suc fuel) f =
    let round = parse_buffer f >>= λ parsed. elim (parsed.1) [
      | need_more_data ↦ some (parsed.0)
      | progress_no_msg ↦ parse_all fuel (parsed.0)
      | queued_message ↦ parse_all fuel (parsed.0)
    ] in
    if Ring.full f.completed_messages then some f else round

unfoldable pub append : Framer → Bytes → Option Framer
unfolding parse_all
append f bytes =
    let b = LinearBuffer.push f.buffer bytes in
    parse_all (length (readable b) + 1) (record f { buffer = b })

unfoldable pub consume_message : Framer → Option Framer
consume_message f = do
  earliest_window ← Ring.front f.completed_messages
  rel_end ← abs_to_readable_rel f.buffer earliest_window.end
  b ← LinearBuffer.discard_prefix f.buffer rel_end
  rest ← Ring.pop_front f.completed_messages
  some (record f { buffer = b; completed_messages = rest })

unfoldable pub get_message : Framer → Option Bytes
get_message f = do
  earliest_window ← Ring.front f.completed_messages
  rel_begin ← abs_to_readable_rel f.buffer earliest_window.begin
  rel_end ← abs_to_readable_rel f.buffer earliest_window.end
  if ltb (length (readable f.buffer)) rel_end || ltb rel_end rel_begin
      then none
      else some (substr (readable f.buffer) rel_begin (rel_end - rel_begin))

unfoldable pub reset : Framer → Framer
reset f = record {
  current_context = empty_context;
  buffer = LinearBuffer.reset f.buffer;
  completed_messages = Ring.clear f.completed_messages;
  scan_abs = 0;
}
