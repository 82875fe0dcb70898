-- ===== src/Framer/Total.antt =====
-- src/Framer.cpp: `append` on any bytes, and the asserts of the buffer that it meets.
use fix_engine.Prelude.{
  ℕ, zero, suc, ◌+◌, ◌-◌, ◌^◌, ◌≤◌, ◌≡◌, refl, ◌∙◌, not, Bytes, Option, none, some, if◌then◌else◌,
  if_no, ltb, leb, ◌>>=◌, length, drop, arith,
}
use fix_engine.Chars.{codes, soh, find, find_str, substr, starts_with}
use fix_engine.Parser.{whole_number}
use fix_engine.LinearBuffer
use fix_engine.LinearBuffer.{
  LinearBuffer, readable, readable_size, readable_rel_to_abs, abs_to_readable_rel,
}
use fix_engine.LinearBuffer.View
use fix_engine.LinearBuffer.View.{Shows, begin, push_lem, discard_prefix_lem}
use fix_engine.Ring
use fix_engine.Prelude.{if_either, option_either}
use fix_engine.Framer.{
  Framer, FramerContextState, finding_begin, reading_body, complete, Parsed, need_more_data,
  progress_no_msg, queued_message, fix_first_field, max_message_size, resync, queue_message,
  read_end, read_length, read_header, no_begin, find_begin, read_body, clamp_scan, parse_from,
  parse_buffer, parse_all, append,
}
use fix_engine.Framer.Delivery.{length-readable}

-- The outcome is there, with a buffer in order.
Runs : Parsed → Type 0
Runs none = ⊥
Runs (some (f, result)) = View.IsValid f.buffer

pub RunsTo : Option Framer → Type 0
RunsTo o = (g : Framer) × ((o ≡ some g) × View.IsValid g.buffer)

module _ (f : Framer) (v : View.IsValid f.buffer) where
  read_end-Runs : (p n : ℕ) → Runs (read_end f p n)
  unfolding read_end queue_message Runs
  read_end-Runs p n =
      if_either Runs (ltb (length (readable f.buffer)) (p + 1 + n + 7)) _ _ (λ _. v) λ _. v

  read_length-Runs : (from to : ℕ) → Runs (read_length f from to)
  unfolding read_length resync Runs
  read_length-Runs from to =
      option_either Runs (whole_number (2 ^ 64) (substr (readable f.buffer) from (to - from))) _ _
        (λ _. v) λ n _. if_either Runs (ltb max_message_size n) _ _ (λ _. v) λ _. read_end-Runs to n

  read_header-Runs : (at : ℕ) → Runs (read_header f at)
  unfolding read_header resync Runs
  read_header-Runs at =
      let view = readable f.buffer in
      if_either Runs (ltb (length view) (at + 10 + 2)) _ _ (λ _. v)
        λ _.
          if_either Runs (not (starts_with (codes "9=") (drop (at + 10) view))) _ _ (λ _. v)
            λ _.
              option_either Runs (find soh view (at + 10 + 2)) _ _ (λ _. v)
                λ to _. read_length-Runs (at + 10 + 2) to

  no_begin-Runs : Runs (no_begin f)
  unfolding no_begin Runs
  no_begin-Runs =
      let size = length (readable f.buffer) in
      let keep = if ltb size 9 then size else 9 in
      let (b, (discards, shows)) =
        discard_prefix_lem f.buffer (size - keep) v (omega (arith, length-readable f.buffer)) in
      if_either Runs (Ring.empty f.completed_messages) _ _ (λ _. rw discards shows.valid) λ _. v

module _ (f : Framer) (v : View.IsValid f.buffer) where
  find_begin-Runs : (at : ℕ) → Runs (find_begin f at)
  unfolding find_begin
  find_begin-Runs at =
      option_either Runs (find_str fix_first_field (readable f.buffer) at) _ _
        (λ _. no_begin-Runs f v) λ k _. read_header-Runs _ v k

  read_body-Runs : Runs (read_body f)
  unfolding read_body queue_message Runs
  read_body-Runs =
      if_either Runs
        (ltb (readable_rel_to_abs f.buffer (length (readable f.buffer))) f.current_context.end) _ _
        (λ _. v) λ _. v

  parse_from-Runs : (at : ℕ) → Runs (parse_from f at)
  unfolding parse_from Runs
  parse_from-Runs at =
      if_either Runs (leb (length (readable f.buffer)) at) _ _ (λ _. v)
        λ _. by_state f.current_context.state
    where
      by_state :
          (state : FramerContextState)
          → Runs (elim state as (λ _. Parsed) [
            | finding_begin ↦ find_begin f at
            | reading_body ↦ read_body f
            | complete ↦ read_body f
          ])
      by_state finding_begin = find_begin-Runs at
      by_state reading_body = read_body-Runs
      by_state complete = read_body-Runs

-- A search that does not stand in front of the readable bytes stands at one of them, or behind.
rel_from :
    (b : LinearBuffer) (abs : ℕ)
    → readable_rel_to_abs b 0 ≤ abs
    → abs_to_readable_rel b abs ≡ some (abs - b.base_abs - b.head)
unfolding abs_to_readable_rel
rel_from b abs behind =
    if_no (ltb abs b.base_abs) _ _ (ground (arith, behind))
    ∙ if_no (ltb (abs - b.base_abs) b.head) _ _ (ground (arith, behind))

from_scan-Runs :
    (f : Framer)
    → View.IsValid f.buffer
    → readable_rel_to_abs f.buffer 0 ≤ f.scan_abs
    → Runs (abs_to_readable_rel f.buffer f.scan_abs >>= λ at. parse_from f at)
from_scan-Runs f v behind = rw (rel_from f.buffer f.scan_abs behind) (parse_from-Runs f v _)

parse_buffer-Runs : (f : Framer) → View.IsValid f.buffer → Runs (parse_buffer f)
unfolding parse_buffer clamp_scan
parse_buffer-Runs f v =
    let first = readable_rel_to_abs f.buffer 0 in
    if_either (λ g. Runs (abs_to_readable_rel g.buffer g.scan_abs >>= λ at. parse_from g at))
      (ltb f.scan_abs first) (record f { scan_abs = first }) f
      (λ _. from_scan-Runs (record f { scan_abs = first }) v (omega arith))
      λ over. from_scan-Runs f v (ground (arith, over))

parse_all-RunsTo : (fuel : ℕ) (f : Framer) → View.IsValid f.buffer → RunsTo (parse_all fuel f)
unfolding parse_all RunsTo Runs
parse_all-RunsTo zero f v = (f, (refl, v))
parse_all-RunsTo (suc fuel) f v =
    if_either RunsTo (Ring.full f.completed_messages) _ _ (λ _. (f, (refl, v)))
      λ _. by_round (λ g w. parse_all-RunsTo fuel g w) (parse_buffer f) (parse_buffer-Runs f v)
  where
    by_round :
        ((g : Framer) → View.IsValid g.buffer → RunsTo (parse_all fuel g))
        → (o : Parsed) → Runs o
        → RunsTo (
            o >>= λ parsed. elim (parsed.1) as (λ _. Option Framer) [
              | need_more_data ↦ some (parsed.0)
              | progress_no_msg ↦ parse_all fuel (parsed.0)
              | queued_message ↦ parse_all fuel (parsed.0)
            ])
    by_round more none w = absurd w
    by_round more (some (g, need_more_data)) w = (g, (refl, w))
    by_round more (some (g, progress_no_msg)) w = more g w
    by_round more (some (g, queued_message)) w = more g w

-- On a framer with its buffer in order the rounds of append meet no assert of the buffer that fails,
-- whatever bytes come and whatever it holds, and the buffer is in order again.
pub append-RunsTo : (f : Framer) (bytes : Bytes) → View.IsValid f.buffer → RunsTo (append f bytes)
unfolding append
append-RunsTo f bytes v =
    let b = LinearBuffer.push f.buffer bytes in
    parse_all-RunsTo (length (readable b) + 1) (record f { buffer = b })
      (push_lem f.buffer bytes v).valid
