-- ===== src/Framer/Queued.antt =====
-- src/Framer.cpp, `parse_buffer`: one round over a whole message, from where the search stands.
use fix_engine.Prelude.{
  ℕ, ◌+◌, ◌-◌, ◌≤◌, ◌<◌, ◌≡◌, refl, sym, ◌∙◌, ap, subst, Bool, true, false, List, [], ◌∷◌, ◌++◌,
  Bytes, some, ltb, leb, if_no, ◌>>=◌, length, drop, arith,
}
use fix_engine.Chars.{find_str, index_of_str, starts_with}
use fix_engine.Chars.Search.{drop-append_length}
use fix_engine.LinearBuffer.{LinearBuffer, readable, readable_rel_to_abs, abs_to_readable_rel}
use fix_engine.Ring
use fix_engine.Ring.{reject}
use fix_engine.Ring.Contents.{IsValid, contents, put-IsValid, put-contents}
use fix_engine.Ring.Queue.{push-put, capacity-put}
use fix_engine.Framer.{
  Framer, MessageWindow, Parsed, FramerContextState, reading_body, complete, read_body,
  finding_begin, fix_first_field, max_message_size, no_window, queue_message, find_begin,
  parse_from, clamp_scan, parse_buffer, queued_message,
}
use fix_engine.Framer.Frames.{wire_frame, framed, read_header_lem, length-view, length-frame}

-- The search stands at an offset of the readable bytes, outside any message.
pub record SearchesAt (at : ℕ) (f : Framer) : Type 0 where
  pub finding : f.current_context.state ≡ finding_begin
  pub scans : f.scan_abs ≡ readable_rel_to_abs f.buffer at

-- The positions of a message of this size at an offset.
unfoldable pub window : LinearBuffer → ℕ → ℕ → MessageWindow
window b at size = record {
  begin = readable_rel_to_abs b at;
  end = readable_rel_to_abs b (at + size);
}

-- A search among the readable bytes, or right behind them, starts where it stands.
module _ (f : Framer) (at : ℕ) where
  clamped : f.scan_abs ≡ readable_rel_to_abs f.buffer at → clamp_scan f ≡ f
  unfolding clamp_scan
  clamped scans =
      if_no (ltb f.scan_abs (readable_rel_to_abs f.buffer 0)) _ _ (ground (arith, scans))

  start :
      f.scan_abs ≡ readable_rel_to_abs f.buffer at
      → abs_to_readable_rel f.buffer f.scan_abs ≡ some at
  unfolding abs_to_readable_rel
  start scans =
      if_no (ltb f.scan_abs f.buffer.base_abs) _ _ (ground (arith, scans))
      ∙ if_no (ltb (f.scan_abs - f.buffer.base_abs) f.buffer.head) _ _ (ground (arith, scans))
      ∙ ap some (omega (arith, scans))

  pub round_at : SearchesAt at f → parse_buffer f ≡ parse_from f at
  unfolding parse_buffer
  round_at s =
      ap (λ g. abs_to_readable_rel g.buffer g.scan_abs >>= λ k. parse_from g k) (clamped s.scans)
      ∙ ap (λ o. o >>= λ k. parse_from f k) (start s.scans)

module _ (f : Framer) (n : ℕ) (pre body more : Bytes) (small : n ≤ max_message_size)
    (size : length body ≡ n + 7) (e : readable f.buffer ≡ pre ++ (wire_frame n body ++ more)) where
  is_finding : FramerContextState → Bool
  is_finding finding_begin = true
  is_finding _ = false

  begun : Framer
  begun = record f {
    current_context = record (f.current_context) {
      begin = readable_rel_to_abs f.buffer (length pre);
    };
    scan_abs = readable_rel_to_abs f.buffer (length pre);
  }

  done : Parsed
  unfolding begun
  done = framed begun n pre body more small size e

  first_field : find_str fix_first_field (readable f.buffer) (length pre) ≡ some (length pre)
  unfolding index_of_str starts_with wire_frame
  first_field =
      let behind : drop (length pre) (readable f.buffer) ≡ wire_frame n body ++ more =
        ap (drop (length pre)) e ∙ drop-append_length pre (wire_frame n body ++ more) in
      rw behind (ap some (omega arith))

  find_begin_lem : find_begin f (length pre) ≡ done
  unfolding find_begin done begun
  find_begin_lem =
      rw (find_begin, first_field)
        (read_header_lem begun n pre body more small size e (length pre) refl)

  parse_from_lem : f.current_context.state ≡ finding_begin → parse_from f (length pre) ≡ done
  unfolding parse_from is_finding
  parse_from_lem finding =
      let inside : leb (length (readable f.buffer)) (length pre) ≡ false = ground (
        arith,
        length-view f n pre body more small size e,
        length-frame f n pre body more small size e,
      ) in
      if_no _ _ _ inside ∙ by_state f.current_context.state finding
    where
      by_state :
          (state : FramerContextState)
          → state ≡ finding_begin
          → (elim state as (λ _. Parsed) [
            | finding_begin ↦ find_begin f (length pre)
            | reading_body ↦ read_body f
            | complete ↦ read_body f
          ])
            ≡ done
      by_state finding_begin same = find_begin_lem
      by_state reading_body same = ground (arith, ap is_finding same)
      by_state complete same = ground (arith, ap is_finding same)

  parse_buffer_lem : SearchesAt (length pre) f → parse_buffer f ≡ done
  parse_buffer_lem s = round_at f (length pre) s ∙ parse_from_lem s.finding

-- What is left of a round that queued these messages: the buffer as it was, the search at `at`.
pub record Queued (f : Framer) (windows : List MessageWindow) (at : ℕ) (g : Framer) : Type 0 where
  pub same_buffer : g.buffer ≡ f.buffer
  pub searches : SearchesAt at g
  pub ring_valid : IsValid g.completed_messages
  pub same_capacity : g.completed_messages.capacity ≡ f.completed_messages.capacity
  pub queued : contents g.completed_messages ≡ windows

module _ (f : Framer) (n : ℕ) (pre body more : Bytes) (small : n ≤ max_message_size)
    (size : length body ≡ n + 7) (e : readable f.buffer ≡ pre ++ (wire_frame n body ++ more)) where
  -- Where the search of a framer with room stands at a message of at most 1 MiB that is all there,
  -- parse_buffer queues the positions of exactly this message and goes on behind it.
  pub parse_buffer_queues :
      IsValid f.completed_messages
      → f.completed_messages.size < f.completed_messages.capacity
      → SearchesAt (length pre) f
      → (g : Framer) × ((parse_buffer f ≡ some (g, queued_message))
          × Queued f
              (contents f.completed_messages
                ++ window f.buffer (length pre) (length (wire_frame n body)) ∷ [])
              (length pre + length (wire_frame n body))
              g)
  unfolding done begun framed queue_message window
  parse_buffer_queues v room s =
      let w = window f.buffer (length pre) (length (wire_frame n body)) in
      let r = f.completed_messages in
      let pushed : (Ring.push reject 0 no_window r w).0 ≡ Ring.put r w =
        ap (λ p. p.0) (push-put reject 0 no_window r w room) in
      (
        _,
        (
          parse_buffer_lem f n pre body more small size e s,
          record {
            same_buffer = refl;
            searches = record { finding = refl; scans = refl };
            ring_valid = subst IsValid (sym pushed) (put-IsValid r v w room);
            same_capacity = ap (λ q. q.capacity) pushed ∙ capacity-put r w;
            queued = ap contents pushed ∙ put-contents r v w room;
          },
        ),
      )
