-- ===== src/Framer/Frames.antt =====
-- src/Framer.cpp, `parse_buffer`: a whole message in the buffer is found as it is.
use fix_engine.Prelude.{
  ℕ, ◌+◌, ◌-◌, ◌^◌, ◌≤◌, ◌≡◌, refl, sym, ◌∙◌, ap, ap₂, false, [], ◌∷◌, ◌++◌, append-nil,
  append_assoc, Bytes, some, ltb, ==_iff, if_no, length, length-append, drop, arith,
}
use fix_engine.Chars.{codes, soh, find, substr, starts_with, from_chars, to_chars}
use fix_engine.Chars.Decimal.{from_chars-to_chars, to_chars-AllDigits}
use fix_engine.Chars.Search.{drop-append_length, find_at, substr_at}
use fix_engine.MessageFactory.Parsed.{digits-Lacks-soh}
use fix_engine.Parser.{whole_number}
use fix_engine.LinearBuffer.{readable, readable_rel_to_abs}
use fix_engine.Framer.{
  Framer, Parsed, reading_body, fix_first_field, max_message_size, queue_message, read_end,
  read_length, read_header,
}

-- A message as the framer knows it: the first two fields, and as many bytes as the length says and
-- seven more.
unfoldable pub wire_frame : ℕ → Bytes → Bytes
wire_frame n body = fix_first_field ++ (codes "9=" ++ (to_chars n ++ soh ∷ body))

number_back : (n : ℕ) → n ≤ max_message_size → whole_number (2 ^ 64) (to_chars n) ≡ some n
unfolding whole_number
number_back n small =
    let read =
      ap (from_chars (2 ^ 64)) (sym (append-nil (to_chars n)))
      ∙ from_chars-to_chars (2 ^ 64) n [] (omega arith) tt in
    rw (whole_number, read) (rw (==_iff (length (to_chars n)) _).1 refl)

-- A buffer with a message behind `pre`.
module _ (f : Framer) (n : ℕ) (pre body more : Bytes) (small : n ≤ max_message_size)
    (size : length body ≡ n + 7) (e : readable f.buffer ≡ pre ++ (wire_frame n body ++ more)) where
  first : Bytes
  first = pre ++ fix_first_field

  second : Bytes
  second = first ++ codes "9="

  behind_first : readable f.buffer ≡ first ++ (codes "9=" ++ ((to_chars n ++ soh ∷ body) ++ more))
  unfolding wire_frame first
  behind_first =
      e
      ∙ sym (append_assoc pre fix_first_field (codes "9=" ++ ((to_chars n ++ soh ∷ body) ++ more)))

  behind_second : readable f.buffer ≡ second ++ (to_chars n ++ soh ∷ (body ++ more))
  unfolding second
  behind_second =
      behind_first
      ∙ ap (λ x. first ++ (codes "9=" ++ x)) (append_assoc (to_chars n) (soh ∷ body) more)
      ∙ sym (append_assoc first (codes "9=") (to_chars n ++ soh ∷ (body ++ more)))

  length-first : length first ≡ length pre + 10
  unfolding first
  length-first = length-append pre fix_first_field

  length-second : length second ≡ length pre + 12
  unfolding second
  length-second = omega (arith, length-append first (codes "9="), length-first)

  pub length-frame : length (wire_frame n body) ≡ 12 + length (to_chars n) + 1 + n + 7
  unfolding wire_frame
  length-frame = omega (arith, length-append (to_chars n) (soh ∷ body), size)

  pub length-view :
      length (readable f.buffer) ≡ length pre + (length (wire_frame n body) + length more)
  length-view =
      ap length e
      ∙ length-append pre (wire_frame n body ++ more)
      ∙ ap (λ k. length pre + k) (length-append (wire_frame n body) more)

  -- The message queued, and the search behind it.
  unfoldable pub framed : Parsed
  framed = queue_message (record f {
    current_context = record (f.current_context) {
      body_len = n;
      state = reading_body;
      end = readable_rel_to_abs f.buffer (length pre + length (wire_frame n body));
    };
  })

  read_end_lem :
      (body_end_pos : ℕ)
      → body_end_pos ≡ length second + length (to_chars n)
      → read_end f body_end_pos n ≡ framed
  unfolding read_end framed
  read_end_lem body_end_pos at =
      let ends : body_end_pos + 1 + n + 7 ≡ length pre + length (wire_frame n body) =
        omega (arith, at, length-second, length-frame) in
      let fits : ltb (length (readable f.buffer)) (body_end_pos + 1 + n + 7) ≡ false =
        ground (arith, length-view, ends) in
      if_no _ _ _ fits
      ∙ ap
          (λ k. queue_message (record f {
            current_context = record (f.current_context) {
              body_len = n;
              state = reading_body;
              end = readable_rel_to_abs f.buffer k;
            };
          }))
          ends

  read_length_lem :
      (body_start body_end_pos : ℕ)
      → body_start ≡ length second
      → body_end_pos ≡ length second + length (to_chars n)
      → read_length f body_start body_end_pos ≡ framed
  unfolding read_length
  read_length_lem body_start body_end_pos from to =
      let digits : substr (readable f.buffer) body_start (body_end_pos - body_start) ≡ to_chars n =
        substr_at (readable f.buffer) second (to_chars n) (soh ∷ (body ++ more)) body_start
          (body_end_pos - body_start) behind_second from (omega (arith, from, to)) in
      let number : whole_number (2 ^ 64)
            (substr (readable f.buffer) body_start (body_end_pos - body_start))
          ≡ some n =
        ap (whole_number (2 ^ 64)) digits ∙ number_back n small in
      rw (read_length, number)
        (if_no (ltb max_message_size n) _ _ (ground (arith, small)) ∙ read_end_lem body_end_pos to)

  pub read_header_lem : (begin_pos : ℕ) → begin_pos ≡ length pre → read_header f begin_pos ≡ framed
  unfolding read_header starts_with
  read_header_lem begin_pos at =
      let roomy : ltb (length (readable f.buffer)) (begin_pos + 10 + 2) ≡ false =
        ground (arith, length-view, length-frame, at) in
      let behind : drop (begin_pos + 10) (readable f.buffer)
          ≡ codes "9=" ++ ((to_chars n ++ soh ∷ body) ++ more) =
        ap₂ drop (omega (arith, at, length-first)) behind_first ∙ drop-append_length first _ in
      let from : begin_pos + 10 + 2 ≡ length second = omega (arith, at, length-second) in
      let found : find soh (readable f.buffer) (begin_pos + 10 + 2)
          ≡ some (begin_pos + 10 + 2 + length (to_chars n)) =
        find_at soh (readable f.buffer) second (to_chars n) (body ++ more) (begin_pos + 10 + 2)
          behind_second from (digits-Lacks-soh (to_chars n) (to_chars-AllDigits n)) in
      if_no _ _ _ roomy
      ∙ rw (behind, found)
          (read_length_lem (begin_pos + 10 + 2) _ from (ap (λ k. k + length (to_chars n)) from))
