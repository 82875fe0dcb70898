-- ===== src/Framer/Delivery.antt =====
-- src/Framer.cpp, `get_message` and `consume_message`: the messages queued are handed on.
use fix_engine.Prelude.{
  ℕ, ◌+◌, ◌-◌, ◌≡◌, refl, sym, ◌∙◌, ap, false, ◌||◌, List, ◌∷◌, ◌++◌, append_assoc, Bytes, some,
  ltb, if_no, length, length-append, drop, arith,
}
use fix_engine.Chars.Search.{drop-append_length, substr_at}
use fix_engine.LinearBuffer.{LinearBuffer, readable, readable_size, abs_to_readable_rel}
use fix_engine.LinearBuffer.View
use fix_engine.LinearBuffer.View.{Shows, begin, discard_prefix_lem}
use fix_engine.Prelude.Memory.{length-read}
use fix_engine.Ring.Contents.{IsValid, contents}
use fix_engine.Ring.Queue.{take_front}
use fix_engine.Framer.{Framer, MessageWindow, get_message, consume_message}
use fix_engine.Framer.Queued.{window}

rel_back : (b : LinearBuffer) (k : ℕ) → abs_to_readable_rel b (b.base_abs + (b.head + k)) ≡ some k
unfolding abs_to_readable_rel
rel_back b k =
    if_no (ltb (b.base_abs + (b.head + k)) b.base_abs) _ _ (ground arith)
    ∙ if_no (ltb (b.base_abs + (b.head + k) - b.base_abs) b.head) _ _ (ground arith)
    ∙ ap some (omega arith)

pub length-readable : (b : LinearBuffer) → length (readable b) ≡ readable_size b
unfolding readable
length-readable b = length-read b.memory b.head (readable_size b)

-- The first message queued, at the readable bytes `pre ++ (bytes ++ more)`.
module _ (f : Framer) (pre bytes more : Bytes) (rest : List MessageWindow)
    (e : readable f.buffer ≡ pre ++ (bytes ++ more)) (r : IsValid f.completed_messages)
    (q : contents f.completed_messages ≡ window f.buffer (length pre) (length bytes) ∷ rest) where
  length-view : length (readable f.buffer) ≡ length pre + (length bytes + length more)
  length-view =
      ap length e
      ∙ length-append pre (bytes ++ more)
      ∙ ap (λ k. length pre + k) (length-append bytes more)

  get_message_lem : get_message f ≡ some bytes
  unfolding get_message window
  get_message_lem =
      let (_, (at_front, _)) = take_front f.completed_messages _ rest r q in
      let size : length pre + length bytes - length pre ≡ length bytes = omega arith in
      let inside : (ltb (length (readable f.buffer)) (length pre + length bytes)
            || ltb (length pre + length bytes) (length pre))
          ≡ false =
        ground (arith, length-view) in
      rw (at_front, rel_back f.buffer (length pre), rel_back f.buffer (length pre + length bytes))
        (if_no _ _ _ inside
          ∙ ap some (
              substr_at (readable f.buffer) pre bytes more (length pre)
                (length pre + length bytes - length pre) e refl size))

  -- A framer whose first queued message is at the bytes given: get_message gives exactly these bytes,
  -- and consume_message runs, takes the message off the queue, and leaves what is behind it readable,
  -- at the positions where it was.
  pub deliver_first :
      View.IsValid f.buffer
      → (get_message f ≡ some bytes)
        × ((g : Framer) × ((consume_message f ≡ some g)
              × ((contents g.completed_messages ≡ rest)
                  × (IsValid g.completed_messages
                      × Shows more (begin f.buffer + (length pre + length bytes)) g.buffer))))
  unfolding consume_message window
  deliver_first v =
      let (left, (at_front, (pops, (valid, items)))) = take_front f.completed_messages _ rest r q in
      let (b, (discards, shows)) =
        discard_prefix_lem f.buffer (length pre + length bytes) v
          (omega (arith, length-view, length-readable f.buffer)) in
      let left_over : drop (length pre + length bytes) (readable f.buffer) ≡ more =
        ap (drop (length pre + length bytes)) (e ∙ sym (append_assoc pre bytes more))
        ∙ ap (λ k. drop k ((pre ++ bytes) ++ more)) (sym (length-append pre bytes))
        ∙ drop-append_length (pre ++ bytes) more in
      (
        get_message_lem,
        (
          record f { buffer = b; completed_messages = left },
          (
            rw (at_front, rel_back f.buffer (length pre + length bytes), discards, pops) refl,
            (
              items,
              (
                valid,
                record {
                  valid = shows.valid;
                  bytes_are = shows.bytes_are ∙ left_over;
                  begins_at = shows.begins_at;
                },
              ),
            ),
          ),
        ),
      )
