-- ===== src/Framer/Stream.antt =====
-- src/Framer.cpp, `append`: messages one after the other are all found.
use fix_engine.Prelude.{
  ℕ, zero, suc, ◌+◌, ◌≤◌, ◌<◌, ◌≡◌, refl, sym, ◌∙◌, ap, ap₂, subst, false, List, [], ◌∷◌, ◌++◌,
  append-nil, append_assoc, Bytes, Option, some, leb, if_yes, if_no, length, length-append, arith,
  Bool-cases, inl, inr,
}
use fix_engine.LinearBuffer.{LinearBuffer, readable}
use fix_engine.Ring
use fix_engine.Ring.Contents.{IsValid, contents, length-contents}
use fix_engine.Framer.{
  Framer, MessageWindow, max_message_size, need_more_data, queued_message, parse_from, parse_buffer,
  parse_all,
}
use fix_engine.Framer.Frames.{wire_frame}
use fix_engine.Framer.Queued.{SearchesAt, Queued, window, round_at, parse_buffer_queues}

-- A message on the wire: its BodyLength, and what follows it.
pub record WireMessage : Type 0 where
  pub body_len : ℕ
  pub body : Bytes
  pub whole : length body ≡ body_len + 7
  pub small : body_len ≤ max_message_size

abbrev pub bytes_of : WireMessage → Bytes
bytes_of m = wire_frame m.body_len m.body

unfoldable pub wire_all : List WireMessage → Bytes
wire_all [] = []
wire_all (m ∷ ms) = bytes_of m ++ wire_all ms

-- The positions of messages from an offset on.
unfoldable pub windows : LinearBuffer → ℕ → List WireMessage → List MessageWindow
windows b at [] = []
windows b at (m ∷ ms) = window b at (length (bytes_of m)) ∷ windows b (at + length (bytes_of m)) ms

pub Drained : Framer → ℕ → List WireMessage → Option Framer → Type 0
Drained f at ms o =
    (g : Framer) × ((o ≡ some g)
      × Queued f (contents f.completed_messages ++ windows f.buffer at ms)
          (at + length (wire_all ms)) g)

-- Nothing is left to scan.
nothing_new :
    (f : Framer) (at : ℕ)
    → SearchesAt at f
    → length (readable f.buffer) ≤ at
    → parse_buffer f ≡ some (f, need_more_data)
unfolding parse_from
nothing_new f at s end =
    round_at f at s ∙ if_yes (leb (length (readable f.buffer)) at) _ _ (ground (arith, end))

same_framer :
    (f : Framer) (at : ℕ)
    → SearchesAt at f
    → IsValid f.completed_messages
    → Queued f (contents f.completed_messages ++ []) (at + 0) f
same_framer f at s v = record {
  same_buffer = refl;
  searches = subst (λ k. SearchesAt k f) (omega arith) s;
  ring_valid = v;
  same_capacity = refl;
  queued = sym (append-nil (contents f.completed_messages));
}

parse_all_end :
    (fuel : ℕ) (f : Framer) (at : ℕ)
    → SearchesAt at f
    → length (readable f.buffer) ≤ at
    → parse_all (suc fuel) f ≡ some f
unfolding parse_all
parse_all_end fuel f at s end = elim (Bool-cases (Ring.full f.completed_messages)) [
  | inl at_end ↦ if_yes _ _ _ at_end
  | inr room ↦ if_no _ _ _ room ∙ rw (nothing_new f at s end) refl
]

-- A round that queues a message goes on.
parse_all_goes_on :
    (fuel : ℕ) (f g : Framer)
    → Ring.full f.completed_messages ≡ false
    → parse_buffer f ≡ some (g, queued_message)
    → parse_all (suc fuel) f ≡ parse_all fuel g
unfolding parse_all
parse_all_goes_on fuel f g room e = if_no _ _ _ room ∙ rw e refl

one_more :
    (f g : Framer) (w : MessageWindow)
    → contents g.completed_messages ≡ contents f.completed_messages ++ w ∷ []
    → g.completed_messages.size ≡ f.completed_messages.size + 1
one_more f g w e =
    sym (length-contents g.completed_messages)
    ∙ ap length e
    ∙ length-append (contents f.completed_messages) (w ∷ [])
    ∙ ap (λ k. k + 1) (length-contents f.completed_messages)

-- What two rounds queue, one after the other.
Queued-trans :
    (f g h : Framer) (m : WireMessage) (ms : List WireMessage) (at behind : ℕ)
    → behind ≡ at + length (bytes_of m)
    → Queued f
        (contents f.completed_messages ++ window f.buffer at (length (bytes_of m)) ∷ [])
        behind
        g
    → Queued g
        (contents g.completed_messages ++ windows g.buffer behind ms)
        (behind + length (wire_all ms))
        h
    → Queued f
        (contents f.completed_messages ++ windows f.buffer at (m ∷ ms))
        (at + length (wire_all (m ∷ ms)))
        h
unfolding windows wire_all
Queued-trans f g h m ms at behind step q r = record {
  same_buffer = r.same_buffer ∙ q.same_buffer;
  searches =
      subst (λ k. SearchesAt k h) (omega (arith, step, length-append (bytes_of m) (wire_all ms)))
        r.searches;
  ring_valid = r.ring_valid;
  same_capacity = r.same_capacity ∙ q.same_capacity;
  queued =
      r.queued
      ∙ ap₂ ◌++◌ q.queued (ap₂ (λ b k. windows b k ms) q.same_buffer step)
      ∙ append_assoc (contents f.completed_messages) (window f.buffer at (length (bytes_of m)) ∷ [])
          (windows f.buffer (at + length (bytes_of m)) ms);
}

-- The search of a framer stands at the first of some messages of at most 1 MiB, and they are all that
-- is behind it. With room in the ring for them, and with more rounds than messages, the loop of append
-- runs, queues the positions of exactly these messages in order, and leaves the bytes where they are.
pub parse_all_queues :
    (ms : List WireMessage) (fuel : ℕ) (f : Framer) (pre : Bytes)
    → readable f.buffer ≡ pre ++ wire_all ms
    → SearchesAt (length pre) f
    → IsValid f.completed_messages
    → f.completed_messages.size + length ms ≤ f.completed_messages.capacity
    → length ms < fuel
    → Drained f (length pre) ms (parse_all fuel f)
unfolding Drained windows wire_all
parse_all_queues ms zero f pre e s v room enough = absurd (omega arith)
parse_all_queues [] (suc fuel) f pre e s v room enough = (
  f,
  (
    parse_all_end fuel f (length pre) s
        (omega (arith, ap length e, length-append pre (wire_all []))),
    same_framer f (length pre) s v,
  ),
)
parse_all_queues (m ∷ ms) (suc fuel) f pre e s v room enough =
    let behind = pre ++ bytes_of m in
    let at : length behind ≡ length pre + length (bytes_of m) = length-append pre (bytes_of m) in
    let (g, (runs, q)) =
      parse_buffer_queues f m.body_len pre m.body (wire_all ms) m.small m.whole e v (omega arith)
        s in
    let q1 =
      subst
        (λ k.
          Queued f
            (contents f.completed_messages
              ++ window f.buffer (length pre) (length (bytes_of m)) ∷ [])
            k g)
        (sym at) q in
    let more = one_more f g _ q.queued in
    let (h, (ends, r)) =
      parse_all_queues ms fuel g behind
        (ap readable q.same_buffer ∙ e ∙ sym (append_assoc pre (bytes_of m) (wire_all ms)))
        q1.searches q.ring_valid (omega (arith, more, q.same_capacity)) (omega arith) in
    (
      h,
      (
        parse_all_goes_on fuel f g (ground (arith, room)) runs ∙ ends,
        Queued-trans f g h m ms (length pre) (length behind) at q1 r,
      ),
    )
