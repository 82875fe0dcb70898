-- ===== src/MpscRing/Invariant.antt =====
-- include/fix/log/MpscRing.hpp: what holds between any two accesses.
use fix_engine.Prelude.{
  ℕ, zero, suc, ◌+◌, ◌-◌, ◌%◌, ◌≤◌, ◌<◌, ◌≡◌, ◌≢◌, refl, sym, ◌∙◌, ap, true, List, [], ◌∷◌, ◌++◌,
  ◌==◌, ==_iff, if_either, update, ltb, Bool-cases, inl, inr, arith,
}
use fix_engine.MpscRing.{cell, is_turn}
use fix_engine.MpscRing.Threads.{
  Phase, absent, waiting, writing, written, published, failed, Consumer, idle, reading, releasing,
  Threads, set_phase,
}

-- Whether a thread has drawn its ticket, has had its turn, has written its data, has published it.
unfoldable pub drawn : Phase → ℕ
drawn absent = 0
drawn waiting = 1
drawn writing = 1
drawn written = 1
drawn published = 1
drawn failed = 1

unfoldable pub begun : Phase → ℕ
begun absent = 0
begun waiting = 0
begun writing = 1
begun written = 1
begun published = 1
begun failed = 0

unfoldable pub filled : Phase → ℕ
filled absent = 0
filled waiting = 0
filled writing = 0
filled written = 1
filled published = 1
filled failed = 0

unfoldable pub done : Phase → ℕ
done absent = 0
done waiting = 0
done writing = 0
done written = 0
done published = 1
done failed = 0

-- Each of these comes before the next.
pub record InTurn (p : Phase) : Type 0 where
  pub drawn_once : drawn p ≤ 1
  pub begun_drawn : begun p ≤ drawn p
  pub filled_begun : filled p ≤ begun p
  pub done_filled : done p ≤ filled p

pub phase-InTurn : (p : Phase) → InTurn p
unfolding done filled begun drawn
phase-InTurn absent = record {
  drawn_once = omega arith;
  begun_drawn = omega arith;
  filled_begun = omega arith;
  done_filled = omega arith;
}
phase-InTurn waiting = record {
  drawn_once = omega arith;
  begun_drawn = omega arith;
  filled_begun = omega arith;
  done_filled = omega arith;
}
phase-InTurn writing = record {
  drawn_once = omega arith;
  begun_drawn = omega arith;
  filled_begun = omega arith;
  done_filled = omega arith;
}
phase-InTurn written = record {
  drawn_once = omega arith;
  begun_drawn = omega arith;
  filled_begun = omega arith;
  done_filled = omega arith;
}
phase-InTurn published = record {
  drawn_once = omega arith;
  begun_drawn = omega arith;
  filled_begun = omega arith;
  done_filled = omega arith;
}
phase-InTurn failed = record {
  drawn_once = omega arith;
  begun_drawn = omega arith;
  filled_begun = omega arith;
  done_filled = omega arith;
}

-- Whether the consumer is at a cell, and has taken its data.
unfoldable pub busy : Consumer → ℕ
busy idle = 0
busy reading = 1
busy releasing = 1

unfoldable pub handed : Consumer → ℕ
handed idle = 0
handed reading = 0
handed releasing = 1

module _ {Data : Type 0} (data_of : ℕ → Data) where
  -- The data of the first tickets, in their order.
  unfoldable pub firsts : ℕ → List Data
  firsts zero = []
  firsts (suc n) = firsts n ++ data_of n ∷ []

  -- The tickets from the tail on, as many as there are cells, have one cell each.
  pub record IsValid (s : Threads Data) : Type 0 where
    pub past : (t : ℕ) → t < s.ring.tail → done (s.phase t) ≡ 1
    pub turn :
        (t : ℕ)
        → s.ring.tail ≤ t
        → t < s.ring.tail + 1024
        → s.ring.epoch (cell t) ≡ t + done (s.phase t)
    pub held :
        (t : ℕ)
        → s.ring.tail ≤ t
        → t < s.ring.tail + 1024
        → filled (s.phase t) ≡ 1
        → s.ring.item (cell t) ≡ data_of t
    pub far : (t : ℕ) → s.ring.tail + 1024 ≤ t → begun (s.phase t) ≡ 0
    pub undrawn : (t : ℕ) → s.ring.head ≤ t → drawn (s.phase t) ≡ 0
    pub reader : busy s.consumer ≡ 1 → done (s.phase s.ring.tail) ≡ 1
    pub out : s.popped ≡ firsts (s.ring.tail + handed s.consumer)

  -- A thread goes on, and neither publishes nor writes.
  pub phase_lem :
      (s : Threads Data) (head ticket : ℕ) (p : Phase)
      → IsValid s
      → s.ring.head ≤ head
      → (head ≤ ticket → drawn p ≡ 0)
      → (s.ring.tail + 1024 ≤ ticket → begun p ≡ 0)
      → filled p ≡ filled (s.phase ticket)
      → done p ≡ done (s.phase ticket)
      → IsValid (set_phase (record s { ring = record s.ring { head = head } }) ticket p)
  phase_lem s head ticket p v more is_drawn is_begun same_filled same_done = record {
    past = λ t h. sym (kept_done t) ∙ v.past t h;
    turn = λ t h h'. v.turn t h h' ∙ ap (λ d. t + d) (kept_done t);
    held = λ t h h' f. v.held t h h' (kept_filled t ∙ f);
    far = λ t h.
        if_either (λ q. begun q ≡ 0) (t == ticket) p (s.phase t)
          (λ e. is_begun (let same = (==_iff t ticket).0 e in omega arith)) (λ e. v.far t h);
    undrawn = λ t h.
        if_either (λ q. drawn q ≡ 0) (t == ticket) p (s.phase t)
          (λ e. is_drawn (let same = (==_iff t ticket).0 e in omega arith))
          (λ e. v.undrawn t (omega arith));
    reader = λ b. sym (kept_done s.ring.tail) ∙ v.reader b;
    out = v.out;
  }
    where
      kept_done : (t : ℕ) → done (s.phase t) ≡ done (update s.phase ticket p t)
      kept_done t =
          if_either (λ q. done (s.phase t) ≡ done q) (t == ticket) p (s.phase t)
            (λ e. ap (λ k. done (s.phase k)) ((==_iff t ticket).0 e) ∙ sym same_done) (λ e. refl)

      kept_filled : (t : ℕ) → filled (s.phase t) ≡ filled (update s.phase ticket p t)
      kept_filled t =
          if_either (λ q. filled (s.phase t) ≡ filled q) (t == ticket) p (s.phase t)
            (λ e. ap (λ k. filled (s.phase k)) ((==_iff t ticket).0 e) ∙ sym same_filled)
            (λ e. refl)

  -- Where a thread stands that has not published: on a cell of its own, once its turn has come.
  pub in_window :
      (s : Threads Data) (t : ℕ)
      → IsValid s
      → done (s.phase t) ≡ 0
      → begun (s.phase t) ≡ 1
      → (s.ring.tail ≤ t) × (t < s.ring.tail + 1024)
  in_window s t v not_done has_begun = (
    elim (Bool-cases (ltb t s.ring.tail)) [
      | inl e ↦ let h = v.past t (ground (arith, e)) in absurd (omega arith)
      | inr e ↦ ground (arith, e)
    ],
    elim (Bool-cases (ltb t (s.ring.tail + 1024))) [
      | inl e ↦ ground (arith, e)
      | inr e ↦ let h = v.far t (ground (arith, e)) in absurd (omega arith)
    ],
  )

  -- A turn comes only in the window.
  pub turn_in_window :
      (s : Threads Data) (t : ℕ)
      → IsValid s
      → done (s.phase t) ≡ 0
      → is_turn s.ring t ≡ true
      → t < s.ring.tail + 1024
  unfolding is_turn
  turn_in_window s t v not_done its_turn = elim (Bool-cases (ltb t (s.ring.tail + 1024))) [
    | inl e ↦ ground (arith, e)
    | inr e ↦
        let beyond : s.ring.tail + 1024 ≤ t = ground (arith, e) in
        let w = s.ring.tail + (t - s.ring.tail) % 1024 in
        let same : cell w ≡ cell t = omega arith in
        let now : t ≡ s.ring.epoch (cell t) = (==_iff t (s.ring.epoch (cell t))).0 its_turn in
        let then_ : s.ring.epoch (cell w) ≡ w + done (s.phase w) =
          v.turn w (omega arith) (omega arith) in
        let moved : s.ring.epoch (cell w) ≡ s.ring.epoch (cell t) = ap s.ring.epoch same in
        let p = phase-InTurn (s.phase w) in
        absurd (omega (arith, p.drawn_once, p.begun_drawn, p.filled_begun, p.done_filled))
  ]

  pub other_cell :
      (tail t u : ℕ)
      → tail ≤ t
      → t < tail + 1024
      → tail ≤ u
      → u < tail + 1024
      → t ≢ u
      → cell t ≢ cell u
  other_cell tail t u h1 h2 h3 h4 apart e = apart (omega arith)
