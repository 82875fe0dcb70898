-- ===== src/MpscRing/Accesses.antt =====
-- include/fix/log/MpscRing.hpp: every access keeps the invariant, however the threads are interleaved.
use fix_engine.Prelude.{
  ℕ, suc, ◌+◌, ◌≡◌, ◌≢◌, refl, sym, ◌∙◌, ap, subst, true, [], ◌∷◌, ◌++◌, ◌==◌, ==_iff, if_either,
  update, update_self, update_ne, Bool-cases, inl, inr, arith,
}
use fix_engine.MpscRing.{cell, draw_ticket, put, publish, may_pop, taken, give_back}
use fix_engine.MpscRing.Threads.{
  waiting, writing, written, published, failed, idle, reading, releasing, Threads, set_phase, Step,
  Steps, start, draws, goes_on, gives_up, puts, publishes, pops, takes, gives_back, stays, later,
}
use fix_engine.MpscRing.Invariant.{
  drawn, begun, filled, done, phase-InTurn, busy, handed, firsts, IsValid, phase_lem, in_window,
  turn_in_window, other_cell,
}

module _ {Data : Type 0} (data_of : ℕ → Data) where
  draws_lem :
      (s : Threads Data)
      → IsValid data_of s
      → IsValid data_of
          (set_phase (record s { ring = (draw_ticket s.ring).0 }) (draw_ticket s.ring).1 waiting)
  unfolding drawn begun filled done
  draws_lem s v =
      let new : drawn (s.phase s.ring.head) ≡ 0 = v.undrawn s.ring.head (omega arith) in
      let p = phase-InTurn (s.phase s.ring.head) in
      phase_lem data_of s (s.ring.head + 1) s.ring.head waiting v (omega arith)
        (λ h. absurd (omega arith)) (λ h. refl) (omega (arith, p.begun_drawn, p.filled_begun))
        (omega (arith, p.begun_drawn, p.filled_begun, p.done_filled))

  puts_lem :
      (s : Threads Data) (t : ℕ)
      → IsValid data_of s
      → s.phase t ≡ writing
      → IsValid data_of (set_phase (record s { ring = put s.ring t (data_of t) }) t written)
  unfolding drawn begun filled done
  puts_lem s t v e =
      let (low, high) = in_window data_of s t v (ap done e) (ap begun e) in
      let kept : (u : ℕ) → done (s.phase u) ≡ done (update s.phase t written u) = λ u.
        if_either (λ q. done (s.phase u) ≡ done q) (u == t) written (s.phase u)
          (λ same. ap (λ k. done (s.phase k)) ((==_iff u t).0 same) ∙ ap done e) (λ other. refl) in
      record {
        past = λ u h. sym (kept u) ∙ v.past u h;
        turn = λ u h h'. v.turn u h h' ∙ ap (λ d. u + d) (kept u);
        held = λ u h h' f. elim (Bool-cases (u == t)) [
          | inl same ↦
              let r : t ≡ u = sym ((==_iff u t).0 same) in
              subst (λ k. update s.ring.item (cell t) (data_of t) (cell k) ≡ data_of k) r
                (update_self s.ring.item (cell t) (data_of t))
          | inr other ↦
              let apart : u ≢ t = ground (arith, other) in
              update_ne s.ring.item (cell t) (cell u) (data_of t)
                (other_cell data_of s.ring.tail u t h h' low high apart)
              ∙ v.held u h h' (ap filled (sym (update_ne s.phase t u written apart)) ∙ f)
        ];
        far = λ u h.
            if_either (λ q. begun q ≡ 0) (u == t) written (s.phase u)
              (λ same. let r = (==_iff u t).0 same in absurd (omega arith)) (λ other. v.far u h);
        undrawn = λ u h.
            if_either (λ q. drawn q ≡ 0) (u == t) written (s.phase u)
              (λ same.
                let r : t ≡ u = sym ((==_iff u t).0 same) in
                sym (ap drawn e) ∙ ap (λ k. drawn (s.phase k)) r ∙ v.undrawn u h)
              (λ other. v.undrawn u h);
        reader = λ b. sym (kept s.ring.tail) ∙ v.reader b;
        out = v.out;
      }

  publishes_lem :
      (s : Threads Data) (t : ℕ)
      → IsValid data_of s
      → s.phase t ≡ written
      → IsValid data_of (set_phase (record s { ring = publish s.ring t }) t published)
  unfolding drawn begun filled done
  publishes_lem s t v e =
      let (low, high) = in_window data_of s t v (ap done e) (ap begun e) in
      let more : (u : ℕ) → done (s.phase u) ≡ 1 → done (update s.phase t published u) ≡ 1 = λ u h.
        if_either (λ q. done q ≡ 1) (u == t) published (s.phase u) (λ same. refl) (λ other. h) in
      record {
        past = λ u h. more u (v.past u h);
        turn = λ u h h'. elim (Bool-cases (u == t)) [
          | inl same ↦
              let r : t ≡ u = sym ((==_iff u t).0 same) in
              subst
                (λ k.
                  update s.ring.epoch (cell t) (t + 1) (cell k)
                  ≡ k + done (update s.phase t published k))
                r
                (update_self s.ring.epoch (cell t) (t + 1)
                  ∙ ap (λ q. t + done q) (sym (update_self s.phase t published)))
          | inr other ↦
              let apart : u ≢ t = ground (arith, other) in
              update_ne s.ring.epoch (cell t) (cell u) (t + 1)
                (other_cell data_of s.ring.tail u t h h' low high apart)
              ∙ v.turn u h h'
              ∙ ap (λ q. u + done q) (sym (update_ne s.phase t u published apart))
        ];
        held = λ u h h' f. v.held u h h' (elim (Bool-cases (u == t)) [
          | inl same ↦ ap (λ k. filled (s.phase k)) ((==_iff u t).0 same) ∙ ap filled e
          | inr other ↦
              ap filled (sym (update_ne s.phase t u published (ground (arith, other)))) ∙ f
        ]);
        far = λ u h.
            if_either (λ q. begun q ≡ 0) (u == t) published (s.phase u)
              (λ same. let r = (==_iff u t).0 same in absurd (omega arith)) (λ other. v.far u h);
        undrawn = λ u h.
            if_either (λ q. drawn q ≡ 0) (u == t) published (s.phase u)
              (λ same.
                let r : t ≡ u = sym ((==_iff u t).0 same) in
                sym (ap drawn e) ∙ ap (λ k. drawn (s.phase k)) r ∙ v.undrawn u h)
              (λ other. v.undrawn u h);
        reader = λ b. more s.ring.tail (v.reader b);
        out = v.out;
      }

  takes_lem :
      (s : Threads Data)
      → IsValid data_of s
      → s.consumer ≡ reading
      → IsValid data_of (record s { consumer = releasing; popped = s.popped ++ taken s.ring ∷ [] })
  unfolding busy handed firsts
  takes_lem s v e =
      let p = phase-InTurn (s.phase s.ring.tail) in
      let published_ : done (s.phase s.ring.tail) ≡ 1 = v.reader (ap busy e) in
      let full : filled (s.phase s.ring.tail) ≡ 1 =
        omega (arith, p.done_filled, p.filled_begun, p.begun_drawn, p.drawn_once) in
      let item = v.held s.ring.tail (omega arith) (omega arith) full in
      let before : s.popped ≡ firsts data_of s.ring.tail =
        v.out
        ∙ ap (λ c. firsts data_of (s.ring.tail + handed c)) e
        ∙ ap (firsts data_of) (let n : s.ring.tail + 0 ≡ s.ring.tail = omega arith in n) in
      let next : suc s.ring.tail ≡ s.ring.tail + 1 = omega arith in
      record {
        past = v.past;
        turn = v.turn;
        held = v.held;
        far = v.far;
        undrawn = v.undrawn;
        reader = λ b. published_;
        out =
            ap (λ xs. xs ++ taken s.ring ∷ []) before
            ∙ ap (λ d. firsts data_of s.ring.tail ++ d ∷ []) item
            ∙ ap (firsts data_of) next;
      }

  gives_back_lem :
      (s : Threads Data)
      → IsValid data_of s
      → s.consumer ≡ releasing
      → IsValid data_of (record s { consumer = idle; ring = give_back s.ring })
  unfolding busy handed
  gives_back_lem s v e =
      let published_ : done (s.phase s.ring.tail) ≡ 1 = v.reader (ap busy e) in
      let tail = s.ring.tail in
      record {
        past = λ u h. elim (Bool-cases (u == tail)) [
          | inl same ↦ ap (λ k. done (s.phase k)) ((==_iff u tail).0 same) ∙ published_
          | inr other ↦ v.past u (ground (arith, other, h))
        ];
        turn = λ u h h'. elim (Bool-cases (u == tail + 1024)) [
          | inl same ↦
              let r = (==_iff u (tail + 1024)).0 same in
              let cells : cell tail ≡ cell u = omega arith in
              let p = phase-InTurn (s.phase u) in
              let not_done : tail + 1024 ≡ u + done (s.phase u) =
                omega (arith, v.far u (omega arith), p.filled_begun, p.done_filled) in
              subst (λ c. update s.ring.epoch (cell tail) (tail + 1024) c ≡ u + done (s.phase u))
                cells (update_self s.ring.epoch (cell tail) (tail + 1024) ∙ not_done)
          | inr other ↦
              let apart : u ≢ tail + 1024 = ground (arith, other) in
              update_ne s.ring.epoch (cell tail) (cell u) (tail + 1024) (
                other_cell data_of tail u tail (omega arith) (omega arith) (omega arith)
                  (omega arith) (λ r. absurd (omega arith)))
              ∙ v.turn u (omega arith) (omega arith)
        ];
        held = λ u h h' f. elim (Bool-cases (u == tail + 1024)) [
          | inl same ↦
              let r = (==_iff u (tail + 1024)).0 same in
              let p = phase-InTurn (s.phase u) in
              absurd (omega (arith, v.far u (omega arith), p.filled_begun))
          | inr other ↦
              let apart : u ≢ tail + 1024 = ground (arith, other) in
              v.held u (omega arith) (omega arith) f
        ];
        far = λ u h. v.far u (omega arith);
        undrawn = v.undrawn;
        reader = λ b. absurd (omega arith);
        out =
            v.out
            ∙ ap (λ c. firsts data_of (tail + handed c)) e
            ∙ ap (firsts data_of) (let n : tail + 1 ≡ tail + 1 + 0 = omega arith in n);
      }

  popped_done :
      (s : Threads Data)
      → IsValid data_of s
      → may_pop s.ring ≡ true
      → done (s.phase s.ring.tail) ≡ 1
  unfolding may_pop
  popped_done s v full =
      let now : s.ring.epoch (cell s.ring.tail) ≡ s.ring.tail + 1 =
        (==_iff (s.ring.epoch (cell s.ring.tail)) (s.ring.tail + 1)).0 full in
      omega (arith, v.turn s.ring.tail (omega arith) (omega arith))

  pub Step-IsValid : {s t : Threads Data} → Step data_of s t → IsValid data_of s → IsValid data_of t
  unfolding drawn begun filled done busy handed
  Step-IsValid {s} draws v = draws_lem s v
  Step-IsValid {s} (goes_on t e turn) v =
      let h = turn_in_window data_of s t v (ap done e) turn in
      phase_lem data_of s s.ring.head t writing v (omega arith)
        (λ b. absurd (let r = ap drawn e in let n = v.undrawn t b in omega arith))
        (λ b. absurd (omega arith)) (sym (ap filled e)) (sym (ap done e))
  Step-IsValid {s} (gives_up t e turn) v =
      phase_lem data_of s s.ring.head t failed v (omega arith)
        (λ b. absurd (let r = ap drawn e in let n = v.undrawn t b in omega arith)) (λ b. refl)
        (sym (ap filled e)) (sym (ap done e))
  Step-IsValid {s} (puts t e) v = puts_lem s t v e
  Step-IsValid {s} (publishes t e) v = publishes_lem s t v e
  Step-IsValid {s} (pops e full) v = record {
    past = v.past;
    turn = v.turn;
    held = v.held;
    far = v.far;
    undrawn = v.undrawn;
    reader = λ b. popped_done s v full;
    out = v.out ∙ ap (λ c. firsts data_of (s.ring.tail + handed c)) e;
  }
  Step-IsValid {s} (takes e) v = takes_lem s v e
  Step-IsValid {s} (gives_back e) v = gives_back_lem s v e

  pub start-IsValid : (nothing : Data) → IsValid data_of (start nothing)
  unfolding drawn begun filled done busy handed firsts
  start-IsValid nothing = record {
    past = λ t h. absurd (omega arith);
    turn = λ t h h'. omega arith;
    held = λ t h h' f. absurd (omega arith);
    far = λ t h. refl;
    undrawn = λ t h. refl;
    reader = λ b. absurd (omega arith);
    out = refl;
  }

  pub Steps-IsValid :
      {s t : Threads Data} → Steps data_of s t → IsValid data_of s → IsValid data_of t
  Steps-IsValid stays v = v
  Steps-IsValid (later steps step) v = Step-IsValid step (Steps-IsValid steps v)
