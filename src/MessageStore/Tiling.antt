-- ===== src/MessageStore/Tiling.antt =====
-- What the resend stream promises: its actions cover the numbers asked for, each once and in order;
-- a gap fill covers messages that are not sent again, and rest many rest there are in a row; any other
-- action is one message that is.
use fix_engine.Prelude.{
  leb→le, ℕ, zero, suc, ◌+◌, ◌-◌, ◌%◌, ◌^◌, ◌≤◌, ◌<◌, ◌≡◌, refl, ◌∙◌, ap, subst, Bool, true, false,
  List, [], ◌∷◌, some, arith, length, get_elem?, get_elem?_within, Bool-cases, inl, inr, leb, ◌==◌,
}
use fix_engine.MessageStore.{MsgIndex, get_msg_type}
use fix_engine.MessageStore.Resend.{
  ResendAction, ResendStream, no_resend, skipped, skip_from, next, has_next, all_actions,
  get_resend_stream,
}

skipped_at :
    (index : List MsgIndex) (n : ℕ) (m : MsgIndex)
    → 0 < n
    → n < 2 ^ 32
    → get_elem? index (n - 1) ≡ some m
    → skipped index n ≡ some (no_resend (get_msg_type m))
unfolding skipped
skipped_at index n m p w at =
    let e : (n + 2 ^ 32 - 1) % 2 ^ 32 ≡ n - 1 = omega arith in rw (e, at) refl

skipped_within :
    (index : List MsgIndex) (n : ℕ)
    → 0 < n
    → n ≤ length index
    → n < 2 ^ 32
    → (b : Bool) × (skipped index n ≡ some b)
skipped_within index n p h w =
    let (m, at) = get_elem?_within index (n - 1) (omega arith) in
    (no_resend (get_msg_type m), skipped_at index n m p w at)

-- Where the loop of `next` stops, started at `from`.
record Stops (index : List MsgIndex) (last from stop : ℕ) : Type 0 where
  pub later : from ≤ stop
  pub within : stop ≤ last + 1
  pub passed : (n : ℕ) → from ≤ n → n < stop → skipped index n ≡ some true
  pub held : stop ≤ last → skipped index stop ≡ some false

module _ (index : List MsgIndex) (last from : ℕ) where
  Stops-here :
      from ≤ last + 1 → (from ≤ last → skipped index from ≡ some false) → Stops index last from from
  Stops-here h k = record {
    later = omega arith;
    within = h;
    passed = λ n lo hi. absurd (omega arith);
    held = k;
  }

  Stops-later :
      (stop : ℕ)
      → skipped index from ≡ some true
      → Stops index last (from + 1) stop
      → Stops index last from stop
  Stops-later stop at s = record {
    later = omega (arith, s.later);
    within = s.within;
    passed = λ n lo hi. elim (Bool-cases (n == from)) [
      | inl here ↦ let eq : n ≡ from = ground arith in rw eq at
      | inr on ↦ s.passed n (ground arith) hi
    ];
    held = s.held;
  }

  skip_from_stay :
      (fuel : ℕ)
      → skipped index from ≡ some false
      → skip_from (suc fuel) index last from ≡ some from
  unfolding skip_from
  skip_from_stay fuel at = ground arith

  skip_from_end : (fuel : ℕ) → last < from → skip_from fuel index last from ≡ some from
  unfolding skip_from
  skip_from_end zero h = refl
  skip_from_end (suc fuel) h = ground arith

  skip_from_go :
      (fuel stop : ℕ)
      → from ≤ last
      → last + 1 < 2 ^ 32
      → skipped index from ≡ some true
      → skip_from fuel index last (from + 1) ≡ some stop
      → skip_from (suc fuel) index last from ≡ some stop
  unfolding skip_from
  skip_from_go fuel stop h w at run =
      let wrap : (from + 1) % 2 ^ 32 ≡ from + 1 = omega arith in
      let test : leb from last ≡ true = ground arith in rw (test, at, wrap) run

module _ (index : List MsgIndex) (last : ℕ) (stored : last ≤ length index)
    (fits : last + 1 < 2 ^ 32) where
  -- The loop of `next` runs off the end, or stops at the first message to send again.
  skip_from_lem :
      (fuel from : ℕ)
      → 0 < from
      → from ≤ last + 1
      → last + 1 ≤ fuel + from
      → (stop : ℕ) × (skip_from fuel index last from ≡ some stop) × Stops index last from stop
  skip_from_lem zero from p h f = (
    from,
    skip_from_end index last from zero (omega arith),
    Stops-here index last from h (λ k. absurd (omega arith)),
  )
  skip_from_lem (suc fuel) from p h f = elim (Bool-cases (leb from last)) [
    | inr e ↦ (
      from,
      skip_from_end index last from (suc fuel) (ground arith),
      Stops-here index last from h (λ k. absurd (ground arith)),
    )
    | inl e ↦
        branch (leb→le from last e) (skipped_within index from p (ground arith) (ground arith))
          (skip_from_lem fuel (from + 1) (omega arith) (ground arith) (omega arith))
  ]
    where
      branch :
          from ≤ last
          → (b : Bool) × (skipped index from ≡ some b)
          → (stop : ℕ) × (skip_from fuel index last (from + 1) ≡ some stop)
            × Stops index last (from + 1) stop
          → (stop : ℕ) × (skip_from (suc fuel) index last from ≡ some stop)
            × Stops index last from stop
      branch le (false, at) _ =
          (from, skip_from_stay index last from fuel at, Stops-here index last from h (λ _. at))
      branch le (true, at) (stop, run, s) = (
        stop,
        skip_from_go index last from fuel stop le fits at run,
        Stops-later index last from stop at s,
      )

-- One action, the first number of which is `from`.
pub record Answers (index : List MsgIndex) (last from : ℕ) (a : ResendAction) : Type 0 where
  pub starts : a.begin_seq_no ≡ from
  pub ordered : from ≤ a.end_seq_no
  pub ends : a.end_seq_no ≤ last
  pub gap : a.gap_fill ≡ true → (n : ℕ) → from ≤ n → n ≤ a.end_seq_no → skipped index n ≡ some true
  pub maximal :
      a.gap_fill ≡ true → a.end_seq_no < last → skipped index (a.end_seq_no + 1) ≡ some false
  pub single : a.gap_fill ≡ false → (a.end_seq_no ≡ from) × (skipped index from ≡ some false)

-- The actions cover the numbers from `from` to `last`.
abbrev pub Tiles : List MsgIndex → ℕ → ℕ → List ResendAction → Type 0
Tiles index last from [] = from ≡ last + 1
Tiles index last from (a ∷ rest) =
    Answers index last from a × Tiles index last (a.end_seq_no + 1) rest

-- `next` in terms of where its loop stops.
next_single :
    (index : List MsgIndex) (last from : ℕ)
    → from + 1 < 2 ^ 32
    → skip_from (last + 2 - from) index last from ≡ some from
    → next (get_resend_stream index from last)
      ≡ some (
        record { begin_seq_no = from; end_seq_no = from; gap_fill = false },
        get_resend_stream index (from + 1) last,
      )
unfolding next get_resend_stream
next_single index last from w run =
    let wrap : (from + 1) % 2 ^ 32 ≡ from + 1 = omega arith in
    let test : from == from ≡ true = ground arith in rw (run, test, wrap) refl

next_gap :
    (index : List MsgIndex) (last from stop : ℕ)
    → from ≤ stop
    → stop + 1 < 2 ^ 32
    → skip_from (last + 2 - from) index last from ≡ some (suc stop)
    → next (get_resend_stream index from last)
      ≡ some (
        record { begin_seq_no = from; end_seq_no = stop; gap_fill = true },
        get_resend_stream index (stop + 1) last,
      )
unfolding next get_resend_stream
next_gap index last from stop h w run =
    let wrap : (suc stop + 2 ^ 32 - 1) % 2 ^ 32 ≡ stop = omega arith in
    let on : suc stop ≡ stop + 1 = omega arith in
    let test : suc stop == from ≡ false = ground arith in rw (run, test, wrap, on) refl

abbrev Step : List MsgIndex → ℕ → ℕ → Type 0
Step index last from =
    (a : ResendAction) × (next (get_resend_stream index from last)
      ≡ some (a, get_resend_stream index (a.end_seq_no + 1) last))
    × Answers index last from a

Step-single :
    (index : List MsgIndex) (last from : ℕ)
    → from ≤ last
    → last + 1 < 2 ^ 32
    → skip_from (last + 2 - from) index last from ≡ some from
    → Stops index last from from
    → Step index last from
Step-single index last from h w run s = (
  _,
  next_single index last from (omega arith) run,
  record {
    starts = refl;
    ordered = omega arith;
    ends = h;
    gap = λ g. cc;
    maximal = λ g. cc;
    single = λ _. (refl, s.held h);
  },
)

Step-gap :
    (index : List MsgIndex) (last from stop : ℕ)
    → from ≤ stop
    → last + 1 < 2 ^ 32
    → skip_from (last + 2 - from) index last from ≡ some (suc stop)
    → Stops index last from (suc stop)
    → Step index last from
Step-gap index last from stop h w run s = (
  _,
  next_gap index last from stop h (omega (arith, s.within)) run,
  record {
    starts = refl;
    ordered = h;
    ends = omega (arith, s.within);
    gap = λ g n lo hi. s.passed n lo (omega arith);
    maximal = λ g k. subst (λ j. skipped index j ≡ some false) (omega arith) (s.held (omega arith));
    single = λ g. cc;
  },
)

Step-of_stop :
    (index : List MsgIndex) (last from : ℕ)
    → 0 < from
    → from ≤ last
    → last + 1 < 2 ^ 32
    → (stop : ℕ) × (skip_from (last + 2 - from) index last from ≡ some stop)
      × Stops index last from stop
    → Step index last from
Step-of_stop index last from p h w (zero, run, s) = absurd (omega (arith, s.later))
Step-of_stop index last from p h w (suc stop, run, s) = elim (Bool-cases (suc stop == from)) [
  | inl e ↦
      let eq : suc stop ≡ from = ground arith in
      Step-single index last from h w (run ∙ ap some eq) (subst (Stops index last from) eq s)
  | inr e ↦ Step-gap index last from stop (ground (arith, s.later)) w run s
]

all_actions_done :
    (index : List MsgIndex) (last from fuel : ℕ)
    → last < from
    → all_actions fuel (get_resend_stream index from last) ≡ some []
unfolding all_actions get_resend_stream
all_actions_done index last from zero h = refl
all_actions_done index last from (suc fuel) h = ground arith

all_actions_more :
    (index : List MsgIndex) (last from fuel : ℕ) (a : ResendAction) (t : ResendStream)
    (rest : List ResendAction)
    → from ≤ last
    → next (get_resend_stream index from last) ≡ some (a, t)
    → all_actions fuel t ≡ some rest
    → all_actions (suc fuel) (get_resend_stream index from last) ≡ some (a ∷ rest)
unfolding all_actions has_next get_resend_stream
all_actions_more index last from fuel a t rest h step run =
    let test : leb from last ≡ true = ground arith in rw (test, step, run) refl

-- Started inside the index, or just behind its last number, the walk ends within as many rounds as
-- there are numbers, touches nothing outside the index, and its actions tile the numbers asked for.
pub all_actions_lem :
    (index : List MsgIndex) (last fuel from : ℕ)
    → last ≤ length index
    → last + 1 < 2 ^ 32
    → 0 < from
    → from ≤ last + 1
    → last + 1 ≤ fuel + from
    → (rest : List ResendAction) × (all_actions fuel (get_resend_stream index from last)
        ≡ some rest)
      × Tiles index last from rest
all_actions_lem index last zero from stored fits p h f =
    ([], all_actions_done index last from zero (omega arith), omega arith)
all_actions_lem index last (suc fuel) from stored fits p h f = elim (Bool-cases (leb from last)) [
  | inr e ↦ ([], all_actions_done index last from (suc fuel) (ground arith), ground arith)
  | inl e ↦
      let le = leb→le from last e in
      let (a, run, ans) = Step-of_stop index last from p le fits (
        skip_from_lem index last stored fits (last + 2 - from) from p (omega arith)
          (omega arith)) in
      let (rest, runs, tiles) =
        all_actions_lem index last fuel (a.end_seq_no + 1) stored fits (omega arith)
          (omega (arith, ans.ends)) (omega (arith, ans.ordered)) in
      (a ∷ rest, all_actions_more index last from fuel a _ rest le run runs, (ans, tiles))
]
