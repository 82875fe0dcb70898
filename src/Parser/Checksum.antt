-- ===== src/Parser/Checksum.antt =====
-- The CheckSum field as the parser reads it: all 256 sums, by evaluation.
use fix_engine.Prelude.{
  ℕ, zero, suc, ◌^◌, ◌<◌, ◌≡◌, refl, Bool, true, false, ◌&&◌, [], ◌∷◌, ◌++◌, Option, none, some,
  arith, ◌==◌, ==_iff, and-true, length, Bool-cases, inl, inr, ap, ◌∙◌,
}
use fix_engine.Chars.{
  codes, soh, rfind_str, starts_with, to_chars, digits_before, from_chars, scan_digits,
}
use fix_engine.FactoryScratch.Trailer.{three_digits}
use fix_engine.Parser.{whole_number}

-- Does the test hold of 0 up to the number before `limit`?
each_up_to : (ℕ → Bool) → ℕ → Bool
each_up_to test zero = true
each_up_to test (suc limit) = each_up_to test limit && test limit

each_up_to_lem :
    (test : ℕ → Bool) (limit i : ℕ) → each_up_to test limit ≡ true → i < limit → test i ≡ true
unfolding each_up_to
each_up_to_lem test zero i e below = ground (arith, below)
each_up_to_lem test (suc limit) i e below =
    let both = and-true (each_up_to test limit) (test limit) e in
    elim (Bool-cases (i == limit)) [
      | inl last ↦ ap test ((==_iff i limit).0 last) ∙ both.1
      | inr before ↦ each_up_to_lem test limit i both.0 (ground (arith, below, before))
    ]

abbrev holds : Option ℕ → ℕ → Bool
holds none n = false
holds (some m) n = m == n

holds_some : (o : Option ℕ) (n : ℕ) → holds o n ≡ true → o ≡ some n
holds_some none n h = cc
holds_some (some m) n h = ground arith

-- Three digits that are read back, and a field found at its start.
reads_back : ℕ → Bool
reads_back n =
    let d = three_digits n in
    (length d == 3)
    && (holds (whole_number (2 ^ 16) d) n
        && holds (rfind_str (codes "10=") (codes "10=" ++ (d ++ soh ∷ []))) 0)

table : each_up_to reads_back 256 ≡ true
unfolding each_up_to reads_back whole_number rfind_str starts_with to_chars digits_before from_chars
    scan_digits
table = refl

-- The three digits of a sum are read as that sum, and the last "10=" is the one before them.
pub three_digits_lem :
    (n : ℕ)
    → n < 256
    → (length (three_digits n) ≡ 3)
      × (whole_number (2 ^ 16) (three_digits n) ≡ some n)
      × (rfind_str (codes "10=") (codes "10=" ++ (three_digits n ++ soh ∷ [])) ≡ some 0)
unfolding reads_back
three_digits_lem n h =
    let both =
      and-true (length (three_digits n) == 3) _ (each_up_to_lem reads_back 256 n table h) in
    let two = and-true (holds (whole_number (2 ^ 16) (three_digits n)) n) _ both.1 in
    ((==_iff _ 3).0 both.0, holds_some _ n two.0, holds_some _ 0 two.1)
