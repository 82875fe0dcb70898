-- ===== src/Chars/Decimal.antt =====
-- A printed decimal number is read back: `from_chars` after `to_chars`.
use fix_engine.Prelude.{
  ℕ, zero, suc, ◌+◌, ◌-◌, ◌*◌, ◌/◌, ◌%◌, ◌^◌, ◌≤◌, ◌<◌, ◌≡◌, refl, ◌∙◌, ap, ltb→lt, true, false, [],
  ◌∷◌, ◌++◌, Bytes, some, arith, length, ltb, Bool-cases, inl, inr,
}
use native.Mathlib.Nat.{pow-suc}
use fix_engine.Chars.{scan_digits, from_chars, digits_before, to_chars, is_digit}

-- The text ends, or goes on with something that is no digit.
abbrev pub EndsNumber : Bytes → Type 0
EndsNumber [] = Unit {0}
EndsNumber (c ∷ cs) = is_digit c ≡ false

-- Every byte is a digit.
abbrev pub AllDigits : Bytes → Type 0
AllDigits [] = Unit {0}
AllDigits (c ∷ cs) = (is_digit c ≡ true) × AllDigits cs

scan_digits_stop : (s : Bytes) (acc k : ℕ) → EndsNumber s → scan_digits s acc k ≡ (acc, k)
unfolding scan_digits
scan_digits_stop [] acc k h = refl
scan_digits_stop (c ∷ cs) acc k h = ground arith

scan_digits_digit :
    (d : ℕ) (s : Bytes) (acc k : ℕ)
    → d < 10
    → scan_digits ((b'0' + d) ∷ s) acc k ≡ scan_digits s (acc * 10 + d) (k + 1)
unfolding scan_digits
scan_digits_digit d s acc k h =
    let e : b'0' + d - b'0' ≡ d = omega arith in
    let digit : is_digit (b'0' + d) ≡ true = ground arith in rw (digit, e) refl

-- What a printed number does for a reader, and how long it is.
record Prints (n : ℕ) (s acc rest : Bytes) : Type 0 where
  count : ℕ
  some_digits : 0 < count
  reads : scan_digits (s ++ rest) 0 0 ≡ scan_digits (acc ++ rest) n count
  size : length s ≡ count + length acc

digits_before-Prints :
    (f n : ℕ) (acc rest : Bytes) → n ≤ f → Prints n (digits_before f n acc) acc rest
unfolding digits_before
digits_before-Prints zero n acc rest h = record {
  count = 1;
  some_digits = omega arith;
  reads =
      scan_digits_digit (n % 10) (acc ++ rest) 0 0 (omega arith)
      ∙ ap (λ v. scan_digits (acc ++ rest) v 1) (omega arith);
  size = omega arith;
}
digits_before-Prints (suc f) n acc rest h = elim (Bool-cases (ltb n 10)) [
  | inl e ↦ rw e (record {
    count = 1;
    some_digits = omega arith;
    reads =
        scan_digits_digit n (acc ++ rest) 0 0 (ltb→lt n 10 e)
        ∙ ap (λ v. scan_digits (acc ++ rest) v 1) (omega arith);
    size = omega arith;
  })
  | inr e ↦
      let p = digits_before-Prints f (n / 10) ((b'0' + n % 10) ∷ acc) rest (ground arith) in
      rw e (record {
        count = p.count + 1;
        some_digits = omega arith;
        reads =
            p.reads
            ∙ scan_digits_digit (n % 10) (acc ++ rest) (n / 10) p.count (omega arith)
            ∙ ap (λ v. scan_digits (acc ++ rest) v (p.count + 1)) (omega arith);
        size = omega (arith, p.size);
      })
]

-- A number below the limit, printed by `to_chars` and followed by no digit, is read back by
-- `from_chars`, which takes all of its characters.
pub from_chars-to_chars :
    (limit n : ℕ) (rest : Bytes)
    → n < limit
    → EndsNumber rest
    → from_chars limit (to_chars n ++ rest) ≡ some (n, length (to_chars n))
unfolding from_chars to_chars
from_chars-to_chars limit n rest h e =
    let p = digits_before-Prints n n [] rest (omega arith) in
    let eq = p.reads ∙ scan_digits_stop rest n p.count e in
    let size : length (digits_before n n []) ≡ p.count = omega (arith, p.size) in
    rw (eq, size) (ground (arith, p.some_digits))

digits_before-AllDigits :
    (f n : ℕ) (acc : Bytes) → n ≤ f → AllDigits acc → AllDigits (digits_before f n acc)
unfolding digits_before
digits_before-AllDigits zero n acc h a = (ground arith, a)
digits_before-AllDigits (suc f) n acc h a = elim (Bool-cases (ltb n 10)) [
  | inl e ↦ rw e (ground arith, a)
  | inr e ↦
      rw e (
        digits_before-AllDigits f (n / 10) ((b'0' + n % 10) ∷ acc) (ground arith) (ground arith, a))
]

pub to_chars-AllDigits : (n : ℕ) → AllDigits (to_chars n)
unfolding to_chars
to_chars-AllDigits n = digits_before-AllDigits n n [] (omega arith) tt

pub to_chars_some : (n : ℕ) → 0 < length (to_chars n)
unfolding to_chars
to_chars_some n =
    let p = digits_before-Prints n n [] [] (omega arith) in omega (arith, p.some_digits, p.size)

digits_before-le :
    (k f n : ℕ) (acc : Bytes)
    → n ≤ f
    → n < 10 ^ suc k
    → length (digits_before f n acc) ≤ suc k + length acc
unfolding digits_before
digits_before-le k zero n acc h b = omega arith
digits_before-le k (suc f) n acc h b = elim (Bool-cases (ltb n 10)) [
  | inl e ↦ rw e (omega arith)
  | inr e ↦ rw e (
      more k b (ground arith)
        (λ j lt. digits_before-le j f (n / 10) ((b'0' + n % 10) ∷ acc) (omega arith) lt))
]
  where
    more :
        (j : ℕ)
        → n < 10 ^ suc j
        → 10 ≤ n
        → ((i : ℕ)
            → n / 10 < 10 ^ suc i
            → length (digits_before f (n / 10) ((b'0' + n % 10) ∷ acc)) ≤ suc i + suc (length acc))
        → length (digits_before f (n / 10) ((b'0' + n % 10) ∷ acc)) ≤ suc j + length acc
    more zero lt ge rec = absurd (omega arith)
    more (suc j) lt ge rec =
        let smaller : n / 10 < 10 ^ suc j = omega (arith, pow-suc 10 (suc j)) in
        omega (arith, rec j smaller)

-- A number below 10^(k + 1) has at most k + 1 digits.
pub length-to_chars : (k n : ℕ) → n < 10 ^ suc k → length (to_chars n) ≤ suc k
unfolding to_chars
length-to_chars k n h = omega (arith, digits_before-le k n n [] (omega arith) h)
