-- ===== src/Chars/Search.antt =====
-- Searching and slicing at a known place of a text.
use fix_engine.Prelude.{
  ℕ, ◌+◌, ◌≡◌, refl, ◌∙◌, ap, true, false, [], ◌∷◌, ◌++◌, Bytes, some, arith, ◌==◌, ==_iff,
  and-true, length, take, drop,
}
use fix_engine.Chars.{index_of, find, substr, rfind_str, same}

-- The byte does not occur in the text.
abbrev pub Lacks : ℕ → Bytes → Type 0
Lacks c [] = Unit {0}
Lacks c (x ∷ xs) = ((x == c) ≡ false) × Lacks c xs

pub drop-append_length : (xs ys : Bytes) → drop (length xs) (xs ++ ys) ≡ ys
drop-append_length [] ys = refl
drop-append_length (x ∷ xs) ys = drop-append_length xs ys

pub take-append_length : (xs ys : Bytes) → take (length xs) (xs ++ ys) ≡ xs
take-append_length [] ys = refl
take-append_length (x ∷ xs) ys = ap (λ r. x ∷ r) (take-append_length xs ys)

pub index_of-append :
    (c : ℕ) (xs ys : Bytes) → Lacks c xs → index_of c (xs ++ c ∷ ys) ≡ some (length xs)
unfolding index_of
index_of-append c [] ys h = ground arith
index_of-append c (x ∷ xs) ys h = rw (h.0, index_of-append c xs ys h.1) refl

-- The search from the end of `pre` on.
pub find_at :
    (c : ℕ) (frame pre xs ys : Bytes) (pos : ℕ)
    → frame ≡ pre ++ (xs ++ c ∷ ys)
    → pos ≡ length pre
    → Lacks c xs
    → find c frame pos ≡ some (pos + length xs)
find_at c frame pre xs ys pos e at h =
    rw (e, at, drop-append_length pre (xs ++ c ∷ ys), index_of-append c xs ys h) refl

pub substr_at :
    (frame pre xs ys : Bytes) (pos n : ℕ)
    → frame ≡ pre ++ (xs ++ ys)
    → pos ≡ length pre
    → n ≡ length xs
    → substr frame pos n ≡ xs
substr_at frame pre xs ys pos n e at size =
    rw (e, at, size, drop-append_length pre (xs ++ ys)) (take-append_length xs ys)

-- The last occurrence in a text is the last one in any end of it that has one.
pub rfind_str-append :
    (p xs s : Bytes) (k : ℕ) → rfind_str p s ≡ some k → rfind_str p (xs ++ s) ≡ some (length xs + k)
unfolding rfind_str
rfind_str-append p [] s k h = h ∙ ap some (omega arith)
rfind_str-append p (x ∷ xs) s k h = rw (rfind_str-append p xs s k h) (ap some (omega arith))

-- The bytes that `same` compares are equal.
pub same_lem : (xs ys : Bytes) → same xs ys ≡ true → xs ≡ ys
unfolding same
same_lem [] [] e = refl
same_lem [] (y ∷ ys) e = ground (arith, e)
same_lem (x ∷ xs) [] e = ground (arith, e)
same_lem (x ∷ xs) (y ∷ ys) e =
    let both = and-true (x == y) (same xs ys) e in
    ap (λ z. z ∷ xs) ((==_iff x y).0 both.0) ∙ ap (λ zs. y ∷ zs) (same_lem xs ys both.1)
