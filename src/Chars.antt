-- ===== src/Chars.antt =====
-- What the engine uses of <charconv> and std::string_view, over byte strings: searching, slicing,
-- reading and printing decimal numbers.
pub mod Decimal
pub mod Search
mod Tests
use Prim.Native.String.{String}
use Prim.Native.Char.{code}
use fix_engine.Prelude.{
  ℕ, zero, suc, ◌+◌, ◌-◌, ◌*◌, ◌/◌, ◌%◌, ◌^◌, Bool, true, false, ◌&&◌, [], ◌∷◌, Bytes, Option, none,
  some, ltb, leb, ◌==◌, if◌then◌else◌, length, take, drop,
}
use mathlib.Core.Option

-- The bytes of an ASCII literal.
abbrev pub codes : String → Bytes
codes String.[] = []
codes (String.◌∷◌ c s) = code c ∷ codes s

-- '\x01', which ends a field
abbrev pub soh : ℕ
soh = 1

-- operator== of two string views
unfoldable pub same : Bytes → Bytes → Bool
same [] [] = true
same [] (y ∷ ys) = false
same (x ∷ xs) [] = false
same (x ∷ xs) (y ∷ ys) = x == y && same xs ys

-- The offset of the first `c`.
unfoldable pub index_of : ℕ → Bytes → Option ℕ
index_of c [] = none
index_of c (x ∷ xs) = if x == c then some 0 else Option.map suc (index_of c xs)

-- sv.find(c, pos)
abbrev pub find : ℕ → Bytes → ℕ → Option ℕ
find c s pos = Option.map (λ i. pos + i) (index_of c (drop pos s))

unfoldable pub starts_with : Bytes → Bytes → Bool
starts_with [] s = true
starts_with (p ∷ ps) [] = false
starts_with (p ∷ ps) (x ∷ xs) = p == x && starts_with ps xs

-- The offset of the first occurrence of a text that is not empty.
unfoldable pub index_of_str : Bytes → Bytes → Option ℕ
unfolding starts_with
index_of_str p [] = none
index_of_str p (x ∷ xs) =
    if starts_with p (x ∷ xs) then some 0 else Option.map suc (index_of_str p xs)

-- sv.find(p, pos)
abbrev pub find_str : Bytes → Bytes → ℕ → Option ℕ
find_str p s pos = Option.map (λ i. pos + i) (index_of_str p (drop pos s))

-- sv.rfind(p), for a text that is not empty
unfoldable pub rfind_str : Bytes → Bytes → Option ℕ
unfolding starts_with
rfind_str p [] = none
rfind_str p (x ∷ xs) = elim (rfind_str p xs) [
  | some i ↦ some (suc i)
  | none ↦ if starts_with p (x ∷ xs) then some 0 else none
]

-- sv.substr(pos, n); callers pass a position inside the text.
abbrev pub substr : Bytes → ℕ → ℕ → Bytes
substr s pos n = take n (drop pos s)

abbrev pub is_digit : ℕ → Bool
is_digit c = leb b'0' c && leb c b'9'

-- The value of the digits at the front, and how many there are.
unfoldable pub scan_digits : Bytes → ℕ → ℕ → ℕ × ℕ
scan_digits [] acc k = (acc, k)
scan_digits (c ∷ cs) acc k =
    let rest = scan_digits cs (acc * 10 + (c - b'0')) (k + 1) in
    if is_digit c then rest else (acc, k)

-- std::from_chars into an unsigned type whose values are below `limit`: the value and how many
-- characters it took, or `none` where `ec` is set and the output is left alone.
unfoldable pub from_chars : ℕ → Bytes → Option (ℕ × ℕ)
unfolding scan_digits
from_chars limit s =
    let (v, k) = scan_digits s 0 0 in
    if k == 0 then none else if ltb v limit then some (v, k) else none

-- The digits of `n` in front of `acc`; `n` itself is enough fuel.
unfoldable pub digits_before : ℕ → ℕ → Bytes → Bytes
digits_before zero n acc = (b'0' + n % 10) ∷ acc
digits_before (suc f) n acc =
    let more = digits_before f (n / 10) ((b'0' + n % 10) ∷ acc) in
    if ltb n 10 then (b'0' + n) ∷ acc else more

-- std::to_chars of an unsigned number
unfoldable pub to_chars : ℕ → Bytes
unfolding digits_before
to_chars n = digits_before n n []

-- std::to_chars of the `int64_t` whose bit pattern is `v`
unfoldable pub to_chars_int64 : ℕ → Bytes
unfolding to_chars
to_chars_int64 v = if ltb v (2 ^ 63) then to_chars v else b'-' ∷ to_chars (2 ^ 64 - v)
