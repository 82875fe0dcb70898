-- ===== src/Parser/RoundTrip.antt =====
-- Fields written out one after the other, with the CheckSum field behind them, are parsed back.
use fix_engine.Prelude.{
  ℕ, zero, suc, ◌+◌, ◌-◌, ◌%◌, ◌^◌, ◌≤◌, ◌<◌, ◌≡◌, refl, sym, ◌∙◌, ap, true, List, [], ◌∷◌, ◌++◌,
  append-nil, append_assoc, Bytes, some, arith, ltb, ◌==◌, ==_iff, if_no, if_yes, length,
  length-append, take,
}
use native.Mathlib.Nat.{add-zero}
use fix_engine.Chars.{codes, soh, from_chars, to_chars}
use fix_engine.Chars.Decimal.{AllDigits, from_chars-to_chars, to_chars-AllDigits, length-to_chars}
use fix_engine.Chars.Search.{Lacks, find_at, substr_at, take-append_length, rfind_str-append}
use fix_engine.FactoryScratch.{sum}
use fix_engine.FactoryScratch.Trailer.{three_digits, checksum_field}
use fix_engine.Message.{FieldView}
use fix_engine.Parser.{
  ParserContext, parser_max_tag_size, whole_number, parse_value, parse_field, parse_fields,
  checksum_holds, parse,
}
use fix_engine.Parser.Checksum.{three_digits_lem}

-- A field as it is written out.
abbrev pub wire_field : FieldView → Bytes
wire_field f = to_chars f.tag ++ (b'=' ∷ (f.value ++ soh ∷ []))

abbrev pub wire_fields : List FieldView → Bytes
wire_fields [] = []
wire_fields (f ∷ fs) = wire_field f ++ wire_fields fs

-- A tag of at most seven digits, and a value that is not empty and holds no SOH.
pub record IsClean (f : FieldView) : Type 0 where
  pub tag_small : f.tag < 10 ^ 7
  pub some_value : 0 < length f.value
  pub no_soh : Lacks soh f.value

abbrev pub AllClean : List FieldView → Type 0
AllClean [] = Unit {0}
AllClean (f ∷ fs) = IsClean f × AllClean fs

digits-Lacks : (s : Bytes) → AllDigits s → Lacks b'=' s
digits-Lacks [] d = tt
digits-Lacks (c ∷ cs) d = (ground (arith, d.0), digits-Lacks cs d.1)

whole_number-to_chars : (n : ℕ) → n < 2 ^ 32 → whole_number (2 ^ 32) (to_chars n) ≡ some n
unfolding whole_number
whole_number-to_chars n h =
    let read =
      ap (from_chars (2 ^ 32)) (sym (append-nil (to_chars n)))
      ∙ from_chars-to_chars (2 ^ 32) n [] h tt in
    rw (whole_number, read) (rw (==_iff (length (to_chars n)) _).1 refl)

-- One field at `pos`, which `rest` follows.
module _ (go : List FieldView → ℕ → ParserContext) (frame pre rest : Bytes) (f : FieldView)
    (fields : List FieldView) (pos : ℕ) (e : frame ≡ pre ++ (wire_field f ++ rest))
    (at : pos ≡ length pre) (clean : IsClean f) where
  behind_tag : Bytes
  behind_tag = pre ++ (to_chars f.tag ++ b'=' ∷ [])

  tag_end : ℕ
  tag_end = pos + length (to_chars f.tag)

  ends : pos + length (wire_field f) ≡ tag_end + 1 + length f.value + 1
  unfolding tag_end
  ends = omega (
    arith,
    length-append (to_chars f.tag) (b'=' ∷ (f.value ++ soh ∷ [])),
    length-append f.value (soh ∷ []),
  )

  short : length (to_chars f.tag) ≤ 7
  short = length-to_chars 6 f.tag clean.tag_small

  to_value : frame ≡ behind_tag ++ (f.value ++ soh ∷ rest)
  unfolding behind_tag
  to_value = e ∙ simp append_assoc

  to_tag : frame ≡ pre ++ (to_chars f.tag ++ (b'=' ∷ (f.value ++ soh ∷ rest)))
  to_tag = e ∙ simp append_assoc

  value_lem :
      parse_value go frame fields f.tag (tag_end + 1)
      ≡ go (fields ++ f ∷ []) (pos + length (wire_field f))
  unfolding parse_value behind_tag tag_end
  value_lem =
      let at' : tag_end + 1 ≡ length behind_tag = omega (
        arith,
        length-append pre (to_chars f.tag ++ b'=' ∷ []),
        length-append (to_chars f.tag) (b'=' ∷ []),
      ) in
      let found =
        find_at soh frame behind_tag f.value rest (tag_end + 1) to_value at' clean.no_soh in
      let cut =
        substr_at frame behind_tag f.value (soh ∷ rest) (tag_end + 1)
          (tag_end + 1 + length f.value - (tag_end + 1)) to_value at' (omega arith) in
      rw (found, parse_value)
        (rw cut (
          if_no (length f.value == 0) _ _ (ground (arith, clean.some_value))
          ∙ ap (go (fields ++ f ∷ [])) (sym ends)))

  field_lem : parse_field go frame fields pos ≡ go (fields ++ f ∷ []) (pos + length (wire_field f))
  unfolding parse_field tag_end
  field_lem =
      let found =
        find_at b'=' frame pre (to_chars f.tag) (f.value ++ soh ∷ rest) pos to_tag at
          (digits-Lacks (to_chars f.tag) (to_chars-AllDigits f.tag)) in
      let cut =
        substr_at frame pre (to_chars f.tag) (b'=' ∷ (f.value ++ soh ∷ rest)) pos
          (pos + length (to_chars f.tag) - pos) to_tag at (omega arith) in
      rw (found, parse_field)
        (rw cut (
          if_no (ltb parser_max_tag_size (pos + length (to_chars f.tag) - pos)) _ _
            (ground (arith, short))
          ∙ rw (whole_number-to_chars f.tag (omega (arith, clean.tag_small))) value_lem))

wire_field_size : (f : FieldView) → 2 ≤ length (wire_field f)
wire_field_size f = omega (
  arith,
  length-append (to_chars f.tag) (b'=' ∷ (f.value ++ soh ∷ [])),
  length-append f.value (soh ∷ []),
)

wire_fields_size : (f : FieldView) (fs : List FieldView) → 2 ≤ length (wire_fields (f ∷ fs))
wire_fields_size f fs =
    omega (arith, wire_field_size f, length-append (wire_field f) (wire_fields fs))

-- The fields still to be parsed are `fs`; `tail` is the CheckSum field.
module _ (frame checksum_str tail : Bytes) (checksum_pos : ℕ) where
  parse_fields_lem :
      (fuel : ℕ) (fs fields : List FieldView) (pre : Bytes) (pos : ℕ)
      → frame ≡ pre ++ (wire_fields fs ++ tail)
      → pos ≡ length pre
      → checksum_pos ≡ pos + length (wire_fields fs)
      → length (wire_fields fs) ≤ fuel
      → AllClean fs
      → parse_fields fuel frame checksum_pos checksum_str fields pos ≡ record {
        out_msg = (fields ++ fs) ++ record { value = checksum_str; tag = 10 } ∷ [];
        out_errs = [];
      }
  unfolding parse_fields
  parse_fields_lem zero [] fields pre pos e at ends h clean = rw append-nil refl
  parse_fields_lem (suc fuel) [] fields pre pos e at ends h clean =
      if_no (ltb pos checksum_pos) _ _ (ground (arith, ends)) ∙ rw append-nil refl
  parse_fields_lem zero (f ∷ fs) fields pre pos e at ends h clean =
      absurd (omega (arith, wire_fields_size f fs))
  parse_fields_lem (suc fuel) (f ∷ fs) fields pre pos e at ends h clean =
      let rest = wire_fields fs ++ tail in
      let size = length-append (wire_field f) (wire_fields fs) in
      let here : frame ≡ pre ++ (wire_field f ++ rest) =
        e ∙ ap (λ r. pre ++ r) (append_assoc (wire_field f) (wire_fields fs) tail) in
      let behind = here ∙ sym (append_assoc pre (wire_field f) rest) in
      let later =
        parse_fields_lem fuel fs (fields ++ f ∷ []) (pre ++ wire_field f)
          (pos + length (wire_field f)) behind (omega (arith, length-append pre (wire_field f)))
          (omega (arith, size)) (omega (arith, size, wire_field_size f)) clean.1 in
      if_yes (ltb pos checksum_pos) _ _ (ground (arith, ends, size, wire_field_size f))
      ∙ (field_lem (parse_fields fuel frame checksum_pos checksum_str) frame pre rest f fields pos
            here at clean.0
          ∙ (later ∙ rw (append_assoc fields (f ∷ []) fs) refl))

checksum_lem :
    (frame w digits : Bytes) (at : ℕ)
    → whole_number (2 ^ 16) digits ≡ some (sum w % 256)
    → take at frame ≡ w
    → checksum_holds frame at digits ≡ true
unfolding checksum_holds
checksum_lem frame w digits at reads all =
    rw (reads, checksum_holds) (rw all ((==_iff (sum w % 256) _).1 refl))

-- The trailer of a message: its last three digits are the sum of all bytes before its field.
abbrev pub sum_digits : List FieldView → Bytes
sum_digits fs = three_digits (sum (wire_fields fs) % 256)

-- Fields whose tags have at most seven digits and whose values are not empty and hold no SOH, written
-- out in order and closed by the CheckSum field of their bytes, are parsed without error into the same
-- fields in the same order, with the CheckSum field behind them.
pub parse-wire_fields :
    (fs : List FieldView)
    → AllClean fs
    → parse (wire_fields fs ++ checksum_field (wire_fields fs))
      ≡ record { out_msg = fs ++ record { value = sum_digits fs; tag = 10 } ∷ []; out_errs = [] }
unfolding parse
parse-wire_fields fs clean =
    let w = wire_fields fs in
    let c = checksum_field w in
    let (size, reads, last) = three_digits_lem (sum w % 256) (omega arith) in
    let found = rfind_str-append (codes "10=") w c 0 last in
    let cut =
      substr_at (w ++ c) (w ++ codes "10=") (sum_digits fs) (soh ∷ []) (length w + 0 + 3) 3
        (sym (append_assoc w (codes "10=") (sum_digits fs ++ soh ∷ [])))
        (omega (arith, length-append w (codes "10="))) (omega (arith, size)) in
    let all : take (length w + 0) (w ++ c) ≡ w = rw add-zero (take-append_length w c) in
    rw (found, parse)
      (rw (cut, checksum_lem (w ++ c) w (sum_digits fs) (length w + 0) reads all)
        (parse_fields_lem (w ++ c) (sum_digits fs) c (length w + 0) (length w + 0) fs [] [] 0 refl
          refl (omega arith) (omega arith) clean))
