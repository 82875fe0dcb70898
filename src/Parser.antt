-- ===== src/Parser.antt =====
-- include/fix/core/Parser.hpp and src/Parser.cpp: from a framed message to its fields.
pub mod Checksum
pub mod RoundTrip
mod Tests
use fix_engine.Prelude.{
  ℕ, zero, suc, ◌+◌, ◌-◌, ◌%◌, ◌^◌, Bool, false, List, [], ◌∷◌, ◌++◌, Bytes, Option, none, some,
  ltb, ◌==◌, if◌then◌else◌, length, take,
}
use fix_engine.Chars.{codes, soh, find, rfind_str, substr, from_chars}
use fix_engine.FactoryScratch.{sum}
use fix_engine.Message.{FieldView}

-- `ParseError` of include/fix/error/ParserErrors.hpp
pub data ParseError : Type 0 where
  no_tag max_tag_size malformed_tag missing_equal_sign missing_value failed_checksum missing_soh :
      ParseError

pub record ParseErrorInfo : Type 0 where
  pub tag : ℕ
  pub code : ParseError

-- `ParserContext`, which `parse` fills.
pub record ParserContext : Type 0 where
  pub out_msg : List FieldView
  pub out_errs : List ParseErrorInfo

abbrev pub parser_max_tag_size : ℕ
parser_max_tag_size = 7

abbrev pub fail : List FieldView → ℕ → ParseError → ParserContext
fail fields tag code = record {
  out_msg = fields;
  out_errs = record { tag = tag; code = code } ∷ [];
}

-- A number that takes the whole text.
unfoldable pub whole_number : ℕ → Bytes → Option ℕ
whole_number limit str = elim (from_chars limit str) [
  | none ↦ none
  | some (v, k) ↦ if k == length str then some v else none
]

-- `parse_tag`, into a `uint32_t`
abbrev pub parse_tag : Bytes → Option ℕ
parse_tag str = whole_number (2 ^ 32) str

-- The value of a field, from behind its equal sign on; `go` goes on with the next field.
unfoldable pub parse_value :
    (List FieldView → ℕ → ParserContext) → Bytes → List FieldView → ℕ → ℕ → ParserContext
parse_value go msg_frame fields tag pos = elim (find soh msg_frame pos) [
  | none ↦ fail fields tag missing_soh
  | some soh_pos ↦
      let value = substr msg_frame pos (soh_pos - pos) in
      if length value == 0
      then fail fields tag missing_value
      else go (fields ++ record { value = value; tag = tag } ∷ []) (soh_pos + 1)
]

-- One field, from the start of its tag on.
unfoldable pub parse_field :
    (List FieldView → ℕ → ParserContext) → Bytes → List FieldView → ℕ → ParserContext
parse_field go msg_frame fields pos = elim (find b'=' msg_frame pos) [
  | none ↦ fail fields 0 malformed_tag
  | some equal_pos ↦
      if ltb parser_max_tag_size (equal_pos - pos)
      then fail fields 0 malformed_tag
      else elim (parse_tag (substr msg_frame pos (equal_pos - pos))) [
        | none ↦ fail fields 0 malformed_tag
        | some tag ↦ parse_value go msg_frame fields tag (equal_pos + 1)
      ]
]

-- The loop over the fields in front of the checksum. Each round moves `pos` past an equal sign, so
-- that the checksum's position is enough fuel.
unfoldable pub parse_fields : ℕ → Bytes → ℕ → Bytes → List FieldView → ℕ → ParserContext
parse_fields zero msg_frame checksum_pos checksum_str fields pos = record {
  out_msg = fields ++ record { value = checksum_str; tag = 10 } ∷ [];
  out_errs = [];
}
parse_fields (suc fuel) msg_frame checksum_pos checksum_str fields pos =
    let next =
      parse_field (parse_fields fuel msg_frame checksum_pos checksum_str) msg_frame fields pos in
    if ltb pos checksum_pos then next else record {
      out_msg = fields ++ record { value = checksum_str; tag = 10 } ∷ [];
      out_errs = [];
    }

-- The test of the checksum: a `uint16_t` against the sum of the bytes before it.
unfoldable pub checksum_holds : Bytes → ℕ → Bytes → Bool
checksum_holds msg_frame checksum_pos checksum_str = elim (whole_number (2 ^ 16) checksum_str) [
  | none ↦ false
  | some checksum ↦ sum (take checksum_pos msg_frame) % 256 == checksum
]

unfoldable pub parse : Bytes → ParserContext
parse msg_frame = elim (rfind_str (codes "10=") msg_frame) [
  | none ↦ fail [] 10 failed_checksum
  | some checksum_pos ↦
      let checksum_str = substr msg_frame (checksum_pos + 3) 3 in
      if checksum_holds msg_frame checksum_pos checksum_str
      then parse_fields checksum_pos msg_frame checksum_pos checksum_str [] 0
      else fail [] 10 failed_checksum
]
