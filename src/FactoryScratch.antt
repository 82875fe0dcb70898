-- ===== src/FactoryScratch.antt =====
-- `FactoryScratch` of include/fix/core/MessageFactory.hpp and src/FactoryScratch.cpp: the growing
-- buffer in which an outgoing message is built, its BodyLength and CheckSum filled in at the end.
-- Differences of offsets are those of `size_t`, so they wrap; a violated `assert` is `none`.
pub mod View
pub mod Trailer
use fix_engine.Prelude.{
  ℕ, zero, suc, ◌+◌, ◌-◌, ◌%◌, ◌^◌, max, Bool, true, false, ◌&&◌, [], ◌∷◌, ◌++◌, Bytes, Option, ltb,
  leb, ◌==◌, if◌then◌else◌, length, replicate, ◌>>=◌, ◌>>◌, some, assert,
}
use fix_engine.Prelude.Memory.{Memory, fresh, read, write}
use fix_engine.Chars.{codes, soh, to_chars, to_chars_int64}

pub record FactoryScratch : Type 0 where
  pub buffer : Memory
  pub buffer_size : ℕ
  pub position : ℕ
  pub body_length_offset : ℕ
  pub body_length_digit_size : ℕ
  pub checksum_offset : ℕ

abbrev pub min_grow_size : ℕ
min_grow_size = 1024

-- The constructor.
unfoldable pub init : FactoryScratch
init = record {
  buffer = fresh;
  buffer_size = 65536;
  position = 0;
  body_length_offset = 0;
  body_length_digit_size = 10;
  checksum_offset = 0;
}

unfoldable pub reset : FactoryScratch → FactoryScratch
reset s = record s {
  position = 0;
  body_length_offset = 0;
  body_length_digit_size = 10;
  checksum_offset = 0;
}

unfoldable pub grow : FactoryScratch → ℕ → FactoryScratch
grow s extra = record s {
  buffer = write fresh 0 (read s.buffer 0 s.position);
  buffer_size = s.buffer_size + extra;
}

-- The growing step of `add_string`, and that of `add_char`.
unfoldable pub make_room : FactoryScratch → ℕ → FactoryScratch
make_room s n =
    if ltb s.buffer_size (s.position + n)
    then grow s (max (s.position + n - s.buffer_size) min_grow_size)
    else s

unfoldable pub put : FactoryScratch → Bytes → FactoryScratch
put s bytes = record s {
  buffer = write s.buffer s.position bytes;
  position = s.position + length bytes;
}

unfoldable pub add_string : FactoryScratch → Bytes → FactoryScratch
add_string s sv = put (make_room s (length sv)) sv

unfoldable pub add_char : FactoryScratch → ℕ → FactoryScratch
add_char s c = put (if ltb s.buffer_size (s.position + 1) then grow s min_grow_size else s) (c ∷ [])

unfoldable pub add_int : FactoryScratch → ℕ → FactoryScratch
add_int s value = add_string s (to_chars_int64 value)

unfoldable pub add_equal_sign : FactoryScratch → FactoryScratch
add_equal_sign s = add_char s b'='

unfoldable pub add_soh : FactoryScratch → FactoryScratch
add_soh s = add_char s soh

-- add_field(int64_t, std::string_view)
unfoldable pub add_field : FactoryScratch → ℕ → Bytes → FactoryScratch
add_field s tag value = add_soh (add_string (add_equal_sign (add_int s tag)) value)

-- add_field(int64_t, int64_t)
unfoldable pub add_field_int : FactoryScratch → ℕ → ℕ → FactoryScratch
add_field_int s tag value = add_soh (add_int (add_equal_sign (add_int s tag)) value)

-- for (i = 0; i < n; ++i) add_char(c)
unfoldable pub add_chars : ℕ → ℕ → FactoryScratch → FactoryScratch
add_chars zero c s = s
add_chars (suc n) c s = add_chars n c (add_char s c)

unfoldable pub add_body_length_placeholder : FactoryScratch → FactoryScratch
add_body_length_placeholder s =
    let s1 = add_equal_sign (add_int s 9) in
    let s2 = record s1 { body_length_offset = s1.position } in
    add_soh (add_chars s2.body_length_digit_size b'0' s2)

unfoldable pub compute_body_length : FactoryScratch → ℕ
compute_body_length s =
    (s.position + 2 ^ 64 - (s.body_length_offset + s.body_length_digit_size + 1)) % 2 ^ 64

unfoldable pub sum : Bytes → ℕ
sum [] = 0
sum (b ∷ bs) = b + sum bs

-- The sum of a `uint64_t`, of which only the last byte counts.
unfoldable pub compute_checksum : FactoryScratch → ℕ
compute_checksum s = sum (read s.buffer 0 s.checksum_offset) % 256

unfoldable pub insert_checksum : FactoryScratch → FactoryScratch
insert_checksum s0 =
    let s = record s0 { checksum_offset = s0.position } in
    let digits = to_chars (compute_checksum s) in
    let len = length digits in
    let s1 = add_equal_sign (add_string s (codes "10")) in
    let s2 = if ltb len 3 then add_chars (3 - len) b'0' s1 else s1 in add_soh (add_string s2 digits)

-- memcpy of the digits over the placeholder, then memmove of what stands behind the placeholder.
unfoldable pub insert_body_length : FactoryScratch → FactoryScratch
insert_body_length s =
    let digits = to_chars (compute_body_length s) in
    let len = length digits in
    let behind = s.body_length_offset + s.body_length_digit_size in
    let buffer1 = write s.buffer s.body_length_offset digits in
    record s {
      buffer =
          write buffer1 (s.body_length_offset + len) (read buffer1 behind (s.position - behind));
      position = (s.position + 2 ^ 64 - (s.body_length_digit_size - len)) % 2 ^ 64;
      body_length_digit_size = len;
    }

unfoldable pub edit_window : FactoryScratch → ℕ → ℕ → Bytes → Option FactoryScratch
edit_window s offset len new_data = do
  assert (length new_data == len)
  assert (leb (offset + len) s.position)
  some (record s { buffer = write s.buffer offset new_data })

unfoldable pub get_buffer_view : FactoryScratch → Bytes
get_buffer_view s = read s.buffer 0 s.position
