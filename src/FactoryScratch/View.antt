-- ===== src/FactoryScratch/View.antt =====
-- The bytes built so far, `get_buffer_view`, under the operations that add to them, grown buffer or
-- not; and that no write leaves the buffer.
use fix_engine.Prelude.{
  ℕ, zero, suc, ◌+◌, ◌≤◌, ◌≡◌, refl, sym, ◌∙◌, ap, ap₂, [], ◌∷◌, ◌++◌, append_assoc, append-nil,
  Bytes, arith, length-append, ltb, length, replicate, Bool-cases, inl, inr,
}
use fix_engine.Prelude.Memory.{
  fresh, read, write, read_copy, read-write_self, read-write_below, read-append, length-read,
}
use fix_engine.Chars.{soh, to_chars_int64}
use fix_engine.FactoryScratch.{
  FactoryScratch, min_grow_size, grow, make_room, put, add_string, add_char, add_int,
  add_equal_sign, add_soh, add_field, add_field_int, add_chars, get_buffer_view,
}

abbrev pub view : FactoryScratch → Bytes
view = get_buffer_view

-- What the operations that add to the view leave alone.
pub record Adds (s t : FactoryScratch) (bytes : Bytes) : Type 0 where
  pub seen : view t ≡ view s ++ bytes
  pub moved : t.position ≡ s.position + length bytes
  pub offset : t.body_length_offset ≡ s.body_length_offset
  pub digits : t.body_length_digit_size ≡ s.body_length_digit_size
  -- Every write stayed inside the buffer.
  pub inside : t.position ≤ t.buffer_size

put-view : (s : FactoryScratch) (bytes : Bytes) → view (put s bytes) ≡ view s ++ bytes
unfolding get_buffer_view put
put-view s bytes =
    read-append (write s.buffer s.position bytes) 0 s.position (length bytes)
    ∙ ap₂ ◌++◌ (read-write_below s.buffer s.position bytes 0 s.position (omega arith)) (
        ap (λ k. read (write s.buffer s.position bytes) k (length bytes)) (omega arith)
        ∙ read-write_self s.buffer s.position bytes)

grow-view : (s : FactoryScratch) (extra : ℕ) → view (grow s extra) ≡ view s
unfolding get_buffer_view grow
grow-view s extra = read_copy s.buffer fresh s.position 0 s.position (omega arith)

-- Making room changes no byte that is in use, and makes it.
record Roomy (s r : FactoryScratch) (n : ℕ) : Type 0 where
  same : view r ≡ view s
  at : r.position ≡ s.position
  offset : r.body_length_offset ≡ s.body_length_offset
  digits : r.body_length_digit_size ≡ s.body_length_digit_size
  room : s.position + n ≤ r.buffer_size

grow-Roomy :
    (s : FactoryScratch) (extra n : ℕ)
    → s.position + n ≤ s.buffer_size + extra
    → Roomy s (grow s extra) n
unfolding grow
grow-Roomy s extra n h = record {
  same = grow-view s extra;
  at = refl;
  offset = refl;
  digits = refl;
  room = h;
}

Roomy-refl : (s : FactoryScratch) (n : ℕ) → s.position + n ≤ s.buffer_size → Roomy s s n
Roomy-refl s n h = record { same = refl; at = refl; offset = refl; digits = refl; room = h }

make_room-Roomy : (s : FactoryScratch) (n : ℕ) → Roomy s (make_room s n) n
unfolding make_room
make_room-Roomy s n = elim (Bool-cases (ltb s.buffer_size (s.position + n))) [
  | inl e ↦ rw e (grow-Roomy s _ n (omega arith))
  | inr e ↦ rw e (Roomy-refl s n (ground arith))
]

put-Adds :
    (s r : FactoryScratch) (bytes : Bytes) → Roomy s r (length bytes) → Adds s (put r bytes) bytes
unfolding put
put-Adds s r bytes m = record {
  seen = put-view r bytes ∙ ap (λ v. v ++ bytes) m.same;
  moved = omega (arith, m.at);
  offset = m.offset;
  digits = m.digits;
  inside = omega (arith, m.at, m.room);
}

pub add_string-Adds : (s : FactoryScratch) (sv : Bytes) → Adds s (add_string s sv) sv
unfolding add_string
add_string-Adds s sv = put-Adds s (make_room s (length sv)) sv (make_room-Roomy s (length sv))

pub add_char-Adds :
    (s : FactoryScratch) (c : ℕ) → s.position ≤ s.buffer_size → Adds s (add_char s c) (c ∷ [])
unfolding add_char
add_char-Adds s c h = elim (Bool-cases (ltb s.buffer_size (s.position + 1))) [
  | inl e ↦
      rw e (put-Adds s (grow s min_grow_size) (c ∷ []) (grow-Roomy s min_grow_size 1 (omega arith)))
  | inr e ↦ rw e (put-Adds s s (c ∷ []) (Roomy-refl s 1 (ground arith)))
]

-- One addition after another.
pub Adds-trans :
    {s t u : FactoryScratch} {xs ys : Bytes} → Adds s t xs → Adds t u ys → Adds s u (xs ++ ys)
Adds-trans {s} {xs = xs} {ys = ys} a b = record {
  seen = b.seen ∙ ap (λ v. v ++ ys) a.seen ∙ append_assoc (view s) xs ys;
  moved = omega (arith, a.moved, b.moved, length-append xs ys);
  offset = b.offset ∙ a.offset;
  digits = b.digits ∙ a.digits;
  inside = b.inside;
}

pub Adds-refl : (s : FactoryScratch) → s.position ≤ s.buffer_size → Adds s s []
Adds-refl s h = record {
  seen = sym (append-nil (view s));
  moved = omega arith;
  offset = refl;
  digits = refl;
  inside = h;
}

pub add_int-Adds : (s : FactoryScratch) (v : ℕ) → Adds s (add_int s v) (to_chars_int64 v)
unfolding add_int
add_int-Adds s v = add_string-Adds s (to_chars_int64 v)

-- The bytes of a field.
abbrev pub field : ℕ → Bytes → Bytes
field tag value = to_chars_int64 tag ++ (b'=' ∷ (value ++ soh ∷ []))

-- A tag, its value by any addition, and what ends the field.
field-Adds :
    (s t : FactoryScratch) (tag : ℕ) (value : Bytes)
    → Adds (add_equal_sign (add_int s tag)) t value
    → Adds s (add_soh t) (field tag value)
unfolding add_equal_sign add_soh
field-Adds s t tag value b =
    let a = add_int-Adds s tag in
    Adds-trans a (
      Adds-trans (add_char-Adds (add_int s tag) b'=' a.inside)
        (Adds-trans b (add_char-Adds t soh b.inside)))

pub add_field-Adds :
    (s : FactoryScratch) (tag : ℕ) (value : Bytes)
    → Adds s (add_field s tag value) (field tag value)
unfolding add_field
add_field-Adds s tag value = field-Adds s _ tag value (add_string-Adds _ value)

pub add_field_int-Adds :
    (s : FactoryScratch) (tag v : ℕ) → Adds s (add_field_int s tag v) (field tag (to_chars_int64 v))
unfolding add_field_int
add_field_int-Adds s tag v = field-Adds s _ tag (to_chars_int64 v) (add_int-Adds _ v)

pub add_chars-Adds :
    (n c : ℕ) (s : FactoryScratch)
    → s.position ≤ s.buffer_size
    → Adds s (add_chars n c s) (replicate n c)
unfolding add_chars
add_chars-Adds zero c s h = Adds-refl s h
add_chars-Adds (suc n) c s h =
    let a = add_char-Adds s c h in Adds-trans a (add_chars-Adds n c (add_char s c) a.inside)

pub length-view : (s : FactoryScratch) → length (view s) ≡ s.position
unfolding get_buffer_view
length-view s = length-read s.buffer 0 s.position
