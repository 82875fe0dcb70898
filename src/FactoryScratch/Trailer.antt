-- ===== src/FactoryScratch/Trailer.antt =====
-- What `insert_body_length` and `insert_checksum` make of the bytes built so far: the placeholder
-- becomes the number of bytes behind it, and the CheckSum field is the sum of all bytes before it.
use fix_engine.Prelude.{
  ℕ, ◌+◌, ◌-◌, ◌%◌, ◌^◌, ◌≤◌, ◌<◌, ◌≡◌, refl, sym, ◌∙◌, ap, ap₂, subst, [], ◌∷◌, ◌++◌, append_assoc,
  append_split, Bytes, arith, ltb, if◌then◌else◌, length, length-append, replicate, Bool-cases, inl,
  inr,
}
use fix_engine.Prelude.Memory.{
  Memory, read, write, read-write_self, read-write_below, read-write_above, read-append,
  read-append_start, length-read,
}
use fix_engine.Chars.{codes, soh, to_chars, to_chars_int64}
use fix_engine.FactoryScratch.{
  FactoryScratch, add_string, add_char, add_int, add_equal_sign, add_soh, add_chars,
  add_body_length_placeholder, get_buffer_view, insert_body_length, insert_checksum,
  compute_body_length, compute_checksum, sum,
}
use fix_engine.FactoryScratch.View.{
  view, Adds, Adds-trans, Adds-refl, add_string-Adds, add_char-Adds, add_int-Adds, add_chars-Adds,
  length-view,
}

-- A buffer with a placeholder for the length behind `pre`, and then `body`.
pub record Open (s : FactoryScratch) (pre body : Bytes) : Type 0 where
  pub seen : view s ≡ pre ++ (replicate 10 b'0' ++ (soh ∷ body))
  pub offset : s.body_length_offset ≡ length pre
  pub digits : s.body_length_digit_size ≡ 10
  pub inside : s.position ≤ s.buffer_size

-- What is added behind goes to the body.
pub Adds-Open :
    {s t : FactoryScratch} {pre body more : Bytes}
    → Open s pre body
    → Adds s t more
    → Open t pre (body ++ more)
Adds-Open {pre = pre} {body = body} {more = more} o a = record {
  seen =
      a.seen
      ∙ ap (λ v. v ++ more) o.seen
      ∙ append_assoc pre (replicate 10 b'0' ++ (soh ∷ body)) more;
  offset = a.offset ∙ o.offset;
  digits = a.digits ∙ o.digits;
  inside = a.inside;
}

opened_by :
    (s t : FactoryScratch) (pre : Bytes)
    → view s ≡ pre
    → s.body_length_digit_size ≡ 10
    → s.body_length_offset ≡ length pre
    → Adds s t (replicate 10 b'0' ++ soh ∷ [])
    → Open t pre []
opened_by s t pre e d o a = record {
  seen = a.seen ∙ ap (λ v. v ++ (replicate 10 b'0' ++ soh ∷ [])) e;
  offset = a.offset ∙ o;
  digits = a.digits ∙ d;
  inside = a.inside;
}

nine : to_chars_int64 9 ≡ codes "9"
unfolding to_chars_int64
nine = refl

-- `add_body_length_placeholder` opens a message.
pub placeholder-Open :
    (s : FactoryScratch)
    → s.body_length_digit_size ≡ 10
    → Open (add_body_length_placeholder s) (view s ++ codes "9=") []
unfolding add_body_length_placeholder add_equal_sign add_soh get_buffer_view
placeholder-Open s d =
    let a = add_int-Adds s 9 in
    let b = Adds-trans a (add_char-Adds (add_int s 9) b'=' a.inside) in
    let s1 = add_char (add_int s 9) b'=' in
    let s2 : FactoryScratch = record s1 { body_length_offset = s1.position } in
    let ten : s1.body_length_digit_size ≡ 10 = b.digits ∙ d in
    let z = add_chars-Adds s2.body_length_digit_size b'0' s2 b.inside in
    let seen : view s1 ≡ view s ++ codes "9=" =
      b.seen ∙ ap (λ n. view s ++ (n ++ b'=' ∷ [])) nine in
    let off : s1.position ≡ length (view s ++ codes "9=") = sym (length-view s1) ∙ ap length seen in
    opened_by s2 (add_body_length_placeholder s) (view s ++ codes "9=") seen ten off (
      subst (λ k. Adds s2 (add_body_length_placeholder s) (replicate k b'0' ++ soh ∷ [])) ten
        (Adds-trans z (add_char-Adds _ soh z.inside)))

-- The bytes in front of the CheckSum field, once the length is filled in.
abbrev pub with_length : Bytes → Bytes → Bytes
with_length pre body = pre ++ (to_chars (length body) ++ (soh ∷ body))

-- Digits over the front of a gap of ten bytes, and the `k` bytes behind the gap moved up to them.
splice :
    (m : Memory) (off k : ℕ) (d : Bytes)
    → length d ≤ 10
    → read
        (write (write m off d) (off + length d) (read (write m off d) (off + 10) k))
        0
        (off + length d + k)
      ≡ read m 0 off ++ (d ++ read m (off + 10) k)
splice m off k d h =
    read-append_start m2 (off + length d) k
    ∙ ap₂ ◌++◌
        (read-write_below m1 (off + length d) moved 0 (off + length d) (omega arith)
          ∙ read-append_start m1 off (length d)
          ∙ ap₂ ◌++◌ (read-write_below m off d 0 off (omega arith)) (read-write_self m off d))
        (ap (λ j. read m2 (off + length d) j) (sym (length-read m1 (off + 10) k))
          ∙ read-write_self m1 (off + length d) moved
          ∙ read-write_above m off d (off + 10) k (omega arith))
    ∙ append_assoc (read m 0 off) d (read m (off + 10) k)
  where
    m1 : Memory
    m1 = write m off d

    moved : Bytes
    moved = read m1 (off + 10) k

    m2 : Memory
    m2 = write m1 (off + length d) moved

pub position_lem :
    (s : FactoryScratch) (pre body : Bytes)
    → Open s pre body
    → s.position ≡ length pre + 10 + 1 + length body
position_lem s pre body o = omega (
  arith,
  sym (length-view s) ∙ ap length o.seen,
  length-append pre (replicate 10 b'0' ++ (soh ∷ body)),
)

module _ (s : FactoryScratch) (pre body : Bytes) (o : Open s pre body)
    (short : s.position < 2 ^ 64) where
  -- The length is that of the bytes behind the placeholder and its SOH.
  pub compute_body_length_lem : compute_body_length s ≡ length body
  unfolding compute_body_length
  compute_body_length_lem = omega (arith, position_lem s pre body o, o.offset, o.digits)

  parts :
      (read s.buffer 0 (length pre) ≡ pre)
      × (read s.buffer (length pre + 10) (1 + length body) ≡ soh ∷ body)
  unfolding get_buffer_view
  parts =
      let zeros = replicate 10 b'0' in
      let e : s.position ≡ length pre + (10 + (1 + length body)) =
        omega (arith, position_lem s pre body o) in
      let cut =
        append_split (read s.buffer 0 (length pre)) pre
          (read s.buffer (0 + length pre) (10 + (1 + length body))) (zeros ++ (soh ∷ body))
          (length-read s.buffer 0 (length pre))
          (sym (read-append s.buffer 0 (length pre) (10 + (1 + length body)))
            ∙ ap (read s.buffer 0) (sym e)
            ∙ o.seen) in
      let cut' =
        append_split (read s.buffer (0 + length pre) 10) zeros
          (read s.buffer (0 + length pre + 10) (1 + length body)) (soh ∷ body)
          (length-read s.buffer (0 + length pre) 10)
          (sym (read-append s.buffer (0 + length pre) 10 (1 + length body)) ∙ cut.1) in
      (cut.0, ap (λ k. read s.buffer k (1 + length body)) (omega arith) ∙ cut'.1)

  -- In a buffer that is open, which is to say that it holds a placeholder of ten zeros and a SOH before
  -- the body, `insert_body_length` puts the length of the body in place of the zeros and moves the body
  -- up to it. The length has at most ten digits.
  pub insert_body_length_lem :
      length (to_chars (length body)) ≤ 10
      → (view (insert_body_length s) ≡ with_length pre body)
        × ((insert_body_length s).position ≤ (insert_body_length s).buffer_size)
  unfolding insert_body_length get_buffer_view
  insert_body_length_lem small =
      let d = to_chars (length body) in
      let e1 : s.position - (length pre + 10) ≡ 1 + length body =
        omega (arith, position_lem s pre body o) in
      let e2 : (s.position + 2 ^ 64 - (10 - length d)) % 2 ^ 64
          ≡ length pre + length d + (1 + length body) =
        omega (arith, position_lem s pre body o) in
      (
        rw (compute_body_length_lem, o.offset, o.digits)
            (rw (e1, e2)
              (splice s.buffer (length pre) (1 + length body) d small
                ∙ ap₂ (λ (x y : Bytes). x ++ (d ++ y)) parts.0 parts.1)),
        rw (compute_body_length_lem, o.digits)
            (rw e2 (omega (arith, o.inside, position_lem s pre body o))),
      )

-- Three digits of a number below 256.
abbrev pub three_digits : ℕ → Bytes
three_digits n = replicate (3 - length (to_chars n)) b'0' ++ to_chars n

-- The CheckSum field for the bytes before it.
abbrev pub checksum_field : Bytes → Bytes
checksum_field w = codes "10=" ++ (three_digits (sum w % 256) ++ soh ∷ [])

equal_sign-Adds :
    (s : FactoryScratch) → s.position ≤ s.buffer_size → Adds s (add_equal_sign s) (codes "=")
unfolding add_equal_sign
equal_sign-Adds s h = add_char-Adds s b'=' h

soh-Adds : (s : FactoryScratch) → s.position ≤ s.buffer_size → Adds s (add_soh s) (soh ∷ [])
unfolding add_soh
soh-Adds s h = add_char-Adds s soh h

-- The zeros in front of a short checksum.
pad-Adds :
    (s : FactoryScratch) (n : ℕ)
    → s.position ≤ s.buffer_size
    → Adds s (if ltb n 3 then add_chars (3 - n) b'0' s else s) (replicate (3 - n) b'0')
pad-Adds s n h = elim (Bool-cases (ltb n 3)) [
  | inl e ↦ rw e (add_chars-Adds (3 - n) b'0' s h)
  | inr e ↦ let none_left : 3 - n ≡ 0 = ground arith in rw (e, none_left) (Adds-refl s h)
]

-- The bytes after the checksum field, for the digits of the sum.
close_with : FactoryScratch → Bytes → FactoryScratch
close_with s digits =
    let s1 = add_equal_sign (add_string s (codes "10")) in
    add_soh (
      add_string (if ltb (length digits) 3 then add_chars (3 - length digits) b'0' s1 else s1)
        digits)

close_with-Adds :
    (s : FactoryScratch) (digits : Bytes)
    → Adds s
        (close_with s digits)
        (codes "10=" ++ ((replicate (3 - length digits) b'0' ++ digits) ++ soh ∷ []))
unfolding close_with
close_with-Adds s digits =
    let a = add_string-Adds s (codes "10") in
    let b = Adds-trans a (equal_sign-Adds _ a.inside) in
    let c = Adds-trans b (pad-Adds _ (length digits) b.inside) in
    let d = Adds-trans c (add_string-Adds _ digits) in
    let e = Adds-trans d (soh-Adds _ d.inside) in subst (Adds s _) (simp append_assoc) e

-- `insert_checksum` adds the CheckSum field: the sum of all the bytes built so far, modulo 256, in
-- three digits.
pub insert_checksum_lem :
    (s : FactoryScratch) → view (insert_checksum s) ≡ view s ++ checksum_field (view s)
unfolding insert_checksum compute_checksum get_buffer_view close_with
insert_checksum_lem s0 =
    let s : FactoryScratch = record s0 { checksum_offset = s0.position } in
    (close_with-Adds s (to_chars (sum (view s0) % 256))).seen
