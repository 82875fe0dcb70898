-- ===== src/LinearBuffer/View.antt =====
-- include/fix/core/LinearBuffer.hpp: the buffer is the readable bytes and the position of the first.
use fix_engine.Prelude.{
  if_either, ℕ, ◌+◌, ◌-◌, ◌/◌, ◌≤◌, ◌≡◌, refl, sym, ◌∙◌, ap, ap₂, ◌&&◌, ◌++◌, Bytes, some, if_yes,
  ltb, leb, ◌==◌, length, drop, max, and-true, leb→le, arith,
}
use fix_engine.Prelude.Memory.{
  Memory, fresh, read, write, length-read, read-append, read_none, read-write_self,
  read-write_below,
}
use fix_engine.Chars.Search.{drop-append_length}
use fix_engine.LinearBuffer.{
  LinearBuffer, min_grow, readable_size, readable, moved, emptied, compact, grown_capacity, grow,
  ensure_writable, append, push, settle, discard_prefix,
}

-- The offsets are in order and inside the allocation.
pub record IsValid (b : LinearBuffer) : Type 0 where
  pub in_order : b.head ≤ b.tail
  pub inside : b.tail ≤ b.capacity

-- The position of the first readable byte.
abbrev pub begin : LinearBuffer → ℕ
begin b = b.base_abs + b.head

pub record Shows (bytes : Bytes) (at : ℕ) (b : LinearBuffer) : Type 0 where
  pub valid : IsValid b
  pub bytes_are : readable b ≡ bytes
  pub begins_at : begin b ≡ at

-- The same bytes at the same position.
abbrev Keeps : LinearBuffer → LinearBuffer → Type 0
Keeps b c = Shows (readable b) (begin b) c

moved_lem :
    (b : LinearBuffer) (into : Memory) (capacity : ℕ)
    → readable_size b ≤ capacity
    → Keeps b (moved b into capacity)
unfolding moved readable
moved_lem b into capacity fits =
    let bytes = read b.memory b.head (readable_size b) in
    record {
      valid = record { in_order = omega arith; inside = fits };
      bytes_are =
          ap (read (write into 0 bytes) 0)
            (omega (arith, length-read b.memory b.head (readable_size b)))
          ∙ read-write_self into 0 bytes;
      begins_at = omega arith;
    }

emptied_lem : (b : LinearBuffer) → readable_size b ≡ 0 → Keeps b (emptied b)
unfolding emptied readable
emptied_lem b none_left = record {
  valid = record { in_order = omega arith; inside = omega arith };
  bytes_are =
      ap (read b.memory 0) (omega arith)
      ∙ read_none b.memory 0
      ∙ sym (read_none b.memory b.head)
      ∙ ap (read b.memory b.head) (sym none_left);
  begins_at = omega arith;
}

compact_lem : (b : LinearBuffer) → IsValid b → Keeps b (compact b)
unfolding compact
compact_lem b v =
    let inside = v.inside in
    if_either (Keeps b) (readable_size b == 0) _ _
      (λ none_left. emptied_lem b (ground (arith, none_left)))
      λ _. moved_lem b b.memory b.capacity (omega arith)

grown_fits : (b : LinearBuffer) (n : ℕ) → readable_size b + n ≤ grown_capacity b n
unfolding grown_capacity
grown_fits b n =
    if_either (λ c. readable_size b + n ≤ c)
      (ltb (b.capacity + max n min_grow) (readable_size b + n)) _ _ (λ _. omega arith)
      λ wide. ground (arith, wide)

grow_room : (b : LinearBuffer) (n : ℕ) → (grow b n).tail + n ≤ (grow b n).capacity
unfolding grow moved
grow_room b n = grown_fits b n

-- There is room behind the last byte, and nothing else has changed.
abbrev Ready : LinearBuffer → ℕ → LinearBuffer → Type 0
Ready b n c = Keeps b c × (c.tail + n ≤ c.capacity)

same_lem : (b : LinearBuffer) → IsValid b → Keeps b b
same_lem b v = record { valid = v; bytes_are = refl; begins_at = refl }

compact_room :
    (b : LinearBuffer) (n : ℕ)
    → readable_size b + n ≤ b.capacity
    → (compact b).tail + n ≤ (compact b).capacity
unfolding compact emptied moved
compact_room b n fits =
    if_either (λ c. c.tail + n ≤ c.capacity) (readable_size b == 0) (emptied b)
      (moved b b.memory b.capacity) (λ none_left. omega arith) λ _. fits

grow_lem : (b : LinearBuffer) (n : ℕ) → Ready b n (grow b n)
unfolding grow
grow_lem b n =
    (moved_lem b fresh (grown_capacity b n) (omega (arith, grown_fits b n)), grow_room b n)

ensure_writable_lem : (b : LinearBuffer) (n : ℕ) → IsValid b → Ready b n (ensure_writable b n)
unfolding ensure_writable
ensure_writable_lem b n v =
    if_either (Ready b n) (leb (b.tail + n) b.capacity) _ _
      (λ room. (same_lem b v, leb→le (b.tail + n) b.capacity room))
      λ _.
        if_either (Ready b n) (ltb 0 b.head && leb (readable_size b + n) b.capacity) _ _
          (λ both.
            let fits = leb→le (readable_size b + n) b.capacity (and-true _ _ both).1 in
            (compact_lem b v, compact_room b n fits))
          λ _. grow_lem b n

append_lem :
    (b : LinearBuffer) (items : Bytes)
    → IsValid b
    → b.tail + length items ≤ b.capacity
    → Shows (readable b ++ items) (begin b) (append b items)
unfolding append readable
append_lem b items v room =
    let order = v.in_order in
    let size : b.tail + length items - b.head ≡ b.tail - b.head + length items = omega arith in
    record {
      valid = record { in_order = omega arith; inside = room };
      bytes_are =
          ap (read (write b.memory b.tail items) b.head) size
          ∙ read-append (write b.memory b.tail items) b.head (b.tail - b.head) (length items)
          ∙ ap₂ ◌++◌ (read-write_below b.memory b.tail items b.head (b.tail - b.head) (omega arith))
              (ap (λ off. read (write b.memory b.tail items) off (length items)) (omega arith)
                ∙ read-write_self b.memory b.tail items);
      begins_at = refl;
    }

-- In a valid buffer push puts the bytes behind those that are readable, at whatever it has to move or
-- to allocate, and the positions of all stay the same.
pub push_lem :
    (b : LinearBuffer) (items : Bytes)
    → IsValid b
    → Shows (readable b ++ items) (begin b) (push b items)
unfolding push
push_lem b items v =
    let made = ensure_writable_lem b (length items) v in
    let added = append_lem (ensure_writable b (length items)) items made.0.valid made.1 in
    record {
      valid = added.valid;
      bytes_are = added.bytes_are ∙ ap (λ r. r ++ items) made.0.bytes_are;
      begins_at = added.begins_at ∙ made.0.begins_at;
    }

settle_lem : (b : LinearBuffer) → IsValid b → Keeps b (settle b)
unfolding settle
settle_lem b v =
    if_either (Keeps b) (b.head == b.tail) _ _
      (λ all_read. emptied_lem b (ground (arith, all_read)))
      λ _.
        if_either (Keeps b) (leb (b.capacity / 2) b.head) _ _ (λ _. compact_lem b v)
          λ _. same_lem b v

drop-readable :
    (b : LinearBuffer) (count : ℕ)
    → count ≤ readable_size b
    → readable (record b { head = b.head + count }) ≡ drop count (readable b)
unfolding readable
drop-readable b count fits =
    let first = read b.memory b.head count in
    let behind = read b.memory (b.head + count) (b.tail - (b.head + count)) in
    let size : readable_size b ≡ count + (b.tail - (b.head + count)) = omega arith in
    sym (
      ap (λ n. drop count (read b.memory b.head n)) size
      ∙ ap (drop count) (read-append b.memory b.head count (b.tail - (b.head + count)))
      ∙ ap (λ n. drop n (first ++ behind)) (sym (length-read b.memory b.head count))
      ∙ drop-append_length first behind)

-- In a valid buffer discard_prefix of at most the readable bytes runs, and takes so many bytes off the
-- front, by which the position of the first moves on.
pub discard_prefix_lem :
    (b : LinearBuffer) (count : ℕ)
    → IsValid b
    → count ≤ readable_size b
    → (c : LinearBuffer) × ((discard_prefix b count ≡ some c)
        × Shows (drop count (readable b)) (begin b + count) c)
unfolding discard_prefix
discard_prefix_lem b count v fits =
    let b1 : LinearBuffer = record b { head = b.head + count } in
    let order = v.in_order in
    let inside = v.inside in
    let v1 : IsValid b1 = record { in_order = omega arith; inside = inside } in
    let kept = settle_lem b1 v1 in
    (
      settle b1,
      (
        if_yes (leb count (readable_size b)) _ _ (ground arith),
        record {
          valid = kept.valid;
          bytes_are = kept.bytes_are ∙ drop-readable b count fits;
          begins_at = kept.begins_at ∙ omega arith;
        },
      ),
    )
