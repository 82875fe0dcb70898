-- ===== src/RecoveryCache/Invariant.antt =====
-- The representation invariant of the recovery cache, and that every operation keeps it.
use fix_engine.Prelude.{
  ℕ, ◌+◌, ◌-◌, ◌%◌, ◌^◌, ◌≤◌, ◌<◌, ◌≡◌, refl, sym, ◌∙◌, subst, ap, inl, inr, true, false, List,
  Bytes, some, arith, ◌==◌, length, get_or, set, length-set, length-replicate, get_or-replicate,
  get_or-set_self, get_or-set_ne, Bool-cases,
}
use fix_engine.RecoveryCache.{
  RecoveryCache, MessageBounds, kempty, window, slot_index, slot, init, make_room, append_message,
  occupy, insert, release, consume, reset, clear, start, contains, in_window,
}
use fix_engine.RecoveryCache.Slots.{
  weight, occupied, occupied-le-length, occupied-set, occupied-replicate, occupied_zero,
}

pub record IsValid (c : RecoveryCache) : Type 0 where
  pub slots_len : length c.slots ≡ window
  -- Each message lies in the bytes that are in use.
  pub within :
      (i : ℕ) → (get_or c.slots i kempty).offset + (get_or c.slots i kempty).size ≤ c.buff_size
  pub counted : c.size ≡ occupied c.slots
  pub room : c.buff_size ≤ c.buff_capacity

pub in_window_bounds :
    (c : RecoveryCache) (n : ℕ)
    → in_window c n ≡ true
    → (c.base_offset ≤ n) × (n - c.base_offset < 512) × (slot_index c n ≡ n - c.base_offset)
unfolding in_window
in_window_bounds c n h = ground arith

pub make_room_lem :
    (c : RecoveryCache) (n : ℕ)
    → IsValid c
    → ((make_room c n).slots ≡ c.slots)
      × ((make_room c n).size ≡ c.size)
      × ((make_room c n).base_offset ≡ c.base_offset)
      × ((make_room c n).buff_size ≡ c.buff_size)
      × (c.buff_size + n ≤ (make_room c n).buff_capacity)
unfolding make_room
make_room_lem c n v = ground arith

pub reset-IsValid : (c : RecoveryCache) → IsValid (reset c)
unfolding reset
reset-IsValid c = record {
  slots_len = length-replicate 512 kempty;
  within =
      λ i. subst (λ b. b.offset + b.size ≤ 0) (sym (get_or-replicate 512 i kempty)) (omega arith);
  counted = sym (occupied-replicate 512);
  room = omega arith;
}

pub start-IsValid : (c : RecoveryCache) (n : ℕ) → IsValid (start c n)
unfolding start
start-IsValid c n =
    let v = reset-IsValid c in
    record { slots_len = v.slots_len; within = v.within; counted = v.counted; room = v.room }

pub init-IsValid : IsValid init
unfolding init
init-IsValid = record {
  slots_len = length-replicate 512 kempty;
  within =
      λ i. subst (λ b. b.offset + b.size ≤ 0) (sym (get_or-replicate 512 i kempty)) (omega arith);
  counted = sym (occupied-replicate 512);
  room = omega arith;
}

pub clear-IsValid : (c : RecoveryCache) → IsValid (clear c)
unfolding clear
clear-IsValid c = reset-IsValid c

-- A write into slot `i` keeps what all slots satisfy.
within-set :
    (bs : List MessageBounds) (i j n : ℕ) (b : MessageBounds)
    → i < length bs
    → b.offset + b.size ≤ n
    → ((k : ℕ) → (get_or bs k kempty).offset + (get_or bs k kempty).size ≤ n)
    → (get_or (set bs i b) j kempty).offset + (get_or (set bs i b) j kempty).size ≤ n
within-set bs i j n b h hb all = elim (Bool-cases (i == j)) [
  | inl e ↦ let e' : i ≡ j = ground arith in rw (← e', get_or-set_self bs i b kempty h) hb
  | inr ne ↦ rw (get_or-set_ne bs i j b kempty (ground arith)) (all j)
]

-- The state after an `insert` whose asserts hold.
abbrev pub inserted : RecoveryCache → ℕ → Bytes → RecoveryCache
inserted c n wire = let (b, c') = append_message c wire in occupy c' n b

pub insert_inv :
    (c c' : RecoveryCache) (n : ℕ) (wire : Bytes)
    → insert c n wire ≡ some c'
    → (in_window c n ≡ true) × (contains c n ≡ false) × (0 < length wire) × (c' ≡ inserted c n wire)
unfolding insert
insert_inv c c' n wire e = ground arith

pub insert_runs :
    (c : RecoveryCache) (n : ℕ) (wire : Bytes)
    → in_window c n ≡ true
    → contains c n ≡ false
    → 0 < length wire
    → insert c n wire ≡ some (inserted c n wire)
unfolding insert
insert_runs c n wire w f l = ground arith

-- A slot that `contains` finds nothing in is empty.
pub not_contained :
    (c : RecoveryCache) (n : ℕ) → in_window c n ≡ true → contains c n ≡ false → slot c n ≡ kempty
unfolding contains
not_contained c n w f = ground arith

pub contained :
    (c : RecoveryCache) (n : ℕ)
    → contains c n ≡ true
    → (in_window c n ≡ true) × (weight (slot c n) ≡ 1)
unfolding contains
contained c n e = ground arith

-- Appending moves no slot.
pub append_message_keeps :
    (c : RecoveryCache) (n : ℕ) (wire : Bytes)
    → IsValid c
    → (in_window (append_message c wire).1 n ≡ in_window c n)
      × (slot (append_message c wire).1 n ≡ slot c n)
      × ((append_message c wire).1.base_offset ≡ c.base_offset)
      × ((append_message c wire).1.slots ≡ c.slots)
unfolding append_message in_window
append_message_keeps c n wire v =
    let (s, z, b, u, r) = make_room_lem c (length wire) v in (rw b, rw (b, s), b, s)

append_message_bounds :
    (c : RecoveryCache) (wire : Bytes)
    → ((append_message c wire).0.offset + (append_message c wire).0.size
        ≤ (append_message c wire).1.buff_size)
      × ((append_message c wire).0.size ≡ length wire)
unfolding append_message
append_message_bounds c wire = (omega arith, refl)

append_message-IsValid :
    (c : RecoveryCache) (wire : Bytes) → IsValid c → IsValid (append_message c wire).1
unfolding append_message
append_message-IsValid c wire v =
    let (s, z, b, u, r) = make_room_lem c (length wire) v in
    record {
      slots_len = ap length s ∙ v.slots_len;
      within = λ i. rw (s, u) (omega (arith, v.within i));
      counted = z ∙ v.counted ∙ sym (ap occupied s);
      room = omega arith;
    }

occupy-IsValid :
    (c : RecoveryCache) (n : ℕ) (b : MessageBounds)
    → IsValid c
    → in_window c n ≡ true
    → slot c n ≡ kempty
    → b.offset + b.size ≤ c.buff_size
    → 0 < b.size
    → IsValid (occupy c n b)
unfolding occupy
occupy-IsValid c n b v w e h p =
    let i = in_window_bounds c n w in
    let within_len : slot_index c n < length c.slots = omega (arith, v.slots_len) in
    let count = occupied-set c.slots (slot_index c n) b within_len in
    let old : weight (slot c n) ≡ 0 = ap weight e in
    let new : weight b ≡ 1 = ground arith in
    let limit = occupied-le-length (set c.slots (slot_index c n) b) in
    let len = length-set c.slots (slot_index c n) b in
    record {
      slots_len = len ∙ v.slots_len;
      within = λ j. within-set c.slots (slot_index c n) j c.buff_size b within_len h v.within;
      counted = omega (arith, v.counted, v.slots_len);
      room = v.room;
    }

pub inserted-IsValid :
    (c : RecoveryCache) (n : ℕ) (wire : Bytes)
    → IsValid c
    → in_window c n ≡ true
    → contains c n ≡ false
    → 0 < length wire
    → IsValid (inserted c n wire)
inserted-IsValid c n wire v w f l =
    let (base, same, _, _) = append_message_keeps c n wire v in
    occupy-IsValid (append_message c wire).1 n (append_message c wire).0
      (append_message-IsValid c wire v) (base ∙ w) (same ∙ not_contained c n w f)
      (append_message_bounds c wire).0 (rw (append_message_bounds c wire).1 l)

pub insert-IsValid :
    (c c' : RecoveryCache) (n : ℕ) (wire : Bytes)
    → IsValid c
    → insert c n wire ≡ some c'
    → IsValid c'
insert-IsValid c c' n wire v e =
    let (w, f, l, eq) = insert_inv c c' n wire e in
    subst IsValid (sym eq) (inserted-IsValid c n wire v w f l)

pub consume_inv :
    (c c' : RecoveryCache) (n : ℕ)
    → consume c n ≡ some c'
    → (contains c n ≡ true) × (c' ≡ release c n)
unfolding consume
consume_inv c c' n e = ground arith

pub release-IsValid :
    (c : RecoveryCache) (n : ℕ) → IsValid c → contains c n ≡ true → IsValid (release c n)
unfolding release
release-IsValid c n v h =
    let (w, full) = contained c n h in
    let i = in_window_bounds c n w in
    let within_len : slot_index c n < length c.slots = omega (arith, v.slots_len) in
    let count = occupied-set c.slots (slot_index c n) kempty within_len in
    let limit = occupied-le-length c.slots in
    let left : (c.size + 2 ^ 16 - 1) % 2 ^ 16 ≡ occupied (set c.slots (slot_index c n) kempty) =
      omega (arith, v.counted, v.slots_len) in
    record {
      slots_len = length-set c.slots (slot_index c n) kempty ∙ v.slots_len;
      within = λ j. elim (Bool-cases ((c.size + 2 ^ 16 - 1) % 2 ^ 16 == 0)) [
        | inl e ↦
            let none_left : occupied (set c.slots (slot_index c n) kempty) ≡ 0 = ground arith in
            rw (e, occupied_zero (set c.slots (slot_index c n) kempty) j none_left) (omega arith)
        | inr e ↦ rw e (
            within-set c.slots (slot_index c n) j c.buff_size kempty within_len (omega arith)
              v.within)
      ];
      counted = left;
      room = ground arith;
    }

pub consume-IsValid :
    (c c' : RecoveryCache) (n : ℕ) → IsValid c → consume c n ≡ some c' → IsValid c'
consume-IsValid c c' n v e =
    let (h, eq) = consume_inv c c' n e in subst IsValid (sym eq) (release-IsValid c n v h)
