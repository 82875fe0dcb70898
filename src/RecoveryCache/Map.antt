-- ===== src/RecoveryCache/Map.antt =====
-- The recovery cache as a finite map from sequence numbers to messages: `get` is the map, and
-- `insert`, `consume`, `start` and `clear` change it at the number they name only.
use fix_engine.Prelude.{
  ltb, leb, max, ==_iff, ℕ, ◌+◌, ◌-◌, ◌≤◌, ◌<◌, ◌≡◌, ◌≢◌, refl, sym, ◌∙◌, ap, inl, inr, Bool, true,
  false, ◌&&◌, Bytes, none, some, arith, ◌==◌, if◌then◌else◌, length, get_or-replicate,
  get_or-set_self, get_or-set_ne, Bool-cases,
}
use fix_engine.Prelude.Memory.{Memory, fresh, read, read-write_self, read-write_below, read_copy}
use fix_engine.RecoveryCache.{
  RecoveryCache, MessageBounds, min_capacity_growth, kempty, slot_index, slot, make_room,
  grow_buffer, append_message, occupy, insert, release, consume, reset, start, clear, contains,
  in_window, get, empty,
}
use fix_engine.RecoveryCache.Slots.{weight, occupied_zero}
use fix_engine.RecoveryCache.Invariant.{
  IsValid, start-IsValid, inserted, in_window_bounds, contained, insert_runs, inserted-IsValid,
  release-IsValid, append_message_keeps,
}

-- Two caches that agree on a slot and on its bytes agree on the message.
get_ext :
    (c d : RecoveryCache) (k : ℕ)
    → in_window d k ≡ in_window c k
    → (in_window c k ≡ true → slot d k ≡ slot c k)
    → (in_window c k ≡ true
        → read d.data_ (slot c k).offset (slot c k).size
          ≡ read c.data_ (slot c k).offset (slot c k).size)
    → get d k ≡ get c k
unfolding get contains
get_ext c d k w s r = elim (Bool-cases (in_window c k)) [
  | inl e ↦ rw (w, e, s e, r e) refl
  | inr e ↦ rw (w, e) refl
]

-- A message found in a slot in use is its bytes.
get_full :
    (c : RecoveryCache) (k : ℕ)
    → in_window c k ≡ true
    → weight (slot c k) ≡ 1
    → get c k ≡ some (read c.data_ (slot c k).offset (slot c k).size)
unfolding get contains
get_full c k w f = ground arith

get_free : (c : RecoveryCache) (k : ℕ) → slot c k ≡ kempty → get c k ≡ none
unfolding get contains
get_free c k e = ground arith

-- Two numbers of the window have two slots.
slot_index_ne :
    (c : RecoveryCache) (n k : ℕ)
    → in_window c n ≡ true
    → in_window c k ≡ true
    → n ≢ k
    → slot_index c n ≢ slot_index c k
slot_index_ne c n k w w' ne e =
    let (a, _, a') = in_window_bounds c n w in
    let (b, _, b') = in_window_bounds c k w' in ne (omega arith)

-- What `append_message` leaves of the bytes in use, and what it adds.
append_message_bytes :
    (c : RecoveryCache) (wire : Bytes) (from n : ℕ)
    → from + n ≤ c.buff_size
    → read (append_message c wire).1.data_ from n ≡ read c.data_ from n
unfolding append_message make_room grow_buffer
append_message_bytes c wire from n h = elim (Bool-cases roomless) [
  | inl e ↦ rw e (
      read-write_below (grow_buffer c extra).data_ c.buff_size wire from n h
      ∙ read_copy c.data_ fresh c.buff_size from n h)
  | inr e ↦ rw e (read-write_below c.data_ c.buff_size wire from n h)
]
  where
    roomless : Bool
    roomless = ltb c.buff_capacity (c.buff_size + length wire)

    extra : ℕ
    extra = max (c.buff_size + length wire - c.buff_capacity) min_capacity_growth

append_message_added :
    (c : RecoveryCache) (wire : Bytes)
    → let (b, c') = append_message c wire in
      (read c'.data_ b.offset b.size ≡ wire) × (b.size ≡ length wire)
unfolding append_message
append_message_added c wire = (
  read-write_self (make_room c (length wire)).data_ (make_room c (length wire)).buff_size wire,
  refl,
)

-- `occupy` in terms of the cache it starts from.
slot-occupy_self :
    (c : RecoveryCache) (n : ℕ) (b : MessageBounds)
    → slot_index c n < length c.slots
    → slot (occupy c n b) n ≡ b
unfolding occupy
slot-occupy_self c n b h = get_or-set_self c.slots (slot_index c n) b kempty h

slot-occupy_ne :
    (c : RecoveryCache) (n k : ℕ) (b : MessageBounds)
    → slot_index c n ≢ slot_index c k
    → slot (occupy c n b) k ≡ slot c k
unfolding occupy
slot-occupy_ne c n k b h = get_or-set_ne c.slots (slot_index c n) (slot_index c k) b kempty h

in_window-occupy :
    (c : RecoveryCache) (n k : ℕ) (b : MessageBounds) → in_window (occupy c n b) k ≡ in_window c k
unfolding occupy in_window
in_window-occupy c n k b = refl

data_-occupy : (c : RecoveryCache) (n : ℕ) (b : MessageBounds) → (occupy c n b).data_ ≡ c.data_
unfolding occupy
data_-occupy c n b = refl

module _ (c : RecoveryCache) (n : ℕ) (wire : Bytes) where
  get-inserted_self :
      IsValid c → in_window c n ≡ true → 0 < length wire → get (inserted c n wire) n ≡ some wire
  get-inserted_self v w l =
      let (b, d) = append_message c wire in
      let (dw, ds, base, slots) = append_message_keeps c n wire v in
      let (added, size) = append_message_added c wire in
      let (_, i, j) = in_window_bounds d n (dw ∙ w) in
      let len : length d.slots ≡ 512 = ap length slots ∙ v.slots_len in
      let at : slot (occupy d n b) n ≡ b = slot-occupy_self d n b (omega arith) in
      let used : weight b ≡ 1 = ground arith in
      get_full (occupy d n b) n (in_window-occupy d n n b ∙ dw ∙ w) (ap weight at ∙ used)
      ∙ ap some (
          ap (λ (x : MessageBounds). read (occupy d n b).data_ x.offset x.size) at
          ∙ ap (λ (m : Memory). read m b.offset b.size) (data_-occupy d n b)
          ∙ added)

  get-inserted_ne :
      (k : ℕ) → IsValid c → in_window c n ≡ true → n ≢ k → get (inserted c n wire) k ≡ get c k
  get-inserted_ne k v w ne =
      let (b, d) = append_message c wire in
      let (dw, _, base, slots) = append_message_keeps c n wire v in
      let (dk, ds, _, _) = append_message_keeps c k wire v in
      get_ext c (occupy d n b) k (in_window-occupy d n k b ∙ dk)
        (λ wk. slot-occupy_ne d n k b (slot_index_ne d n k (dw ∙ w) (dk ∙ wk) ne) ∙ ds)
        (λ wk. rw (data_-occupy d n b) (
          append_message_bytes c wire (slot c k).offset (slot c k).size
            (v.within (slot_index c k))))

  -- In a valid cache, of a number in its window that is not in it and a message that is not empty,
  -- `insert` runs, keeps the invariant, stores the message under its number and leaves every other
  -- number as it was.
  pub insert_lem :
      IsValid c
      → in_window c n ≡ true
      → contains c n ≡ false
      → 0 < length wire
      → (c' : RecoveryCache) × (insert c n wire ≡ some c')
        × IsValid c'
        × ((k : ℕ) → get c' k ≡ (if k == n then some wire else get c k))
  insert_lem v w f l = (
    inserted c n wire,
    insert_runs c n wire w f l,
    inserted-IsValid c n wire v w f l,
    λ k. elim (Bool-cases (k == n)) [
      | inl e ↦ let e' : k ≡ n = ground arith in rw (e, e') (get-inserted_self v w l)
      | inr e ↦ rw e (get-inserted_ne k v w (ground arith))
    ],
  )

get-release_self :
    (c : RecoveryCache) (n k : ℕ)
    → IsValid c
    → contains c n ≡ true
    → k ≡ n
    → get (release c n) k ≡ none
unfolding release
get-release_self c n k v h e =
    let (w, _) = contained c n h in
    let (_, i, j) = in_window_bounds c n w in
    rw e (
      get_free (release c n) n
        (get_or-set_self c.slots (slot_index c n) kempty kempty (omega (arith, v.slots_len))))

get-release_ne :
    (c : RecoveryCache) (n k : ℕ)
    → IsValid c
    → contains c n ≡ true
    → n ≢ k
    → get (release c n) k ≡ get c k
unfolding release in_window
get-release_ne c n k v h ne =
    let (w, _) = contained c n h in
    get_ext c (release c n) k refl
      (λ wk.
        get_or-set_ne c.slots (slot_index c n) (slot_index c k) kempty kempty
          (slot_index_ne c n k w wk ne))
      (λ _. refl)

-- In a valid cache `consume` of a number that is in it forgets its message, also where it empties the cache and takes
-- the buffer up from its start, and leaves every other number as it was.
pub consume_lem :
    (c : RecoveryCache) (n : ℕ)
    → IsValid c
    → contains c n ≡ true
    → (c' : RecoveryCache) × (consume c n ≡ some c')
      × IsValid c'
      × ((k : ℕ) → get c' k ≡ (if k == n then none else get c k))
unfolding consume
consume_lem c n v h = (
  release c n,
  rw h,
  release-IsValid c n v h,
  λ k. elim (Bool-cases (k == n)) [
    | inl e ↦ rw e (get-release_self c n k v h (ground arith))
    | inr e ↦ rw e (get-release_ne c n k v h (ground arith))
  ],
)

-- After `start` the window begins at the number given, and the cache is empty.
pub start_lem :
    (c : RecoveryCache) (n k : ℕ)
    → IsValid (start c n)
      × (get (start c n) k ≡ none)
      × (in_window (start c n) k ≡ leb n k && ltb k (n + 512))
      × (empty (start c n) ≡ true)
unfolding start reset in_window empty
start_lem c n k = (
  start-IsValid c n,
  get_free (start c n) k (get_or-replicate 512 (slot_index (start c n) k) kempty),
  ground arith,
  refl,
)

-- `empty` says whether no number has a message.
pub empty_lem : (c : RecoveryCache) (n : ℕ) → IsValid c → empty c ≡ true → get c n ≡ none
unfolding empty
empty_lem c n v e =
    get_free c n (occupied_zero c.slots (slot_index c n) (sym v.counted ∙ (==_iff c.size 0).0 e))

pub clear-empty : (c : RecoveryCache) → empty (clear c) ≡ true
unfolding empty clear reset
clear-empty c = refl

-- `contains` in terms of the map.
pub get-none : (c : RecoveryCache) (n : ℕ) → get c n ≡ none → contains c n ≡ false
unfolding get
get-none c n e = elim (Bool-cases (contains c n)) [ inl f ↦ let e' = rw f at e in cc | inr f ↦ f ]

-- Outside the window nothing is inserted: an assert fails.
pub insert_outside :
    (c : RecoveryCache) (n : ℕ) (wire : Bytes) → in_window c n ≡ false → insert c n wire ≡ none
unfolding insert
insert_outside c n wire w = rw w refl
