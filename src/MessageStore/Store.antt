-- ===== src/MessageStore/Store.antt =====
-- The store gives back what was stored: message `n` is found under number `n`, byte for byte, and
-- storing another one leaves it there, also where the buffer has to grow.
use fix_engine.Prelude.{
  ℕ, zero, suc, ◌+◌, ◌-◌, ◌%◌, ◌^◌, ◌≤◌, ◌<◌, ◌≡◌, ◌≢◌, refl, ◌∙◌, ap, subst, sym, true, false,
  List, [], ◌∷◌, ◌++◌, Bytes, Option, none, some, arith, length, get_elem?, get_elem?_within,
  get_elem?-append_last, get_elem?-some, ltb→lt, get_elem?-append_lt, length-append, ◌>>=◌,
  >>=-eq-some, Bool-cases, Option-cases, inl, inr, leb, ltb, ◌&&◌, ◌==◌, if◌then◌else◌, take, drop,
}
use mathlib.Core.Option.{some-injective}
use fix_engine.Prelude.Memory.{fresh, read, write, read-write_self, read-write_below, read_copy}
use fix_engine.Chars.{codes, soh, same, find}
use fix_engine.MessageStore.{
  MsgIndex, MessageStore, note_field, scan_round, scan_index, create_message_index, make_room,
  grow_blob_buffer, store_outbound_message, get_message_index, get_message_wire,
  min_blob_buffer_grow_size, init,
}

-- A field changes neither offset nor length of an entry.
note_field_keeps :
    (e e' : MsgIndex) (tag : Bytes) (at : ℕ) (value : Bytes)
    → note_field e tag at value ≡ some e'
    → (e'.off ≡ e.off) × (e'.len ≡ e.len)
unfolding note_field
note_field_keeps e e' tag at value h = ground arith

abbrev Keeps : MsgIndex → MsgIndex → Type 0
Keeps e e' = (e'.off ≡ e.off) × (e'.len ≡ e.len)

scan_round_entry :
    (go : ℕ → MsgIndex → Option MsgIndex)
    → ((p : ℕ) (a b : MsgIndex) → go p a ≡ some b → Keeps a b)
    → (wire : Bytes) (pos : ℕ) (e e' : MsgIndex) → scan_round go wire pos e ≡ some e'
    → Keeps e e'
unfolding scan_round
scan_round_entry go keep wire pos e e' h = elim (Option-cases (find b'=' wire pos)) [
  | inl z ↦ let h1 = rw (z, scan_round) at h in cc
  | inr (eq_pos, z) ↦ after_eq eq_pos (rw (z, scan_round) at h)
]
  where
    after_soh :
        (eq_pos soh_pos : ℕ) (tag value : Bytes)
        → (if same tag (codes "10")
            then some e
            else (note_field e tag (eq_pos + 1) value >>= go (soh_pos + 1)))
          ≡ some e'
        → Keeps e e'
    after_soh eq_pos soh_pos tag value k = elim (Bool-cases (same tag (codes "10"))) [
      | inl last ↦ let k1 = rw last at k in ground (arith, k1)
      | inr more ↦
          let (e1, noted, rest) =
            >>=-eq-some (note_field e tag (eq_pos + 1) value) (go (soh_pos + 1)) (rw more at k) in
          let (o, l) = note_field_keeps e e1 tag (eq_pos + 1) value noted in
          let (o', l') = keep (soh_pos + 1) e1 e' rest in (o' ∙ o, l' ∙ l)
    ]

    after_eq :
        (eq_pos : ℕ)
        → (find soh wire (eq_pos + 1) >>= λ soh_pos.
            if same (take (eq_pos - pos) (drop pos wire)) (codes "10")
            then some e
            else (note_field e
                  (take (eq_pos - pos) (drop pos wire))
                  (eq_pos + 1)
                  (take (soh_pos - eq_pos - 1) (drop (eq_pos + 1) wire))
                >>= go (soh_pos + 1)))
          ≡ some e'
        → Keeps e e'
    after_eq eq_pos k = elim (Option-cases (find soh wire (eq_pos + 1))) [
      | inl z ↦ let h1 = rw z at k in cc
      | inr (soh_pos, z) ↦ after_soh eq_pos soh_pos _ _ (rw z at k)
    ]

scan_index_entry :
    (fuel : ℕ) (wire : Bytes) (pos : ℕ) (e e' : MsgIndex)
    → scan_index fuel wire pos e ≡ some e'
    → Keeps e e'
unfolding scan_index
scan_index_entry zero wire pos e e' h = ground arith
scan_index_entry (suc fuel) wire pos e e' h = elim (Bool-cases (ltb pos (length wire))) [
  | inr out ↦ let eq = rw out at h in ground (arith, eq)
  | inl on ↦
      scan_round_entry (scan_index fuel wire) (scan_index_entry fuel wire) wire pos e e'
        (rw on at h)
]

pub create_message_index_lem :
    (wire : Bytes) (off : ℕ) (e : MsgIndex)
    → create_message_index wire off ≡ some e
    → (e.off ≡ off) × (e.len ≡ length wire % 2 ^ 32)
unfolding create_message_index
create_message_index_lem wire off e h = scan_index_entry (length wire) wire 0 _ e h

pub record IsValid (s : MessageStore) : Type 0 where
  pub room : s.blob_buffer_used ≤ s.blob_buffer_size
  -- Entry `i` is message `i + 1`, and lies in the bytes in use.
  pub entries :
      (i : ℕ) (e : MsgIndex)
      → get_elem? s.outbound_index i ≡ some e
      → (e.seq ≡ i + 1) × (e.off + e.len ≤ s.blob_buffer_used)

pub init-IsValid : IsValid init
unfolding init
init-IsValid = record { room = omega arith; entries = λ i e h. cc }

-- The message with a number, as `handle_resend_request` gets at it.
abbrev pub message_at : MessageStore → ℕ → Option Bytes
message_at s n = get_message_index s n >>= λ e. some (get_message_wire s e)

make_room_lem :
    (s : MessageStore) (n : ℕ)
    → IsValid s
    → s.blob_buffer_size + n + min_blob_buffer_grow_size < 2 ^ 32
    → ((make_room s n).outbound_index ≡ s.outbound_index)
      × ((make_room s n).blob_buffer_used ≡ s.blob_buffer_used)
      × (s.blob_buffer_used + n ≤ (make_room s n).blob_buffer_size)
unfolding make_room grow_blob_buffer
make_room_lem s n v w = ground arith

make_room_bytes :
    (s : MessageStore) (n off len : ℕ)
    → off + len ≤ s.blob_buffer_used
    → read (make_room s n).blob_buffer off len ≡ read s.blob_buffer off len
unfolding make_room grow_blob_buffer
make_room_bytes s n off len h =
    elim (Bool-cases (ltb s.blob_buffer_size (s.blob_buffer_used + n))) [
      | inl e ↦ rw e (read_copy s.blob_buffer fresh s.blob_buffer_used off len h)
      | inr e ↦ rw e refl
    ]

-- The store after a message with this entry, given the store with room for it.
abbrev appended : MessageStore → Bytes → MsgIndex → MessageStore
appended s wire e = record s {
  blob_buffer = write s.blob_buffer s.blob_buffer_used wire;
  outbound_index = s.outbound_index ++ e ∷ [];
  blob_buffer_used = (s.blob_buffer_used + length wire) % 2 ^ 32;
}

module _ (s : MessageStore) (wire : Bytes) (e : MsgIndex) (v : IsValid s)
    (fits : s.blob_buffer_size + length wire + min_blob_buffer_grow_size < 2 ^ 32)
    (indexed : create_message_index wire s.blob_buffer_used ≡ some e)
    (next : e.seq ≡ length s.outbound_index + 1) where
  after : MessageStore
  after = appended (make_room s (length wire)) wire e

  stored :
      (i : ℕ)
      → i < length s.outbound_index
      → get_elem? (s.outbound_index ++ e ∷ []) i ≡ get_elem? s.outbound_index i
  stored i h = get_elem?-append_lt s.outbound_index (e ∷ []) i h

  runs : store_outbound_message s wire ≡ some after
  unfolding store_outbound_message after
  runs =
      let (index, used, _) = make_room_lem s (length wire) v fits in
      let test : (e.seq == length s.outbound_index + 1) ≡ true = ground arith in
      let made : create_message_index wire (make_room s (length wire)).blob_buffer_used ≡ some e =
        ap (create_message_index wire) used ∙ indexed in
      let test' : (e.seq == length (make_room s (length wire)).outbound_index + 1) ≡ true =
        ap (λ (l : List MsgIndex). e.seq == length l + 1) index ∙ test in
      rw made (rw test' refl)

  used_lem : after.blob_buffer_used ≡ s.blob_buffer_used + length wire
  unfolding after
  used_lem = let (_, used, _) = make_room_lem s (length wire) v fits in omega (arith, v.room)

  size_lem : s.blob_buffer_used + length wire ≤ after.blob_buffer_size
  unfolding after
  size_lem = let (_, _, size) = make_room_lem s (length wire) v fits in size

  index_lem : after.outbound_index ≡ s.outbound_index ++ e ∷ []
  unfolding after
  index_lem =
      let (index, _, _) = make_room_lem s (length wire) v fits in ap (λ l. l ++ e ∷ []) index

  -- Bytes in use stay, and the new ones lie behind them.
  old_bytes :
      (off len : ℕ)
      → off + len ≤ s.blob_buffer_used
      → read after.blob_buffer off len ≡ read s.blob_buffer off len
  unfolding after
  old_bytes off len h =
      let (_, used, _) = make_room_lem s (length wire) v fits in
      read-write_below (make_room s (length wire)).blob_buffer
        (make_room s (length wire)).blob_buffer_used wire off len (omega arith)
      ∙ make_room_bytes s (length wire) off len h

  new_bytes : read after.blob_buffer s.blob_buffer_used (length wire) ≡ wire
  unfolding after
  new_bytes =
      let (_, used, _) = make_room_lem s (length wire) v fits in
      subst
        (λ k.
          read
            (write (make_room s (length wire)).blob_buffer
              (make_room s (length wire)).blob_buffer_used wire)
            k (length wire)
          ≡ wire)
        used (read-write_self (make_room s (length wire)).blob_buffer _ wire)

  entry_bounds : (e.off ≡ s.blob_buffer_used) × (e.len ≡ length wire)
  entry_bounds =
      let (o, l) = create_message_index_lem wire s.blob_buffer_used e indexed in (o, omega arith)

  after-IsValid : IsValid after
  after-IsValid = record {
    room = omega (arith, used_lem, size_lem);
    entries = λ i a h. entry i a (rw index_lem at h);
  }
    where
      entry :
          (i : ℕ) (a : MsgIndex)
          → get_elem? (s.outbound_index ++ e ∷ []) i ≡ some a
          → (a.seq ≡ i + 1) × (a.off + a.len ≤ after.blob_buffer_used)
      entry i a h = elim (Bool-cases (ltb i (length s.outbound_index))) [
        | inl old ↦
            let (q, b) = v.entries i a (sym (stored i (ltb→lt i _ old)) ∙ h) in
            (q, omega (arith, used_lem))
        | inr new ↦
            let len = length-append s.outbound_index (e ∷ []) in
            let lt = get_elem?-some (s.outbound_index ++ e ∷ []) i h in
            let here : i ≡ length s.outbound_index = ground (arith, len, lt) in
            let same_entry : some e ≡ some a =
              sym (get_elem?-append_last s.outbound_index e)
              ∙ ap (get_elem? (s.outbound_index ++ e ∷ [])) (sym here)
              ∙ h in
            let (o, l) = entry_bounds in
            subst (λ (b : MsgIndex). (b.seq ≡ i + 1) × (b.off + b.len ≤ after.blob_buffer_used))
              (some-injective e a same_entry) (omega arith, omega (arith, used_lem))
      ]

  after_new : message_at after (length s.outbound_index + 1) ≡ some wire
  unfolding get_message_index get_message_wire
  after_new =
      let n = length s.outbound_index in
      let len : length (s.outbound_index ++ e ∷ []) ≡ n + 1 =
        omega (arith, length-append s.outbound_index (e ∷ [])) in
      let test : (ltb 0 (n + 1) && leb (n + 1) (length (s.outbound_index ++ e ∷ []))) ≡ true =
        ground arith in
      let back : n + 1 - 1 ≡ n = omega arith in
      let (o, l) = entry_bounds in
      rw (index_lem, test, back, get_elem?-append_last s.outbound_index e)
        (rw (o, l) (ap some new_bytes))

  after_old : (n : ℕ) → 0 < n → n ≤ length s.outbound_index → message_at after n ≡ message_at s n
  unfolding get_message_index get_message_wire
  after_old n p h =
      let len = length-append s.outbound_index (e ∷ []) in
      let test : (ltb 0 n && leb n (length s.outbound_index)) ≡ true = ground arith in
      let test' : (ltb 0 n && leb n (length (s.outbound_index ++ e ∷ []))) ≡ true = ground arith in
      let (a, at) = get_elem?_within s.outbound_index (n - 1) (omega arith) in
      rw (index_lem, test, test', stored (n - 1) (omega arith)) (found a at)
    where
      found :
          (a : MsgIndex)
          → get_elem? s.outbound_index (n - 1) ≡ some a
          → (get_elem? s.outbound_index (n - 1) >>= λ b. some (read after.blob_buffer b.off b.len))
            ≡ (get_elem? s.outbound_index (n - 1) >>= λ b. some (read s.blob_buffer b.off b.len))
      found a at = rw at (ap some (old_bytes a.off a.len (v.entries (n - 1) a at).1))

-- A message whose MsgSeqNum is the next number is stored under that number and found there again;
-- the messages before it stay as they were, and the store keeps its invariant. The sizes stay below
-- 2^32, the range of the source's counters.
pub store_lem :
    (s : MessageStore) (wire : Bytes) (e : MsgIndex)
    → IsValid s
    → s.blob_buffer_size + length wire + min_blob_buffer_grow_size < 2 ^ 32
    → create_message_index wire s.blob_buffer_used ≡ some e
    → e.seq ≡ length s.outbound_index + 1
    → (t : MessageStore) × (store_outbound_message s wire ≡ some t)
      × IsValid t
      × (length t.outbound_index ≡ length s.outbound_index + 1)
      × (message_at t (length s.outbound_index + 1) ≡ some wire)
      × ((n : ℕ) → 0 < n → n ≤ length s.outbound_index → message_at t n ≡ message_at s n)
store_lem s wire e v fits indexed next = (
  after s wire e v fits indexed next,
  runs s wire e v fits indexed next,
  after-IsValid s wire e v fits indexed next,
  rw (index_lem s wire e v fits indexed next)
      (omega (arith, length-append s.outbound_index (e ∷ []))),
  after_new s wire e v fits indexed next,
  after_old s wire e v fits indexed next,
)

make_room_keeps :
    (s : MessageStore) (n : ℕ)
    → ((make_room s n).outbound_index ≡ s.outbound_index)
      × ((make_room s n).blob_buffer_used ≡ s.blob_buffer_used)
unfolding make_room grow_blob_buffer
make_room_keeps s n = ground arith

-- A message with any other MsgSeqNum is not stored: the assert of the source fails.
pub store_out_of_turn :
    (s : MessageStore) (wire : Bytes) (e : MsgIndex)
    → create_message_index wire s.blob_buffer_used ≡ some e
    → e.seq ≢ length s.outbound_index + 1
    → store_outbound_message s wire ≡ none
unfolding store_outbound_message
store_out_of_turn s wire e indexed ne =
    let (index, used) = make_room_keeps s (length wire) in
    let test : (e.seq == length s.outbound_index + 1) ≡ false = ground arith in
    rw (ap (create_message_index wire) used ∙ indexed)
      (rw (ap (λ (l : List MsgIndex). e.seq == length l + 1) index ∙ test) refl)
