-- ===== src/Session/Queue.antt =====
-- The write queue as the stream of bytes that are still to be written.
use fix_engine.Prelude.{
  if_yes, if_no, ℕ, zero, suc, ◌+◌, ◌^◌, ◌≡◌, ◌≤◌, ◌<◌, refl, sym, ◌∙◌, ap, Bool, true, false, List,
  [], ◌∷◌, ◌++◌, append-nil, append_assoc, Bytes, some, arith, if◌then◌else◌, leb, length, drop,
  ◌>>=◌, Bool-cases, inl, inr,
}
use fix_engine.MessageStore.{
  MsgIndex, create_message_index, min_blob_buffer_grow_size, store_outbound_message,
}
use fix_engine.MessageStore.Store.{IsValid, message_at, store_lem}
use fix_engine.Session.State.{Session, PendingWrite, is_running}
use fix_engine.Session.Io.{
  write_front, do_write, send_bytes, keep_alive, send_message, advance, on_written,
  schedule_heartbeat,
}

-- The bytes to be written, in the order in which they go out.
abbrev pub pending : List PendingWrite → Bytes
pending [] = []
pending (f ∷ rest) = drop f.sent f.bytes ++ pending rest

pending-append :
    (q : List PendingWrite) (bytes : Bytes)
    → pending (q ++ record { bytes = bytes; sent = 0 } ∷ []) ≡ pending q ++ bytes
pending-append [] bytes = append-nil bytes
pending-append (f ∷ rest) bytes =
    ap (λ r. drop f.sent f.bytes ++ r) (pending-append rest bytes)
    ∙ sym (append_assoc (drop f.sent f.bytes) (pending rest) bytes)

drop-nil : (k : ℕ) → drop {A = ℕ} k [] ≡ []
drop-nil zero = refl
drop-nil (suc k) = refl

drop-drop : (m n : ℕ) (xs : Bytes) → drop (m + n) xs ≡ drop n (drop m xs)
drop-drop zero n xs = ap (λ k. drop k xs) (omega arith)
drop-drop (suc m) n [] = drop-nil (suc m + n) ∙ sym (drop-nil n)
drop-drop (suc m) n (x ∷ xs) =
    let e : suc m + n ≡ suc (m + n) = omega arith in ap (λ k. drop k (x ∷ xs)) e ∙ drop-drop m n xs

drop-append : (n : ℕ) (xs ys : Bytes) → n ≤ length xs → drop n (xs ++ ys) ≡ drop n xs ++ ys
drop-append zero xs ys h = refl
drop-append (suc n) [] ys h = absurd (omega arith)
drop-append (suc n) (x ∷ xs) ys h = drop-append n xs ys (omega arith)

drop_all : (n : ℕ) (xs : Bytes) → length xs ≤ n → drop n xs ≡ []
drop_all zero [] h = refl
drop_all zero (x ∷ xs) h = absurd (omega arith)
drop_all (suc n) [] h = refl
drop_all (suc n) (x ∷ xs) h = drop_all n xs (omega arith)

-- What the connection has taken of the front.
abbrev pub front_left : List PendingWrite → Bytes
front_left [] = []
front_left (f ∷ rest) = drop f.sent f.bytes

advance_lem :
    (f : PendingWrite) (rest : List PendingWrite) (n : ℕ)
    → n ≤ length (drop f.sent f.bytes)
    → (q : List PendingWrite) × (advance (f ∷ rest) n ≡ some q)
      × (pending q ≡ drop n (pending (f ∷ rest)))
unfolding advance
advance_lem f rest n h = (
  _,
  refl,
  elim (Bool-cases (leb (length f.bytes) (f.sent + n))) [
    | inl e ↦ rw e (
        sym (
          drop-append n (drop f.sent f.bytes) (pending rest) h
          ∙ ap (λ v. v ++ pending rest)
              (sym (drop-drop f.sent n f.bytes) ∙ drop_all (f.sent + n) f.bytes (ground arith))))
    | inr e ↦ rw e (
        ap (λ v. v ++ pending rest) (drop-drop f.sent n f.bytes)
        ∙ sym (drop-append n (drop f.sent f.bytes) (pending rest) h))
  ],
)

write_front_keeps :
    (s : Session) (q : List PendingWrite)
    → s.stopped ≡ false
    → s.conn ≡ true
    → (t : Session) × (write_front s q ≡ some t) × (t.write_q ≡ s.write_q)
unfolding write_front
write_front_keeps s [] h c = (_, refl, refl)
write_front_keeps s (f ∷ rest) h c = rw (h, c) (_, refl, refl)

-- A write that completes takes its bytes off the front of the stream, and nothing else: what was
-- queued goes out once and in order. It takes at most what is left of the first message, which is
-- what it was given.
pub on_written_in_order :
    (s : Session) (f : PendingWrite) (rest : List PendingWrite) (n : ℕ)
    → s.stopped ≡ false
    → s.conn ≡ true
    → s.write_q ≡ f ∷ rest
    → n ≤ length (drop f.sent f.bytes)
    → (t : Session) × (on_written s n ≡ some t) × (pending t.write_q ≡ drop n (pending s.write_q))
unfolding on_written do_write
on_written_in_order s f rest n h c q le =
    let (q', runs, left) = advance_lem f rest n le in
    let (t, wrote, kept) = write_front_keeps (record s { write_q = q' }) q' h c in
    (
      t,
      if_no s.stopped _ _ h
          ∙ ap (λ m. m >>= λ q''. do_write (record s { write_q = q'' }))
              (ap (λ p. advance p n) q ∙ runs)
          ∙ wrote,
      ap pending kept ∙ left ∙ ap (λ v. drop n (pending v)) (sym q),
    )

-- What a queued message leaves of the session.
record Queued (s t : Session) (bytes : Bytes) : Type 0 where
  pub appended : pending t.write_q ≡ pending s.write_q ++ bytes
  pub in_flight : t.write_inflight ≡ true
  pub same_store : t.store ≡ s.store

write_front_busy :
    (s : Session) (q : List PendingWrite) (bytes : Bytes)
    → s.stopped ≡ false
    → s.conn ≡ true
    → s.write_inflight ≡ true
    → (t : Session) × (write_front s (q ++ record { bytes = bytes; sent = 0 } ∷ []) ≡ some t)
      × (t.write_q ≡ s.write_q)
      × (t.write_inflight ≡ true)
      × (t.store ≡ s.store)
unfolding write_front
write_front_busy s [] bytes h c i = (_, if_no s.stopped _ _ h ∙ if_yes s.conn _ _ c, refl, i, refl)
write_front_busy s (f ∷ rest) bytes h c i =
    (_, if_no s.stopped _ _ h ∙ if_yes s.conn _ _ c, refl, i, refl)

send_bytes_lem :
    (s : Session) (bytes : Bytes)
    → s.stopped ≡ false
    → (s.write_inflight ≡ false → s.conn ≡ true)
    → (t : Session) × (send_bytes s bytes ≡ some t) × Queued s t bytes
unfolding send_bytes do_write
send_bytes_lem s bytes h c = elim (Bool-cases s.write_inflight) [
  | inl e ↦ (
    _,
    if_yes s.write_inflight _ _ e,
    record { appended = pending-append s.write_q bytes; in_flight = e; same_store = refl },
  )
  | inr e ↦
      let q = s.write_q ++ record { bytes = bytes; sent = 0 } ∷ [] in
      let s' : Session = record s { write_q = q; write_inflight = true } in
      let (t, runs, kept, busy, store) = write_front_busy s' s.write_q bytes h (c e) refl in
      (
        t,
        if_no s.write_inflight _ _ e ∙ runs,
        record {
          appended = ap pending kept ∙ pending-append s.write_q bytes;
          in_flight = busy;
          same_store = store;
        },
      )
]

keep_alive_keeps :
    (s : Session)
    → ((keep_alive s).write_q ≡ s.write_q)
      × ((keep_alive s).store ≡ s.store)
      × ((keep_alive s).write_inflight ≡ s.write_inflight)
unfolding keep_alive schedule_heartbeat
keep_alive_keeps s = go (is_running s.state)
  where
    go :
        (b : Bool)
        → ((if b then schedule_heartbeat s else s).write_q ≡ s.write_q)
          × ((if b then schedule_heartbeat s else s).store ≡ s.store)
          × ((if b then schedule_heartbeat s else s).write_inflight ≡ s.write_inflight)
    go true = (refl, refl, refl)
    go false = (refl, refl, refl)

-- A message sent under the next number of the store goes to the end of the stream of bytes to be
-- written, a write is under way, and it is stored under its number, to be sent again; messages
-- stored before it stay. The session has a connection, unless a write is under way already; the
-- sizes of the store stay below 2^32.
pub send_message_queues :
    (s : Session) (wire : Bytes) (e : MsgIndex)
    → s.stopped ≡ false
    → (s.write_inflight ≡ false → s.conn ≡ true)
    → IsValid s.store
    → s.store.blob_buffer_size + length wire + min_blob_buffer_grow_size < 2 ^ 32
    → create_message_index wire s.store.blob_buffer_used ≡ some e
    → e.seq ≡ length s.store.outbound_index + 1
    → (t : Session) × (send_message s wire false ≡ some t)
      × (pending t.write_q ≡ pending s.write_q ++ wire)
      × (t.write_inflight ≡ true)
      × (message_at t.store (length s.store.outbound_index + 1) ≡ some wire)
      × ((n : ℕ)
          → 0 < n
          → n ≤ length s.store.outbound_index
          → message_at t.store n ≡ message_at s.store n)
unfolding send_message
send_message_queues s wire e h c v fits indexed next =
    let (s1, sent, queued) = send_bytes_lem s wire h c in
    let (store, stored, _, _, there, others) = store_lem s.store wire e v fits indexed next in
    let s2 : Session = record s1 { store = store } in
    let (q, st, busy) = keep_alive_keeps s2 in
    let stored' : store_outbound_message s1.store wire ≡ some store =
      ap (λ m. store_outbound_message m wire) queued.same_store ∙ stored in
    (
      keep_alive s2,
      if_no s.stopped _ _ h
          ∙ (ap
                (λ m. m >>= λ x.
                  if false
                  then some (keep_alive x)
                  else store_outbound_message x.store wire >>= λ y.
                      some (keep_alive (record x { store = y })))
                sent
              ∙ ap (λ m. m >>= λ y. some (keep_alive (record s1 { store = y }))) stored'),
      ap pending q ∙ queued.appended,
      busy ∙ queued.in_flight,
      ap (λ m. message_at m (length s.store.outbound_index + 1)) st ∙ there,
      λ n lo hi. ap (λ m. message_at m n) st ∙ others n lo hi,
    )
