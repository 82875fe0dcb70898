-- ===== src/LogFileSink/Eviction.antt =====
-- src/LogFileSink.cpp: what `evict_one` does to the list of the open files.
use fix_engine.Prelude.{
  ℕ, suc, ◌-◌, ◌<◌, ◌≡◌, ◌≢◌, refl, sym, ◌∙◌, ap, Bool, true, false, List, [], ◌∷◌, ◌++◌, Bytes,
  Option, some, ◌==◌, ==_iff, if◌then◌else◌, if_yes, if_no, ◌>>=◌, Bool-cases, inl, inr, arith,
}
use fix_engine.Chars.{codes}
use fix_engine.Definitions.{SessionId, same_session}
use fix_engine.LogFileSink.{
  LogFileSink, SinkNode, find_node, set_node, with_node, take_out, kept, last, pop_back, touch,
  no_session, write_end, close_stream, forget, ensure_open, close_file, evict_one,
}

abbrev pub Cell : Type 0
Cell = ℕ × SessionId

last-append : (cells : List Cell) (c : Cell) → last (cells ++ c ∷ []) ≡ some c
unfolding last
last-append [] c = refl
last-append (d ∷ []) c = refl
last-append (d ∷ (e ∷ cells)) c = last-append (e ∷ cells) c

pop_back-append : (cells : List Cell) (c : Cell) → pop_back (cells ++ c ∷ []) ≡ cells
unfolding pop_back
pop_back-append [] c = refl
pop_back-append (d ∷ []) c = refl
pop_back-append (d ∷ (e ∷ cells)) c = ap (λ r. d ∷ r) (pop_back-append (e ∷ cells) c)

-- No element of the list has this number.
unfoldable pub Absent : ℕ → List Cell → Type 0
Absent i [] = Unit
Absent i ((k, id) ∷ cells) = (k ≢ i) × Absent i cells

take_out-append :
    (cells : List Cell) (i : ℕ) (v : SessionId)
    → Absent i cells
    → take_out i (cells ++ (i, v) ∷ []) ≡ some ((i, v), cells)
unfolding take_out Absent
take_out-append [] i v h = if_yes (i == i) _ _ ((==_iff i i).1 refl)
take_out-append ((k, id) ∷ cells) i v (apart, h) =
    let other : (k == i) ≡ false = ground (arith, apart) in
    if_no (k == i) _ _ other
    ∙ ap (λ o. o >>= λ r. some (kept (k, id) r)) (take_out-append cells i v h)

-- What a session finds once its node is set, and that this is what counts.
find_node-set_node :
    (nodes : List (SessionId × SinkNode)) (id : SessionId) (m n : SinkNode)
    → find_node nodes id ≡ some m
    → find_node (set_node nodes id n) id ≡ some n
unfolding find_node set_node
find_node-set_node [] id m n e = absurd (cc)
find_node-set_node ((k, x) ∷ nodes) id m n e = elim (Bool-cases (same_session k id)) [
  | inl t ↦
      ap (λ l. find_node l id)
        (if_yes (same_session k id) ((k, n) ∷ nodes) ((k, x) ∷ set_node nodes id n) t)
      ∙ if_yes (same_session k id) (some n) (find_node nodes id) t
  | inr t ↦
      ap (λ l. find_node l id)
        (if_no (same_session k id) ((k, n) ∷ nodes) ((k, x) ∷ set_node nodes id n) t)
      ∙ if_no (same_session k id) (some x) (find_node (set_node nodes id n) id) t
      ∙ find_node-set_node nodes id m n
          (sym (if_no (same_session k id) (some x) (find_node nodes id) t) ∙ e)
]

-- A sink with this list, in which a session has this node.
pub record Holds (s : LogFileSink) (list : List Cell) (v : SessionId) (n : SinkNode) : Type 0 where
  pub same_list : s.lru_cache ≡ list
  pub node : find_node s.sess_to_file v ≡ some n

module _ (opens : Bytes → Bool) where
  -- An open file that is asked for moves to the front.
  ensure_open-front :
      (s : LogFileSink) (cells : List Cell) (i : ℕ) (v sid : SessionId) (n : SinkNode)
      → Holds s (cells ++ (i, v) ∷ []) v n
      → Absent i cells
      → n.is_open ≡ true
      → n.in_lru ≡ true
      → n.lru_iterator ≡ i
      → (fuel : ℕ)
      → ensure_open opens (suc fuel) s sid v ≡ some (record s { lru_cache = (i, v) ∷ cells })
  unfolding ensure_open touch
  ensure_open-front s cells i v sid n h absent is_open in_lru at fuel =
      rw (h.node, is_open, in_lru, at, h.same_list, take_out-append cells i v absent) refl

-- The node of a session after the closing bracket, and after the close.
abbrev ended : SinkNode → SinkNode
ended n = record n { written = if n.is_open then n.written ++ codes "\n]" else n.written }

abbrev closed : SinkNode → SinkNode
closed n = record n { is_open = false }

write_end_lem :
    (s : LogFileSink) (v : SessionId) (n : SinkNode)
    → find_node s.sess_to_file v ≡ some n
    → write_end s v ≡ some (with_node s v (ended n))
unfolding write_end
write_end_lem s v n e = rw e refl

close_stream_lem :
    (s : LogFileSink) (v : SessionId) (n : SinkNode)
    → find_node s.sess_to_file v ≡ some n
    → close_stream s v ≡ some (with_node s v (closed n))
unfolding close_stream
close_stream_lem s v n e = rw e refl

abbrev forgotten : LogFileSink → SessionId → SinkNode → LogFileSink
forgotten s v n = record (with_node s v (record n { in_lru = false })) {
  lru_cache = pop_back s.lru_cache;
  currently_open_files = s.currently_open_files - 1;
}

forget_lem :
    (s : LogFileSink) (v : SessionId) (n : SinkNode)
    → find_node s.sess_to_file v ≡ some n
    → forget s v ≡ some (forgotten s v n)
unfolding forget
forget_lem s v n e = rw e refl

-- A node of an open file that was written to, as its place in the list says.
pub record IsListed (n : SinkNode) (i : ℕ) : Type 0 where
  pub opened : n.is_open ≡ true
  pub listed : n.in_lru ≡ true
  pub place : n.lru_iterator ≡ i
  pub begun : n.first_write ≡ false

-- A sink after its last file was evicted.
abbrev evicted : LogFileSink → List Cell → Cell → SinkNode → LogFileSink
evicted s before c n =
    let s1 = record s { lru_cache = c ∷ before } in
    forgotten (with_node (with_node s1 c.1 (ended n)) c.1 (closed (ended n))) c.1 (closed (ended n))

-- The steps of `close_file` of a file that was written to, which is opened like this first.
closing :
    (s s1 s2 : LogFileSink) (v : SessionId) (n : SinkNode) (opened : Option LogFileSink)
    → find_node s.sess_to_file v ≡ some n
    → n.first_write ≡ false
    → opened ≡ some s1
    → write_end s1 v ≡ some s2
    → (find_node s.sess_to_file v >>= λ node.
        (if node.first_write then some s else (opened >>= λ r. write_end r v)) >>= λ r.
        close_stream r v)
      ≡ close_stream s2 v
closing s s1 s2 v n opened found begun opens ends =
    ap
      (λ o. o >>= λ node.
        (if node.first_write then some s else (opened >>= λ r. write_end r v)) >>= λ r.
        close_stream r v)
      found
    ∙ ap (λ o. o >>= λ r. close_stream r v)
        (if_no n.first_write (some s) (opened >>= λ r. write_end r v) begun)
    ∙ ap (λ o. (o >>= λ r. write_end r v) >>= λ r. close_stream r v) opens
    ∙ ap (λ o. o >>= λ r. close_stream r v) ends

-- The steps of `evict_one`, whose victim is this and is closed like this.
evicting :
    (s s1 : LogFileSink) (c : Cell) (close : SessionId → Option LogFileSink)
    → (s.currently_open_files == 0) ≡ false
    → last s.lru_cache ≡ some c
    → close c.1 ≡ some s1
    → (if s.currently_open_files == 0
        then some s
        else (last s.lru_cache >>= λ victim. close victim.1 >>= λ r. forget r victim.1))
      ≡ forget s1 c.1
evicting s s1 c close some_open back closes =
    if_no (s.currently_open_files == 0) _ _ some_open
    ∙ ap (λ o. o >>= λ victim. close victim.1 >>= λ r. forget r victim.1) back
    ∙ ap (λ o. o >>= λ r. forget r c.1) closes

module _ (opens : Bytes → Bool) where
  close_file_lem :
      (s : LogFileSink) (before : List Cell) (i : ℕ) (v : SessionId) (n : SinkNode)
      → Holds s (before ++ (i, v) ∷ []) v n
      → Absent i before
      → IsListed n i
      → (fuel : ℕ)
      → close_file opens (suc (suc fuel)) s v
        ≡ some (
            with_node
              (with_node (record s { lru_cache = (i, v) ∷ before }) v (ended n))
              v
              (closed (ended n)))
  unfolding close_file
  close_file_lem s before i v n h absent is fuel =
      let s1 : LogFileSink = record s { lru_cache = (i, v) ∷ before } in
      let front =
        ensure_open-front opens s before i v no_session n h absent is.opened is.listed is.place
          fuel in
      let found = find_node-set_node s.sess_to_file v n (ended n) h.node in
      closing s s1 (with_node s1 v (ended n)) v n (ensure_open opens (suc fuel) s no_session v)
        h.node is.begun front (write_end_lem s1 v n h.node)
      ∙ close_stream_lem (with_node s1 v (ended n)) v (ended n) found

  evict_one_lem :
      (s : LogFileSink) (before : List Cell) (i : ℕ) (v : SessionId) (n : SinkNode)
      → Holds s (before ++ (i, v) ∷ []) v n
      → Absent i before
      → IsListed n i
      → 0 < s.currently_open_files
      → (fuel : ℕ) → evict_one opens (suc (suc (suc fuel))) s ≡ some (evicted s before (i, v) n)
  unfolding evict_one
  evict_one_lem s before i v n h absent is some_open fuel =
      let none_ : (s.currently_open_files == 0) ≡ false = ground (arith, some_open) in
      let s1 : LogFileSink = record s { lru_cache = (i, v) ∷ before } in
      let found1 = find_node-set_node s.sess_to_file v n (ended n) h.node in
      let found2 =
        find_node-set_node (set_node s.sess_to_file v (ended n)) v (ended n) (closed (ended n))
          found1 in
      let back : last s.lru_cache ≡ some (i, v) = ap last h.same_list ∙ last-append before (i, v) in
      evicting s (with_node (with_node s1 v (ended n)) v (closed (ended n))) (i, v)
        (close_file opens (suc (suc fuel)) s) none_ back
        (close_file_lem s before i v n h absent is fuel)
      ∙ forget_lem (with_node (with_node s1 v (ended n)) v (closed (ended n))) v (closed (ended n))
          found2

  -- With two files open or more, the last of the list written to and open, evict_one closes that file,
  -- but takes from the list the session before it: the one whose file is closed stays, in front.
  pub evict_one-other :
      (s : LogFileSink) (front : List Cell) (other : Cell) (i : ℕ) (v : SessionId) (n : SinkNode)
      → Holds s ((front ++ other ∷ []) ++ (i, v) ∷ []) v n
      → Absent i (front ++ other ∷ [])
      → IsListed n i
      → 0 < s.currently_open_files
      → (fuel : ℕ)
      → (t : LogFileSink) × ((evict_one opens (suc (suc (suc fuel))) s ≡ some t)
          × ((t.lru_cache ≡ (i, v) ∷ front)
              × ((m : SinkNode) × ((find_node t.sess_to_file v ≡ some m)
                    × ((m.is_open ≡ false) × (m.in_lru ≡ false))))))
  evict_one-other s front other i v n h absent is some_open fuel =
      let found1 = find_node-set_node s.sess_to_file v n (ended n) h.node in
      let nodes1 = set_node s.sess_to_file v (ended n) in
      let found2 = find_node-set_node nodes1 v (ended n) (closed (ended n)) found1 in
      let nodes2 = set_node nodes1 v (closed (ended n)) in
      let m : SinkNode = record (closed (ended n)) { in_lru = false } in
      (
        evicted s (front ++ other ∷ []) (i, v) n,
        (
          evict_one_lem s (front ++ other ∷ []) i v n h absent is some_open fuel,
          (
            pop_back-append ((i, v) ∷ front) other,
            (m, (find_node-set_node nodes2 v (closed (ended n)) m found2, (refl, refl))),
          ),
        ),
      )
