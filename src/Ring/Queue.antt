-- ===== src/Ring/Queue.antt =====
-- include/fix/core/Ring.hpp: a ring is a queue of its items, by each policy.
use fix_engine.Prelude.{
  suc, ℕ, ◌<◌, ◌≡◌, refl, sym, ◌∙◌, ap, Bool, true, false, List, [], ◌∷◌, ◌++◌, some, length, drop,
  if◌then◌else◌, if_no, ◌==◌, Bool-cases, inl, inr, arith,
}
use fix_engine.Ring.{
  RingPolicy, grow, reject, overwrite, Ring, empty, full, prev, enlarge, drop_oldest, put,
  push_full, push, front, back, pop_front, drop_newest, pop_back,
}
use fix_engine.Ring.Contents.{
  contents, length-contents, IsValid, drop_oldest-IsValid, drop_oldest-contents, put-IsValid,
  put-contents, enlarge-IsValid, enlarge-contents, drop_newest-IsValid, drop_newest-contents,
}

module _ {A : Type 0} where
  -- A queue of at most `capacity` items that takes one more, by the policy: the items, and whether the
  -- new one is among them.
  pub enqueue : RingPolicy → ℕ → List A → A → List A × Bool
  enqueue grow capacity items item = (items ++ item ∷ [], true)
  enqueue overwrite capacity items item =
      (if length items == capacity then drop 1 items ++ item ∷ [] else items ++ item ∷ [], true)
  enqueue reject capacity items item =
      if length items == capacity then (items, false) else (items ++ item ∷ [], true)

  -- What a push gives: a valid ring with these items, and this answer.
  pub record Gives (queue : List A × Bool) (r : Ring A × Bool) : Type 0 where
    pub valid : IsValid r.0
    pub items_are : contents r.0 ≡ queue.0
    pub answer_is : r.1 ≡ queue.1

  put_lem :
      (r : Ring A) (items : List A) (item : A)
      → IsValid r
      → contents r ≡ items
      → r.size < r.capacity
      → Gives (items ++ item ∷ [], true) (put r item, true)
  put_lem r items item v e room = record {
    valid = put-IsValid r v item room;
    items_are = put-contents r v item room ∙ ap (λ xs. xs ++ item ∷ []) e;
    answer_is = refl;
  }

  has_room : (r : Ring A) → IsValid r → full r ≡ false → r.size < r.capacity
  has_room r v room = let fit = v.fits in ground (arith, fit, room)

  has_item : (r : Ring A) → IsValid r → full r ≡ true → 0 < r.size
  has_item r v at_end = let low = v.head_below in ground (arith, low, at_end)

  enlarged_room :
      (min_grow_size : ℕ) (blank : A) (r : Ring A)
      → IsValid r
      → 0 < min_grow_size
      → (enlarge min_grow_size blank r).size < (enlarge min_grow_size blank r).capacity
  unfolding enlarge
  enlarged_room min_grow_size blank r v more = let fit = v.fits in omega arith

  dropped_room :
      (r : Ring A) → IsValid r → 0 < r.size → (drop_oldest r).size < (drop_oldest r).capacity
  unfolding drop_oldest
  dropped_room r v some_item = let fit = v.fits in omega arith

  behind_first :
      (r : Ring A) → IsValid r → 0 < r.size → contents (drop_oldest r) ≡ drop 1 (contents r)
  behind_first r v some_item = sym (ap (drop 1) (drop_oldest-contents r v some_item))

  -- With room every policy adds the item.
  push_room_lem :
      (policy : RingPolicy) (r : Ring A) (item : A)
      → IsValid r
      → full r ≡ false
      → Gives (enqueue policy r.capacity (contents r) item) (put r item, true)
  unfolding enqueue
  push_room_lem grow r item v room = put_lem r (contents r) item v refl (has_room r v room)
  push_room_lem overwrite r item v room =
      rw (length-contents r, room) (put_lem r (contents r) item v refl (has_room r v room))
  push_room_lem reject r item v room =
      rw (length-contents r, room) (put_lem r (contents r) item v refl (has_room r v room))

  push_full_lem :
      (policy : RingPolicy) (min_grow_size : ℕ) (blank : A) (r : Ring A) (item : A)
      → IsValid r
      → full r ≡ true
      → (policy ≡ grow → 0 < min_grow_size)
      → Gives
          (enqueue policy r.capacity (contents r) item)
          (push_full policy min_grow_size blank r item)
  unfolding enqueue push_full
  push_full_lem grow min_grow_size blank r item v at_end grows =
      let more = grows refl in
      put_lem (enlarge min_grow_size blank r) (contents r) item
        (enlarge-IsValid r v min_grow_size blank more) (enlarge-contents r v min_grow_size blank)
        (enlarged_room min_grow_size blank r v more)
  push_full_lem overwrite min_grow_size blank r item v at_end grows =
      let some_item = has_item r v at_end in
      rw (length-contents r, at_end)
        (put_lem (drop_oldest r) (drop 1 (contents r)) item (drop_oldest-IsValid r v some_item)
          (behind_first r v some_item) (dropped_room r v some_item))
  push_full_lem reject min_grow_size blank r item v at_end grows =
      rw (length-contents r, at_end) (record { valid = v; items_are = refl; answer_is = refl })

  -- In a valid ring, whose buffer is never of length 0, push makes the ring a queue with the item
  -- behind the others, if there is room or the policy is to grow; a full ring gives up its oldest item
  -- where the policy is to overwrite, and refuses the new one where it is to reject.
  pub push_queues :
      (policy : RingPolicy) (min_grow_size : ℕ) (blank : A) (r : Ring A) (item : A)
      → IsValid r
      → (policy ≡ grow → 0 < min_grow_size)
      → Gives (enqueue policy r.capacity (contents r) item) (push policy min_grow_size blank r item)
  unfolding push
  push_queues policy min_grow_size blank r item v grows = elim (Bool-cases (full r)) [
    | inl at_end ↦ rw at_end (push_full_lem policy min_grow_size blank r item v at_end grows)
    | inr room ↦ rw room (push_room_lem policy r item v room)
  ]

  -- In a valid ring with items pop_front and front run: what is left is valid, and the items were the
  -- front and what is left. The same for pop_back and back at the other end.
  pub pop_lem :
      (r : Ring A)
      → IsValid r
      → 0 < r.size
      → ((x : A) × ((rest : Ring A) × ((front r ≡ some x)
              × ((pop_front r ≡ some rest) × (IsValid rest × (contents r ≡ x ∷ contents rest))))))
        × ((x : A) × ((rest : Ring A) × ((back r ≡ some x)
                × ((pop_back r ≡ some rest)
                    × (IsValid rest × (contents r ≡ contents rest ++ x ∷ []))))))
  unfolding front pop_front back pop_back
  pop_lem r v some_item =
      let not_empty : empty r ≡ false = ground (arith, some_item) in
      (
        (
          r.buffer r.head,
          (
            drop_oldest r,
            (
              if_no (empty r) _ _ not_empty,
              (
                if_no (empty r) _ _ not_empty,
                (drop_oldest-IsValid r v some_item, drop_oldest-contents r v some_item),
              ),
            ),
          ),
        ),
        (
          r.buffer (prev r r.tail),
          (
            drop_newest r,
            (
              if_no (empty r) _ _ not_empty,
              (
                if_no (empty r) _ _ not_empty,
                (drop_newest-IsValid r v some_item, drop_newest-contents r v some_item),
              ),
            ),
          ),
        ),
      )

  -- With room a push only puts the item into the buffer, whatever the policy.
  pub push-put :
      (policy : RingPolicy) (min_grow_size : ℕ) (blank : A) (r : Ring A) (item : A)
      → r.size < r.capacity
      → push policy min_grow_size blank r item ≡ (put r item, true)
  unfolding push
  push-put policy min_grow_size blank r item room = if_no (full r) _ _ (ground (arith, room))

  pub capacity-put : (r : Ring A) (item : A) → (put r item).capacity ≡ r.capacity
  unfolding put
  capacity-put r item = refl

  size_some : (r : Ring A) (x : A) (xs : List A) → contents r ≡ x ∷ xs → r.size ≡ suc (length xs)
  size_some r x xs e = sym (length-contents r) ∙ ap length e

  first_of : A → List A → A
  first_of d [] = d
  first_of d (x ∷ xs) = x

  -- What the items of a valid ring begin with is its front, and what is behind it is left by a pop.
  pub take_front :
      (r : Ring A) (x : A) (xs : List A)
      → IsValid r
      → contents r ≡ x ∷ xs
      → (rest : Ring A) × ((front r ≡ some x)
          × ((pop_front r ≡ some rest) × (IsValid rest × (contents rest ≡ xs))))
  unfolding first_of
  take_front r x xs v e =
      let ((y, (rest, (at_front, (pops, (valid, all))))), _) =
        pop_lem r v (omega (arith, size_some r x xs e)) in
      let both : y ∷ contents rest ≡ x ∷ xs = sym all ∙ e in
      (rest, (at_front ∙ ap (λ zs. some (first_of x zs)) both, (pops, (valid, ap (drop 1) both))))
