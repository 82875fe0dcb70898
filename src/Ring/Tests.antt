-- ===== src/Ring/Tests.antt =====
-- A full ring of two items, one of them behind the wrap.
use fix_engine.Prelude.{ℕ, ◌+◌, ◌≡◌, refl, [], ◌∷◌, ◌++◌, some, arith}
use fix_engine.Ring.{
  Ring, grow, overwrite, push, put, push_full, drop_oldest, front, back, pop_front, pop_back,
}
use fix_engine.Ring.Contents.{IsValid, contents, upto}
use fix_engine.Ring.Queue.{enqueue, Gives, push_queues, pop_lem}

abbrev two_items : Ring ℕ
two_items = record { head = 1; tail = 1; capacity = 2; size = 2; buffer = λ i. i + 5 }

two_items-IsValid : IsValid two_items
two_items-IsValid = record { head_below = omega arith; fits = omega arith; tail_at = refl }

push_queues_example : Gives (enqueue grow 2 (contents two_items) 9) (push grow 3 0 two_items 9)
push_queues_example = push_queues grow 3 0 two_items 9 two_items-IsValid λ _. omega arith

pop_lem_example :
    ((x : ℕ) × ((rest : Ring ℕ) × ((front two_items ≡ some x)
          × ((pop_front two_items ≡ some rest)
              × (IsValid rest × (contents two_items ≡ x ∷ contents rest))))))
    × ((x : ℕ) × ((rest : Ring ℕ) × ((back two_items ≡ some x)
            × ((pop_back two_items ≡ some rest)
                × (IsValid rest × (contents two_items ≡ contents rest ++ x ∷ []))))))
pop_lem_example = pop_lem two_items two_items-IsValid (omega arith)

overwritten : contents (push overwrite 0 0 two_items 9).0 ≡ 5 ∷ 9 ∷ []
unfolding contents upto push put push_full drop_oldest
overwritten = refl
