-- ===== src/Validator/Found.antt =====
-- src/Validator.cpp, `validate_fields_`: the search for the field of a tag.
use fix_engine.Prelude.{
  ℕ, suc, ◌+◌, ◌≡◌, refl, sym, ◌∙◌, subst, Bool, true, false, List, [], ◌∷◌, Bytes, Option, none,
  some, if◌then◌else◌, if_yes, if_no, ◌==◌, ==_iff, get_elem?, arith,
}
use fix_engine.Message.{FieldView, find_field}
use fix_engine.Validator.{find_if}

-- The field that `find_if` gives.
pub record Found (tag : ℕ) (msg : List FieldView) (i : ℕ) (value : Bytes) : Type 0 where
  pub view : FieldView
  pub there : get_elem? msg i ≡ some view
  pub tag_eq : view.tag ≡ tag
  pub value_eq : view.value ≡ value

Found-behind :
    (tag : ℕ) (v : FieldView) (vs : List FieldView) (i : ℕ) (value : Bytes)
    → Found tag vs i value
    → Found tag (v ∷ vs) (suc i) value
Found-behind tag v vs i value f = record {
  view = f.view;
  there = f.there;
  tag_eq = f.tag_eq;
  value_eq = f.value_eq;
}

-- A search that starts at i gives positions from i on.
AnswerFrom : ℕ → List FieldView → ℕ → Option (ℕ × Bytes) → Type 0
AnswerFrom tag msg i none = find_field tag msg ≡ none
AnswerFrom tag msg i (some (k, value)) =
    (find_field tag msg ≡ some value) × ((j : ℕ) × ((k ≡ i + j) × Found tag msg j value))

find_if_from : (tag i : ℕ) (msg : List FieldView) → AnswerFrom tag msg i (find_if tag i msg)
unfolding AnswerFrom find_if find_field
find_if_from tag i [] = refl
find_if_from tag i (v ∷ vs) =
    by_tag (v.tag == tag) refl (find_if tag (suc i) vs) (find_if_from tag (suc i) vs)
  where
    by_tag :
        (b : Bool)
        → (v.tag == tag) ≡ b
        → (o : Option (ℕ × Bytes)) → AnswerFrom tag vs (suc i) o
        → AnswerFrom tag (v ∷ vs) i (if b then some (i, v.value) else o)
    by_tag true e o a = (
      if_yes (v.tag == tag) _ _ e,
      (
        0,
        (
          omega arith,
          record { view = v; there = refl; tag_eq = (==_iff v.tag tag).0 e; value_eq = refl },
        ),
      ),
    )
    by_tag false e none a = if_no (v.tag == tag) _ _ e ∙ a
    by_tag false e (some (k, value)) a = (
      if_no (v.tag == tag) _ _ e ∙ a.0,
      (suc (a.1.0), (a.1.1.0 ∙ omega arith, Found-behind tag v vs a.1.0 value a.1.1.1)),
    )

-- What a search of the whole message gives.
unfoldable pub Answer : ℕ → List FieldView → Option (ℕ × Bytes) → Type 0
Answer tag msg none = find_field tag msg ≡ none
Answer tag msg (some (i, value)) = (find_field tag msg ≡ some value) × Found tag msg i value

pub find_if_lem : (tag : ℕ) (msg : List FieldView) → Answer tag msg (find_if tag 0 msg)
unfolding AnswerFrom Answer
find_if_lem tag msg = whole (find_if tag 0 msg) (find_if_from tag 0 msg)
  where
    whole : (o : Option (ℕ × Bytes)) → AnswerFrom tag msg 0 o → Answer tag msg o
    whole none a = a
    whole (some (i, value)) a =
        (a.0, subst (λ k. Found tag msg k value) (sym (a.1.1.0 ∙ omega arith)) a.1.1.1)
