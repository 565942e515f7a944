-- ===== src/Std/Split.antt =====
-- `retain`, `partition` and loops that push each item on one of two lists: where the items of a list go.
use ktsense.Prelude.{List, [], ◌∷◌}

-- In their order, items with the first property go left as they are, items with the second go right, each
-- as what is made of it.
pub data Split {ℓ κ} {A : Type ℓ} {B : Type κ} (Left Right : A → Type 0) (made : A → B)
    : List A → List A → List B → Type (ℓ ⊔ κ) where
  none_left : Split Left Right made [] [] []
  to_left :
      {xs ls : List A} {rs : List B} (x : A)
      → Left x
      → Split Left Right made xs ls rs
      → Split Left Right made (x ∷ xs) (x ∷ ls) rs
  to_right :
      {xs ls : List A} {rs : List B} (x : A)
      → Right x
      → Split Left Right made xs ls rs
      → Split Left Right made (x ∷ xs) ls (made x ∷ rs)
