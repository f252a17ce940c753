-- ===== src/Console/Order.antt =====
-- `ORDER BY` on a column of times. Rows with equal times keep their order, of which SQL says nothing.
pub mod Laws
use credbroker.Common.{ℕ, List, [], ◌∷◌, leb, if◌then◌else◌}

module _ {ℓ} {A : Type ℓ} (column : A → ℕ) where
  insert_ordered : A → List A → List A
  insert_ordered x [] = x ∷ []
  insert_ordered x (y ∷ ys) =
      let rest = insert_ordered x ys in if leb (column x) (column y) then x ∷ (y ∷ ys) else y ∷ rest

  -- `order_by(column)`
  unfoldable pub order_by : List A → List A
  unfolding insert_ordered
  order_by [] = []
  order_by (x ∷ xs) = insert_ordered x (order_by xs)

  insert_descending : A → List A → List A
  insert_descending x [] = x ∷ []
  insert_descending x (y ∷ ys) =
      let rest = insert_descending x ys in
      if leb (column y) (column x) then x ∷ (y ∷ ys) else y ∷ rest

  -- `order_by(column.desc())`
  unfoldable pub order_by_desc : List A → List A
  unfolding insert_descending
  order_by_desc [] = []
  order_by_desc (x ∷ xs) = insert_descending x (order_by_desc xs)
