-- ===== src/Table/Order.antt =====
-- `ORDER BY` a number: the rows by insertion, equal keys in the table's order.
use grove_storage.Prelude.{ℕ, List, [], ◌∷◌, if◌then◌else◌, leb}

module _ {A : Type 0} (key : A → ℕ) where
  pub insert_by : A → List A → List A
  insert_by r [] = r ∷ []
  insert_by r (s ∷ rs) = if leb (key r) (key s) then r ∷ s ∷ rs else s ∷ insert_by r rs

  unfoldable pub order_by : List A → List A
  unfolding insert_by
  order_by [] = []
  order_by (r ∷ rs) = insert_by r (order_by rs)
