-- ===== src/Table/Rows.antt =====
-- UPDATE, DELETE and SELECT of one table: the rows are a list, a WHERE clause is a test of a row.
use grove_storage.Prelude.{
  ℕ, suc, Bool, true, false, Option, none, some, List, [], ◌∷◌, if◌then◌else◌,
}

module _ {A : Type 0} where
  -- `UPDATE t SET g WHERE p`, for one row.
  abbrev pub set_if : (A → Bool) → (A → A) → A → A
  set_if p g r = if p r then g r else r

  unfoldable pub update_where : (A → Bool) → (A → A) → List A → List A
  update_where p g [] = []
  update_where p g (r ∷ rs) = set_if p g r ∷ update_where p g rs

  -- The rows that a WHERE clause matches: `rows_affected()` of an UPDATE or a DELETE.
  unfoldable pub affected : (A → Bool) → List A → ℕ
  affected p [] = 0
  affected p (r ∷ rs) = if p r then suc (affected p rs) else affected p rs

  unfoldable pub delete_where : (A → Bool) → List A → List A
  delete_where p [] = []
  delete_where p (r ∷ rs) = if p r then delete_where p rs else r ∷ delete_where p rs

  -- `SELECT EXISTS (SELECT 1 FROM t WHERE p)`.
  unfoldable pub exists_where : (A → Bool) → List A → Bool
  exists_where p [] = false
  exists_where p (r ∷ rs) = if p r then true else exists_where p rs

  -- `SELECT ... WHERE p` with `fetch_optional`: the first row.
  unfoldable pub find_where : (A → Bool) → List A → Option A
  find_where p [] = none
  find_where p (r ∷ rs) = if p r then some r else find_where p rs

  -- `SELECT ... WHERE p` with `fetch_all`, in the table's order.
  unfoldable pub select_where : (A → Bool) → List A → List A
  select_where p [] = []
  select_where p (r ∷ rs) = if p r then r ∷ select_where p rs else select_where p rs
