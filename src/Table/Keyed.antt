-- ===== src/Table/Keyed.antt =====
-- A table with a primary key: at most one row for each key, found by it.
use grove_storage.Prelude.{
  ℕ, ◌≡◌, ◌≢◌, refl, inl, inr, Bool, true, false, Option, none, some, List, [], ◌∷◌, ◌++◌,
  if◌then◌else◌, arith, Bool-cases, ◌==◌,
}
use mathlib.Core.Option
use grove_storage.Table.Rows.{set_if, update_where, delete_where, exists_where, find_where}

module _ {A : Type 0} (key : A → ℕ) where
  -- `SELECT ... WHERE key = $1`.
  unfoldable pub row_at : ℕ → List A → Option A
  row_at k [] = none
  row_at k (r ∷ rs) = if key r == k then some r else row_at k rs

  abbrev pub Distinct : List A → Type 0
  Distinct [] = Unit {0}
  Distinct (r ∷ rs) = (row_at (key r) rs ≡ none) × Distinct rs

  pub row_at-key : (k : ℕ) (rs : List A) {r : A} → row_at k rs ≡ some r → key r ≡ k
  unfolding row_at
  row_at-key k [] h = cc
  row_at-key k (x ∷ rs) {r} h = elim (Bool-cases (key x == k)) [
    | inl t ↦ ground arith
    | inr f ↦ row_at-key k rs (rw f at h)
  ]

  pub row_at-update :
      (k : ℕ) (p : A → Bool) (g : A → A) (rs : List A)
      → ((r : A) → key (g r) ≡ key r)
      → row_at k (update_where p g rs) ≡ Option.map (set_if p g) (row_at k rs)
  unfolding row_at update_where
  row_at-update k p g [] h = refl
  row_at-update k p g (r ∷ rs) h = ground (arith, h r, row_at-update k p g rs h)

  pub Distinct-update :
      (p : A → Bool) (g : A → A) (rs : List A)
      → ((r : A) → key (g r) ≡ key r)
      → Distinct rs
      → Distinct (update_where p g rs)
  unfolding update_where
  Distinct-update p g [] h d = tt
  Distinct-update p g (r ∷ rs) h d = (
    ground (arith, h r, row_at-update (key r) p g rs h, row_at-update (key (g r)) p g rs h, d.0),
    Distinct-update p g rs h d.1,
  )

  pub row_at-append :
      (k : ℕ) (rs : List A) (x : A)
      → row_at k (rs ++ x ∷ []) ≡ (
          if key x == k
          then elim (row_at k rs) [ none ↦ some x | some r ↦ some r ]
          else row_at k rs)
  unfolding row_at
  row_at-append k [] x = refl
  row_at-append k (r ∷ rs) x = ground (arith, row_at-append k rs x)

  pub Distinct-append :
      (rs : List A) (x : A) → row_at (key x) rs ≡ none → Distinct rs → Distinct (rs ++ x ∷ [])
  unfolding row_at
  Distinct-append [] x h d = (refl, tt)
  Distinct-append (r ∷ rs) x h d =
      (ground (arith, row_at-append (key r) rs x, d.0), Distinct-append rs x (ground arith) d.1)

  pub row_at-delete_none :
      (k : ℕ) (p : A → Bool) (rs : List A)
      → row_at k rs ≡ none
      → row_at k (delete_where p rs) ≡ none
  unfolding row_at delete_where
  row_at-delete_none k p [] h = refl
  row_at-delete_none k p (r ∷ rs) h = ground (arith, row_at-delete_none k p rs)

  pub Distinct-delete : (p : A → Bool) (rs : List A) → Distinct rs → Distinct (delete_where p rs)
  unfolding delete_where
  Distinct-delete p [] d = tt
  Distinct-delete p (r ∷ rs) d = elim (Bool-cases (p r)) [
    | inl t ↦ rw t (Distinct-delete p rs d.1)
    | inr f ↦ rw f (row_at-delete_none (key r) p rs d.0, Distinct-delete p rs d.1)
  ]

  -- What a DELETE leaves under a key.
  pub row_at-delete :
      (k : ℕ) (p : A → Bool) (rs : List A)
      → Distinct rs
      → row_at k (delete_where p rs)
        ≡ elim (row_at k rs) [ none ↦ none | some r ↦ if p r then none else some r ]
  unfolding row_at delete_where
  row_at-delete k p [] d = refl
  row_at-delete k p (r ∷ rs) d = ground (
    arith,
    row_at-delete k p rs d.1,
    d.0,
    row_at-delete_none k p rs,
    row_at-delete_none (key r) p rs,
  )

  -- A statement that matched only rows of one key matched the row under it.
  pub exists-hit :
      (k : ℕ) (p : A → Bool) (rs : List A)
      → Distinct rs
      → ((r : A) → p r ≡ true → key r ≡ k)
      → exists_where p rs ≡ true
      → (r : A) × (row_at k rs ≡ some r) × (p r ≡ true)
  unfolding row_at exists_where
  exists-hit k p [] d h e = absurd (cc)
  exists-hit k p (r ∷ rs) d h e = elim (Bool-cases (p r)) [
    | inl t ↦ (r, ground (arith, h r t), t)
    | inr f ↦ let (x, at, px) = exists-hit k p rs d.1 h (rw f at e) in (x, ground (arith, d.0), px)
  ]

  pub exists-eq-row_at :
      (k : ℕ) (p : A → Bool) (rs : List A)
      → Distinct rs
      → ((r : A) → p r ≡ true → key r ≡ k)
      → exists_where p rs ≡ elim (row_at k rs) [ none ↦ false | some r ↦ p r ]
  unfolding row_at exists_where
  exists-eq-row_at k p [] d h = refl
  exists-eq-row_at k p (r ∷ rs) d h =
      ground (arith, d.0, h r, exists-eq-row_at k p rs d.1 h, row_at-key k rs)

  -- A statement on the rows of one key leaves the row under another.
  pub row_at-update_other :
      (id k : ℕ) (p : A → Bool) (g : A → A) (rs : List A)
      → ((r : A) → key (g r) ≡ key r)
      → ((r : A) → p r ≡ true → key r ≡ id)
      → k ≢ id
      → row_at k (update_where p g rs) ≡ row_at k rs
  unfolding row_at update_where
  row_at-update_other id k p g [] h only ne = refl
  row_at-update_other id k p g (r ∷ rs) h only ne =
      ground (arith, h r, only r, row_at-update_other id k p g rs h only ne)

  pub row_at-delete_other :
      (id k : ℕ) (p : A → Bool) (rs : List A)
      → ((r : A) → p r ≡ true → key r ≡ id)
      → k ≢ id
      → row_at k (delete_where p rs) ≡ row_at k rs
  unfolding row_at delete_where
  row_at-delete_other id k p [] only ne = refl
  row_at-delete_other id k p (r ∷ rs) only ne =
      ground (arith, only r, row_at-delete_other id k p rs only ne)

  -- The row under the key after an UPDATE that matched it.
  pub row_at-update_hit :
      (id : ℕ) (p : A → Bool) (g : A → A) (rs : List A)
      → Distinct rs
      → ((r : A) → key (g r) ≡ key r)
      → ((r : A) → p r ≡ true → key r ≡ id)
      → exists_where p rs ≡ true
      → (r : A) × (row_at id rs ≡ some r)
        × (p r ≡ true)
        × (row_at id (update_where p g rs) ≡ some (g r))
  row_at-update_hit id p g rs d h only e =
      let (r, at, pr) = exists-hit id p rs d only e in
      (r, at, pr, ground (arith, row_at-update id p g rs h, at, pr))

  pub row_at-delete_hit :
      (id : ℕ) (p : A → Bool) (rs : List A) {r : A}
      → Distinct rs
      → row_at id rs ≡ some r
      → p r ≡ true
      → row_at id (delete_where p rs) ≡ none
  row_at-delete_hit id p rs d at pr = ground (arith, row_at-delete id p rs d, at, pr)

  -- The first row that a test on one key matched is the row under it.
  pub find-hit :
      (k : ℕ) (p : A → Bool) (rs : List A) {r : A}
      → Distinct rs
      → ((x : A) → p x ≡ true → key x ≡ k)
      → find_where p rs ≡ some r
      → (row_at k rs ≡ some r) × (p r ≡ true)
  unfolding row_at find_where
  find-hit k p [] d only e = absurd (cc)
  find-hit k p (x ∷ rs) {r} d only e = elim (Bool-cases (p x)) [
    | inl t ↦ ground (arith, only x t)
    | inr f ↦
        let (at, pr) = find-hit k p rs {r = r} d.1 only (rw f at e) in
        (ground (arith, d.0, at, only r pr), pr)
  ]
