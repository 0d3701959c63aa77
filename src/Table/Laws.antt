-- ===== src/Table/Laws.antt =====
-- What a statement leaves of each row, and how the tests of a table see it.
use grove_storage.Prelude.{
  ◌≡◌, ◌≢◌, refl, inl, inr, ◌∙◌, Bool, true, false, none, some, List, [], ◌∷◌, ◌++◌, ◌||◌, arith,
  All, Bool-cases,
}
use grove_storage.Table.Rows.{
  set_if, update_where, affected, delete_where, exists_where, find_where,
}

module _ {A : Type 0} where
  pub affected_pos : (p : A → Bool) (rs : List A) → affected p rs ≢ 0 → exists_where p rs ≡ true
  unfolding affected exists_where
  affected_pos p [] h = absurd (h refl)
  affected_pos p (r ∷ rs) h = ground (arith, affected_pos p rs)

  pub affected_zero : (p : A → Bool) (rs : List A) → affected p rs ≡ 0 → exists_where p rs ≡ false
  unfolding affected exists_where
  affected_zero p [] h = refl
  affected_zero p (r ∷ rs) h = ground (arith, affected_zero p rs)

  pub affected_of_exists :
      (p : A → Bool) (rs : List A) → exists_where p rs ≡ true → affected p rs ≢ 0
  unfolding affected exists_where
  affected_of_exists p [] h = cc
  affected_of_exists p (r ∷ rs) h = ground (arith, affected_of_exists p rs)

  pub affected_of_none :
      (p : A → Bool) (rs : List A) → exists_where p rs ≡ false → affected p rs ≡ 0
  unfolding affected exists_where
  affected_of_none p [] h = refl
  affected_of_none p (r ∷ rs) h = ground (arith, affected_of_none p rs)

  -- A test after an UPDATE is the test of the updated rows.
  pub exists-update :
      (p q : A → Bool) (g : A → A) (rs : List A)
      → exists_where p (update_where q g rs) ≡ exists_where (λ r. p (set_if q g r)) rs
  unfolding exists_where update_where
  exists-update p q g [] = refl
  exists-update p q g (r ∷ rs) = ground (arith, exists-update p q g rs)

  pub exists_congr :
      (p q : A → Bool) (rs : List A) → ((r : A) → p r ≡ q r) → exists_where p rs ≡ exists_where q rs
  unfolding exists_where
  exists_congr p q [] h = refl
  exists_congr p q (r ∷ rs) h = ground (arith, h r, exists_congr p q rs h)

  pub exists_never :
      (p : A → Bool) (rs : List A) → ((r : A) → p r ≡ false) → exists_where p rs ≡ false
  unfolding exists_where
  exists_never p [] h = refl
  exists_never p (r ∷ rs) h = ground (arith, h r, exists_never p rs h)

  -- If `p` implies `q` row by row, a row for `p` is a row for `q`.
  pub exists_mono :
      (p q : A → Bool) (rs : List A)
      → ((r : A) → p r ≡ true → q r ≡ true)
      → exists_where p rs ≡ true
      → exists_where q rs ≡ true
  unfolding exists_where
  exists_mono p q [] h e = e
  exists_mono p q (r ∷ rs) h e = ground (arith, h r, exists_mono p q rs h)

  pub exists_mono_none :
      (p q : A → Bool) (rs : List A)
      → ((r : A) → p r ≡ true → q r ≡ true)
      → exists_where q rs ≡ false
      → exists_where p rs ≡ false
  exists_mono_none p q rs h e = elim (Bool-cases (exists_where p rs)) [
    | inl t ↦ cc (exists_mono p q rs h t)
    | inr f ↦ f
  ]

  -- A row that an UPDATE keeps under the test still passes it.
  pub exists-update_keep :
      (p q : A → Bool) (g : A → A) (rs : List A)
      → ((r : A) → p r ≡ true → p (set_if q g r) ≡ true)
      → exists_where p rs ≡ true
      → exists_where p (update_where q g rs) ≡ true
  exists-update_keep p q g rs h e =
      exists-update p q g rs ∙ exists_mono p (λ r. p (set_if q g r)) rs h e

  pub exists-update_same :
      (p q : A → Bool) (g : A → A) (rs : List A)
      → ((r : A) → p (set_if q g r) ≡ p r)
      → exists_where p (update_where q g rs) ≡ exists_where p rs
  exists-update_same p q g rs h =
      exists-update p q g rs ∙ exists_congr (λ r. p (set_if q g r)) p rs h

  pub exists-update_never :
      (p q : A → Bool) (g : A → A) (rs : List A)
      → ((r : A) → p (set_if q g r) ≡ false)
      → exists_where p (update_where q g rs) ≡ false
  exists-update_never p q g rs h =
      exists-update p q g rs ∙ exists_never (λ r. p (set_if q g r)) rs h

  pub exists-append :
      (p : A → Bool) (xs ys : List A)
      → exists_where p (xs ++ ys) ≡ (exists_where p xs || exists_where p ys)
  unfolding exists_where
  exists-append p [] ys = refl
  exists-append p (x ∷ xs) ys = ground (arith, exists-append p xs ys)

  pub exists-delete_keep :
      (p q : A → Bool) (rs : List A)
      → ((r : A) → p r ≡ true → q r ≡ false)
      → exists_where p rs ≡ true
      → exists_where p (delete_where q rs) ≡ true
  unfolding exists_where delete_where
  exists-delete_keep p q [] h e = e
  exists-delete_keep p q (r ∷ rs) h e = ground (arith, h r, exists-delete_keep p q rs h)

  pub exists-delete_none :
      (p q : A → Bool) (rs : List A)
      → exists_where p rs ≡ false
      → exists_where p (delete_where q rs) ≡ false
  unfolding exists_where delete_where
  exists-delete_none p q [] e = e
  exists-delete_none p q (r ∷ rs) e = ground (arith, exists-delete_none p q rs)

  pub exists-delete_self : (p : A → Bool) (rs : List A) → exists_where p (delete_where p rs) ≡ false
  unfolding exists_where delete_where
  exists-delete_self p [] = refl
  exists-delete_self p (r ∷ rs) = ground (arith, exists-delete_self p rs)

  pub All-update :
      (P Q : A → Type 0) (q : A → Bool) (g : A → A) (rs : List A)
      → ((r : A) → P r → Q (set_if q g r))
      → All P rs
      → All Q (update_where q g rs)
  unfolding update_where
  All-update P Q q g [] h a = tt
  All-update P Q q g (r ∷ rs) h a = (h r a.0, All-update P Q q g rs h a.1)

  pub All-delete :
      (P : A → Type 0) (q : A → Bool) (rs : List A) → All P rs → All P (delete_where q rs)
  unfolding delete_where
  All-delete P q [] a = tt
  All-delete P q (r ∷ rs) a = elim (Bool-cases (q r)) [
    | inl t ↦ rw t (All-delete P q rs a.1)
    | inr f ↦ rw f (a.0, All-delete P q rs a.1)
  ]

  -- The rows that a DELETE leaves do not match its WHERE clause.
  pub All-delete_kept :
      (P Q : A → Type 0) (q : A → Bool) (rs : List A)
      → ((r : A) → q r ≡ false → P r → Q r)
      → All P rs
      → All Q (delete_where q rs)
  unfolding delete_where
  All-delete_kept P Q q [] h a = tt
  All-delete_kept P Q q (r ∷ rs) h a = elim (Bool-cases (q r)) [
    | inl t ↦ rw t (All-delete_kept P Q q rs h a.1)
    | inr f ↦ rw f (h r f a.0, All-delete_kept P Q q rs h a.1)
  ]

  pub All-of_none :
      (p : A → Bool) (rs : List A) → exists_where p rs ≡ false → All (λ r. p r ≡ false) rs
  unfolding exists_where
  All-of_none p [] h = tt
  All-of_none p (r ∷ rs) h = (ground arith, All-of_none p rs (ground arith))

  pub find_where-some :
      (p : A → Bool) (rs : List A) {r : A}
      → find_where p rs ≡ some r
      → (p r ≡ true) × (exists_where p rs ≡ true)
  unfolding find_where exists_where
  find_where-some p [] h = cc
  find_where-some p (x ∷ rs) {r} h = elim (Bool-cases (p x)) [
    | inl t ↦ ground arith
    | inr f ↦ rw f (find_where-some p rs (rw f at h))
  ]

  pub find_where-none :
      (p : A → Bool) (rs : List A) → find_where p rs ≡ none → exists_where p rs ≡ false
  unfolding find_where exists_where
  find_where-none p [] h = refl
  find_where-none p (x ∷ rs) h = ground (arith, find_where-none p rs)

  pub delete_never : (p : A → Bool) (rs : List A) → ((r : A) → p r ≡ false) → delete_where p rs ≡ rs
  unfolding delete_where
  delete_never p [] h = refl
  delete_never p (r ∷ rs) h = ground (arith, h r, delete_never p rs h)

  -- A test after an INSERT.
  pub exists-insert :
      (p : A → Bool) (rs : List A) (x : A)
      → exists_where p (rs ++ x ∷ []) ≡ (exists_where p rs || p x)
  unfolding exists_where
  exists-insert p [] x = ground arith
  exists-insert p (r ∷ rs) x = ground (arith, exists-insert p rs x)
