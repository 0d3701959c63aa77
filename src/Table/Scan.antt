-- ===== src/Table/Scan.antt =====
-- SELECT with JOIN, ORDER BY and LIMIT.
use grove_storage.Prelude.{
  ℕ, zero, suc, ◌≡◌, ◌≤◌, refl, ◌∙◌, Bool, true, Option, none, some, List, [], ◌∷◌, ◌++◌, ltb, leb,
  ◌==◌, ◌&&◌, ◌||◌, if◌then◌else◌, arith, any, take, map, length, All, All-append, Bool-cases, inl,
  inr,
}
use grove_storage.Table.Rows.{select_where, exists_where}

-- A row of a result with what it is ordered by.
pub record Ranked (C : Type 0) : Type 0 where
  pub due : ℕ
  pub tie : ℕ
  pub item : C

module _ {A B : Type 0} where
  -- `FROM a JOIN b`: the rows of `b` that go with each row of `a`.
  unfoldable pub for_each : List A → (A → List B) → List B
  for_each [] f = []
  for_each (x ∷ xs) f = f x ++ for_each xs f

module _ {A : Type 0} where
  -- `LEFT JOIN`.
  abbrev pub or_null : List A → List (Option A)
  or_null [] = none ∷ []
  or_null (x ∷ xs) = map some (x ∷ xs)

module _ {C : Type 0} where
  abbrev pub before : Ranked C → Ranked C → Bool
  before a b = ltb a.due b.due || a.due == b.due && leb a.tie b.tie

  unfoldable pub place : Ranked C → List (Ranked C) → List (Ranked C)
  place r [] = r ∷ []
  place r (s ∷ rs) = if before r s then r ∷ s ∷ rs else s ∷ place r rs

  unfoldable pub by_due : List (Ranked C) → List (Ranked C)
  unfolding place
  by_due [] = []
  by_due (r ∷ rs) = place r (by_due rs)

  -- `ORDER BY due, tie LIMIT n`.
  unfoldable pub page : ℕ → List (Ranked C) → List C
  unfolding by_due
  page limit rows = map (λ (r : Ranked C). r.item) (take limit (by_due rows))

  module _ (P : Ranked C → Type 0) where
    All-place : (r : Ranked C) (rs : List (Ranked C)) → P r → All P rs → All P (place r rs)
    unfolding place
    All-place r [] h hs = (h, tt)
    All-place r (s ∷ rs) h hs = elim (Bool-cases (before r s)) [
      | inl t ↦ rw t (h, hs)
      | inr f ↦ rw f (hs.0, All-place r rs h hs.1)
    ]

    All-by_due : (rs : List (Ranked C)) → All P rs → All P (by_due rs)
    unfolding by_due
    All-by_due [] hs = tt
    All-by_due (r ∷ rs) hs = All-place r (by_due rs) hs.0 (All-by_due rs hs.1)

    All-take : (n : ℕ) (rs : List (Ranked C)) → All P rs → All P (take n rs)
    All-take zero rs hs = tt
    All-take (suc n) [] hs = tt
    All-take (suc n) (r ∷ rs) hs = (hs.0, All-take n rs hs.1)

  All-item :
      (P : C → Type 0) (rs : List (Ranked C))
      → All (λ r. P r.item) rs
      → All P (map (λ (r : Ranked C). r.item) rs)
  All-item P [] hs = tt
  All-item P (r ∷ rs) hs = (hs.0, All-item P rs hs.1)

  -- What holds of every row holds of the page.
  pub All-page :
      (P : C → Type 0) (limit : ℕ) (rs : List (Ranked C))
      → All (λ r. P r.item) rs
      → All P (page limit rs)
  unfolding page
  All-page P limit rs hs =
      All-item P (take limit (by_due rs))
        (All-take (λ r. P r.item) limit (by_due rs) (All-by_due (λ r. P r.item) rs hs))

  module _ (p : Ranked C → Bool) where
    any-place : (r : Ranked C) (rs : List (Ranked C)) → any p (place r rs) ≡ (p r || any p rs)
    unfolding place
    any-place r [] = refl
    any-place r (s ∷ rs) = ground (arith, any-place r rs)

    any-by_due : (rs : List (Ranked C)) → any p (by_due rs) ≡ any p rs
    unfolding by_due
    any-by_due [] = refl
    any-by_due (r ∷ rs) = ground (arith, any-place r (by_due rs), any-by_due rs)

    any-take : (n : ℕ) (rs : List (Ranked C)) → length rs ≤ n → any p (take n rs) ≡ any p rs
    any-take zero [] h = refl
    any-take zero (r ∷ rs) h = absurd (omega (arith, h))
    any-take (suc n) [] h = refl
    any-take (suc n) (r ∷ rs) h = rw (any-take n rs (omega (arith, h))) refl

  length-place : (r : Ranked C) (rs : List (Ranked C)) → length (place r rs) ≡ suc (length rs)
  unfolding place
  length-place r [] = refl
  length-place r (s ∷ rs) = ground (arith, length-place r rs)

  length-by_due : (rs : List (Ranked C)) → length (by_due rs) ≡ length rs
  unfolding by_due
  length-by_due [] = refl
  length-by_due (r ∷ rs) = ground (arith, length-place r (by_due rs), length-by_due rs)

  any-item :
      (p : C → Bool) (rs : List (Ranked C))
      → any p (map (λ (r : Ranked C). r.item) rs) ≡ any (λ (r : Ranked C). p r.item) rs
  any-item p [] = refl
  any-item p (r ∷ rs) = rw (any-item p rs) refl

  -- A page that is long enough has every row.
  pub any-page :
      (p : C → Bool) (limit : ℕ) (rs : List (Ranked C))
      → length rs ≤ limit
      → any p (page limit rs) ≡ any (λ (r : Ranked C). p r.item) rs
  unfolding page
  any-page p limit rs h =
      any-item p (take limit (by_due rs))
      ∙ any-take (λ (r : Ranked C). p r.item) limit (by_due rs) (omega (arith, h, length-by_due rs))
      ∙ any-by_due (λ (r : Ranked C). p r.item) rs

module _ {B : Type 0} where
  any_append : (p : B → Bool) (xs ys : List B) → any p (xs ++ ys) ≡ (any p xs || any p ys)
  any_append p [] ys = refl
  any_append p (x ∷ xs) ys = ground (arith, any_append p xs ys)

module _ {A B : Type 0} where
  -- A JOIN has a row that passes `p`, if some row that it selects passes `r` and has one.
  pub any-for_each :
      (q r : A → Bool) (p : B → Bool) (xs : List A) (f : A → List B)
      → ((x : A) → q x ≡ true → r x ≡ true → any p (f x) ≡ true)
      → exists_where (λ x. q x && r x) xs ≡ true
      → any p (for_each (select_where q xs) f) ≡ true
  unfolding for_each select_where exists_where
  any-for_each q r p [] f h e = cc
  any-for_each q r p (x ∷ xs) f h e = elim (Bool-cases (q x)) [
    | inr n ↦ rw n (any-for_each q r p xs f h (rw n at e))
    | inl t ↦ elim (Bool-cases (r x)) [
      | inl u ↦ rw t (any_append p (f x) (for_each (select_where q xs) f) ∙ rw (h x t u) refl)
      | inr n ↦
          let rest = any-for_each q r p xs f h (rw (t, n) at e) in
          rw t (any_append p (f x) (for_each (select_where q xs) f) ∙ ground (arith, rest))
    ]
  ]

  pub any-join :
      (q : A → Bool) (p : B → Bool) (xs : List A) (f : A → List B)
      → ((x : A) → q x ≡ true → any p (f x) ≡ true)
      → exists_where q xs ≡ true
      → any p (for_each (select_where q xs) f) ≡ true
  unfolding for_each select_where exists_where
  any-join q p [] f h e = cc
  any-join q p (x ∷ xs) f h e = elim (Bool-cases (q x)) [
    | inl t ↦ rw t (any_append p (f x) (for_each (select_where q xs) f) ∙ rw (h x t) refl)
    | inr n ↦ rw n (any-join q p xs f h (rw n at e))
  ]

  -- What every row of a JOIN has, from what the rows that it selects have.
  pub All-for_each :
      (q : A → Bool) (P : B → Type 0) (xs : List A) (f : A → List B)
      → ((x : A)
          → q x ≡ true
          → ((r : A → Bool) → r x ≡ true → exists_where r xs ≡ true)
          → All P (f x))
      → All P (for_each (select_where q xs) f)
  unfolding for_each select_where exists_where
  All-for_each q P [] f h = tt
  All-for_each q P (x ∷ xs) f h =
      let later =
        All-for_each q P xs f (λ y qy known. h y qy (λ r ry. ground (arith, known r ry))) in
      elim (Bool-cases (q x)) [
        | inl t ↦
            rw t (
              All-append P (f x) (for_each (select_where q xs) f) (h x t (λ r rx. rw rx refl))
                later)
        | inr n ↦ rw n later
      ]
