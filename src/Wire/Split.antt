-- ===== src/Wire/Split.antt =====
-- `str::split` by a character, `split_once`, and `join`, on the bytes of a text.
use grove_storage.Prelude.{
  ℕ, ◌≡◌, ◌≢◌, refl, Option, none, some, List, [], ◌∷◌, ◌++◌, Text, arith, ◌==◌, if◌then◌else◌, All,
  Bool-cases, inl, inr, ap, ◌∙◌,
}

-- The first piece and the others: `split` never gives an empty list.
abbrev cons_head : ℕ → List Text → List Text
cons_head c [] = (c ∷ []) ∷ []
cons_head c (p ∷ ps) = (c ∷ p) ∷ ps

unfoldable pub split : ℕ → Text → List Text
split sep [] = [] ∷ []
split sep (c ∷ s) = let rest = split sep s in if c == sep then [] ∷ rest else cons_head c rest

-- The text before and after the first separator.
abbrev cons_first : ℕ → Option (Text × Text) → Option (Text × Text)
cons_first c none = none
cons_first c (some (a, b)) = some (c ∷ a, b)

unfoldable pub split_once : ℕ → Text → Option (Text × Text)
split_once sep [] = none
split_once sep (c ∷ s) =
    let rest = split_once sep s in if c == sep then some ([], s) else cons_first c rest

unfoldable pub join : ℕ → List Text → Text
join sep [] = []
join sep (p ∷ []) = p
join sep (p ∷ q ∷ ps) = p ++ sep ∷ join sep (q ∷ ps)

abbrev pub Lacks : ℕ → Text → Type 0
Lacks sep = All (λ c. c ≢ sep)

split_piece : (sep : ℕ) (p s : Text) → Lacks sep p → split sep (p ++ sep ∷ s) ≡ p ∷ split sep s
unfolding split
split_piece sep [] s h = ground arith
split_piece sep (c ∷ p) s h = ground (arith, h.0, split_piece sep p s h.1)

split_last : (sep : ℕ) (p : Text) → Lacks sep p → split sep p ≡ p ∷ []
unfolding split
split_last sep [] h = refl
split_last sep (c ∷ p) h = ground (arith, h.0, split_last sep p h.1)

-- Splitting undoes joining, for pieces without the separator.
pub split-join :
    (sep : ℕ) (p : Text) (ps : List Text)
    → All (Lacks sep) (p ∷ ps)
    → split sep (join sep (p ∷ ps)) ≡ p ∷ ps
unfolding join
split-join sep p [] h = split_last sep p h.0
split-join sep p (q ∷ ps) h =
    rw (split_piece sep p (join sep (q ∷ ps)) h.0, split-join sep q ps h.1) refl

-- Joining undoes splitting.
join_cons : (sep c : ℕ) (ps : List Text) → join sep (cons_head c ps) ≡ c ∷ join sep ps
unfolding join
join_cons sep c [] = refl
join_cons sep c (p ∷ []) = refl
join_cons sep c (p ∷ q ∷ ps) = refl

split_cons : (sep : ℕ) (s : Text) → (p : Text) × (ps : List Text) × (split sep s ≡ p ∷ ps)
unfolding split
split_cons sep [] = ([], [], refl)
split_cons sep (c ∷ s) =
    let (p, ps, e) = split_cons sep s in
    elim (Bool-cases (c == sep)) [
      | inl t ↦ ([], p ∷ ps, rw (t, e) refl)
      | inr f ↦ (c ∷ p, ps, rw (f, e) refl)
    ]

pub join-split : (sep : ℕ) (s : Text) → join sep (split sep s) ≡ s
unfolding split join
join-split sep [] = refl
join-split sep (c ∷ s) =
    let (p, ps, e) = split_cons sep s in
    let back = rw e at (join-split sep s) in
    elim (Bool-cases (c == sep)) [
      | inl t ↦ rw (t, e) (ground (arith, back, t))
      | inr f ↦ rw f (join_cons sep c (split sep s) ∙ ap (◌∷◌ c) (join-split sep s))
    ]

pub split_once_piece :
    (sep : ℕ) (p s : Text) → Lacks sep p → split_once sep (p ++ sep ∷ s) ≡ some (p, s)
unfolding split_once
split_once_piece sep [] s h = ground arith
split_once_piece sep (c ∷ p) s h = ground (arith, h.0, split_once_piece sep p s h.1)

once_at :
    (sep c : ℕ) (s a b : Text) (rest : Option (Text × Text))
    → ((x : Text) → rest ≡ some (x, b) → (s ≡ x ++ sep ∷ b) × Lacks sep x)
    → (if c == sep then some ([], s) else cons_first c rest) ≡ some (a, b)
    → (c ∷ s ≡ a ++ sep ∷ b) × Lacks sep a
once_at sep c s a b none ih h = elim (Bool-cases (c == sep)) [
  | inl t ↦ ground (arith, t, h)
  | inr f ↦ cc (rw f at h)
]
once_at sep c s a b (some (x, y)) ih h = elim (Bool-cases (c == sep)) [
  | inl t ↦ ground (arith, t, h)
  | inr f ↦ ground (arith, f, h, ih x)
]

-- What `split_once` finds is the text around its first separator.
pub split_once_around :
    (sep : ℕ) (s a b : Text) → split_once sep s ≡ some (a, b) → (s ≡ a ++ sep ∷ b) × Lacks sep a
unfolding split_once
split_once_around sep [] a b h = cc
split_once_around sep (c ∷ s) a b h =
    once_at sep c s a b (split_once sep s) (λ x. split_once_around sep s x b) h
