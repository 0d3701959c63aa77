-- ===== src/Wire/Names.antt =====
-- What auth.rs of s3-protocol asks of the names of signed headers, apart from its tests.
use grove_storage.Prelude.{
  ℕ, ◌≡◌, ◌≤◌, ◌<◌, ◌↔◌, ◌⊎◌, refl, sym, inl, inr, true, false, Bool, some, List, [], ◌∷◌, Text,
  bytes, text_eq, text_eq→eq, text_eq_refl, all, any, ltb, ◌==◌, All, arith, Bool-cases,
}
use grove_storage.Wire.Decimal.{is_digit, is_lower}
use grove_storage.Wire.Query.{text_le}
use grove_storage.Wire.Split.{join}
use grove_storage.Wire.Credential.{signed_headers, unsorted, is_name, name_byte, host}
use grove_storage.Wire.Scope.{signed_headers-join}

-- The first text comes before the second, by bytes, and is another.
abbrev pub Before : Text → Text → Type 0
Before s [] = ⊥
Before [] (b ∷ t) = Unit {0}
Before (a ∷ s) (b ∷ t) = (a < b) ⊎ ((a ≡ b) × Before s t)

abbrev pub Ascends : List Text → Type 0
Ascends [] = Unit {0}
Ascends (a ∷ []) = Unit {0}
Ascends (a ∷ b ∷ ns) = Before a b × Ascends (b ∷ ns)

abbrev pub Has : Text → List Text → Type 0
Has x [] = ⊥
Has x (n ∷ ns) = (n ≡ x) ⊎ Has x ns

-- A lowercase letter, a digit, or one of `!#$%&'*+-.^_`|~`.
abbrev pub InName : ℕ → Type 0
InName b =
    ((97 ≤ b) × (b ≤ 122))
    ⊎ (((48 ≤ b) × (b ≤ 57)) ⊎ (any (λ c. b == c) (bytes "!#$%&'*+-.^_`|~") ≡ true))

abbrev pub IsName : Text → Type 0
IsName [] = ⊥
IsName (b ∷ n) = All InName (b ∷ n)

before : (a b : Text) → text_le b a ≡ false → Before a b
unfolding text_le
before a [] h = cc h
before [] (b ∷ t) h = tt
before (a ∷ s) (b ∷ t) h = elim (Bool-cases (ltb a b)) [
  | inl e ↦ inl (ground (arith, e))
  | inr e ↦ inr (ground (arith, h, e), before s t (ground (arith, h, e)))
]

after : (a b : Text) → Before a b → text_le b a ≡ false
unfolding text_le
after a [] h = absurd h
after [] (b ∷ t) h = refl
after (a ∷ s) (b ∷ t) (inl e) = ground (arith, e)
after (a ∷ s) (b ∷ t) (inr (e, k)) = ground (arith, e, after s t k)

ascends : (ns : List Text) → unsorted ns ≡ false → Ascends ns
unfolding unsorted
ascends [] h = tt
ascends (a ∷ []) h = tt
ascends (a ∷ b ∷ ns) h = (before a b (ground (arith, h)), ascends (b ∷ ns) (ground (arith, h)))

sorted : (ns : List Text) → Ascends ns → unsorted ns ≡ false
unfolding unsorted
sorted [] h = refl
sorted (a ∷ []) h = refl
sorted (a ∷ b ∷ ns) (e, h) = ground (arith, after a b e, sorted (b ∷ ns) h)

any-Has : (x : Text) (ns : List Text) → any (text_eq x) ns ≡ true → Has x ns
any-Has x [] h = cc h
any-Has x (n ∷ ns) h = elim (Bool-cases (text_eq x n)) [
  | inl e ↦ inl (sym (text_eq→eq x n e))
  | inr e ↦ inr (any-Has x ns (ground (arith, h, e)))
]

Has-any : (x : Text) (ns : List Text) → Has x ns → any (text_eq x) ns ≡ true
Has-any x [] h = absurd h
Has-any x (n ∷ ns) (inl e) = rw e (ground (arith, text_eq_refl x))
Has-any x (n ∷ ns) (inr h) = ground (arith, Has-any x ns h)

name_byte-InName : (b : ℕ) → name_byte b ≡ true → InName b
name_byte-InName b h = elim (Bool-cases (is_lower b)) [
  | inl e ↦ inl (ground (arith, e), ground (arith, e))
  | inr e ↦ elim (Bool-cases (is_digit b)) [
    | inl f ↦ inr (inl (ground (arith, f), ground (arith, f)))
    | inr f ↦ inr (inr (ground (arith, h, e, f)))
  ]
]

InName-name_byte : (b : ℕ) → InName b → name_byte b ≡ true
InName-name_byte b (inl h) = ground (arith, h)
InName-name_byte b (inr (inl h)) = ground (arith, h)
InName-name_byte b (inr (inr h)) = ground (arith, h)

module _ {A : Type 0} (p : A → Bool) (P : A → Type 0) (to : (a : A) → p a ≡ true → P a)
    (from : (a : A) → P a → p a ≡ true) where
  all-All : (l : List A) → all p l ≡ true → All P l
  all-All [] h = tt
  all-All (a ∷ l) h = (to a (ground (arith, h)), all-All l (ground (arith, h)))

  All-all : (l : List A) → All P l → all p l ≡ true
  All-all [] h = refl
  All-all (a ∷ l) (h, k) = ground (arith, from a h, All-all l k)

is_name-IsName : (n : Text) → is_name n ≡ true → IsName n
is_name-IsName [] h = cc h
is_name-IsName (b ∷ n) h =
    all-All name_byte InName name_byte-InName InName-name_byte (b ∷ n) (ground (arith, h))

IsName-is_name : (n : Text) → IsName n → is_name n ≡ true
IsName-is_name [] h = absurd h
IsName-is_name (b ∷ n) h = All-all name_byte InName name_byte-InName InName-name_byte (b ∷ n) h

-- A list of signed headers is accepted exactly when it is the names joined by `;`, and they have
-- `host` among them, each comes before the next by its bytes, and each is a name: not empty, of
-- lowercase letters, digits and ``!#$%&'*+-.^_`|~``.
pub signed_headers-IsName :
    (value n : Text) (ns : List Text)
    → (signed_headers value ≡ some (n ∷ ns)) ↔ (
        (value ≡ join b';' (n ∷ ns))
        × Has (bytes "host") (n ∷ ns)
        × Ascends (n ∷ ns)
        × All IsName (n ∷ ns))
signed_headers-IsName value n ns =
    let (to, from) = signed_headers-join value n ns in
    (
      λ h.
          let (e, ok) = to h in
          (
            e,
            any-Has host (n ∷ ns) (ground (arith, ok)),
            ascends (n ∷ ns) (ground (arith, ok)),
            all-All is_name IsName is_name-IsName IsName-is_name (n ∷ ns) (ground (arith, ok)),
          ),
      λ w.
          let (e, has, up, named) = w in
          let hosted = Has-any host (n ∷ ns) has in
          let up' = sorted (n ∷ ns) up in
          let named' = All-all is_name IsName is_name-IsName IsName-is_name (n ∷ ns) named in
          from (e, ground (arith, hosted, up', named')),
    )
