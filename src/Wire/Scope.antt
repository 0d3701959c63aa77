-- ===== src/Wire/Scope.antt =====
-- What auth.rs accepts is what it prints: the scope of a credential and the names of signed headers
-- are read back from their text.
use grove_storage.Prelude.{
  ℕ, ◌≡◌, ◌≤◌, ◌↔◌, refl, sym, ap, ◌∙◌, inl, inr, true, false, some, List, [], ◌∷◌, Text,
  text_eq→eq, text_eq_refl, is_empty, all, All, arith, Bool-cases,
}
use grove_storage.Wire.Split.{split, join, split-join, join-split, Lacks}
use grove_storage.Wire.Decimal.{is_digit, decimal, parse_digits}
use grove_storage.Wire.Credential.{
  CredentialScope, credential_scope, scope_fields, scope_of, scope_ok, service, terminator,
  signed_headers, headers_ok, is_name, name_byte, presigned_expiry,
}

abbrev pub scope_pieces : CredentialScope → List Text
scope_pieces c = c.access_key ∷ c.date ∷ c.region ∷ service ∷ terminator ∷ []

scope_of_sound :
    (a d r s t : Text) (c : CredentialScope)
    → scope_of a d r s t ≡ some c
    → (a ∷ d ∷ r ∷ s ∷ t ∷ [] ≡ scope_pieces c) × (scope_ok c ≡ true)
scope_of_sound a d r s t c h = ground (arith, h, text_eq→eq s service, text_eq→eq t terminator)

fields_sound :
    (ps : List Text) (c : CredentialScope)
    → scope_fields ps ≡ some c
    → (ps ≡ scope_pieces c) × (scope_ok c ≡ true)
fields_sound (a ∷ d ∷ r ∷ s ∷ t ∷ []) c h = scope_of_sound a d r s t c h
fields_sound (a ∷ d ∷ r ∷ s ∷ t ∷ x ∷ xs) c h = cc
fields_sound (a ∷ d ∷ r ∷ s ∷ []) c h = cc
fields_sound (a ∷ d ∷ r ∷ []) c h = cc
fields_sound (a ∷ d ∷ []) c h = cc
fields_sound (a ∷ []) c h = cc
fields_sound [] c h = cc

-- A credential scope is accepted exactly when it is the text of a scope whose date has 8 digits and
-- whose key and region are not empty, for a scope without `/` in its parts.
pub credential_scope-join :
    (value : Text) (c : CredentialScope)
    → All (Lacks b'/') (c.access_key ∷ c.date ∷ c.region ∷ [])
    → (credential_scope value ≡ some c)
      ↔ ((value ≡ join b'/' (scope_pieces c)) × (scope_ok c ≡ true))
unfolding credential_scope
credential_scope-join value c lacks = (
  λ h.
      let (pieces, fine) = fields_sound (split b'/' value) c h in
      (sym (join-split b'/' value) ∙ ap (join b'/') pieces, fine),
  λ w.
      let (e, fine) = w in
      let back =
        split-join b'/' c.access_key (c.date ∷ c.region ∷ service ∷ terminator ∷ [])
          (lacks.0, (lacks.1.0, (lacks.1.1.0, (omega arith, (omega arith, tt))))) in
      rw (e, back) (ground (arith, fine, text_eq_refl service, text_eq_refl terminator)),
)

name-Lacks : (n : Text) → all name_byte n ≡ true → Lacks b';' n
name-Lacks [] h = tt
name-Lacks (b ∷ n) h = (ground arith, name-Lacks n (ground arith))

names_lack : (ns : List Text) → all is_name ns ≡ true → All (Lacks b';') ns
names_lack [] h = tt
names_lack (n ∷ ns) h = (name-Lacks n (ground arith), names_lack ns (ground arith))

-- A list of signed headers is accepted exactly when it is the names joined by `;`, and they hold
-- `host`, ascend strictly, and are header names.
pub signed_headers-join :
    (value n : Text) (ns : List Text)
    → (signed_headers value ≡ some (n ∷ ns))
      ↔ ((value ≡ join b';' (n ∷ ns)) × (headers_ok (n ∷ ns) ≡ true))
unfolding signed_headers
signed_headers-join value n ns = (
  λ h. elim (Bool-cases (headers_ok (split b';' value))) [
    | inr f ↦ cc (rw f at h)
    | inl t ↦
        let pieces : split b';' value ≡ n ∷ ns = cc (rw t at h) in
        (sym (join-split b';' value) ∙ ap (join b';') pieces, rw pieces at t)
  ],
  λ w.
      let (e, fine) = w in
      let back = split-join b';' n ns (names_lack (n ∷ ns) (ground (arith, fine))) in
      rw (e, back) (rw fine refl),
)

-- The expiry of a presigned request is accepted exactly when it is a number from 1 to 604,800
-- (seven days) in decimal digits.
pub presigned_expiry-decimal :
    (value : Text) (n : ℕ)
    → (presigned_expiry value ≡ some n) ↔ (
        (is_empty value ≡ false)
        × (all is_digit value ≡ true)
        × (decimal 0 value ≡ n)
        × (1 ≤ n)
        × (n ≤ 604800))
unfolding presigned_expiry parse_digits
presigned_expiry-decimal value n = (λ h. ground (arith, h), λ w. ground (arith, w))
