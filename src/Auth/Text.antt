-- ===== src/Auth/Text.antt =====
-- The operations of `str` that auth.rs uses, on the bytes of a text.
use grove_storage.Prelude.{
  ℕ, Bool, true, false, Option, none, some, [], ◌∷◌, Text, ◌==◌, ◌&&◌, ◌||◌, is_empty,
}

abbrev tail_if : Bool → Option Text → Option Text
tail_if true rest = rest
tail_if false rest = none

unfoldable pub strip_prefix : Text → Text → Option Text
strip_prefix [] s = some s
strip_prefix (p ∷ ps) [] = none
strip_prefix (p ∷ ps) (c ∷ s) = tail_if (p == c) (strip_prefix ps s)

abbrev found : Option Text → Bool
found none = false
found (some s) = true

abbrev pub starts_with : Text → Text → Bool
starts_with p s = found (strip_prefix p s)

unfoldable pub contains : Text → Text → Bool
unfolding strip_prefix
contains p [] = is_empty p
contains p (c ∷ s) = starts_with p (c ∷ s) || contains p s

-- `replace("%2F", "/")`: three bytes by one.
unfoldable pub replace : ℕ → ℕ → ℕ → ℕ → Text → Text
replace x y z d (a ∷ b ∷ c ∷ s) = elim (a == x && b == y && c == z) [
  | true ↦ d ∷ replace x y z d s
  | false ↦ a ∷ replace x y z d (b ∷ c ∷ s)
]
replace x y z d (a ∷ b ∷ []) = a ∷ b ∷ []
replace x y z d (a ∷ []) = a ∷ []
replace x y z d [] = []
