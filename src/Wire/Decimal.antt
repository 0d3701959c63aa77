-- ===== src/Wire/Decimal.antt =====
-- `str::parse` for decimal integers, and the classes of ASCII bytes.
use grove_storage.Prelude.{
  ℕ, zero, suc, ◌+◌, ◌-◌, ◌*◌, Bool, true, false, Option, none, some, [], ◌∷◌, Text, leb, ◌&&◌,
  ◌||◌, ◌==◌, is_empty, all, if◌then◌else◌,
}
use grove_storage.Policy.Validation.{ℤ, pos, negsuc}

abbrev pub is_digit : ℕ → Bool
is_digit b = leb 48 b && leb b 57

abbrev pub is_lower : ℕ → Bool
is_lower b = leb 97 b && leb b 122

-- The number that digits write, after those that gave `n`.
unfoldable pub decimal : ℕ → Text → ℕ
decimal n [] = n
decimal n (b ∷ s) = decimal (n * 10 + (b - 48)) s

-- The digits of an integer of at most `top`; its checked arithmetic fails above it.
unfoldable pub parse_digits : ℕ → Text → Option ℕ
unfolding decimal
parse_digits top s =
    if is_empty s || not_all s
    then none
    else (if leb (decimal 0 s) top then some (decimal 0 s) else none)
  where
    not_all : Text → Bool
    not_all s = elim (all is_digit s) [ true ↦ false | false ↦ true ]

abbrev pub negated : ℕ → ℤ
negated zero = pos 0
negated (suc n) = negsuc n

abbrev map_int : (ℕ → ℤ) → Option ℕ → Option ℤ
map_int f none = none
map_int f (some n) = some (f n)

-- `parse::<i32>`: a sign may stand before the digits.
unfoldable pub parse_i32 : Text → Option ℤ
unfolding parse_digits
parse_i32 [] = none
parse_i32 (b ∷ s) =
    if b == 43
    then map_int pos (parse_digits 2147483647 s)
    else (if b == 45
        then map_int negated (parse_digits 2147483648 s)
        else map_int pos (parse_digits 2147483647 (b ∷ s)))
