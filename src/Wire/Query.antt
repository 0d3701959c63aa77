-- ===== src/Wire/Query.antt =====
-- backend/crates/s3-protocol/src/operation.rs and signing.rs: the parameters of a raw query, and the
-- query as a signature reads it.
use grove_storage.Prelude.{
  Bool, true, false, Option, none, some, List, [], ◌∷◌, ◌++◌, Text, bytes, text_eq, ltb, ◌==◌, ◌&&◌,
  ◌||◌, not, is_empty, any, map, if◌then◌else◌,
}
use grove_storage.Wire.Split.{split, split_once, join}

-- `pair == key || pair.split_once('=').is_some_and(|(k, _)| k == key)`.
abbrev pub key_is : Text → Option (Text × Text) → Bool
key_is key none = false
key_is key (some (k, v)) = text_eq k key

abbrev pub names : Text → Text → Bool
names key pair = text_eq pair key || key_is key (split_once b'=' pair)

unfoldable pub query_flag : Text → Text → Bool
query_flag query key = any (names key) (split b'&' query)

-- The value of the first pair with `=` whose key this is.
abbrev value_or : Text → Option (Text × Text) → Option Text → Option Text
value_or key none rest = rest
value_or key (some (k, v)) rest = if text_eq k key then some v else rest

unfoldable pub find_value : Text → List Text → Option Text
find_value key [] = none
find_value key (p ∷ ps) = value_or key (split_once b'=' p) (find_value key ps)

unfoldable pub query_value : Text → Text → Option Text
unfolding find_value
query_value query key = find_value key (split b'&' query)

module _ {A : Type 0} where
  abbrev pub filtered : (A → Bool) → List A → List A
  filtered p [] = []
  filtered p (x ∷ xs) = if p x then x ∷ filtered p xs else filtered p xs

  unfoldable pub insert : (A → A → Bool) → A → List A → List A
  insert le x [] = x ∷ []
  insert le x (y ∷ ys) = if le x y then x ∷ y ∷ ys else y ∷ insert le x ys

  -- `sort_unstable`: of an order in which only equal items are equivalent, any sort gives this.
  unfoldable pub sort : (A → A → Bool) → List A → List A
  unfolding insert
  sort le [] = []
  sort le (x ∷ xs) = insert le x (sort le xs)

-- The order of `str` and of pairs of them.
unfoldable pub text_le : Text → Text → Bool
text_le [] t = true
text_le (a ∷ s) [] = false
text_le (a ∷ s) (b ∷ t) = ltb a b || a == b && text_le s t

unfoldable pub pair_le : Text × Text → Text × Text → Bool
unfolding text_le text_eq
pair_le (k, v) (l, w) = if text_eq k l then text_le v w else text_le k l

-- `split_once('=').unwrap_or((p, ""))`.
abbrev or_alone : Text → Option (Text × Text) → Text × Text
or_alone p none = (p, [])
or_alone p (some pair) = pair

unfoldable pub pair_of : Text → Text × Text
unfolding split_once
pair_of p = or_alone p (split_once b'=' p)

abbrev pub signature : Text
signature = bytes "X-Amz-Signature"

abbrev pub is_signed : Text × Text → Bool
is_signed (k, v) = not (text_eq k signature)

abbrev pub show_pair : Text × Text → Text
show_pair (k, v) = k ++ b'=' ∷ v

-- The pairs of a query's pieces, in the order in which they are signed.
unfoldable pub canonical_pairs : List Text → List (Text × Text)
unfolding sort pair_le pair_of
canonical_pairs pieces =
    sort pair_le (filtered is_signed (map pair_of (filtered (λ p. not (is_empty p)) pieces)))

unfoldable pub canonicalize_query : Text → Text
unfolding canonical_pairs split join
canonicalize_query query = join b'&' (map show_pair (canonical_pairs (split b'&' query)))
