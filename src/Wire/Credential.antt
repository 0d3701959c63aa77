-- ===== src/Wire/Credential.antt =====
-- backend/crates/s3-protocol/src/auth.rs: the credential scope, the signed headers and the expiry of
-- a SigV4 request.
use grove_storage.Prelude.{
  ℕ, Bool, false, Option, none, some, List, [], ◌∷◌, Text, bytes, text_eq, leb, ◌==◌, ◌&&◌, ◌||◌,
  not, is_empty, any, all, length, if◌then◌else◌, eq_ignore_ascii_case,
}
use grove_storage.Wire.Split.{split}
use grove_storage.Wire.Decimal.{is_digit, is_lower, parse_digits}
use grove_storage.Wire.Query.{text_le}

pub record CredentialScope : Type 0 where
  pub access_key : Text
  pub date : Text
  pub region : Text

abbrev pub service : Text
service = bytes "s3"

abbrev pub terminator : Text
terminator = bytes "aws4_request"

abbrev pub scope_ok : CredentialScope → Bool
scope_ok c =
    not (is_empty c.access_key)
    && not (is_empty c.region)
    && length c.date == 8
    && all is_digit c.date

abbrev pub scope_of : Text → Text → Text → Text → Text → Option CredentialScope
scope_of access_key date region s t =
    let c : CredentialScope = record { access_key = access_key; date = date; region = region } in
    if text_eq s service && text_eq t terminator && scope_ok c then some c else none

abbrev pub scope_fields : List Text → Option CredentialScope
scope_fields (a ∷ d ∷ r ∷ s ∷ t ∷ []) = scope_of a d r s t
scope_fields (a ∷ d ∷ r ∷ s ∷ t ∷ x ∷ xs) = none
scope_fields (a ∷ d ∷ r ∷ s ∷ []) = none
scope_fields (a ∷ d ∷ r ∷ []) = none
scope_fields (a ∷ d ∷ []) = none
scope_fields (a ∷ []) = none
scope_fields [] = none

unfoldable pub credential_scope : Text → Option CredentialScope
credential_scope value = scope_fields (split b'/' value)

-- The bytes of a header name: lowercase letters, digits, and `!#$%&'*+-.^_`|~`.
abbrev pub name_byte : ℕ → Bool
name_byte b = is_lower b || is_digit b || any (λ c. b == c) (bytes "!#$%&'*+-.^_`|~")

abbrev pub is_name : Text → Bool
is_name n = not (is_empty n) && all name_byte n

abbrev pub host : Text
host = bytes "host"

-- `windows(2).any(|[a, b]| a >= b)`.
unfoldable pub unsorted : List Text → Bool
unfolding text_le
unsorted [] = false
unsorted (a ∷ []) = false
unsorted (a ∷ b ∷ rest) = text_le b a || unsorted (b ∷ rest)

abbrev pub headers_ok : List Text → Bool
headers_ok names = any (text_eq host) names && not (unsorted names) && all is_name names

unfoldable pub signed_headers : Text → Option (List Text)
signed_headers value = let names = split b';' value in if headers_ok names then some names else none

abbrev pub in_week : Option ℕ → Option ℕ
in_week none = none
in_week (some n) = if leb 1 n && leb n 604800 then some n else none

-- The value must be digits only, so `parse::<i64>` sees no sign.
unfoldable pub presigned_expiry : Text → Option ℕ
presigned_expiry value = in_week (parse_digits 9223372036854775807 value)

unfoldable pub valid_payload_hash : Text → Bool
valid_payload_hash value =
    text_eq value (bytes "UNSIGNED-PAYLOAD")
    || length value == 64
      && all (λ b. is_digit b || leb 65 b && leb b 70 || leb 97 b && leb b 102) value

-- `sha256` is the hexadecimal digest of the sha2 and hex crates.
unfoldable pub payload_matches : (Text → Text) → Text → Text → Bool
payload_matches sha256 expected body =
    text_eq expected (bytes "UNSIGNED-PAYLOAD") || eq_ignore_ascii_case (sha256 body) expected
