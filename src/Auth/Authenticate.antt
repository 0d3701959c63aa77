-- ===== src/Auth/Authenticate.antt =====
-- backend/crates/api/src/s3/auth.rs and s3-protocol/src/signing.rs: the canonical request, its
-- signature, and the check of both modes.
use grove_storage.Prelude.{
  ℕ, Bool, true, false, Option, none, some, List, [], ◌∷◌, ◌++◌, Text, bytes, text_eq, leb, ◌==◌,
  ◌&&◌, ◌||◌, not, all, any, length, is_some, is_empty, if◌then◌else◌,
}
use grove_storage.Wire.Split.{join}
use grove_storage.Wire.Query.{filtered}
use grove_storage.Wire.Decimal.{is_digit}
use grove_storage.Wire.Credential.{valid_payload_hash}
use grove_storage.Policy.Validation.{Observed, seen, failed}
use grove_storage.Auth.Text.{starts_with, contains}
use grove_storage.Auth.Material.{
  SigV4, access_denied, invalid_access_key_id, signature_does_not_match, internal, Checked, fine,
  denied, and_then, or_deny, unless, Request, Library, get_all, header_str, from_header, from_query,
}

-- `sign` of signing.rs, with HMAC and the hexadecimal digits as parameters.
unfoldable pub sign : Library → Text → Text → Text → Text → Text
sign lib secret date region string_to_sign =
    let k_date = lib.hmac_sha256 (bytes "AWS4" ++ secret) date in
    let k_region = lib.hmac_sha256 k_date region in
    let k_service = lib.hmac_sha256 k_region (bytes "s3") in
    let k_signing = lib.hmac_sha256 k_service (bytes "aws4_request") in
    lib.hex (lib.hmac_sha256 k_signing string_to_sign)

-- `canonical_header_value`: the words of a value, with one space between them.
abbrev ascii_space : ℕ → Bool
ascii_space b = b == 32 || leb 9 b && leb b 13 && not (b == 11)

abbrev add_byte : ℕ → List Text → List Text
add_byte c [] = (c ∷ []) ∷ []
add_byte c (w ∷ ws) = (c ∷ w) ∷ ws

unfoldable pub words : Text → List Text
words [] = [] ∷ []
words (c ∷ s) = let rest = words s in if ascii_space c then [] ∷ rest else add_byte c rest

unfoldable pub canonical_header_value : Text → Text
canonical_header_value value = join b' ' (filtered (λ w. not (is_empty w)) (words value))

abbrev all_str : (Text → Option Text) → List Text → Option (List Text)
all_str to_str [] = some []
all_str to_str (v ∷ vs) = cons_str (to_str v) (all_str to_str vs)
  where
    cons_str : Option Text → Option (List Text) → Option (List Text)
    cons_str (some w) (some ws) = some (canonical_header_value w ∷ ws)
    cons_str (some w) none = none
    cons_str none ws = none

-- `name:values\n` of one signed header, which must be there.
abbrev header_line : Text → Option (List Text) → Option Text
header_line name none = none
header_line name (some []) = none
header_line name (some (v ∷ vs)) = some (name ++ b':' ∷ join b',' (v ∷ vs) ++ b'\n' ∷ [])

abbrev both_lines : Option Text → Option Text → Option Text
both_lines (some a) (some b) = some (a ++ b)
both_lines (some a) none = none
both_lines none b = none

unfoldable pub canonical_headers : Library → List (Text × Text) → List Text → Option Text
canonical_headers lib headers [] = some []
canonical_headers lib headers (name ∷ names) =
    both_lines (header_line name (all_str lib.to_str (get_all name headers)))
      (canonical_headers lib headers names)

abbrev newline : Text
newline = b'\n' ∷ []

unfoldable pub canonical_request : Request → SigV4 → Text → Text
canonical_request r sig lines =
    r.method
    ++ newline
    ++ r.path
    ++ newline
    ++ sig.canonical_query
    ++ newline
    ++ lines
    ++ newline
    ++ join b';' sig.signed_names
    ++ newline
    ++ sig.payload_hash

unfoldable pub string_to_sign : Library → SigV4 → Text → Text
string_to_sign lib sig request =
    bytes "AWS4-HMAC-SHA256"
    ++ newline
    ++ sig.amz_date
    ++ newline
    ++ sig.scope_date
    ++ b'/' ∷ sig.region
    ++ bytes "/s3/aws4_request"
    ++ newline
    ++ lib.sha256_hex request

pub record Authenticated : Type 0 where
  pub client_id : Text
  pub payload_hash : Text

pub record Credential : Type 0 where
  pub client_id : Text
  pub secret : Text

abbrev is_hex : ℕ → Bool
is_hex b = is_digit b || leb 65 b && leb b 70 || leb 97 b && leb b 102

abbrev pub content_hash : Text
content_hash = bytes "x-amz-content-sha256"

abbrev pub is_encoded : Text → Bool
is_encoded signature = length signature == 64 && all is_hex signature

-- No header that authenticates is given twice.
abbrev pub once : List (Text × Text) → Text → Bool
once headers name = leb (length (get_all name headers)) 1

abbrev pub auth_headers : List Text
auth_headers = bytes "host" ∷ bytes "authorization" ∷ bytes "x-amz-date" ∷ content_hash ∷ []

abbrev pub hash_ok : Option Text → Bool
hash_ok none = true
hash_ok (some hash) = valid_payload_hash hash

abbrev pub has_header : Text → List (Text × Text) → Bool
has_header name headers = any (λ (h : Text × Text). text_eq h.0 name) headers

-- An `x-amz-` header is signed; the payload hash of a signed header is in the request itself.
abbrev pub is_covered : List (Text × Text) → List Text → Text × Text → Bool
is_covered headers names h =
    not (starts_with (bytes "x-amz-") h.0)
    || text_eq h.0 content_hash && has_header (bytes "authorization") headers
    || any (λ n. text_eq n h.0) names

abbrev or_default : Option Text → Text → Text
or_default none t = t
or_default (some s) t = s

abbrev has_signature : Option Text → Bool
has_signature none = false
has_signature (some q) = contains (bytes "X-Amz-Signature=") q

abbrev pub material : Library → Request → ℕ → Checked SigV4
material lib r now =
    if is_some (header_str lib r.headers (bytes "authorization"))
    then from_header lib r now
    else (if has_signature r.query then from_query lib r now else denied access_denied)

-- The registered credential of an access key, with its secret decrypted; either may fail.
abbrev pub known : {E : Type 0} → Observed E (Option Credential) → Checked Credential
known (failed e) = denied internal
known (seen none) = denied invalid_access_key_id
known (seen (some c)) = fine c

abbrev pub compare_signature : Library → Request → SigV4 → Credential → Text → Checked Authenticated
compare_signature lib r sig c lines =
    unless
      (text_eq
        (sign lib c.secret sig.scope_date sig.region
          (string_to_sign lib sig (canonical_request r sig lines)))
        sig.signature)
      signature_does_not_match
      (fine (record {
        client_id = c.client_id;
        payload_hash = or_default (header_str lib r.headers content_hash) sig.payload_hash;
      }))

abbrev pub with_lines : Library → Request → SigV4 → Credential → Checked Authenticated
with_lines lib r sig c =
    and_then (or_deny access_denied (canonical_headers lib r.headers sig.signed_names))
      (compare_signature lib r sig c)

module _ {E : Type 0} (lib : Library) (lookup : Text → Observed E (Option Credential)) (r : Request)
    (sig : SigV4) where
  abbrev pub with_credential : Checked Authenticated
  with_credential = and_then (known (lookup sig.access_key)) (with_lines lib r sig)

  abbrev pub if_covered : Checked Authenticated
  if_covered =
      unless (all (is_covered r.headers sig.signed_names) r.headers) access_denied with_credential

  abbrev pub if_hash_ok : Checked Authenticated
  if_hash_ok = unless (hash_ok (header_str lib r.headers content_hash)) access_denied if_covered

  -- The service and the terminator of the scope are those that the scope was read with.
  abbrev pub verified : Checked Authenticated
  verified = unless (is_encoded sig.signature) access_denied if_hash_ok

unfoldable pub authenticate :
    {E : Type 0}
    → Library
    → (Text → Observed E (Option Credential))
    → ℕ
    → Request
    → Checked Authenticated
authenticate lib lookup now r =
    unless (all (once r.headers) auth_headers) access_denied
      (and_then (material lib r now) (verified lib lookup r))
