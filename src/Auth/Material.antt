-- ===== src/Auth/Material.antt =====
-- backend/crates/api/src/s3/auth.rs: what a signature is checked with, from the headers of a request
-- or from the query of a presigned URL.
use grove_storage.Prelude.{
  ℕ, ◌+◌, ◌*◌, Bool, true, false, Option, none, some, List, [], ◌∷◌, Text, bytes, text_eq, ltb,
  ◌==◌, ◌&&◌, ◌||◌, not, all, length, take, is_some, is_none, if◌then◌else◌, map,
}
use grove_storage.Wire.Split.{split, split_once}
use grove_storage.Wire.Digest.{trim}
use grove_storage.Wire.Query.{query_value, canonicalize_query, filtered}
use grove_storage.Wire.Credential.{
  CredentialScope, credential_scope, signed_headers, presigned_expiry, valid_payload_hash,
}
use grove_storage.Auth.Text.{strip_prefix, starts_with, replace}

pub record SigV4 : Type 0 where
  pub access_key : Text
  pub scope_date : Text
  pub region : Text
  pub signed_names : List Text
  pub signature : Text
  pub amz_date : Text
  pub payload_hash : Text
  pub canonical_query : Text

-- The refusals: a status and a code of the XML answer.
pub data Denied : Type 0 where
  access_denied request_time_too_skewed not_implemented invalid_access_key_id : Denied
  signature_does_not_match internal : Denied

pub data Checked (A : Type 0) : Type 0 where
  fine : A → Checked A
  denied : Denied → Checked A

abbrev pub and_then : {A B : Type 0} → Checked A → (A → Checked B) → Checked B
and_then (fine a) f = f a
and_then (denied d) f = denied d

-- `ok_or_else`.
abbrev pub or_deny : {A : Type 0} → Denied → Option A → Checked A
or_deny d none = denied d
or_deny d (some a) = fine a

-- `if !test { return Err(d) }`.
abbrev pub unless : {A : Type 0} → Bool → Denied → Checked A → Checked A
unless true d rest = rest
unless false d rest = denied d

-- A request: its headers by lowercase name, the path as it was sent, and its raw query.
pub record Request : Type 0 where
  pub method : Text
  pub path : Text
  pub query : Option Text
  pub headers : List (Text × Text)

-- Of the http, chrono, percent-encoding, sha2 and hmac crates: the text of a header value, the time
-- of `%Y%m%dT%H%M%SZ` and the clock in nanoseconds of one era, percent-decoding, digests.
pub record Library : Type 0 where
  pub to_str : Text → Option Text
  pub parse_time : Text → Option ℕ
  pub percent_decode : Text → Text
  pub sha256_hex : Text → Text
  pub hmac_sha256 : Text → Text → Text
  pub hex : Text → Text

abbrev pub second : ℕ
second = 1000000000

abbrev pub max_clock_skew : ℕ
max_clock_skew = 900

abbrev pub get_all : Text → List (Text × Text) → List Text
get_all name headers = map (λ h. h.1) (filtered (λ (h : Text × Text). text_eq h.0 name) headers)

abbrev first_str : (Text → Option Text) → List Text → Option Text
first_str to_str [] = none
first_str to_str (v ∷ vs) = to_str v

unfoldable pub header_str : Library → List (Text × Text) → Text → Option Text
header_str lib headers name = first_str lib.to_str (get_all name headers)

pub record ParsedAuth : Type 0 where
  pub credential : Option Text
  pub signed : Option (List Text)
  pub signature : Option Text

abbrev set_signed : ParsedAuth → Option (List Text) → Option ParsedAuth
set_signed a none = none
set_signed a (some names) = some (record a { signed = some names })

-- One `name=value` of the header, given once.
abbrev pub field : ParsedAuth → Option (Text × Text) → Option ParsedAuth
field a none = none
field a (some (name, value)) =
    if text_eq name (bytes "Credential") && is_none a.credential
    then some (record a { credential = some value })
    else (if text_eq name (bytes "SignedHeaders")
        then (if is_some a.signed then none else set_signed a (signed_headers value))
        else (if text_eq name (bytes "Signature") && is_none a.signature
            then some (record a { signature = some value })
            else none))

unfoldable pub fields : List Text → Option ParsedAuth → Option ParsedAuth
fields [] o = o
fields (part ∷ parts) none = none
fields (part ∷ parts) (some a) = fields parts (field a (split_once b'=' (trim part)))

abbrev pub complete_auth :
    Option CredentialScope
    → Option (List Text)
    → Option Text
    → Option (CredentialScope × List Text × Text)
complete_auth (some scope) (some names) (some signature) = some (scope, names, signature)
complete_auth none names signature = none
complete_auth (some scope) none signature = none
complete_auth (some scope) (some names) none = none

abbrev scope_text : Option Text → Option CredentialScope
scope_text none = none
scope_text (some c) = credential_scope c

abbrev parsed_auth : Option ParsedAuth → Option (CredentialScope × List Text × Text)
parsed_auth none = none
parsed_auth (some a) = complete_auth (scope_text a.credential) a.signed a.signature

abbrev auth_rest : Option Text → Option (CredentialScope × List Text × Text)
auth_rest none = none
auth_rest (some rest) = parsed_auth (
    fields (split b',' rest) (some (record { credential = none; signed = none; signature = none })))

unfoldable pub parse_auth : Text → Option (CredentialScope × List Text × Text)
parse_auth auth = auth_rest (strip_prefix (bytes "AWS4-HMAC-SHA256 ") auth)

abbrev pub query_or_empty : Option Text → Text
query_or_empty none = []
query_or_empty (some q) = canonicalize_query q

-- `(now - request_time).abs() > 15 minutes`.
abbrev pub skewed : ℕ → ℕ → Bool
skewed now time =
    ltb (time + max_clock_skew * second) now || ltb (now + max_clock_skew * second) time

-- From the Authorization header, step by step.
module _ (lib : Library) (r : Request) (now : ℕ) where
  abbrev pub header_hash : CredentialScope × List Text × Text → Text → Text → Checked SigV4
  header_hash parsed date hash =
      unless (not (starts_with (bytes "STREAMING-") hash)) not_implemented (
        unless (valid_payload_hash hash) access_denied (
          fine (record {
            access_key = parsed.0.access_key;
            scope_date = parsed.0.date;
            region = parsed.0.region;
            signed_names = parsed.1;
            signature = parsed.2;
            amz_date = date;
            payload_hash = hash;
            canonical_query = query_or_empty r.query;
          })))

  abbrev pub hash_of_header : Checked Text
  hash_of_header = or_deny access_denied (header_str lib r.headers (bytes "x-amz-content-sha256"))

  abbrev pub header_time : CredentialScope × List Text × Text → Text → ℕ → Checked SigV4
  header_time parsed date time =
      unless (not (skewed now time)) request_time_too_skewed
        (and_then hash_of_header (header_hash parsed date))

  abbrev pub header_dated : CredentialScope × List Text × Text → Text → Checked SigV4
  header_dated parsed date =
      unless (text_eq (take 8 date) parsed.0.date) access_denied
        (and_then (or_deny access_denied (lib.parse_time date)) (header_time parsed date))

  abbrev pub header_parsed : CredentialScope × List Text × Text → Checked SigV4
  header_parsed parsed =
      and_then (or_deny access_denied (header_str lib r.headers (bytes "x-amz-date")))
        (header_dated parsed)

  abbrev pub header_auth : Text → Checked SigV4
  header_auth auth = and_then (or_deny access_denied (parse_auth auth)) header_parsed

  unfoldable pub from_header : Checked SigV4
  from_header =
      and_then (or_deny access_denied (header_str lib r.headers (bytes "authorization")))
        header_auth

abbrev pub signature_parameters : List Text
signature_parameters =
    bytes "X-Amz-Algorithm"
    ∷ bytes "X-Amz-Credential"
    ∷ bytes "X-Amz-Date"
    ∷ bytes "X-Amz-Expires"
    ∷ bytes "X-Amz-SignedHeaders"
    ∷ bytes "X-Amz-Signature"
    ∷ []

abbrev first_of : List Text → Text
first_of [] = []
first_of (p ∷ ps) = p

-- The pairs whose decoded name is the key.
unfoldable pub given_once : Library → Text → Text → Bool
given_once lib query key =
    length (
      filtered (λ pair. text_eq (lib.percent_decode (first_of (split b'=' pair))) key)
        (split b'&' query))
    == 1

abbrev pub value_or_empty : Option Text → Text
value_or_empty none = []
value_or_empty (some v) = v

-- Not yet valid, with the skew, or expired.
abbrev pub too_early : ℕ → ℕ → Bool
too_early now time = ltb (now + max_clock_skew * second) time

abbrev pub too_late : ℕ → ℕ → ℕ → Bool
too_late now time expires = ltb (time + expires * second) now

unfoldable pub slashes : Text → Text
slashes s = replace b'%' b'2' b'f' b'/' (replace b'%' b'2' b'F' b'/' s)

unfoldable pub semicolons : Text → Text
semicolons s = replace b'%' b'3' b'b' b';' (replace b'%' b'3' b'B' b';' s)

-- From a presigned URL, step by step.
module _ (lib : Library) (now : ℕ) (query : Text) where
  abbrev pub query_signed : CredentialScope → Text → List Text → Text → Checked SigV4
  query_signed scope date signed signature = fine (record {
    access_key = scope.access_key;
    scope_date = scope.date;
    region = scope.region;
    signed_names = signed;
    signature = signature;
    amz_date = date;
    payload_hash = bytes "UNSIGNED-PAYLOAD";
    canonical_query = canonicalize_query query;
  })

  abbrev pub query_names : CredentialScope → Text → List Text → Checked SigV4
  query_names scope date signed =
      and_then (or_deny access_denied (query_value query (bytes "X-Amz-Signature")))
        (query_signed scope date signed)

  abbrev pub query_headers : CredentialScope → Text → Text → Checked SigV4
  query_headers scope date names =
      and_then (or_deny access_denied (signed_headers (semicolons names))) (query_names scope date)

  abbrev pub query_window : CredentialScope → Text → ℕ → ℕ → Checked SigV4
  query_window scope date time expires = unless (not (too_early now time)) access_denied (
      unless (not (too_late now time expires)) access_denied (
        and_then (or_deny access_denied (query_value query (bytes "X-Amz-SignedHeaders")))
          (query_headers scope date)))

  abbrev pub query_expiry : Checked ℕ
  query_expiry =
      or_deny access_denied
        (presigned_expiry (value_or_empty (query_value query (bytes "X-Amz-Expires"))))

  abbrev pub query_time : CredentialScope → Text → ℕ → Checked SigV4
  query_time scope date time = and_then query_expiry (query_window scope date time)

  abbrev pub query_dated : CredentialScope → Text → Checked SigV4
  query_dated scope date =
      unless (text_eq (take 8 date) scope.date) access_denied
        (and_then (or_deny access_denied (lib.parse_time date)) (query_time scope date))

  abbrev pub query_scope : CredentialScope → Checked SigV4
  query_scope scope =
      and_then (or_deny access_denied (query_value query (bytes "X-Amz-Date"))) (query_dated scope)

  abbrev pub query_credential : Text → Checked SigV4
  query_credential raw =
      and_then (or_deny access_denied (credential_scope (slashes raw))) query_scope

  abbrev pub query_algorithm : Text → Checked SigV4
  query_algorithm algorithm = unless (text_eq algorithm (bytes "AWS4-HMAC-SHA256")) access_denied (
      and_then (or_deny access_denied (query_value query (bytes "X-Amz-Credential")))
        query_credential)

  unfoldable pub of_query : Checked SigV4
  of_query = unless (all (given_once lib query) signature_parameters) access_denied (
      and_then (or_deny access_denied (query_value query (bytes "X-Amz-Algorithm")))
        query_algorithm)

unfoldable pub from_query : Library → Request → ℕ → Checked SigV4
unfolding of_query
from_query lib r now = of_query lib now (value_or_empty r.query)
