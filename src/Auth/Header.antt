-- ===== src/Auth/Header.antt =====
-- What the material of a signed header has.
use grove_storage.Prelude.{
  ℕ, ◌+◌, ◌*◌, ◌≤◌, ◌≡◌, sym, ap, true, not, some, Text, bytes, text_eq, text_eq→eq, take, List,
  arith,
}
use grove_storage.Wire.Credential.{CredentialScope, valid_payload_hash}
use grove_storage.Auth.Text.{starts_with}
use grove_storage.Auth.Material.{
  SigV4, Checked, fine, denied, and_then, or_deny, unless, access_denied, request_time_too_skewed,
  not_implemented, header_str, parse_auth, Request, Library, skewed, from_header, header_auth,
  header_parsed, header_dated, header_time, header_hash, hash_of_header, query_or_empty,
}
use grove_storage.Auth.Accepted.{and_then-fine, unless-fine, or_deny-fine}

header_hash-fine :
    (lib : Library) (r : Request) (now : ℕ) (parsed : CredentialScope × List Text × Text)
    (date hash : Text) (sig : SigV4)
    → header_hash lib r now parsed date hash ≡ fine sig
    → (sig.amz_date ≡ date)
      × (sig.scope_date ≡ parsed.0.date)
      × (sig.payload_hash ≡ hash)
      × (valid_payload_hash hash ≡ true)
header_hash-fine lib r now parsed date hash sig h =
    let made : Checked SigV4 = fine (record {
      access_key = parsed.0.access_key;
      scope_date = parsed.0.date;
      region = parsed.0.region;
      signed_names = parsed.1;
      signature = parsed.2;
      amz_date = date;
      payload_hash = hash;
      canonical_query = query_or_empty r.query;
    }) in
    let (plain, h1) =
      unless-fine (not (starts_with (bytes "STREAMING-") hash)) not_implemented
        (unless (valid_payload_hash hash) access_denied made) sig h in
    let (valid, h2) = unless-fine (valid_payload_hash hash) access_denied made sig h1 in
    (ap (date_of date) (sym h2), ap (scope_of date) (sym h2), ap (hash_of date) (sym h2), valid)
  where
    date_of : Text → Checked SigV4 → Text
    date_of other (fine s) = s.amz_date
    date_of other (denied d) = other

    scope_of : Text → Checked SigV4 → Text
    scope_of other (fine s) = s.scope_date
    scope_of other (denied d) = other

    hash_of : Text → Checked SigV4 → Text
    hash_of other (fine s) = s.payload_hash
    hash_of other (denied d) = other

header_dated-within :
    (lib : Library) (r : Request) (now : ℕ) (parsed : CredentialScope × List Text × Text)
    (date : Text) (sig : SigV4)
    → header_dated lib r now parsed date ≡ fine sig
    → (time : ℕ) × (lib.parse_time sig.amz_date ≡ some time)
      × (take 8 sig.amz_date ≡ sig.scope_date)
      × (now ≤ time + 900 * 1000000000)
      × (time ≤ now + 900 * 1000000000)
      × (valid_payload_hash sig.payload_hash ≡ true)
header_dated-within lib r now parsed date sig h =
    let (day, h4) =
      unless-fine (text_eq (take 8 date) parsed.0.date) access_denied
        (and_then (or_deny access_denied (lib.parse_time date)) (header_time lib r now parsed date))
        sig h in
    let (time, e4, h5) =
      and_then-fine (or_deny access_denied (lib.parse_time date))
        (header_time lib r now parsed date) sig h4 in
    let (near, h6) =
      unless-fine (not (skewed now time)) request_time_too_skewed
        (and_then (hash_of_header lib r now) (header_hash lib r now parsed date)) sig h5 in
    let (hash, e5, h7) =
      and_then-fine (hash_of_header lib r now) (header_hash lib r now parsed date) sig h6 in
    let (dated, scoped, hashed, valid) = header_hash-fine lib r now parsed date hash sig h7 in
    (
      time,
      rw dated (or_deny-fine access_denied (lib.parse_time date) time e4),
      rw (dated, scoped) (text_eq→eq (take 8 date) parsed.0.date day),
      ground (arith, near),
      ground (arith, near),
      rw hashed valid,
    )

-- The material of a signed header is dated within its scope's day and within 15 minutes of now, and
-- its payload hash is valid.
pub from_header-within :
    (lib : Library) (r : Request) (now : ℕ) (sig : SigV4)
    → from_header lib r now ≡ fine sig
    → (time : ℕ) × (lib.parse_time sig.amz_date ≡ some time)
      × (take 8 sig.amz_date ≡ sig.scope_date)
      × (now ≤ time + 900 * 1000000000)
      × (time ≤ now + 900 * 1000000000)
      × (valid_payload_hash sig.payload_hash ≡ true)
unfolding from_header
from_header-within lib r now sig h =
    let (auth, e1, h1) =
      and_then-fine (or_deny access_denied (header_str lib r.headers (bytes "authorization")))
        (header_auth lib r now) sig h in
    let (parsed, e2, h2) =
      and_then-fine (or_deny access_denied (parse_auth auth)) (header_parsed lib r now) sig h1 in
    let (date, e3, h3) =
      and_then-fine (or_deny access_denied (header_str lib r.headers (bytes "x-amz-date")))
        (header_dated lib r now parsed) sig h2 in
    header_dated-within lib r now parsed date sig h3
