-- ===== src/Auth/Accepted.antt =====
-- What an authenticated request has.
use grove_storage.Prelude.{
  ℕ, ◌+◌, ◌*◌, ◌≤◌, ◌≡◌, refl, sym, ap, Bool, true, false, Option, none, some, Text, all, not,
  text_eq, text_eq→eq, take, arith, Bool-cases, inl, inr, bytes,
}
use grove_storage.Policy.Validation.{Observed, seen, failed}
use grove_storage.Wire.Credential.{
  CredentialScope, presigned_expiry, credential_scope, signed_headers,
}
use grove_storage.Wire.Scope.{presigned_expiry-decimal}
use grove_storage.Wire.Query.{query_value}
use grove_storage.Auth.Material.{
  query_headers, query_names, query_signed, query_dated, query_time, query_window, query_expiry,
  query_algorithm, query_credential, query_scope, slashes, semicolons, value_or_empty, given_once,
  signature_parameters, too_early, too_late, SigV4, Denied, Checked, fine, denied, and_then,
  or_deny, unless, access_denied, header_str, Request, Library, from_query,
}
use grove_storage.Auth.Authenticate.{
  Authenticated, Credential, sign, string_to_sign, canonical_request, canonical_headers, is_covered,
  material, known, compare_signature, verified, authenticate, once, auth_headers, is_encoded,
  hash_ok, content_hash, if_hash_ok, if_covered, with_credential, with_lines,
}

pub and_then-fine :
    {A B : Type 0} (m : Checked A) (f : A → Checked B) (b : B)
    → and_then m f ≡ fine b
    → (a : A) × (m ≡ fine a) × (f a ≡ fine b)
and_then-fine (fine a) f b h = (a, refl, h)
and_then-fine (denied d) f b h = absurd (cc h)

pub unless-fine :
    {A : Type 0} (t : Bool) (d : Denied) (rest : Checked A) (a : A)
    → unless t d rest ≡ fine a
    → (t ≡ true) × (rest ≡ fine a)
unless-fine true d rest a h = (refl, h)
unless-fine false d rest a h = absurd (cc h)

pub or_deny-fine :
    {A : Type 0} (d : Denied) (o : Option A) (a : A) → or_deny d o ≡ fine a → o ≡ some a
or_deny-fine d none a h = cc h
or_deny-fine d (some x) a h = cc h

known-fine :
    {E : Type 0} (o : Observed E (Option Credential)) (c : Credential)
    → known o ≡ fine c
    → o ≡ seen (some c)
known-fine (failed e) c h = cc h
known-fine (seen none) c h = cc h
known-fine (seen (some x)) c h = cc h

compare_signature-fine :
    (lib : Library) (r : Request) (sig : SigV4) (c : Credential) (lines : Text) (a : Authenticated)
    → compare_signature lib r sig c lines ≡ fine a
    → (a.client_id ≡ c.client_id)
      × (sig.signature
          ≡ sign lib c.secret sig.scope_date sig.region
              (string_to_sign lib sig (canonical_request r sig lines)))
compare_signature-fine lib r sig c lines a h =
    let expected =
      sign lib c.secret sig.scope_date sig.region
        (string_to_sign lib sig (canonical_request r sig lines)) in
    elim (Bool-cases (text_eq expected sig.signature)) [
      | inr n ↦ absurd (cc (rw n at h))
      | inl t ↦
          let h' = rw t at h in
          (ap (client_of c.client_id) (sym h'), sym (text_eq→eq expected sig.signature t))
    ]
  where
    client_of : Text → Checked Authenticated → Text
    client_of other (fine y) = y.client_id
    client_of other (denied d) = other

-- A request that is authenticated has the material of a signature, from its header or its query;
-- the access key is registered, and the client answered is the key's; all its `x-amz-` headers are
-- signed, but `x-amz-content-sha256` need not be where an Authorization header is there; the signed headers are there; and the signature is that of the canonical request with
-- them under the key's secret.
pub authenticate-sign :
    {E : Type 0} (lib : Library) (lookup : Text → Observed E (Option Credential)) (now : ℕ)
    (r : Request) (a : Authenticated)
    → authenticate lib lookup now r ≡ fine a
    → (sig : SigV4) × (c : Credential) × (lines : Text) × (material lib r now ≡ fine sig)
      × (lookup sig.access_key ≡ seen (some c))
      × (a.client_id ≡ c.client_id)
      × (all (is_covered r.headers sig.signed_names) r.headers ≡ true)
      × (canonical_headers lib r.headers sig.signed_names ≡ some lines)
      × (sig.signature
          ≡ sign lib c.secret sig.scope_date sig.region
              (string_to_sign lib sig (canonical_request r sig lines)))
unfolding authenticate
authenticate-sign lib lookup now r a h =
    let (twice, h1) =
      unless-fine (all (once r.headers) auth_headers) access_denied
        (and_then (material lib r now) (verified lib lookup r)) a h in
    let (sig, m, h2) = and_then-fine (material lib r now) (verified lib lookup r) a h1 in
    let (hex, h3) =
      unless-fine (is_encoded sig.signature) access_denied (if_hash_ok lib lookup r sig) a h2 in
    let (hash, h4) =
      unless-fine (hash_ok (header_str lib r.headers content_hash)) access_denied
        (if_covered lib lookup r sig) a h3 in
    let (covered, h5) =
      unless-fine (all (is_covered r.headers sig.signed_names) r.headers) access_denied
        (with_credential lib lookup r sig) a h4 in
    let (c, k, h6) = and_then-fine (known (lookup sig.access_key)) (with_lines lib r sig) a h5 in
    let (lines, l, h7) =
      and_then-fine (or_deny access_denied (canonical_headers lib r.headers sig.signed_names))
        (compare_signature lib r sig c) a h6 in
    let (client, same) = compare_signature-fine lib r sig c lines a h7 in
    (
      sig,
      c,
      lines,
      m,
      known-fine (lookup sig.access_key) c k,
      client,
      covered,
      or_deny-fine access_denied (canonical_headers lib r.headers sig.signed_names) lines l,
      same,
    )

query_headers-date :
    (lib : Library) (now : ℕ) (q : Text) (scope : CredentialScope) (date names : Text) (sig : SigV4)
    → query_headers lib now q scope date names ≡ fine sig
    → (sig.amz_date ≡ date) × (sig.scope_date ≡ scope.date)
query_headers-date lib now q scope date names sig h =
    let (signed, e1, h1) =
      and_then-fine (or_deny access_denied (signed_headers (semicolons names)))
        (query_names lib now q scope date) sig h in
    let (signature, e2, h2) =
      and_then-fine (or_deny access_denied (query_value q (bytes "X-Amz-Signature")))
        (query_signed lib now q scope date signed) sig h1 in
    (ap (date_of date) (sym h2), ap (scope_of date) (sym h2))
  where
    date_of : Text → Checked SigV4 → Text
    date_of other (fine s) = s.amz_date
    date_of other (denied d) = other

    scope_of : Text → Checked SigV4 → Text
    scope_of other (fine s) = s.scope_date
    scope_of other (denied d) = other

query_dated-within :
    (lib : Library) (now : ℕ) (q : Text) (scope : CredentialScope) (date : Text) (sig : SigV4)
    → query_dated lib now q scope date ≡ fine sig
    → (time : ℕ) × (expires : ℕ) × (lib.parse_time sig.amz_date ≡ some time)
      × (take 8 sig.amz_date ≡ sig.scope_date)
      × (1 ≤ expires)
      × (expires ≤ 604800)
      × (presigned_expiry (value_or_empty (query_value q (bytes "X-Amz-Expires"))) ≡ some expires)
      × (time ≤ now + 900 * 1000000000)
      × (now ≤ time + expires * 1000000000)
query_dated-within lib now q scope date sig h =
    let (day, h1) =
      unless-fine (text_eq (take 8 date) scope.date) access_denied
        (and_then (or_deny access_denied (lib.parse_time date)) (query_time lib now q scope date))
        sig h in
    let (time, e1, h2) =
      and_then-fine (or_deny access_denied (lib.parse_time date)) (query_time lib now q scope date)
        sig h1 in
    let (expires, e2, h3) =
      and_then-fine (query_expiry lib now q) (query_window lib now q scope date time) sig h2 in
    let (early, h4) =
      unless-fine (not (too_early now time)) access_denied
        (unless (not (too_late now time expires)) access_denied (
          and_then (or_deny access_denied (query_value q (bytes "X-Amz-SignedHeaders")))
            (query_headers lib now q scope date)))
        sig h3 in
    let (late, h5) =
      unless-fine (not (too_late now time expires)) access_denied
        (and_then (or_deny access_denied (query_value q (bytes "X-Amz-SignedHeaders")))
          (query_headers lib now q scope date))
        sig h4 in
    let (names, e3, h6) =
      and_then-fine (or_deny access_denied (query_value q (bytes "X-Amz-SignedHeaders")))
        (query_headers lib now q scope date) sig h5 in
    let (dated, scoped) = query_headers-date lib now q scope date names sig h6 in
    let text = value_or_empty (query_value q (bytes "X-Amz-Expires")) in
    let week =
      (presigned_expiry-decimal text expires).0
        (or_deny-fine access_denied (presigned_expiry text) expires e2) in
    (
      time,
      expires,
      rw dated (or_deny-fine access_denied (lib.parse_time date) time e1),
      rw (dated, scoped) (text_eq→eq (take 8 date) scope.date day),
      week.3,
      week.4,
      or_deny-fine access_denied (presigned_expiry text) expires e2,
      ground (arith, early),
      ground (arith, late),
    )

-- The material of a presigned URL is dated within its scope's day, and is used at most 15 minutes
-- before its time, and after it at most the seconds that its X-Amz-Expires gives, 1 to 604,800.
pub from_query-within :
    (lib : Library) (r : Request) (now : ℕ) (sig : SigV4)
    → from_query lib r now ≡ fine sig
    → (time : ℕ) × (expires : ℕ) × (lib.parse_time sig.amz_date ≡ some time)
      × (take 8 sig.amz_date ≡ sig.scope_date)
      × (1 ≤ expires)
      × (expires ≤ 604800)
      × (presigned_expiry
            (value_or_empty (query_value (value_or_empty r.query) (bytes "X-Amz-Expires")))
          ≡ some expires)
      × (time ≤ now + 900 * 1000000000)
      × (now ≤ time + expires * 1000000000)
unfolding from_query
from_query-within lib r now sig h =
    let q = value_or_empty r.query in
    let (once, h1) =
      unless-fine (all (given_once lib q) signature_parameters) access_denied
        (and_then (or_deny access_denied (query_value q (bytes "X-Amz-Algorithm")))
          (query_algorithm lib now q))
        sig h in
    let (algorithm, e1, h2) =
      and_then-fine (or_deny access_denied (query_value q (bytes "X-Amz-Algorithm")))
        (query_algorithm lib now q) sig h1 in
    let (same, h3) =
      unless-fine (text_eq algorithm (bytes "AWS4-HMAC-SHA256")) access_denied
        (and_then (or_deny access_denied (query_value q (bytes "X-Amz-Credential")))
          (query_credential lib now q))
        sig h2 in
    let (raw, e2, h4) =
      and_then-fine (or_deny access_denied (query_value q (bytes "X-Amz-Credential")))
        (query_credential lib now q) sig h3 in
    let (scope, e3, h5) =
      and_then-fine (or_deny access_denied (credential_scope (slashes raw))) (query_scope lib now q)
        sig h4 in
    let (date, e4, h6) =
      and_then-fine (or_deny access_denied (query_value q (bytes "X-Amz-Date")))
        (query_dated lib now q scope) sig h5 in
    query_dated-within lib now q scope date sig h6
