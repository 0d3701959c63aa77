-- ===== src/WireExamples.antt =====
-- The theorems on the text of S3 requests at concrete inputs.
use mathlib.Core.List.Perm
use grove_storage.Prelude.{
  All, ◌≡◌, ◌≤◌, ◌↔◌, refl, true, false, some, none, [], ◌∷◌, ◌++◌, Text, bytes, arith, any,
  text_eq, all, map, is_empty,
}
use grove_storage.Wire.Split.{split, split_once, join}
use grove_storage.Wire.Decimal.{is_digit, decimal, parse_i32}
use grove_storage.Wire.Query.{canonicalize_query, query_flag, query_value, signature}
use grove_storage.Wire.Canonical.{canonicalize_query-perm, canonicalize_query-signature}
use grove_storage.Wire.Operation.{
  upload_part, to, classify, repeated, unsupported, uploads, upload_id, part_number,
}
use grove_storage.Wire.Routing.{Fits, classify-Fits}
use grove_storage.Wire.Credential.{
  CredentialScope, credential_scope, scope_ok, signed_headers, unsorted, presigned_expiry,
}
use grove_storage.Wire.Scope.{scope_pieces, credential_scope-join, presigned_expiry-decimal}
use grove_storage.Wire.Names.{Has, Ascends, IsName, signed_headers-IsName}
use grove_storage.Wire.Query.{text_le}
use grove_storage.Wire.Digest.{if_match_matches, quoted, if_match_matches-join}

abbrev a_piece : Text
a_piece = bytes "a=1"

abbrev b_piece : Text
b_piece = bytes "b"

canonicalize_query-perm_example :
    canonicalize_query (join b'&' (b_piece ∷ a_piece ∷ []))
    ≡ canonicalize_query (join b'&' (a_piece ∷ b_piece ∷ []))
canonicalize_query-perm_example =
    canonicalize_query-perm b_piece (a_piece ∷ []) a_piece (b_piece ∷ []) (omega arith)
      (omega arith) (Perm.swap a_piece b_piece [])

canonical_text : canonicalize_query (bytes "b&&a=1&X-Amz-Signature=00") ≡ bytes "a=1&b="
unfolding canonicalize_query
canonical_text = refl

canonicalize_query-signature_example :
    canonicalize_query (join b'&' (b_piece ∷ [] ++ (signature ++ b'=' ∷ bytes "00") ∷ a_piece ∷ []))
    ≡ canonicalize_query (join b'&' (b_piece ∷ [] ++ a_piece ∷ []))
canonicalize_query-signature_example =
    canonicalize_query-signature (bytes "00") b_piece [] (a_piece ∷ []) (omega arith) (omega arith)
      (omega arith)

abbrev part_query : Text
part_query = bytes "uploadId=u1&partNumber=7"

part_routed : classify (bytes "PUT") part_query false ≡ to (upload_part (bytes "u1") 7)
unfolding classify query_flag split text_eq split_once repeated query_value parse_i32
part_routed = refl

classify-Fits_example :
    Fits (bytes "PUT") part_query (upload_part (bytes "u1") 7)
    × (false ≡ false)
    × (any (query_flag part_query) unsupported ≡ false)
    × (repeated part_query uploads ≡ false)
    × (repeated part_query upload_id ≡ false)
    × (repeated part_query part_number ≡ false)
classify-Fits_example =
    classify-Fits (bytes "PUT") part_query false (upload_part (bytes "u1") 7) part_routed

abbrev a_scope : CredentialScope
a_scope = record { access_key = bytes "AK"; date = bytes "20260101"; region = bytes "eu" }

credential_scope-join_example :
    (credential_scope (bytes "AK/20260101/eu/s3/aws4_request") ≡ some a_scope) ↔ (
      (bytes "AK/20260101/eu/s3/aws4_request" ≡ join b'/' (scope_pieces a_scope))
      × (scope_ok a_scope ≡ true))
credential_scope-join_example =
    credential_scope-join (bytes "AK/20260101/eu/s3/aws4_request") a_scope (omega arith)

scope_read : credential_scope (bytes "AK/20260101/eu/s3/aws4_request") ≡ some a_scope
unfolding credential_scope split text_eq
scope_read = refl

signed_headers-IsName_example :
    (signed_headers (bytes "host;x-amz-date") ≡ some (bytes "host" ∷ bytes "x-amz-date" ∷ [])) ↔ (
      (bytes "host;x-amz-date" ≡ join b';' (bytes "host" ∷ bytes "x-amz-date" ∷ []))
      × Has (bytes "host") (bytes "host" ∷ bytes "x-amz-date" ∷ [])
      × Ascends (bytes "host" ∷ bytes "x-amz-date" ∷ [])
      × All IsName (bytes "host" ∷ bytes "x-amz-date" ∷ []))
signed_headers-IsName_example =
    signed_headers-IsName (bytes "host;x-amz-date") (bytes "host") (bytes "x-amz-date" ∷ [])

names_read :
    signed_headers (bytes "host;x-amz-date") ≡ some (bytes "host" ∷ bytes "x-amz-date" ∷ [])
unfolding signed_headers split text_eq unsorted text_le
names_read = refl

presigned_expiry-decimal_example : (presigned_expiry (bytes "900") ≡ some 900) ↔ (
    (is_empty (bytes "900") ≡ false)
    × (all is_digit (bytes "900") ≡ true)
    × (decimal 0 (bytes "900") ≡ 900)
    × (1 ≤ 900)
    × (900 ≤ 604800))
presigned_expiry-decimal_example = presigned_expiry-decimal (bytes "900") 900

if_match_matches-join_example :
    (if_match_matches (join b',' (map quoted (bytes "x" ∷ bytes "y" ∷ []))) (some (bytes "y"))
      ≡ any (λ x. text_eq x (bytes "y")) (bytes "x" ∷ bytes "y" ∷ []))
    × (if_match_matches (join b',' (map quoted (bytes "x" ∷ bytes "y" ∷ []))) none ≡ false)
if_match_matches-join_example =
    if_match_matches-join (bytes "x") (bytes "y" ∷ []) (bytes "y") (omega arith)
