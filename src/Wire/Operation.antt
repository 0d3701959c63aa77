-- ===== src/Wire/Operation.antt =====
-- backend/crates/s3-protocol/src/operation.rs: what a request asks for, by its method and raw query.
use grove_storage.Prelude.{
  ℕ, Bool, false, Option, none, some, List, [], ◌∷◌, Text, bytes, text_eq, ltb, leb, ◌&&◌, ◌||◌,
  not, is_empty, any, length, if◌then◌else◌,
}
use grove_storage.Policy.Validation.{ℤ, pos, negsuc}
use grove_storage.Wire.Split.{split}
use grove_storage.Wire.Decimal.{parse_i32}
use grove_storage.Wire.Query.{filtered, query_flag, query_value}

pub data Operation : Type 0 where
  put get head delete create_multipart : Operation
  upload_part : Text → ℕ → Operation
  complete_multipart abort_multipart : Text → Operation

pub data RouteError : Type 0 where
  invalid_argument not_implemented method_not_allowed : RouteError

pub data Route : Type 0 where
  to : Operation → Route
  refused : RouteError → Route

abbrev pub unsupported : List Text
unsupported =
    bytes "acl"
    ∷ bytes "tagging"
    ∷ bytes "versionId"
    ∷ bytes "torrent"
    ∷ bytes "restore"
    ∷ bytes "retention"
    ∷ bytes "legal-hold"
    ∷ bytes "attributes"
    ∷ bytes "select"
    ∷ bytes "select-type"
    ∷ []

abbrev pub uploads : Text
uploads = bytes "uploads"

abbrev pub upload_id : Text
upload_id = bytes "uploadId"

abbrev pub part_number : Text
part_number = bytes "partNumber"

-- `pair.split('=').next() == Some(key)`.
abbrev first_is : Text → List Text → Bool
first_is key [] = false
first_is key (p ∷ ps) = text_eq p key

-- `filter(...).count() > 1`.
unfoldable pub repeated : Text → Text → Bool
repeated query key =
    ltb 1 (length (filtered (λ pair. first_is key (split b'=' pair)) (split b'&' query)))

abbrev pub plain : Text → Route
plain method =
    if text_eq method (bytes "PUT")
    then to put
    else (if text_eq method (bytes "GET")
        then to get
        else (if text_eq method (bytes "HEAD")
            then to head
            else (if text_eq method (bytes "DELETE")
                then to delete
                else refused method_not_allowed)))

abbrev pub start_upload : Text → Bool → Bool → Route
start_upload method has_id has_part =
    if text_eq method (bytes "POST") && not has_id && not has_part
    then to create_multipart
    else (if has_id || has_part then refused invalid_argument else refused not_implemented)

-- The number of a part, from 1 to 10,000.
abbrev pub part_of : Text → Option ℤ → Route
part_of id none = refused invalid_argument
part_of id (some (negsuc n)) = refused invalid_argument
part_of id (some (pos n)) =
    if leb 1 n && leb n 10000 then to (upload_part id n) else refused invalid_argument

abbrev pub parsed : Option Text → Option ℤ
parsed none = none
parsed (some v) = parse_i32 v

abbrev pub in_upload : Text → Text → Bool → Text → Route
in_upload method query has_part id =
    if text_eq method (bytes "PUT")
    then part_of id (parsed (query_value query part_number))
    else (if text_eq method (bytes "POST")
        then (if has_part then refused invalid_argument else to (complete_multipart id))
        else (if text_eq method (bytes "DELETE")
            then (if has_part then refused invalid_argument else to (abort_multipart id))
            else refused not_implemented))

abbrev pub with_id : Text → Text → Bool → Option Text → Route
with_id method query has_part none = refused invalid_argument
with_id method query has_part (some id) =
    if is_empty id then refused invalid_argument else in_upload method query has_part id

-- By the upload parameters, once they are known to be given once.
abbrev pub route : Text → Text → Route
route method query =
    let has_id = query_flag query upload_id in
    let has_part = query_flag query part_number in
    if query_flag query uploads
    then start_upload method has_id has_part
    else (if has_id
        then with_id method query has_part (query_value query upload_id)
        else (if has_part
            then (if text_eq method (bytes "PUT")
                then refused invalid_argument
                else refused not_implemented)
            else plain method))

unfoldable pub classify : Text → Text → Bool → Route
classify method query copy_source =
    if copy_source || any (query_flag query) unsupported
    then refused not_implemented
    else (if repeated query uploads || repeated query upload_id || repeated query part_number
        then refused invalid_argument
        else route method query)
