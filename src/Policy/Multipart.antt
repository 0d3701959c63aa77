-- ===== src/Policy/Multipart.antt =====
-- backend/crates/object-policy/src/multipart.rs: the geometry of the parts of an upload. Sizes and part
-- numbers are not negative.
use grove_storage.Prelude.{
  ℕ, ◌+◌, ◌-◌, ◌*◌, ◌/◌, ◌%◌, Bool, ◌&&◌, ◌==◌, leb, ltb, if◌then◌else◌, List, [], ◌∷◌, Text,
  length,
}

-- The i64 sum wraps at 2^63 to negative numbers, whose quotient is truncated to 0. The count is an i32
-- in two's complement, which `as i32` keeps of the quotient; from 2^31 on it stands for a negative one.
unfoldable pub part_count : ℕ → ℕ → ℕ
part_count declared part_size =
    let sum = (declared + part_size + 18446744073709551615) % 18446744073709551616 in
    if ltb sum 9223372036854775808
    then sum / part_size % 4294967296
    else (4294967296 - (18446744073709551616 - sum) / part_size % 4294967296) % 4294967296

unfoldable pub part_expected_size : ℕ → ℕ → ℕ → ℕ
part_expected_size declared part_size part_no =
    if part_no == part_count declared part_size
    then declared - (part_no - 1) * part_size
    else part_size

unfoldable pub part_offset : ℕ → ℕ → ℕ
part_offset part_size part_no = (part_no - 1) * part_size

unfoldable pub part_number_ok : ℕ → ℕ → Bool
part_number_ok part_no count = leb 1 part_no && leb part_no count

-- `verify_part_sizes` of backend/crates/api/src/native/multipart.rs: the part number, the size and the
-- ETag of each measured part.
pub record Measured : Type 0 where
  pub number : ℕ
  pub size : ℕ
  pub etag : Text

pub data SizeCheck : Type 0 where
  sizes_ok missing_parts size_mismatch : SizeCheck

unfoldable pub expected_sizes : ℕ → ℕ → List Measured → SizeCheck
expected_sizes declared part_size [] = sizes_ok
expected_sizes declared part_size (m ∷ ms) =
    if m.size == part_expected_size declared part_size m.number
    then expected_sizes declared part_size ms
    else size_mismatch

unfoldable pub verify_part_sizes : List Measured → ℕ → ℕ → ℕ → SizeCheck
verify_part_sizes measured declared part_size expected_count =
    if length measured == expected_count
    then expected_sizes declared part_size measured
    else missing_parts
