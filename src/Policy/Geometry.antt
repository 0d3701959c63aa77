-- ===== src/Policy/Geometry.antt =====
-- What the part geometry of object-policy/src/multipart.rs promises for an upload that was accepted
-- as multipart, under the part sizes that backend/crates/core/src/config.rs allows.
use native.Mathlib.Nat.{
  div-mul-le_self, lt-div-mul-add, div-lt_iff_lt-mul, mod-eq_of_lt, zero-mul, suc-mul,
}
use grove_storage.Prelude.{
  List, [], ◌∷◌, length, ℕ, zero, suc, ◌+◌, ◌-◌, ◌*◌, ◌/◌, ◌%◌, ◌≤◌, ◌<◌, ◌≡◌, refl, sym, ap, Bool,
  true, arith, ◌==◌, ltb, Bool-cases, inl, inr, if◌then◌else◌,
}
use grove_storage.Policy.Validation.{
  pos, max_i64, classify_upload, accepted, classify_upload-multipart,
}
use grove_storage.Policy.Multipart.{
  part_count, part_expected_size, part_offset, part_number_ok, Measured, sizes_ok, expected_sizes,
  verify_part_sizes,
}

-- The bounds of the part size in the configuration.
abbrev pub min_part_size : ℕ
min_part_size = 5242880

abbrev pub max_part_size : ℕ
max_part_size = 5368709120

mul_mono : (m n p : ℕ) → m ≤ n → m * p ≤ n * p
mul_mono m n p h = grind arith

pred_mul : (q p : ℕ) → (suc q - 1) * p ≡ q * p
pred_mul q p = ap (λ n. n * p) (omega arith)

ceil_bounds :
    (q d p : ℕ)
    → 0 < d
    → q * p ≤ d + p - 1
    → d + p - 1 < q * p + p
    → (d ≤ q * p) × ((q - 1) * p < d) × (1 ≤ q)
ceil_bounds zero d p hd below above = omega arith
ceil_bounds (suc q) d p hd below above =
    (grind arith, grind (arith, suc-mul q p, pred_mul q p), omega arith)

part_count_exact :
    (d p : ℕ)
    → 0 < p
    → d ≤ p * 10000
    → p ≤ max_part_size
    → (part_count d p ≡ (d + p - 1) / p) × (part_count d p ≤ 10000)
unfolding part_count
part_count_exact d p hp hd small =
    let few = (div-lt_iff_lt-mul {k = p} {x = d + p - 1} {y = 10001} hp).1 (omega arith) in
    let exact : (d + p + 18446744073709551615) % 18446744073709551616 ≡ d + p - 1 = omega arith in
    let kept = mod-eq_of_lt {n = (d + p - 1) / p} {m = 4294967296} (omega arith) in
    let positive : ltb (d + p - 1) 9223372036854775808 ≡ true = ground arith in
    rw (exact, positive, kept) (refl, omega arith)

ceil_parts :
    (d p : ℕ)
    → 0 < d
    → 0 < p
    → d ≤ p * 10000
    → p ≤ max_part_size
    → (1 ≤ part_count d p)
      × (part_count d p ≤ 10000)
      × (d ≤ part_count d p * p)
      × ((part_count d p - 1) * p < d)
ceil_parts d p hd hp within small =
    let (exact, few) = part_count_exact d p hp within small in
    let (cover, less, one) =
      ceil_bounds ((d + p - 1) / p) d p hd (div-mul-le_self (d + p - 1) p)
        (lt-div-mul-add {a = d + p - 1} {b = p} hp) in
    rw exact (one, rw exact at few, cover, less)

-- Under the configured part sizes, an accepted multipart upload has 1 to 10,000 parts, as many as its
-- size needs and no more; the sum that counts them and the end of the last part, were it full, are at
-- most the largest i64.
pub part_count_bounds :
    (d t p : ℕ) (md5 : Bool)
    → classify_upload (pos d) t p md5 ≡ accepted true
    → min_part_size ≤ p
    → p ≤ max_part_size
    → (d + p ≤ max_i64)
      × (part_count d p * p ≤ max_i64)
      × (1 ≤ part_count d p)
      × (part_count d p ≤ 10000)
      × (d ≤ part_count d p * p)
      × ((part_count d p - 1) * p < d)
part_count_bounds d t p md5 accepted_size large small =
    let (above, within, i64, no_md5) = (classify_upload-multipart d t p md5).0 accepted_size in
    let (one, few, cover, less) = ceil_parts d p (omega arith) (omega arith) within small in
    let top = mul_mono (part_count d p) 10000 p few in
    (omega arith, omega arith, one, few, cover, less)

-- The bytes of the first `k` parts.
abbrev pub total : ℕ → ℕ → ℕ → ℕ
total d p zero = 0
total d p (suc k) = total d p k + part_expected_size d p (suc k)

full_parts : (d p k : ℕ) → k < part_count d p → total d p k ≡ k * p
unfolding part_expected_size
full_parts d p zero h = sym (zero-mul p)
full_parts d p (suc k) h = ground (arith, full_parts d p k, suc-mul k p)

sum_to : (d p n : ℕ) → part_count d p ≡ n → 1 ≤ n → (n - 1) * p < d → total d p n ≡ d
unfolding part_expected_size
sum_to d p zero e one less = omega arith
sum_to d p (suc k) e one less = ground (arith, full_parts d p k, pred_mul k p)

-- The expected sizes of the parts of an accepted multipart upload add up to its declared size.
pub part_expected_size-sum :
    (d t p : ℕ) (md5 : Bool)
    → classify_upload (pos d) t p md5 ≡ accepted true
    → min_part_size ≤ p
    → p ≤ max_part_size
    → total d p (part_count d p) ≡ d
part_expected_size-sum d t p md5 accepted_size large small =
    let (sum, end, one, few, cover, less) = part_count_bounds d t p md5 accepted_size large small in
    sum_to d p (part_count d p) refl one less

-- The parts of an accepted multipart upload tile it: each has 1 byte at least and the part size at
-- most, ends where the next begins, and the last ends at the declared size.
pub part_offset-tile :
    (d t p i : ℕ) (md5 : Bool)
    → classify_upload (pos d) t p md5 ≡ accepted true
    → min_part_size ≤ p
    → p ≤ max_part_size
    → part_number_ok i (part_count d p) ≡ true
    → (1 ≤ part_expected_size d p i)
      × (part_expected_size d p i ≤ p)
      × (part_offset p i + part_expected_size d p i
          ≡ (if i == part_count d p then d else part_offset p (suc i)))
unfolding part_expected_size part_offset part_number_ok
part_offset-tile d t p zero md5 accepted_size large small valid = ground arith
part_offset-tile d t p (suc i) md5 accepted_size large small valid =
    let (sum, end, one, few, cover, less) = part_count_bounds d t p md5 accepted_size large small in
    elim (Bool-cases (suc i == part_count d p)) [
      | inl last ↦
          let same : suc i ≡ part_count d p = ground arith in
          let whole = ap (λ n. (n - 1) * p) same in
          let covered = ap (λ n. n * p) same in
          rw last (
            grind (arith, whole, covered),
            grind (arith, whole, covered, suc-mul i p, pred_mul i p),
            grind (arith, whole, covered),
          )
      | inr inner ↦
          rw inner
            (omega arith, omega arith, grind (arith, suc-mul i p, pred_mul i p, pred_mul (suc i) p))
    ]

abbrev pub sizes : List Measured → ℕ
sizes [] = 0
sizes (m ∷ ms) = m.size + sizes ms

-- The part numbers are `k + 1`, `k + 2` and so on.
abbrev pub NumberedFrom : ℕ → List Measured → Type 0
NumberedFrom k [] = Unit {0}
NumberedFrom k (m ∷ ms) = (m.number ≡ suc k) × NumberedFrom (suc k) ms

sizes-total :
    (d p k : ℕ) (ms : List Measured)
    → expected_sizes d p ms ≡ sizes_ok
    → NumberedFrom k ms
    → total d p k + sizes ms ≡ total d p (k + length ms)
unfolding expected_sizes
sizes-total d p k [] h numbered =
    let same : k ≡ k + length {A = Measured} [] = omega arith in omega (arith, ap (total d p) same)
sizes-total d p k (m ∷ ms) h numbered =
    let next : k + length (m ∷ ms) ≡ suc k + length ms = omega arith in
    let size = ap (part_expected_size d p) numbered.0 in
    elim (Bool-cases (m.size == part_expected_size d p m.number)) [
      | inr f ↦ cc (rw f at h)
      | inl t ↦ rw next (ground (arith, sizes-total d p (suc k) ms (rw t at h) numbered.1, size, t))
    ]

-- A measured list of consecutive parts that passes the check of an accepted multipart upload has the
-- declared number of bytes in all.
pub verify_part_sizes-sum :
    (d t p : ℕ) (md5 : Bool) (ms : List Measured)
    → classify_upload (pos d) t p md5 ≡ accepted true
    → min_part_size ≤ p
    → p ≤ max_part_size
    → NumberedFrom 0 ms
    → verify_part_sizes ms d p (part_count d p) ≡ sizes_ok
    → sizes ms ≡ d
unfolding verify_part_sizes
verify_part_sizes-sum d t p md5 ms accepted_size large small numbered h =
    let whole = part_expected_size-sum d t p md5 accepted_size large small in
    elim (Bool-cases (length ms == part_count d p)) [
      | inr f ↦ cc (rw f at h)
      | inl l ↦
          let all_parts = sizes-total d p 0 ms (rw l at h) numbered in
          let count : 0 + length ms ≡ part_count d p = ground (arith, l) in
          omega (arith, rw count at all_parts, whole)
    ]
