-- ===== src/Policy/Validation.antt =====
-- backend/crates/object-policy/src/validation.rs and completion.rs: what a declared upload becomes,
-- and what becomes of a completion whose outcome is not known. An i64 is an integer.
use grove_storage.Prelude.{
  refl, ap, ◌∙◌, ℕ, ◌*◌, min, ◌≡◌, ◌↔◌, ◌≤◌, ◌<◌, Bool, true, false, ◌&&◌, ◌||◌, ltb, leb, ◌==◌,
  Option, none, some, Text, eq_ignore_ascii_case, if◌then◌else◌, arith, all, length,
}

pub data ℤ : Type 0 where
  pos : ℕ → ℤ
  negsuc : ℕ → ℤ

-- `MAX_PARTS` of multipart.rs, `MAX_SINGLE_PUT_BYTES`, and the largest i64.
abbrev pub max_parts : ℕ
max_parts = 10000

abbrev pub max_single_put_bytes : ℕ
max_single_put_bytes = 5368709120

abbrev pub max_i64 : ℕ
max_i64 = 9223372036854775807

pub data Refusal : Type 0 where
  negative_size multipart_limit md5_not_accepted single_limit : Refusal

pub data Classified : Type 0 where
  accepted : Bool → Classified
  refused : Refusal → Classified

-- `part_size.saturating_mul(i64::from(MAX_PARTS))`, of a part size that is not negative.
abbrev pub multipart_limit_of : ℕ → ℕ
multipart_limit_of part_size = min (part_size * 10000) max_i64

unfoldable pub classify_upload : ℤ → ℕ → ℕ → Bool → Classified
classify_upload (negsuc n) threshold part_size has_md5 = refused negative_size
classify_upload (pos declared) threshold part_size has_md5 =
    if ltb threshold declared
    then (if ltb (multipart_limit_of part_size) declared
        then refused multipart_limit
        else (if has_md5 then refused md5_not_accepted else accepted true))
    else (if ltb max_single_put_bytes declared then refused single_limit else accepted false)

unfoldable pub content_type_ok : Text → Bool
content_type_ok s = leb (length s) 255 && all (λ b. leb 32 b && ltb b 127) s

abbrev pub is_hex_digit : ℕ → Bool
is_hex_digit b = leb 48 b && leb b 57 || leb 65 b && leb b 70 || leb 97 b && leb b 102

unfoldable pub declared_md5_format_ok : Text → Bool
declared_md5_format_ok s = length s == 32 && all is_hex_digit s

pub record ObjectObservation : Type 0 where
  pub size : ℕ
  pub etag : Text

pub data CompletionAction : Type 0 where
  finalize reopen cleanup : CompletionAction

-- `Result<T, E>` of an observation.
pub data Observed (E A : Type 0) : Type 0 where
  seen : A → Observed E A
  failed : E → Observed E A

abbrev pub agrees : ℕ → Text → ObjectObservation → Bool
agrees size etag o = o.size == size && eq_ignore_ascii_case o.etag etag

unfoldable pub completion_action :
    {E : Type 0}
    → ℕ
    → Text
    → Bool
    → Observed E (Option ObjectObservation)
    → Observed E CompletionAction
completion_action size etag multipart (failed e) = failed e
completion_action size etag multipart (seen none) = seen (if multipart then reopen else cleanup)
completion_action size etag multipart (seen (some o)) =
    seen (if agrees size etag o then finalize else cleanup)

-- An upload is accepted as multipart exactly when its size is above the threshold, at most 10,000
-- parts (and an i64) long, and declares no md5.
pub classify_upload-multipart :
    (size : ℕ) (threshold part_size : ℕ) (has_md5 : Bool)
    → (classify_upload (pos size) threshold part_size has_md5 ≡ accepted true)
      ↔ ((threshold < size) × (size ≤ part_size * 10000) × (size ≤ max_i64) × (has_md5 ≡ false))
unfolding classify_upload
classify_upload-multipart size threshold part_size has_md5 = (ground arith, ground arith)

-- A completion is finalized exactly when an object was seen whose size is the expected one and whose
-- ETag is the expected one, in any case of its letters.
pub completion_action-finalize :
    {E : Type 0} (size : ℕ) (etag : Text) (multipart : Bool)
    (found : Observed E (Option ObjectObservation))
    → (completion_action size etag multipart found ≡ seen finalize) ↔ (
        (o : ObjectObservation) × (found ≡ seen (some o))
        × (o.size ≡ size)
        × (eq_ignore_ascii_case o.etag etag ≡ true))
unfolding completion_action
completion_action-finalize size etag multipart (failed e) = (λ h. cc h, λ w. cc (w.1))
completion_action-finalize size etag true (seen none) = (λ h. cc h, λ w. cc (w.1))
completion_action-finalize size etag false (seen none) = (λ h. cc h, λ w. cc (w.1))
completion_action-finalize size etag multipart (seen (some o)) = (
  λ h. (o, refl, ground arith, ground arith),
  λ w.
      let (x, e, sized, tagged) = w in
      let same : o ≡ x = cc e in
      let agreed : agrees size etag x ≡ true = ground (arith, sized, tagged) in
      rw (ap (agrees size etag) same ∙ agreed) refl,
)
