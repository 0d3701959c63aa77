-- ===== src/Policy/Reconcile.antt =====
-- backend/crates/s3-protocol/src/completion.rs: the parts of a CompleteMultipartUpload request
-- against the ledger of measured parts. A part number is a number (one that is not positive is
-- refused by the same test as 0); a size is an i64.
use grove_storage.Prelude.{
  ℕ, suc, ◌-◌, ◌<◌, ◌≡◌, refl, sym, Bool, true, false, ◌&&◌, ◌||◌, not, ltb, leb, ◌==◌, Option,
  none, some, List, [], ◌∷◌, Text, eq_ignore_ascii_case, if◌then◌else◌, arith, any, is_empty, take,
  length, All, Bool-cases, inl, inr,
}
use grove_storage.Policy.Validation.{ℤ, pos, negsuc}

pub record ClientPart : Type 0 where
  pub number : ℕ
  pub etag : Text

pub record LedgerPart : Type 0 where
  pub number : ℕ
  pub size : ℤ
  pub etag : Text

pub data CompletionError : Type 0 where
  invalid_part invalid_part_order entity_too_small : CompletionError

pub data Completion : Type 0 where
  reconciled : List LedgerPart → Completion
  rejected : CompletionError → Completion

-- `str::trim_matches('"')`.
abbrev drop_quotes : Text → Text
drop_quotes [] = []
drop_quotes (b ∷ t) = if b == 34 then drop_quotes t else b ∷ t

abbrev drop_last_quotes : Text → Text
drop_last_quotes [] = []
drop_last_quotes (b ∷ t) =
    let rest = drop_last_quotes t in if b == 34 && is_empty rest then [] else b ∷ rest

unfoldable pub trim_quotes : Text → Text
trim_quotes s = drop_last_quotes (drop_quotes s)

abbrev pub number_ok : ℕ → Bool
number_ok n = leb 1 n && leb n 10000

-- `windows(2).any(|[a, b]| a.0 >= b.0)`.
unfoldable pub out_of_order : List ClientPart → Bool
out_of_order [] = false
out_of_order (a ∷ []) = false
out_of_order (a ∷ b ∷ rest) = leb b.number a.number || out_of_order (b ∷ rest)

-- The `HashMap` collected from the ledger: of two entries with one number the later stays.
unfoldable pub by_number : List LedgerPart → ℕ → Option LedgerPart
by_number [] n = none
by_number (r ∷ rs) n = elim (by_number rs n) [
  | some later ↦ some later
  | none ↦ if r.number == n then some r else none
]

abbrev pub below : ℤ → ℕ → Bool
below (pos m) n = ltb m n
below (negsuc m) n = true

abbrev pub min_part_bytes : ℕ
min_part_bytes = 5242880

abbrev refuses : LedgerPart → ClientPart → Bool
refuses r c = below r.size 0 || not (eq_ignore_ascii_case r.etag (trim_quotes c.etag))

-- The loop over the client's parts, with what it found for the part before the rest.
abbrev push_part : ClientPart → Option LedgerPart → Completion → Completion
push_part c none rest = rejected invalid_part
push_part c (some r) rest = if refuses r c then rejected invalid_part else elim rest [
  | rejected e ↦ rejected e
  | reconciled ps ↦ reconciled (record { number = c.number; size = r.size; etag = r.etag } ∷ ps)
]

unfoldable pub resolve : List LedgerPart → List ClientPart → Completion
resolve ledger [] = reconciled []
resolve ledger (c ∷ cs) = push_part c (by_number ledger c.number) (resolve ledger cs)

abbrev small_part : LedgerPart → Bool
small_part p = below p.size min_part_bytes

abbrev check_sizes : Completion → Completion
check_sizes (rejected e) = rejected e
check_sizes (reconciled ps) =
    if any small_part (take (length ps - 1) ps) then rejected entity_too_small else reconciled ps

unfoldable pub reconcile : List ClientPart → List LedgerPart → Completion
reconcile client ledger =
    if is_empty client || any (λ c. not (number_ok c.number)) client
    then rejected invalid_part
    else (if out_of_order client
        then rejected invalid_part_order
        else check_sizes (resolve ledger client))

-- A completed part: the client's number and ETag, and the entry of the ledger under that number.
abbrev pub Recorded : List LedgerPart → ClientPart → LedgerPart → Type 0
Recorded ledger c p =
    (p.number ≡ c.number)
    × ((r : LedgerPart) × (by_number ledger c.number ≡ some r)
        × (p.size ≡ r.size)
        × (p.etag ≡ r.etag))
    × (eq_ignore_ascii_case p.etag (trim_quotes c.etag) ≡ true)
    × (below p.size 0 ≡ false)

abbrev pub Answers : List LedgerPart → List ClientPart → List LedgerPart → Type 0
Answers ledger [] [] = Unit {0}
Answers ledger [] (p ∷ ps) = ⊥
Answers ledger (c ∷ cs) [] = ⊥
Answers ledger (c ∷ cs) (p ∷ ps) = Recorded ledger c p × Answers ledger cs ps

-- Every number is below all the later ones.
abbrev pub Ascending : List ClientPart → Type 0
Ascending [] = Unit {0}
Ascending (c ∷ cs) = All (λ (d : ClientPart). c.number < d.number) cs × Ascending cs

-- Every part but the last has the minimum size.
abbrev pub FullSized : List LedgerPart → Type 0
FullSized [] = Unit {0}
FullSized (p ∷ []) = Unit {0}
FullSized (p ∷ q ∷ rest) = (small_part p ≡ false) × FullSized (q ∷ rest)

lower_bound :
    (n : ℕ) (c : ClientPart) (cs : List ClientPart)
    → n < c.number
    → Ascending (c ∷ cs)
    → All (λ (d : ClientPart). n < d.number) (c ∷ cs)
lower_bound n c cs h up = (h, above n c h cs up.0)
  where
    above :
        (n : ℕ) (c : ClientPart) (h : n < c.number) (cs : List ClientPart)
        → All (λ (d : ClientPart). c.number < d.number) cs
        → All (λ (d : ClientPart). n < d.number) cs
    above n c h [] a = tt
    above n c h (d ∷ ds) a = (let lt = a.0 in omega arith, above n c h ds a.1)

ascending : (cs : List ClientPart) → out_of_order cs ≡ false → Ascending cs
unfolding out_of_order
ascending [] h = tt
ascending (a ∷ []) h = (tt, tt)
ascending (a ∷ b ∷ rest) h =
    let up = ascending (b ∷ rest) (ground arith) in
    (lower_bound a.number b rest (ground arith) up, up)

pushed :
    (c : ClientPart) (found : Option LedgerPart) (rest : Completion) (ps : List LedgerPart)
    → push_part c found rest ≡ reconciled ps
    → (r : LedgerPart) × (qs : List LedgerPart) × (found ≡ some r)
      × (rest ≡ reconciled qs)
      × (refuses r c ≡ false)
      × (ps ≡ record { number = c.number; size = r.size; etag = r.etag } ∷ qs)
pushed c none rest ps h = cc
pushed c (some r) (rejected e) ps h = elim (Bool-cases (refuses r c)) [
  | inl t ↦ cc (rw t at h)
  | inr f ↦ cc (rw f at h)
]
pushed c (some r) (reconciled qs) ps h = elim (Bool-cases (refuses r c)) [
  | inl t ↦ cc (rw t at h)
  | inr f ↦ (r, qs, refl, refl, f, cc (rw f at h))
]

resolve-Answers :
    (ledger : List LedgerPart) (cs : List ClientPart) (ps : List LedgerPart)
    → resolve ledger cs ≡ reconciled ps
    → Answers ledger cs ps
unfolding resolve
resolve-Answers ledger [] [] h = tt
resolve-Answers ledger [] (p ∷ ps) h = cc
resolve-Answers ledger (c ∷ cs) ps h =
    let (r, qs, found, rest, fine, e) =
      pushed c (by_number ledger c.number) (resolve ledger cs) ps h in
    rw e (
      (refl, (r, found, refl, refl), ground arith, ground arith),
      resolve-Answers ledger cs qs rest,
    )

full_sized :
    (ps : List LedgerPart) → any small_part (take (length ps - 1) ps) ≡ false → FullSized ps
full_sized [] h = tt
full_sized (p ∷ []) h = tt
full_sized (p ∷ q ∷ rest) h =
    let one : length (p ∷ q ∷ rest) - 1 ≡ suc (length (q ∷ rest) - 1) = omega arith in
    let each = rw one at h in (ground (arith, each), full_sized (q ∷ rest) (ground (arith, each)))

list_of : {qs ps : List LedgerPart} → reconciled qs ≡ reconciled ps → qs ≡ ps
list_of e = cc e

checked :
    (made : Completion) (ps : List LedgerPart)
    → check_sizes made ≡ reconciled ps
    → (made ≡ reconciled ps) × FullSized ps
checked (rejected e) ps h = cc
checked (reconciled qs) ps h = elim (Bool-cases (any small_part (take (length qs - 1) qs))) [
  | inl t ↦ cc (rw t at h)
  | inr f ↦ let same = rw f at h in (same, rw (sym (list_of same)) (full_sized qs f))
]

-- A completion that is not rejected completes the client's parts in the client's order: their
-- numbers ascend from 1 to 10,000 at most, each has an entry of the ledger with the same ETag,
-- whose size is not negative, and all but the last have 5 MiB.
pub reconcile-Answers :
    (client : List ClientPart) (ledger parts : List LedgerPart)
    → reconcile client ledger ≡ reconciled parts
    → Answers ledger client parts
      × Ascending client
      × FullSized parts
      × (any (λ c. not (number_ok c.number)) client ≡ false)
      × (is_empty client ≡ false)
unfolding reconcile
reconcile-Answers client ledger parts h =
    elim (Bool-cases (is_empty client || any (λ c. not (number_ok c.number)) client)) [
      | inl t ↦ cc (rw t at h)
      | inr f ↦ elim (Bool-cases (out_of_order client)) [
        | inl t ↦ cc (rw (f, t) at h)
        | inr sorted ↦
            let (made, full) = checked (resolve ledger client) parts (rw (f, sorted) at h) in
            (
              resolve-Answers ledger client parts made,
              ascending client sorted,
              full,
              ground arith,
              ground arith,
            )
      ]
    ]
