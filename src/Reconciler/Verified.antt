-- ===== src/Reconciler/Verified.antt =====
-- The decision of `observe_commit` of backend/crates/api/src/reconciler.rs.
use grove_storage.Prelude.{
  ◌≡◌, refl, ap, ◌∙◌, ◌⊎◌, inl, inr, Bool-cases, true, false, Option, none, some, Text, not, ◌||◌,
  ◌==◌, eq_ignore_ascii_case, arith,
}
use grove_storage.Files.Candidates.{ObservedCommitCandidate}
use grove_storage.Files.Commit.{finalize_commit}
use grove_storage.Policy.Validation.{Observed, seen, failed}
use grove_storage.Service.Commit.{Measured, md5_differs}
use grove_storage.Reconciler.World.{Pass, Env, transact}
use grove_storage.Reconciler.Observe.{compared, measure, observe_commit}

-- The md5 declared, if one is, is the ETag in any case of its letters.
abbrev pub IsMd5 : Option Text → Text → Type 0
IsMd5 none etag = Unit {0}
IsMd5 (some md5) etag = eq_ignore_ascii_case md5 etag ≡ true

-- The object measured has the size and the md5 that the file declares.
abbrev pub IsDeclared : ObservedCommitCandidate → Measured → Type 0
IsDeclared c m = (m.size ≡ c.declared_size) × IsMd5 c.declared_md5 m.etag

IsMd5-agrees : (o : Option Text) (etag : Text) → md5_differs o etag ≡ false → IsMd5 o etag
IsMd5-agrees none etag h = tt
IsMd5-agrees (some md5) etag h = ground (arith, h)

agrees-IsMd5 : (o : Option Text) (etag : Text) → IsMd5 o etag → md5_differs o etag ≡ false
agrees-IsMd5 none etag h = refl
agrees-IsMd5 (some md5) etag h = ground (arith, h)

module _ {W E Row Backend : Type 0} (env : Env W E Row Backend) (c : ObservedCommitCandidate) where
  compared-IsDeclared :
      (r : Observed E (Option Measured) × Pass W)
      → ((m : Measured) × (r.0 ≡ seen (some m))
          × IsDeclared c m
          × (compared env c r ≡ transact env (λ now. finalize_commit now c.file_id m.etag) r.1))
        ⊎ (((compared env c r).1 ≡ r.1)
            × (¬ ((m : Measured) × (r.0 ≡ seen (some m)) × IsDeclared c m)))
  compared-IsDeclared (failed e, s) = inr (refl, λ w. cc (w.1))
  compared-IsDeclared (seen none, s) = inr (refl, λ w. cc (w.1))
  compared-IsDeclared (seen (some n), s) =
      elim (Bool-cases (not (n.size == c.declared_size) || md5_differs c.declared_md5 n.etag)) [
        | inl t ↦ inr (
          rw t refl,
          λ w.
              let (m, found, declared) = w in
              let same : n ≡ m = cc found in
              let sized : n.size ≡ c.declared_size =
                ap (λ (x : Measured). x.size) same ∙ declared.0 in
              let tag : n.etag ≡ m.etag = ap (λ (x : Measured). x.etag) same in
              let agreed = agrees-IsMd5 c.declared_md5 n.etag (rw tag declared.1) in
              absurd (ground (arith, t, sized, agreed)),
        )
        | inr f ↦ inl (
          n,
          refl,
          (ground (arith, f), IsMd5-agrees c.declared_md5 n.etag (ground (arith, f))),
          rw f refl,
        )
      ]

  -- With the object of a candidate measured in its storage: either it was seen with the size and the
  -- md5 that the file declares, and the rest of the call is the confirmation with the ETag measured;
  -- or it was not, and nothing more happens.
  pub observe_commit-IsDeclared :
      (s : Pass W) (backend : Backend)
      → env.backend_from_row (env.storage_row c.storage) ≡ seen backend
      → ((m : Measured) × ((measure env c backend s).0 ≡ seen (some m))
          × IsDeclared c m
          × (observe_commit env c s
              ≡ transact env
                  (λ now. finalize_commit now c.file_id m.etag)
                  (measure env c backend s).1))
        ⊎ (((observe_commit env c s).1 ≡ (measure env c backend s).1)
            × (¬ ((m : Measured) × ((measure env c backend s).0 ≡ seen (some m)) × IsDeclared c m)))
  unfolding observe_commit
  observe_commit-IsDeclared s backend known =
      rw known (compared-IsDeclared (measure env c backend s))
