-- ===== src/Service/Commit.antt =====
-- backend/crates/object-service/src/single_commit.rs, multipart_commit.rs and cleanup.rs. The trait's
-- operations are parameters: each reads and changes the world `W`, and may fail with an `E`.
use grove_storage.Prelude.{
  ℕ, ◌≡◌, refl, sym, ap, Bool, true, false, not, ◌==◌, Option, none, some, Text,
  eq_ignore_ascii_case, if◌then◌else◌, arith, inl, inr, Bool-cases, ◌⊎◌,
}
use grove_storage.Policy.Validation.{Observed, seen, failed}

pub record Measured : Type 0 where
  pub size : ℕ
  pub etag : Text

pub record SingleCommit (W E : Type 0) : Type 0 where
  pub observe : W → Observed E (Option Measured) × W
  pub finalize : Text → W → Observed E Bool × W
  pub committed_etag : W → Observed E (Option Text) × W

pub data CommitError (E : Type 0) : Type 0 where
  operation : E → CommitError E
  missing_upload size_mismatch md5_mismatch not_committable : CommitError E

pub record Committed : Type 0 where
  pub etag : Text
  pub transitioned : Bool

pub data Outcome (E A : Type 0) : Type 0 where
  done : A → Outcome E A
  fail : E → Outcome E A

-- `declared_md5.is_some_and(|md5| !md5.eq_ignore_ascii_case(&etag))`.
abbrev pub md5_differs : Option Text → Text → Bool
md5_differs none etag = false
md5_differs (some md5) etag = not (eq_ignore_ascii_case md5 etag)

module _ {W E : Type 0} where
  abbrev pub reload :
      SingleCommit W E → Observed E (Option Text) × W → Outcome (CommitError E) Committed × W
  reload ops (failed e, w) = (fail (operation e), w)
  reload ops (seen none, w) = (fail not_committable, w)
  reload ops (seen (some etag), w) = (done (record { etag = etag; transitioned = false }), w)

  abbrev pub after_finalize :
      SingleCommit W E → Text → Observed E Bool × W → Outcome (CommitError E) Committed × W
  after_finalize ops etag (failed e, w) = (fail (operation e), w)
  after_finalize ops etag (seen true, w) = (done (record { etag = etag; transitioned = true }), w)
  after_finalize ops etag (seen false, w) = reload ops (ops.committed_etag w)

  abbrev pub after_observe :
      SingleCommit W E
      → ℕ
      → Option Text
      → Observed E (Option Measured) × W
      → Outcome (CommitError E) Committed × W
  after_observe ops size md5 (failed e, w) = (fail (operation e), w)
  after_observe ops size md5 (seen none, w) = (fail missing_upload, w)
  after_observe ops size md5 (seen (some m), w) =
      if not (m.size == size)
      then (fail size_mismatch, w)
      else (if md5_differs md5 m.etag
          then (fail md5_mismatch, w)
          else after_finalize ops m.etag (ops.finalize m.etag w))

  unfoldable pub commit :
      SingleCommit W E → ℕ → Option Text → W → Outcome (CommitError E) Committed × W
  commit ops size md5 w = after_observe ops size md5 (ops.observe w)

module _ {W P M : Type 0} where
  abbrev pub finish_cleanup : Observed M Bool × W → Outcome (P ⊎ M) Bool × W
  finish_cleanup (failed e, w) = (fail (inr e), w)
  finish_cleanup (seen b, w) = (done b, w)

  abbrev pub after_cleanup :
      (W → Observed M Bool × W) → Observed P (Unit {0}) × W → Outcome (P ⊎ M) Bool × W
  after_cleanup finalize (failed e, w) = (fail (inl e), w)
  after_cleanup finalize (seen u, w) = finish_cleanup (finalize w)

  -- The physical cleanup, then the metadata operation.
  unfoldable pub cleanup_then_finalize :
      (W → Observed P (Unit {0}) × W) → (W → Observed M Bool × W) → W → Outcome (P ⊎ M) Bool × W
  cleanup_then_finalize cleanup finalize w = after_cleanup finalize (cleanup w)

-- What a finished commit has behind it: how the finalization answered, and what was read after it
-- if another transition had won.
module _ {W E : Type 0} (ops : SingleCommit W E) where
  abbrev pub Won : Committed → Measured → W → Type 0
  Won c m w =
      ((ops.finalize m.etag w).0 ≡ seen c.transitioned)
      × (c.transitioned ≡ true → c.etag ≡ m.etag)
      × (c.transitioned ≡ false
          → (ops.committed_etag (ops.finalize m.etag w).1).0 ≡ seen (some c.etag))

  won_reload :
      (c : Committed) (found : Observed E (Option Text) × W)
      → (reload ops found).0 ≡ done c
      → (c.transitioned ≡ false) × (found.0 ≡ seen (some c.etag))
  won_reload c (failed e, w) h = cc
  won_reload c (seen none, w) h = cc
  won_reload c (seen (some etag), w) h =
      let same : record { etag = etag; transitioned = false } ≡ c = cc h in
      (
        ap (λ (x : Committed). x.transitioned) (sym same),
        ap (λ (x : Committed). seen (some x.etag)) same,
      )

  won_finalize :
      (c : Committed) (etag : Text) (answer : Observed E Bool × W)
      → (after_finalize ops etag answer).0 ≡ done c
      → (answer.0 ≡ seen c.transitioned)
        × (c.transitioned ≡ true → c.etag ≡ etag)
        × (c.transitioned ≡ false → (ops.committed_etag answer.1).0 ≡ seen (some c.etag))
  won_finalize c etag (failed e, w) h = cc
  won_finalize c etag (seen true, w) h =
      let same : record { etag = etag; transitioned = true } ≡ c = cc h in
      let won : true ≡ c.transitioned = ap (λ (x : Committed). x.transitioned) same in
      (ap seen won, λ e. ap (λ (x : Committed). x.etag) (sym same), λ e. cc (won, e))
  won_finalize c etag (seen false, w) h =
      let (lost, found) = won_reload c (ops.committed_etag w) h in
      (cc lost, λ e. cc (lost, e), λ e. found)

  -- A commit that succeeds has observed an upload of the declared size and md5 before it wrote
  -- anything, and answers the observed ETag if its own finalization took place, else the ETag of the
  -- file that another transition had made active.
  pub commit_done :
      (size : ℕ) (md5 : Option Text) (w : W) (c : Committed)
      → (commit ops size md5 w).0 ≡ done c
      → (m : Measured) × ((ops.observe w).0 ≡ seen (some m))
        × (m.size ≡ size)
        × (md5_differs md5 m.etag ≡ false)
        × Won c m (ops.observe w).1
  unfolding commit
  commit_done size md5 w c h = observed (ops.observe w) h
    where
      observed :
          (found : Observed E (Option Measured) × W)
          → (after_observe ops size md5 found).0 ≡ done c
          → (m : Measured) × (found.0 ≡ seen (some m))
            × (m.size ≡ size)
            × (md5_differs md5 m.etag ≡ false)
            × Won c m found.1
      observed (failed e, w) h = cc
      observed (seen none, w) h = cc
      observed (seen (some m), w) h = elim (Bool-cases (m.size == size)) [
        | inr f ↦ cc (rw f at h)
        | inl t ↦ elim (Bool-cases (md5_differs md5 m.etag)) [
          | inl d ↦ cc (rw (t, d) at h)
          | inr same ↦ (
            m,
            refl,
            ground arith,
            same,
            won_finalize c m.etag (ops.finalize m.etag w) (rw (t, same) at h),
          )
        ]
      ]
