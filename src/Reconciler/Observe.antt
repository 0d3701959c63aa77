-- ===== src/Reconciler/Observe.antt =====
-- backend/crates/api/src/reconciler.rs, the job that commits a single upload by its object.
use grove_storage.Prelude.{
  ℕ, Bool, false, Option, none, some, List, [], ◌∷◌, Text, not, ◌==◌, ◌||◌, if◌then◌else◌,
}
use grove_storage.Db.Schema.{Clock, Lease}
use grove_storage.Files.Access.{recorded_upload}
use grove_storage.Files.Candidates.{ObservedCommitCandidate, observed_rows, observed_candidate}
use grove_storage.Files.Commit.{finalize_commit}
use grove_storage.Files.Recovery.{observe}
use grove_storage.Policy.Validation.{Observed, seen, failed}
use grove_storage.Service.Commit.{Measured, md5_differs}
use grove_storage.Reconciler.World.{Pass, Env, transact, ask, io}
use grove_storage.Reconciler.Steps.{batch_limit, count, over, if_begun, begin_file_recovery}

-- The columns `uploaded_size` and `uploaded_md5` of the lease found; a size without an md5 does not
-- decode.
abbrev pub both : {E : Type 0} → E → Option ℕ → Option Text → Observed E (Option Measured)
both e (some n) (some md5) = seen (some (record { size = n; etag = md5 }))
both e (some n) none = failed e
both e none md5 = failed e

abbrev pub relay_measured : {E : Type 0} → E → Option Lease → Observed E (Option Measured)
relay_measured e none = seen none
relay_measured e (some le) = both e le.uploaded_size le.uploaded_md5

module _ {W E Row Backend : Type 0} (env : Env W E Row Backend) where
  -- `observed_commit_candidates`: a query for the rows, and one for the storage of each.
  abbrev pub kept_candidate :
      Option ObservedCommitCandidate
      → Observed E (List ObservedCommitCandidate) × Pass W
      → Observed E (List ObservedCommitCandidate) × Pass W
  kept_candidate none r = r
  kept_candidate (some c) (failed e, s) = (failed e, s)
  kept_candidate (some c) (seen cs, s) = (seen (c ∷ cs), s)

  abbrev pub gathered :
      (Pass W → Observed E (List ObservedCommitCandidate) × Pass W)
      → Observed E (Option ObservedCommitCandidate) × Pass W
      → Observed E (List ObservedCommitCandidate) × Pass W
  gathered rest (failed e, s) = (failed e, s)
  gathered rest (seen o, s) = kept_candidate o (rest s)

  unfoldable pub gather :
      List (ℕ × ℕ × Option Text × Text)
      → Pass W
      → Observed E (List ObservedCommitCandidate) × Pass W
  gather [] s = (seen [], s)
  gather (row ∷ rows) s = gathered (gather rows) (ask env (λ now. observed_candidate row) s)

  abbrev pub from_rows :
      Observed E (List (ℕ × ℕ × Option Text × Text)) × Pass W
      → Observed E (List ObservedCommitCandidate) × Pass W
  from_rows (failed e, s) = (failed e, s)
  from_rows (seen rows, s) = gather rows s

  unfoldable pub observed_commit_candidates :
      Pass W → Observed E (List ObservedCommitCandidate) × Pass W
  unfolding gather
  observed_commit_candidates s =
      from_rows (ask env (λ (now : Clock). observed_rows batch_limit now.tx_now) s)

  -- The declared size and md5 against what was measured, then the confirmation.
  abbrev pub compared :
      ObservedCommitCandidate → Observed E (Option Measured) × Pass W → Observed E Bool × Pass W
  compared c (failed e, s) = (failed e, s)
  compared c (seen none, s) = (seen false, s)
  compared c (seen (some m), s) =
      if not (m.size == c.declared_size) || md5_differs c.declared_md5 m.etag
      then (seen false, s)
      else transact env (λ now. finalize_commit now c.file_id m.etag) s

  abbrev pub relayed : Observed E (Option Lease) × Pass W → Observed E (Option Measured) × Pass W
  relayed (failed e, s) = (failed e, s)
  relayed (seen o, s) = (relay_measured env.unavailable o, s)

  -- The relay's record, or the head of the object.
  abbrev pub measure :
      ObservedCommitCandidate → Backend → Pass W → Observed E (Option Measured) × Pass W
  measure c backend s =
      if env.is_relay backend
      then relayed (ask env (λ now. recorded_upload c.file_id) s)
      else io env (env.head_object backend c.storage c.object_key) s

  abbrev pub with_backend :
      ObservedCommitCandidate → Observed E Backend → Pass W → Observed E Bool × Pass W
  with_backend c (failed e) s = (failed e, s)
  with_backend c (seen backend) s = compared c (measure c backend s)

  unfoldable pub observe_commit : ObservedCommitCandidate → Pass W → Observed E Bool × Pass W
  observe_commit c s = with_backend c (env.backend_from_row (env.storage_row c.storage)) s

  abbrev pub observe_one : ObservedCommitCandidate → Pass W → Pass W
  observe_one c s =
      if_begun (λ s. count (observe_commit c s)) (begin_file_recovery env c.file_id observe s)

  unfoldable pub run_observe : Pass W → Pass W
  unfolding observed_commit_candidates observe_commit
  run_observe s = over observe_one (observed_commit_candidates s)
