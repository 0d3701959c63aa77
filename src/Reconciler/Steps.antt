-- ===== src/Reconciler/Steps.antt =====
-- The steps that the jobs of backend/crates/api/src/reconciler.rs share: the scan and its loop, the
-- claim of an attempt, the removal of an object, and the report of a result.
use grove_storage.Prelude.{ℕ, Bool, true, false, Option, none, some, List, [], ◌∷◌, ◌⊎◌}
use grove_storage.Db.Schema.{Db, Clock}
use grove_storage.Db.Tx.{Reply}
use grove_storage.Files.Sweep.{SweepCandidate}
use grove_storage.Files.Recovery.{RecoveryJob, UploadJob, claim_recovery, claim_upload}
use grove_storage.Policy.Validation.{Observed, seen, failed}
use grove_storage.Service.Commit.{Outcome, done, fail, cleanup_then_finalize}
use grove_storage.Reconciler.World.{
  Pass, Env, asked, transact, io, processed_some, failed_one, skipped_one,
}

abbrev pub batch_limit : ℕ
batch_limit = 20

abbrev pub recovery_retry : ℕ
recovery_retry = 30

module _ {W E : Type 0} where
  -- `Ok(true) => processed += 1, Ok(false) => {}, Err => failed += 1`.
  abbrev pub count : Observed E Bool × Pass W → Pass W
  count (seen true, s) = processed_some 1 s
  count (seen false, s) = s
  count (failed e, s) = failed_one s

  -- The same with a number of rows.
  abbrev pub count_rows : Observed E ℕ × Pass W → Pass W
  count_rows (seen n, s) = processed_some n s
  count_rows (failed e, s) = failed_one s

  abbrev pub begun : Observed E Bool × Pass W → Bool × Pass W
  begun (seen true, s) = (true, s)
  begun (seen false, s) = (false, skipped_one s)
  begun (failed e, s) = (false, failed_one s)

  -- The report of a cleanup: a physical and a metadata failure count the same.
  abbrev pub cleaned : Outcome (E ⊎ E) Bool × Pass W → Pass W
  cleaned (done true, s) = processed_some 1 s
  cleaned (done false, s) = s
  cleaned (fail e, s) = failed_one s

module _ {W : Type 0} where
  -- `if !begin { continue }`.
  abbrev pub if_begun : (Pass W → Pass W) → Bool × Pass W → Pass W
  if_begun work (true, s) = work s
  if_begun work (false, s) = s

  -- The loop over the candidates.
  unfoldable pub each : {C : Type 0} → (C → Pass W → Pass W) → List C → Pass W → Pass W
  each work [] s = s
  each work (c ∷ cs) s = each work cs (work c s)

  -- A failed scan is a failure of the job.
  abbrev pub over : {E C : Type 0} → (C → Pass W → Pass W) → Observed E (List C) × Pass W → Pass W
  over work (failed e, s) = failed_one s
  over work (seen cs, s) = each work cs s

module _ {W E Row Backend : Type 0} (env : Env W E Row Backend) where
  unfoldable pub begin_recovery : ℕ → UploadJob → Pass W → Bool × Pass W
  begin_recovery file_id job s =
      begun (transact env (λ now. claim_upload now file_id job recovery_retry) s)

  unfoldable pub begin_file_recovery : ℕ → RecoveryJob → Pass W → Bool × Pass W
  begin_file_recovery file_id job s =
      begun (transact env (λ now. claim_recovery now file_id job recovery_retry) s)

  -- `sweep_object`: the backend of the registered storage removes the object.
  abbrev pub remove_with :
      SweepCandidate → Observed E Backend → Pass W → Observed E (Unit {0}) × Pass W
  remove_with c (failed e) s = (failed e, s)
  remove_with c (seen backend) s =
      io env (env.cleanup_upload backend c) (record s { trail = asked c ∷ s.trail })

  abbrev pub found_storage :
      SweepCandidate → Observed E (Option Row) × Pass W → Observed E (Unit {0}) × Pass W
  found_storage c (failed e, s) = (failed e, s)
  found_storage c (seen none, s) = (failed env.unavailable, s)
  found_storage c (seen (some row), s) = remove_with c (env.backend_from_row row) s

  unfoldable pub sweep_object : SweepCandidate → Pass W → Observed E (Unit {0}) × Pass W
  sweep_object c s = found_storage c (io env (env.get_storage c.storage_id) s)

  unfoldable pub sweep_then : (Clock → Db → Reply Bool × Db) → SweepCandidate → Pass W → Pass W
  sweep_then settle c s = cleaned (cleanup_then_finalize (sweep_object c) (transact env settle) s)
