-- ===== src/Reconciler/Removed.antt =====
-- The jobs that remove objects remove only those of files that were deleted, reclaimed, or given up.
use grove_storage.Prelude.{◌≡◌, Bool, true, false, ◌==◌, ◌&&◌, ◌||◌, arith}
use grove_storage.Table.{exists_mono}
use grove_storage.Db.Schema.{Db, Clock, File, Upload, is_deleted, is_reclaimed, is_cleaning}
use grove_storage.Db.Tx.{Reply, ok}
use grove_storage.Files.Sweep.{SweepCandidate, finalize_purge, finalize_reclaim_cleanup}
use grove_storage.Files.Completion.{finalize_cleanup}
use grove_storage.Files.Recovery.{
  RecoveryJob, UploadJob, claim_recovery, claim_upload, in_job, job_upload_state, native_cleanup,
  s3_cleanup,
}
use grove_storage.Files.Recovery
use grove_storage.Registry.Finish.{finalize_abort}
use grove_storage.Lifecycle.Operations.{run}
use grove_storage.Service.Schedule.{Job, reclaim_cleanup, purge}
use grove_storage.Service.Schedule
use grove_storage.Reconciler.World.{Pass, Env, transact}
use grove_storage.Reconciler.Steps.{
  begun, begin_recovery, begin_file_recovery, sweep_then, if_begun,
}
use grove_storage.Reconciler.Complete.{cleanup_native}
use grove_storage.Reconciler.Jobs.{run_job, run_purge, run_reclaim_cleanup, run_s3_cleanup}
use grove_storage.Reconciler.Sweeps.{cleared, was_cleared, heeds, recovery_cleared, upload_cleared}
use grove_storage.Reconciler.Trail.{
  ask-Safe, begun-trail, begun-true, if_begun-Safe, over-Safe, sweep_then-Safe, transact-Safe,
  transact-true, Safe,
}

-- The jobs that remove objects.
abbrev pub sweeps : Job → Bool
sweeps job = elim job [
  | Schedule.native_cleanup ↦ true
  | Schedule.s3_cleanup ↦ true
  | reclaim_cleanup ↦ true
  | purge ↦ true
  | _ ↦ false
]

module _ {W E Row Backend : Type 0} (env : Env W E Row Backend) where
  -- The form of the removing jobs: claim an attempt, remove the object, settle. The claim succeeds
  -- only in a database in which the file is cleared.
  claimed_sweep-Safe :
      (claim settle : Clock → Db → Reply Bool × Db) (c : SweepCandidate) (s : Pass W)
      → ((now : Clock) (db : Db) → (claim now db).0 ≡ ok true → cleared c.file_id db ≡ true)
      → Safe env s
      → Safe env (if_begun (sweep_then env settle c) (begun (transact env claim s)))
  unfolding was_cleared
  claimed_sweep-Safe claim settle c s gone safe =
      let r = transact env claim s in
      if_begun-Safe env (sweep_then env settle c) (begun r)
        (λ began mid.
          let (answer, trail) = transact-true env claim s (begun-true env r began) in
          let known = gone (env.clock s.step) (run (env.others s.step) s.db) answer in
          sweep_then-Safe env settle c (begun r).1
            (rw (begun-trail env r, trail) (ground (arith, known))) mid)
        (rw (begun-trail env r) (transact-Safe env claim s safe))

  file_sweep-Safe :
      (job : RecoveryJob) (settle : Clock → Db → Reply Bool × Db) (c : SweepCandidate) (s : Pass W)
      → ((f : File)
          → in_job job c.file_id f ≡ true
          → (is_deleted f.state || is_reclaimed f.state) ≡ true)
      → Safe env s
      → Safe env (if_begun (sweep_then env settle c) (begin_file_recovery env c.file_id job s))
  unfolding begin_file_recovery
  file_sweep-Safe job settle c s gone safe =
      claimed_sweep-Safe (λ now. claim_recovery now c.file_id job 30) settle c s
        (λ now db h.
          let held = recovery_cleared now c.file_id job db h in
          let known =
            exists_mono (in_job job c.file_id)
              (λ f. f.id == c.file_id && (is_deleted f.state || is_reclaimed f.state)) db.files
              (λ f e. ground (arith, e, gone f e)) held in
          ground (arith, known))
        safe

  upload_sweep-Safe :
      (job : UploadJob) (settle : Clock → Db → Reply Bool × Db) (c : SweepCandidate) (s : Pass W)
      → ((u : Upload) → job_upload_state job u.state ≡ true → is_cleaning u.state ≡ true)
      → Safe env s
      → Safe env (if_begun (sweep_then env settle c) (begin_recovery env c.file_id job s))
  unfolding begin_recovery
  upload_sweep-Safe job settle c s gone safe =
      claimed_sweep-Safe (λ now. claim_upload now c.file_id job 30) settle c s
        (λ now db h.
          let held = upload_cleared now c.file_id job db h in
          let known =
            exists_mono (λ (u : Upload). u.file_id == c.file_id && job_upload_state job u.state)
              (λ u. u.file_id == c.file_id && is_cleaning u.state) db.uploads
              (λ u e. ground (arith, e, gone u)) held in
          ground (arith, known))
        safe

  run_purge-Safe : (s : Pass W) → Safe env s → Safe env (run_purge env s)
  unfolding run_purge
  run_purge-Safe s h =
      over-Safe env _ _
        (λ c t.
          file_sweep-Safe Recovery.purge (λ now. finalize_purge c) c t (λ f e. ground (arith, e)))
        (ask-Safe env _ s h)

  run_reclaim_cleanup-Safe : (s : Pass W) → Safe env s → Safe env (run_reclaim_cleanup env s)
  unfolding run_reclaim_cleanup
  run_reclaim_cleanup-Safe s h =
      over-Safe env _ _
        (λ c t.
          file_sweep-Safe Recovery.reclaim (λ now. finalize_reclaim_cleanup c) c t
            (λ f e. ground (arith, e)))
        (ask-Safe env _ s h)

  run_s3_cleanup-Safe : (s : Pass W) → Safe env s → Safe env (run_s3_cleanup env s)
  unfolding run_s3_cleanup
  run_s3_cleanup-Safe s h =
      over-Safe env _ _
        (λ c t. upload_sweep-Safe s3_cleanup (λ now. finalize_abort c.file_id) c t (λ u e. e))
        (ask-Safe env _ s h)

  cleanup_native-Safe : (s : Pass W) → Safe env s → Safe env (cleanup_native env s)
  unfolding cleanup_native
  cleanup_native-Safe s h =
      over-Safe env _ _
        (λ c t. upload_sweep-Safe native_cleanup (λ now. finalize_cleanup c.file_id) c t (λ u e. e))
        (ask-Safe env _ s h)

  -- Whatever operations come between its calls, and whichever of them fail: before a removing job
  -- asks the storage to remove the object of a file, one of its transactions ran in a database where
  -- the file was deleted or reclaimed, or its upload was being cleaned.
  pub run_job-heeds :
      (job : Job) (s : Pass W)
      → sweeps job ≡ true
      → heeds s.trail ≡ true
      → heeds (run_job env job s).trail ≡ true
  unfolding run_job
  run_job-heeds Schedule.native_cleanup s e h = cleanup_native-Safe s h
  run_job-heeds Schedule.s3_cleanup s e h = run_s3_cleanup-Safe s h
  run_job-heeds reclaim_cleanup s e h = run_reclaim_cleanup-Safe s h
  run_job-heeds purge s e h = run_purge-Safe s h
  run_job-heeds Schedule.observe s e h = cc e
  run_job-heeds Schedule.native_complete s e h = cc e
  run_job-heeds Schedule.s3_complete s e h = cc e
  run_job-heeds Schedule.s3_expire s e h = cc e
  run_job-heeds Schedule.reclaim s e h = cc e
  run_job-heeds Schedule.read_leases s e h = cc e
  run_job-heeds Schedule.prune_leases s e h = cc e
  run_job-heeds Schedule.prune_files s e h = cc e
  run_job-heeds Schedule.snapshot s e h = cc e
