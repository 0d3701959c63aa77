-- ===== src/Reconciler/Down.antt =====
-- A job whose first call of the database fails.
use grove_storage.Prelude.{suc, ◌≡◌, refl, true}
use grove_storage.Db.Schema.{Db, Clock}
use grove_storage.Db.Tx.{Reply, ok}
use grove_storage.Lifecycle.Operations.{run}
use grove_storage.Policy.Validation.{failed}
use grove_storage.Service.Schedule.{
  Job, observe, native_complete, native_cleanup, s3_complete, s3_expire, s3_cleanup, reclaim,
  reclaim_cleanup, purge, read_leases, prune_leases, prune_files, snapshot,
}
use grove_storage.Reconciler.World.{Pass, Env, transact, ask, failed_one}
use grove_storage.Reconciler.Observe.{run_observe, observed_commit_candidates}
use grove_storage.Reconciler.Complete.{recover_native, cleanup_native, recover_s3}
use grove_storage.Reconciler.Jobs.{
  run_s3_expire, run_s3_cleanup, run_reclaim, run_reclaim_cleanup, run_purge, run_read_leases,
  run_prune_leases, run_prune_files, run_snapshot, run_job,
}

module _ {W E Row Backend : Type 0} (env : Env W E Row Backend) (s : Pass W)
    (fails : env.down s.step ≡ true) where
  transact-down :
      {A : Type 0} (f : Clock → Db → Reply A × Db)
      → transact env f s ≡ (
        failed env.unavailable,
        record s { db = run (env.others s.step) s.db; step = suc s.step },
      )
  unfolding transact
  transact-down f = rw fails refl

  ask-down :
      {A : Type 0} (f : Clock → Db → A)
      → ask env f s ≡ (
        failed env.unavailable,
        record s { db = run (env.others s.step) s.db; step = suc s.step },
      )
  unfolding ask
  ask-down f = transact-down (λ now db. (ok (f now db), db))

  -- If the first call of the database of a job fails, the job reports exactly one failure more and
  -- nothing processed or skipped, leaves the storage alone, and ends without another call.
  pub run_job-down :
      (job : Job)
      → run_job env job s
        ≡ failed_one (record s { db = run (env.others s.step) s.db; step = suc s.step })
  unfolding run_job run_observe observed_commit_candidates recover_native cleanup_native recover_s3
      run_s3_expire run_s3_cleanup run_reclaim run_reclaim_cleanup run_purge run_read_leases
      run_prune_leases run_prune_files run_snapshot
  run_job-down observe = rw (ask-down _) refl
  run_job-down native_complete = rw (ask-down _) refl
  run_job-down native_cleanup = rw (ask-down _) refl
  run_job-down s3_complete = rw (ask-down _) refl
  run_job-down s3_expire = rw (ask-down _) refl
  run_job-down s3_cleanup = rw (ask-down _) refl
  run_job-down reclaim = rw (ask-down _) refl
  run_job-down reclaim_cleanup = rw (ask-down _) refl
  run_job-down purge = rw (ask-down _) refl
  run_job-down read_leases = rw (transact-down _) refl
  run_job-down prune_leases = rw (transact-down _) refl
  run_job-down prune_files = rw (transact-down _) refl
  run_job-down snapshot = rw (ask-down _) refl
