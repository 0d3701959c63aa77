-- ===== src/Reconciler/Jobs.antt =====
-- backend/crates/api/src/reconciler.rs: `run_job`, and reconciler/reclaim.rs.
use grove_storage.Prelude.{ℕ}
use grove_storage.Db.Schema.{Clock}
use grove_storage.Files.Candidates.{expired_pending, purgeable, reclaim_cleanup_candidates}
use grove_storage.Files.Sweep.{finalize_reclaim, finalize_purge, finalize_reclaim_cleanup}
use grove_storage.Files.Prune.{expire_read_leases, prune_terminal_leases, prune_terminal_files}
use grove_storage.Files.Recovery
use grove_storage.Files.Recovery.{s3_cleanup}
use grove_storage.Registry.Candidates.{expired_open_uploads, cleanup_candidates}
use grove_storage.Registry.Finish.{claim_expired_abort, finalize_abort}
use grove_storage.Service.Schedule.{
  Job, observe, native_complete, native_cleanup, s3_complete, s3_expire, reclaim, reclaim_cleanup,
  purge, read_leases, prune_leases, prune_files, snapshot,
}
use grove_storage.Service.Schedule
use grove_storage.Policy.Validation.{Observed, seen, failed}
use grove_storage.Reconciler.World.{Pass, Env, transact, ask, io, failed_one}
use grove_storage.Reconciler.Steps.{
  batch_limit, count, count_rows, over, if_begun, begin_recovery, begin_file_recovery, sweep_then,
}
use grove_storage.Reconciler.Observe.{run_observe}
use grove_storage.Reconciler.Complete.{recover_native, cleanup_native, recover_s3}

abbrev pub lease_retention : ℕ
lease_retention = 86400

abbrev pub file_retention : ℕ
file_retention = 7776000

module _ {W E Row Backend : Type 0} (env : Env W E Row Backend) where
  unfoldable pub run_s3_expire : Pass W → Pass W
  run_s3_expire s =
      over (λ id s. count (transact env (λ now. claim_expired_abort now id) s))
        (ask env (λ (now : Clock). expired_open_uploads env.picked_file now.tx_now) s)

  unfoldable pub run_s3_cleanup : Pass W → Pass W
  run_s3_cleanup s =
      over
        (λ c s.
          if_begun (sweep_then env (λ now. finalize_abort c.file_id) c)
            (begin_recovery env c.file_id s3_cleanup s))
        (ask env (λ (now : Clock). cleanup_candidates batch_limit now.tx_now) s)

  unfoldable pub run_reclaim : Pass W → Pass W
  run_reclaim s =
      over (λ c s. count (transact env (λ now. finalize_reclaim now c) s))
        (ask env (λ (now : Clock). expired_pending batch_limit now.tx_now) s)

  -- `reclaim::recover`.
  unfoldable pub run_reclaim_cleanup : Pass W → Pass W
  run_reclaim_cleanup s =
      over
        (λ c s.
          if_begun (sweep_then env (λ now. finalize_reclaim_cleanup c) c)
            (begin_file_recovery env c.file_id Recovery.reclaim s))
        (ask env (λ (now : Clock). reclaim_cleanup_candidates batch_limit now.tx_now) s)

  unfoldable pub run_purge : Pass W → Pass W
  run_purge s =
      over
        (λ c s.
          if_begun (sweep_then env (λ now. finalize_purge c) c)
            (begin_file_recovery env c.file_id Recovery.purge s))
        (ask env (λ (now : Clock). purgeable batch_limit now.tx_now) s)

  unfoldable pub run_read_leases : Pass W → Pass W
  run_read_leases s = count_rows (transact env (λ now. expire_read_leases now env.picked_lease) s)

  unfoldable pub run_prune_leases : Pass W → Pass W
  run_prune_leases s =
      count_rows
        (transact env (λ now. prune_terminal_leases now lease_retention env.picked_lease) s)

  unfoldable pub run_prune_files : Pass W → Pass W
  run_prune_files s =
      count_rows (transact env (λ now. prune_terminal_files now file_retention env.picked_row) s)

  -- The snapshot of the day before the time that a first query gives.
  abbrev pub snapshot_of : Observed E ℕ × Pass W → Pass W
  snapshot_of (failed e, s) = failed_one s
  snapshot_of (seen now, s) = count_rows (io env (env.record_snapshot now) s)

  unfoldable pub run_snapshot : Pass W → Pass W
  run_snapshot s = snapshot_of (ask env (λ (now : Clock) db. now.tx_now) s)

  unfoldable pub run_job : Job → Pass W → Pass W
  run_job observe = run_observe env
  run_job native_complete = recover_native env
  run_job native_cleanup = cleanup_native env
  run_job s3_complete = recover_s3 env
  run_job s3_expire = run_s3_expire
  run_job Schedule.s3_cleanup = run_s3_cleanup
  run_job reclaim = run_reclaim
  run_job reclaim_cleanup = run_reclaim_cleanup
  run_job purge = run_purge
  run_job read_leases = run_read_leases
  run_job prune_leases = run_prune_leases
  run_job prune_files = run_prune_files
  run_job snapshot = run_snapshot
