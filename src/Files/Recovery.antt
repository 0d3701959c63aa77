-- ===== src/Files/Recovery.antt =====
-- backend/crates/db/src/files/recovery.rs and backend/crates/db/src/upload_recovery.rs: a recovery
-- attempt writes the time of the next one before its I/O.
use grove_storage.Prelude.{ℕ, ◌+◌, Bool, true, false, ◌&&◌, ◌||◌, ◌==◌, not, is_none, leb, ltb}
use grove_storage.Table.{exists_where}
use grove_storage.Db.Schema.{
  Clock, Db, File, FileState, Lease, Upload, UploadState, Protocol, is_pending, is_reclaimed,
  is_deleted, is_native, is_s3, is_completing, is_cleaning,
}
use grove_storage.Db.Where.{pending_file, issued_write, expired_write, upload_of, location_of}
use grove_storage.Db.Tx.{
  Tx, Reply, run_tx, ◌>>=◌, ◌>>◌, require, commit, reads, update_files, update_uploads,
}

pub data RecoveryJob : Type 0 where
  observe reclaim purge : RecoveryJob

-- `RecoveryJob::state`, as the test of a state.
abbrev pub job_state : RecoveryJob → FileState → Bool
job_state observe = is_pending
job_state reclaim = is_reclaimed
job_state purge = is_deleted

abbrev pub in_job : RecoveryJob → ℕ → File → Bool
in_job job id f = f.id == id && job_state job f.state

abbrev pub live_write : ℕ → ℕ → Lease → Bool
live_write now id le = issued_write id le && ltb now le.expires_at

-- `$2 <> 'pending' OR (part_size IS NULL AND EXISTS (...live write lease...))`.
abbrev pub observable : RecoveryJob → ℕ → ℕ → Db → File → Bool
observable observe now id db f = is_none f.part_size && exists_where (live_write now id) db.leases
observable _ now id db f = true

unfoldable pub claim_recovery_tx : Clock → ℕ → RecoveryJob → ℕ → Tx Bool Bool
claim_recovery_tx now file_id job retry_secs = do
  locked ← reads (λ db. exists_where (in_job job file_id) db.files)
  require locked false
  due ← reads (λ db f.
      in_job job file_id f
      && leb f.recovery_after now.wall_now
      && not (exists_where (upload_of file_id) db.uploads)
      && exists_where (location_of file_id) db.locations
      && observable job now.wall_now file_id db f)
  n ← update_files due (λ f. record f { recovery_after = now.wall_now + retry_secs })
  commit (n == 1)

unfoldable pub claim_recovery : Clock → ℕ → RecoveryJob → ℕ → Db → Reply Bool × Db
unfolding claim_recovery_tx run_tx
claim_recovery now file_id job retry_secs = run_tx (claim_recovery_tx now file_id job retry_secs)

pub data UploadJob : Type 0 where
  native_complete native_cleanup s3_complete s3_cleanup : UploadJob

abbrev pub job_protocol : UploadJob → Protocol → Bool
job_protocol native_complete = is_native
job_protocol native_cleanup = is_native
job_protocol s3_complete = is_s3
job_protocol s3_cleanup = is_s3

abbrev pub job_is_cleanup : UploadJob → Bool
job_is_cleanup native_complete = false
job_is_cleanup native_cleanup = true
job_is_cleanup s3_complete = false
job_is_cleanup s3_cleanup = true

abbrev pub job_upload_state : UploadJob → UploadState → Bool
job_upload_state native_complete = is_completing
job_upload_state native_cleanup = is_cleaning
job_upload_state s3_complete = is_completing
job_upload_state s3_cleanup = is_cleaning

unfoldable pub claim_upload_tx : Clock → ℕ → UploadJob → ℕ → Tx Bool Bool
claim_upload_tx now file_id job retry_secs = do
  locked ← reads (λ db. exists_where (pending_file file_id) db.files)
  require locked false
  due ← reads (λ db (u : Upload).
      u.file_id == file_id
      && job_protocol job u.protocol
      && job_upload_state job u.state
      && leb u.recovery_after now.wall_now
      && (job_is_cleanup job || exists_where (expired_write now.wall_now file_id) db.leases))
  n ← update_uploads due (λ u. record u { recovery_after = now.wall_now + retry_secs })
  commit (n == 1)

unfoldable pub claim_upload : Clock → ℕ → UploadJob → ℕ → Db → Reply Bool × Db
unfolding claim_upload_tx run_tx
claim_upload now file_id job retry_secs = run_tx (claim_upload_tx now file_id job retry_secs)
