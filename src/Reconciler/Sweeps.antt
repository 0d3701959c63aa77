-- ===== src/Reconciler/Sweeps.antt =====
-- What the jobs of the reconciler ask the storage to remove.
use grove_storage.Prelude.{
  ℕ, ◌≡◌, Bool, true, false, List, [], ◌∷◌, ◌==◌, ◌&&◌, ◌||◌, leb, inl, inr, Bool-cases, arith,
}
use grove_storage.Table.{exists_where, affected_pos, exists_mono}
use grove_storage.Db.Schema.{Db, Clock, File, Upload, is_deleted, is_reclaimed, is_cleaning}
use grove_storage.Db.Where.{expired_write}
use grove_storage.Db.Tx.{ok, run_tx}
use grove_storage.Files.Recovery.{
  RecoveryJob, UploadJob, claim_recovery, claim_recovery_tx, claim_upload, claim_upload_tx, in_job,
  job_upload_state, job_protocol, job_is_cleanup,
}
use grove_storage.Reconciler.World.{Event, ran, asked}

-- A file whose object may go: it is deleted or reclaimed, or its upload is being cleaned.
abbrev pub cleared : ℕ → Db → Bool
cleared id db =
    exists_where (λ (f : File). f.id == id && (is_deleted f.state || is_reclaimed f.state)) db.files
    || exists_where (λ (u : Upload). u.file_id == id && is_cleaning u.state) db.uploads

-- It was so in a database in which a transaction of the trail ran.
unfoldable pub was_cleared : ℕ → List Event → Bool
was_cleared id [] = false
was_cleared id (ran db ∷ t) = cleared id db || was_cleared id t
was_cleared id (asked c ∷ t) = was_cleared id t

-- Every object that was asked to be removed was cleared earlier.
unfoldable pub heeds : List Event → Bool
unfolding was_cleared
heeds [] = true
heeds (ran db ∷ t) = heeds t
heeds (asked c ∷ t) = was_cleared c.file_id t && heeds t

pub recovery_cleared :
    (now : Clock) (id : ℕ) (job : RecoveryJob) (db : Db)
    → (claim_recovery now id job 30 db).0 ≡ ok true
    → exists_where (in_job job id) db.files ≡ true
unfolding claim_recovery claim_recovery_tx run_tx
recovery_cleared now id job db h = elim (Bool-cases (exists_where (in_job job id) db.files)) [
  | inl t ↦ t
  | inr n ↦ absurd (ground (arith, h, n))
]

pub upload_cleared :
    (now : Clock) (id : ℕ) (job : UploadJob) (db : Db)
    → (claim_upload now id job 30 db).0 ≡ ok true
    → exists_where (λ (u : Upload). u.file_id == id && job_upload_state job u.state) db.uploads
      ≡ true
unfolding claim_upload claim_upload_tx run_tx
upload_cleared now id job db h =
    let due = λ (u : Upload).
      u.file_id == id
      && job_protocol job u.protocol
      && job_upload_state job u.state
      && leb u.recovery_after now.wall_now
      && (job_is_cleanup job || exists_where (expired_write now.wall_now id) db.leases) in
    exists_mono due (λ u. u.file_id == id && job_upload_state job u.state) db.uploads
      (λ u e. ground (arith, e)) (affected_pos due db.uploads (λ z. ground (arith, h, z)))
