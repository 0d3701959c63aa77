-- ===== src/Lifecycle/Updates.antt =====
-- Every row of a file moves forward under the operations that change files.
use grove_storage.Prelude.{ℕ, ◌+◌, refl, Bool, arith, Text}
use grove_storage.Db.Schema.{Db, Clock, File, UploadState}
use grove_storage.Db.Tx.{run_tx}
use grove_storage.Files.Commit.{finalize_commit, finalize_commit_tx}
use grove_storage.Files.Sweep.{
  SweepCandidate, mark_deleted, finalize_reclaim, finalize_reclaim_tx, reclaim_pending,
  reclaim_pending_tx,
}
use grove_storage.Files.Completion.{
  finalize_completion, finalize_completion_tx, finalize_cleanup, finalize_cleanup_tx,
}
use grove_storage.Files.Recovery.{RecoveryJob, claim_recovery, claim_recovery_tx}
use grove_storage.Registry.Finish.{finalize_reclaimed_upload_tx}
use grove_storage.Lifecycle.Rules.{keeps_run}
use grove_storage.Lifecycle.Progress.{Updates, Updates-refl, update-Lifts, Later}

pub finalize_commit-Updates :
    (now : Clock) (id : ℕ) (etag : Text) (db : Db) → Updates db (finalize_commit now id etag db).1
unfolding finalize_commit
finalize_commit-Updates now id etag db =
    keeps_run (Updates db) (finalize_commit_tx now id etag) db (Updates-refl db)
      λ won k. update-Lifts _ _ db k (λ f. refl) (λ f at e. ground (arith, e))

pub mark_deleted-Updates :
    (now : Clock) (client : Text) (id : ℕ) (db : Db) → Updates db (mark_deleted now client id db).1
unfolding mark_deleted
mark_deleted-Updates now client id db k =
    update-Lifts _ _ db k (λ f. refl) (λ f at e. ground (arith, e))

pub finalize_reclaim-Updates :
    (now : Clock) (c : SweepCandidate) (db : Db) → Updates db (finalize_reclaim now c db).1
unfolding finalize_reclaim
finalize_reclaim-Updates now c db =
    keeps_run (Updates db) (finalize_reclaim_tx now c.file_id) db (Updates-refl db)
      λ won lapsed k. update-Lifts _ _ db k (λ f. refl) (λ f at e. ground (arith, e))

pub reclaim_pending-Updates : (id : ℕ) (db : Db) → Updates db (reclaim_pending id db).1
unfolding reclaim_pending
reclaim_pending-Updates id db =
    keeps_run (Updates db) (reclaim_pending_tx id) db (Updates-refl db)
      λ won k. update-Lifts _ _ db k (λ f. refl) (λ f at e. ground (arith, e))

pub finalize_completion-Updates :
    (now : Clock) (id : ℕ) (etag : Text) (db : Db)
    → Updates db (finalize_completion now id etag db).1
unfolding finalize_completion
finalize_completion-Updates now id etag db =
    keeps_run (Updates db) (finalize_completion_tx now id etag) db (Updates-refl db)
      λ locked won k. update-Lifts _ _ db k (λ f. refl) (λ f at e. ground (arith, e))

pub finalize_cleanup-Updates : (id : ℕ) (db : Db) → Updates db (finalize_cleanup id db).1
unfolding finalize_cleanup
finalize_cleanup-Updates id db =
    keeps_run (Updates db) (finalize_cleanup_tx id) db (Updates-refl db)
      λ won k. update-Lifts _ _ db k (λ f. refl) (λ f at e. ground (arith, e))

pub claim_recovery-Updates :
    (now : Clock) (id : ℕ) (job : RecoveryJob) (retry : ℕ) (db : Db)
    → Updates db (claim_recovery now id job retry db).1
unfolding claim_recovery
claim_recovery-Updates now id job retry db =
    keeps_run (Updates db) (claim_recovery_tx now id job retry) db (Updates-refl db)
      λ locked k. update-Lifts _ _ db k (λ f. refl) (λ f at e. moved_due f)
  where
    moved_due : (f : File) → Later f (record f { recovery_after = now.wall_now + retry })
    moved_due f = ground arith

pub finalize_reclaimed_upload-Updates :
    (required : UploadState → Bool) (id : ℕ) (db : Db)
    → Updates db (run_tx (finalize_reclaimed_upload_tx required id) db).1
unfolding finalize_reclaimed_upload_tx
finalize_reclaimed_upload-Updates required id db =
    keeps_run (Updates db) (finalize_reclaimed_upload_tx required id) db (Updates-refl db)
      λ won k. update-Lifts _ _ db k (λ f. refl) (λ f at e. ground (arith, e))
