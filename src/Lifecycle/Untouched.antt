-- ===== src/Lifecycle/Untouched.antt =====
-- The operations on leases, parts, sessions and locations leave every row of a file.
use grove_storage.Prelude.{ℕ, Bool, true, false, Option, Text, Bool-cases, inl, inr, ◌&&◌}
use grove_storage.Table.{find_where}
use grove_storage.Db.Schema.{Db, Clock, FileState}
use grove_storage.Db.Tx.{run_tx}
use grove_storage.Files.Sweep.{SweepCandidate, remove_location_tx}
use grove_storage.Files.Completion
use grove_storage.Files.Multipart.{
  claim_relay_part, claim_relay_part_tx, renew_relay_part_lease, renew_relay_part_lease_tx,
  finish_relay_part, finish_relay_part_tx, extend_write_lease, extend_write_lease_tx,
}
use grove_storage.Files.Recovery.{UploadJob, claim_upload, claim_upload_tx}
use grove_storage.Files.Access.{
  issue_read_lease, issue_read_lease_tx, relay_upload, relay_upload_tx,
}
use grove_storage.Registry.Sessions.{
  CompletionSpec, take_single, take_multipart, claim_completion, claim_single_tx,
  claim_multipart_tx, session_of, open_or_completing,
}
use grove_storage.Registry.Parts.{
  claim_upload_part, claim_upload_part_tx, renew_upload_part_lease, renew_upload_part_lease_tx,
  finish_upload_part, finish_upload_part_tx,
}
use grove_storage.Registry.Finish
use grove_storage.Lifecycle.Rules.{keeps_run}
use grove_storage.Lifecycle.Sessions.{After-claim_session}
use grove_storage.Lifecycle.Progress.{Updates, Updates-refl}

pub native_claim-Updates :
    (now : Clock) (id : ℕ) (etag : Text) (ttl : ℕ) (db : Db)
    → Updates db (Completion.claim now id etag ttl db).1
unfolding Completion.claim
native_claim-Updates now id etag ttl db =
    keeps_run (Updates db) (Completion.claim_tx now id etag ttl) db (Updates-refl db)
      λ g0 g1 g2. Updates-refl db

pub native_renew_completion_lease-Updates :
    (now : Clock) (id ttl : ℕ) (db : Db)
    → Updates db (Completion.renew_completion_lease now id ttl db).1
unfolding Completion.renew_completion_lease
native_renew_completion_lease-Updates now id ttl db =
    keeps_run (Updates db) (Completion.renew_completion_lease_tx now id ttl) db (Updates-refl db)
      λ g0 g1 g2. Updates-refl db

pub native_reopen_completion-Updates :
    (now : Clock) (id ttl : ℕ) (db : Db) → Updates db (Completion.reopen_completion now id ttl db).1
unfolding Completion.reopen_completion
native_reopen_completion-Updates now id ttl db =
    keeps_run (Updates db) (Completion.reopen_completion_tx now id ttl) db (Updates-refl db)
      λ g0 g1. Updates-refl db

pub native_claim_cleanup-Updates :
    (now : Clock) (id : ℕ) (db : Db) → Updates db (Completion.claim_cleanup now id db).1
unfolding Completion.claim_cleanup
native_claim_cleanup-Updates now id db =
    keeps_run (Updates db) (Completion.claim_cleanup_tx now id) db (Updates-refl db)
      λ g0 g1. Updates-refl db

pub claim_relay_part-Updates :
    (now : Clock) (id lease part ttl : ℕ) (db : Db)
    → Updates db (claim_relay_part now id lease part ttl db).1
unfolding claim_relay_part
claim_relay_part-Updates now id lease part ttl db =
    keeps_run (Updates db) (claim_relay_part_tx now id lease part ttl) db (Updates-refl db)
      λ g0 g1 g2. Updates-refl db

pub renew_relay_part_lease-Updates :
    (now : Clock) (id lease part ttl : ℕ) (db : Db)
    → Updates db (renew_relay_part_lease now id lease part ttl db).1
unfolding renew_relay_part_lease
renew_relay_part_lease-Updates now id lease part ttl db =
    keeps_run (Updates db) (renew_relay_part_lease_tx now id lease part ttl) db (Updates-refl db)
      λ g0 g1. Updates-refl db

pub finish_relay_part-Updates :
    (id lease part size : ℕ) (md5 : Text) (db : Db)
    → Updates db (finish_relay_part id lease part size md5 db).1
unfolding finish_relay_part
finish_relay_part-Updates id lease part size md5 db =
    keeps_run (Updates db) (finish_relay_part_tx id lease part size md5) db (Updates-refl db)
      λ g0 g1. Updates-refl db

pub extend_write_lease-Updates :
    (now : Clock) (lease ttl : ℕ) (db : Db) → Updates db (extend_write_lease now lease ttl db).1
unfolding extend_write_lease
extend_write_lease-Updates now lease ttl db =
    keeps_run (Updates db) (extend_write_lease_tx now lease ttl) db (Updates-refl db)
      λ g0 g1. Updates-refl db

pub claim_upload-Updates :
    (now : Clock) (id : ℕ) (job : UploadJob) (retry : ℕ) (db : Db)
    → Updates db (claim_upload now id job retry db).1
unfolding claim_upload
claim_upload-Updates now id job retry db =
    keeps_run (Updates db) (claim_upload_tx now id job retry) db (Updates-refl db)
      λ g0. Updates-refl db

pub issue_read_lease-Updates :
    (now : Clock) (lease id ttl : ℕ) (hash : Option Text) (storage client : Text) (size : ℕ)
    (db : Db)
    → Updates db (issue_read_lease now lease id ttl hash storage client size db).1
unfolding issue_read_lease
issue_read_lease-Updates now lease id ttl hash storage client size db =
    keeps_run (Updates db) (issue_read_lease_tx now lease id ttl hash storage client size) db
      (Updates-refl db) λ held g0. Updates-refl db

pub relay_upload-Updates :
    (now later : Clock) (locked : Bool) (id lease size : ℕ) (md5 : Text) (ttl : ℕ) (db : Db)
    → Updates db (relay_upload now later locked id lease size md5 ttl db).1
unfolding relay_upload
relay_upload-Updates now later locked id lease size md5 ttl db =
    keeps_run (Updates db) (relay_upload_tx now later locked id lease size md5 ttl) db
      (Updates-refl db) λ g0. Updates-refl db

pub claim_upload_part-Updates :
    (now : Clock) (client key : Text) (id lease part ttl : ℕ) (db : Db)
    → Updates db (claim_upload_part now client key id lease part ttl db).1
unfolding claim_upload_part
claim_upload_part-Updates now client key id lease part ttl db =
    keeps_run (Updates db) (claim_upload_part_tx now client key id lease part ttl) db
      (Updates-refl db) λ g0 g1 g2 g3. Updates-refl db

pub renew_upload_part_lease-Updates :
    (now : Clock) (id lease part ttl : ℕ) (db : Db)
    → Updates db (renew_upload_part_lease now id lease part ttl db).1
unfolding renew_upload_part_lease
renew_upload_part_lease-Updates now id lease part ttl db =
    keeps_run (Updates db) (renew_upload_part_lease_tx now id lease part ttl) db (Updates-refl db)
      λ g0 g1 g2. Updates-refl db

pub finish_upload_part-Updates :
    (id lease part size : ℕ) (md5 : Text) (db : Db)
    → Updates db (finish_upload_part id lease part size md5 db).1
unfolding finish_upload_part
finish_upload_part-Updates id lease part size md5 db =
    keeps_run (Updates db) (finish_upload_part_tx id lease part size md5) db (Updates-refl db)
      λ g0 g1 g2. Updates-refl db

pub s3_claim_abort-Updates :
    (now : Clock) (client key : Text) (id : ℕ) (db : Db)
    → Updates db (Finish.claim_abort now client key id db).1
unfolding Finish.claim_abort
s3_claim_abort-Updates now client key id db =
    keeps_run (Updates db) (Finish.claim_abort_tx now client key id) db (Updates-refl db)
      λ g0 g1 g2 g3. Updates-refl db

pub s3_claim_expired_abort-Updates :
    (now : Clock) (id : ℕ) (db : Db) → Updates db (Finish.claim_expired_abort now id db).1
unfolding Finish.claim_expired_abort
s3_claim_expired_abort-Updates now id db =
    keeps_run (Updates db) (Finish.claim_expired_abort_tx now id) db (Updates-refl db)
      λ g0 g1 g2. Updates-refl db

pub s3_renew_completion_lease-Updates :
    (now : Clock) (id ttl : ℕ) (db : Db)
    → Updates db (Finish.renew_completion_lease now id ttl db).1
unfolding Finish.renew_completion_lease
s3_renew_completion_lease-Updates now id ttl db =
    keeps_run (Updates db) (Finish.renew_completion_lease_tx now id ttl) db (Updates-refl db)
      λ g0 g1 g2. Updates-refl db

pub s3_reopen_completion-Updates :
    (now : Clock) (id ttl : ℕ) (db : Db) → Updates db (Finish.reopen_completion now id ttl db).1
unfolding Finish.reopen_completion
s3_reopen_completion-Updates now id ttl db =
    keeps_run (Updates db) (Finish.reopen_completion_tx now id ttl) db (Updates-refl db)
      λ g0 g1 g2. Updates-refl db

pub s3_mark_completion_aborting-Updates :
    (now : Clock) (id : ℕ) (db : Db) → Updates db (Finish.mark_completion_aborting now id db).1
unfolding Finish.mark_completion_aborting
s3_mark_completion_aborting-Updates now id db =
    keeps_run (Updates db) (Finish.mark_completion_aborting_tx now id) db (Updates-refl db)
      λ g0 g1. Updates-refl db

pub remove_location-Updates :
    (in_state : FileState → Bool) (c : SweepCandidate) (db : Db)
    → Updates db (run_tx (remove_location_tx in_state c) db).1
unfolding remove_location_tx run_tx
remove_location-Updates in_state c db = Updates-refl db

pub claim_completion-Updates :
    (now : Clock) (spec : CompletionSpec) (db : Db) → Updates db (claim_completion now spec db).1
unfolding claim_completion
claim_completion-Updates now spec db = elim (Bool-cases spec.multipart) [
  | inl e ↦ rw e (
      keeps_run (Updates db) (claim_multipart_tx now spec) db (Updates-refl db) λ locked found idle.
        After-claim_session (λ r db'. Updates db db') spec (take_multipart now spec)
          (find_where (λ u. session_of spec.key spec.file_id true u && open_or_completing u)
            db.uploads)
          db λ u at o live won. Updates-refl db)
  | inr e ↦ rw e (
      keeps_run (Updates db) (claim_single_tx now spec) db (Updates-refl db) λ fits.
        After-claim_session (λ r db'. Updates db db') spec (take_single now spec)
          (find_where (session_of spec.key spec.file_id false) db.uploads) db
          λ u at o live. Updates-refl db)
]
