-- ===== src/Lifecycle/Operations.antt =====
-- The operations of backend/crates/db on files and uploads, in any order and with any arguments.
use grove_storage.Prelude.{ℕ, Bool, Option, List, [], ◌∷◌, Text}
use grove_storage.Db.Schema.{Db, Clock, File, Lease, Client}
use grove_storage.Files.Create.{Render, CreateSpec, create}
use grove_storage.Files.Commit.{finalize_commit}
use grove_storage.Files.Sweep.{
  SweepCandidate, mark_deleted, finalize_reclaim, reclaim_pending, finalize_purge,
  finalize_reclaim_cleanup,
}
use grove_storage.Files.Completion
use grove_storage.Files.Multipart.{
  claim_relay_part, renew_relay_part_lease, finish_relay_part, cancel_relay_part, attach_upload_id,
  extend_write_lease,
}
use grove_storage.Files.Recovery.{RecoveryJob, UploadJob, claim_recovery, claim_upload}
use grove_storage.Files.Access.{issue_read_lease, attach_write_secret, relay_upload}
use grove_storage.Files.Prune.{expire_read_leases, prune_terminal_leases, prune_terminal_files}
use grove_storage.Registry.Sessions.{CompletionSpec, create_upload, claim_completion}
use grove_storage.Registry.Parts.{
  claim_upload_part, renew_upload_part_lease, finish_upload_part, cancel_upload_part,
}
use grove_storage.Registry.Finish
use grove_storage.Registry.Keys.{upsert_key, delete_key}

pub data Operation : Type 0 where
  create_file : Render → Clock → ℕ → ℕ → CreateSpec → Operation
  commit_file : Clock → ℕ → Text → Operation
  delete_file : Clock → Text → ℕ → Operation
  reclaim_expired : Clock → SweepCandidate → Operation
  reclaim_now : ℕ → Operation
  purge_location : SweepCandidate → Operation
  clean_location : SweepCandidate → Operation
  native_claim : Clock → ℕ → Text → ℕ → Operation
  native_renew : Clock → ℕ → ℕ → Operation
  native_finalize : Clock → ℕ → Text → Operation
  native_reopen : Clock → ℕ → ℕ → Operation
  native_clean : Clock → ℕ → Operation
  native_reclaim : ℕ → Operation
  part_claim part_renew : Clock → ℕ → ℕ → ℕ → ℕ → Operation
  part_finish : ℕ → ℕ → ℕ → ℕ → Text → Operation
  part_cancel : ℕ → ℕ → ℕ → Operation
  attach_handle attach_secret : ℕ → Text → Operation
  extend_lease : Clock → ℕ → ℕ → Operation
  retry_file : Clock → ℕ → RecoveryJob → ℕ → Operation
  retry_upload : Clock → ℕ → UploadJob → ℕ → Operation
  read_lease : Clock → ℕ → ℕ → ℕ → Option Text → Text → Text → ℕ → Operation
  relay_put : Clock → Clock → Bool → ℕ → ℕ → ℕ → Text → ℕ → Operation
  expire_reads : Clock → (Lease → Bool) → Operation
  prune_leases : Clock → ℕ → (Lease → Bool) → Operation
  prune_files : Clock → ℕ → (File → Bool) → Operation
  s3_create : Render → Clock → ℕ → ℕ → CreateSpec → Text → Bool → Operation
  s3_claim : Clock → CompletionSpec → Operation
  s3_part_claim : Clock → Text → Text → ℕ → ℕ → ℕ → ℕ → Operation
  s3_part_renew : Clock → ℕ → ℕ → ℕ → ℕ → Operation
  s3_part_finish : ℕ → ℕ → ℕ → ℕ → Text → Operation
  s3_part_cancel : ℕ → ℕ → ℕ → Operation
  s3_abort : Clock → Text → Text → ℕ → Operation
  s3_finalize : Clock → Text → Text → ℕ → Bool → Operation
  s3_expire : Clock → ℕ → Operation
  s3_reclaim s3_discard : ℕ → Operation
  s3_renew s3_reopen : Clock → ℕ → ℕ → Operation
  s3_give_up : Clock → ℕ → Operation
  put_key : Clock → Text → Text → ℕ → Operation
  remove_key : Clock → Text → Text → Operation

unfoldable pub apply : Operation → Db → Db
apply (create_file render now id lease spec) db = (create render now id lease spec db).1
apply (commit_file now id etag) db = (finalize_commit now id etag db).1
apply (delete_file now client id) db = (mark_deleted now client id db).1
apply (reclaim_expired now c) db = (finalize_reclaim now c db).1
apply (reclaim_now id) db = (reclaim_pending id db).1
apply (purge_location c) db = (finalize_purge c db).1
apply (clean_location c) db = (finalize_reclaim_cleanup c db).1
apply (native_claim now id etag ttl) db = (Completion.claim now id etag ttl db).1
apply (native_renew now id ttl) db = (Completion.renew_completion_lease now id ttl db).1
apply (native_finalize now id etag) db = (Completion.finalize_completion now id etag db).1
apply (native_reopen now id ttl) db = (Completion.reopen_completion now id ttl db).1
apply (native_clean now id) db = (Completion.claim_cleanup now id db).1
apply (native_reclaim id) db = (Completion.finalize_cleanup id db).1
apply (part_claim now id lease part ttl) db = (claim_relay_part now id lease part ttl db).1
apply (part_renew now id lease part ttl) db = (renew_relay_part_lease now id lease part ttl db).1
apply (part_finish id lease part size md5) db = (finish_relay_part id lease part size md5 db).1
apply (part_cancel id lease part) db = (cancel_relay_part id lease part db).1
apply (attach_handle lease handle) db = (attach_upload_id lease handle db).1
apply (attach_secret lease hash) db = (attach_write_secret lease hash db).1
apply (extend_lease now lease ttl) db = (extend_write_lease now lease ttl db).1
apply (retry_file now id job retry) db = (claim_recovery now id job retry db).1
apply (retry_upload now id job retry) db = (claim_upload now id job retry db).1
apply (read_lease now lease id ttl hash storage client size) db =
    (issue_read_lease now lease id ttl hash storage client size db).1
apply (relay_put now later locked id lease size md5 ttl) db =
    (relay_upload now later locked id lease size md5 ttl db).1
apply (expire_reads now picked) db = (expire_read_leases now picked db).1
apply (prune_leases now retention picked) db = (prune_terminal_leases now retention picked db).1
apply (prune_files now retention picked) db = (prune_terminal_files now retention picked db).1
apply (s3_create render now id lease spec key cond) db =
    (create_upload render now id lease spec key cond db).1
apply (s3_claim now spec) db = (claim_completion now spec db).1
apply (s3_part_claim now client key id lease part ttl) db =
    (claim_upload_part now client key id lease part ttl db).1
apply (s3_part_renew now id lease part ttl) db =
    (renew_upload_part_lease now id lease part ttl db).1
apply (s3_part_finish id lease part size md5) db = (finish_upload_part id lease part size md5 db).1
apply (s3_part_cancel id lease part) db = (cancel_upload_part id lease part db).1
apply (s3_abort now client key id) db = (Finish.claim_abort now client key id db).1
apply (s3_finalize now client key id multipart) db =
    (Finish.finalize_upload now client key id multipart db).1
apply (s3_expire now id) db = (Finish.claim_expired_abort now id db).1
apply (s3_reclaim id) db = (Finish.finalize_abort id db).1
apply (s3_discard id) db = (Finish.discard_unstarted_upload id db).1
apply (s3_renew now id ttl) db = (Finish.renew_completion_lease now id ttl db).1
apply (s3_reopen now id ttl) db = (Finish.reopen_completion now id ttl db).1
apply (s3_give_up now id) db = (Finish.mark_completion_aborting now id db).1
apply (put_key now client key id) db = (upsert_key now client key id db).1
apply (remove_key now client key) db = (delete_key now client key db).1

unfoldable pub run : List Operation → Db → Db
run [] db = db
run (op ∷ ops) db = run ops (apply op db)

-- A database with its clients registered, and no object yet.
abbrev pub start : List Client → Db
start clients = record {
  clients = clients;
  files = [];
  locations = [];
  leases = [];
  parts = [];
  uploads = [];
  keys = [];
  history = [];
}
