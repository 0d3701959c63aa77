-- ===== src/Registry/Finish.antt =====
-- backend/crates/db/src/s3_registry/uploads.rs, third part: an S3 session is confirmed, aborted or
-- recovered.
use grove_storage.Prelude.{
  ℕ, Bool, true, false, ◌&&◌, ◌==◌, not, Option, some, none, Text, if◌then◌else◌,
}
use grove_storage.Table.{exists_where, find_where}
use grove_storage.Db.Schema.{
  Clock, Db, File, Upload, UploadState, active, reclaimed, opened, cleaning, is_opened,
  is_completing, is_cleaning,
}
use grove_storage.Db.Where.{pending_file, issued_write, expired_write, s3_upload, location_of}
use grove_storage.Db.Tx.{
  Tx, Reply, run_tx, ◌>>=◌, ◌>>◌, or_return, require, commit, pure, reads, stop, returns,
  update_files, update_leases, update_uploads, delete_uploads, delete_locations, insert_key,
}
use grove_storage.Files.Commit.{settle_lease}
use grove_storage.Files.Sweep.{expire}
use grove_storage.Files.Completion.{renew, start_cleaning, part_uploading}
use grove_storage.Registry.Keys.{new_key, upsert_key_in_tx}
use grove_storage.Registry.Sessions.{mode_file, keyed, session_of}
use grove_storage.Registry.Parts.{open_multipart}

pub data AbortClaim : Type 0 where
  won busy unavailable : AbortClaim

abbrev pub keyed_multipart : Text → ℕ → Upload → Bool
keyed_multipart key file_id u = open_multipart file_id u && keyed key u

unfoldable pub claim_abort_tx : Clock → Text → Text → ℕ → Tx AbortClaim AbortClaim
unfolding part_uploading
claim_abort_tx now client_id key file_id = do
  locked ← reads (λ db. exists_where (mode_file client_id file_id true) db.files)
  require locked unavailable
  session ← reads (λ db. exists_where (keyed_multipart key file_id) db.uploads)
  require session unavailable
  uploading ← reads (part_uploading file_id)
  require (not uploading) busy
  n ← update_uploads (keyed_multipart key file_id) (start_cleaning now.tx_now)
  or_return unavailable n
  commit won

unfoldable pub claim_abort : Clock → Text → Text → ℕ → Db → Reply AbortClaim × Db
unfolding claim_abort_tx run_tx
claim_abort now client_id key file_id = run_tx (claim_abort_tx now client_id key file_id)

pub data FinalizeOutcome : Type 0 where
  finalized : Option ℕ → FinalizeOutcome
  precondition_failed not_pending : FinalizeOutcome

-- `state = 'cleaning'`, and nothing expected any more.
abbrev pub give_up : ℕ → Upload → Upload
give_up now u = record u {
  state = cleaning;
  expected_size = none;
  expected_etag = none;
  updated_at = now;
  recovery_after = now;
}

-- The row of the file that the session confirms, with the session's values.
abbrev pub activate_as : ℕ → Upload → File → File
activate_as now u f = record f {
  state = active;
  declared_size = elim u.expected_size [ none ↦ f.declared_size | some n ↦ n ];
  etag = u.expected_etag;
  committed_at = some now;
}

-- The key of a conditional upload is taken before; any other replaces the mapping.
abbrev pub take_key : {R : Type 0} → Clock → Text → Text → ℕ → Bool → Tx R (Option ℕ)
take_key now client_id key file_id true = pure none
take_key now client_id key file_id false = upsert_key_in_tx now client_id key file_id

abbrev pub confirm : Clock → Text → Text → ℕ → Upload → Tx FinalizeOutcome FinalizeOutcome
confirm now client_id key file_id u = do
  _ ← update_files (λ f. f.id == file_id) (activate_as now.tx_now u)
  _ ← update_leases (issued_write file_id) settle_lease
  displaced ← take_key now client_id key file_id u.if_none_match
  _ ← delete_uploads (s3_upload file_id)
  commit (finalized displaced)

-- `INSERT` of the key by a conditional upload; true where no condition stands or it holds.
abbrev pub reserve_key : {R : Type 0} → Clock → Text → Text → ℕ → Bool → Tx R Bool
reserve_key now client_id key file_id true = insert_key (new_key now.tx_now client_id key file_id)
reserve_key now client_id key file_id false = pure true

abbrev pub refuse : Clock → ℕ → Tx FinalizeOutcome FinalizeOutcome
refuse now file_id = do
  _ ← update_uploads (s3_upload file_id) (give_up now.tx_now)
  commit precondition_failed

abbrev pub finalize_session :
    Clock → Text → Text → ℕ → Option Upload → Tx FinalizeOutcome FinalizeOutcome
finalize_session now client_id key file_id none db = stop (returns not_pending)
finalize_session now client_id key file_id (some u) db =
    (do
      mine ← reserve_key now client_id key file_id u.if_none_match
      if mine then confirm now client_id key file_id u else refuse now file_id)
      db

abbrev pub completing_session : Text → ℕ → Bool → Upload → Bool
completing_session key file_id multipart u =
    session_of key file_id multipart u && is_completing u.state

unfoldable pub finalize_upload_tx :
    Clock → Text → Text → ℕ → Bool → Tx FinalizeOutcome FinalizeOutcome
unfolding upsert_key_in_tx
finalize_upload_tx now client_id key file_id multipart = do
  locked ← reads (λ db. exists_where (mode_file client_id file_id multipart) db.files)
  require locked not_pending
  session ← reads (λ db. find_where (completing_session key file_id multipart) db.uploads)
  finalize_session now client_id key file_id session

unfoldable pub finalize_upload : Clock → Text → Text → ℕ → Bool → Db → Reply FinalizeOutcome × Db
unfolding finalize_upload_tx run_tx
finalize_upload now client_id key file_id multipart =
    run_tx (finalize_upload_tx now client_id key file_id multipart)

unfoldable pub claim_expired_abort_tx : Clock → ℕ → Tx Bool Bool
claim_expired_abort_tx now file_id = do
  locked ← reads (λ db. exists_where (pending_file file_id) db.files)
  require locked false
  session ← reads (λ db. exists_where (λ u. s3_upload file_id u && is_opened u.state) db.uploads)
  require session false
  n ← update_leases (expired_write now.tx_now file_id) expire
  or_return false n
  _ ← update_uploads (s3_upload file_id) (start_cleaning now.tx_now)
  commit true

unfoldable pub claim_expired_abort : Clock → ℕ → Db → Reply Bool × Db
unfolding claim_expired_abort_tx run_tx
claim_expired_abort now file_id = run_tx (claim_expired_abort_tx now file_id)

-- `finalize_reclaimed_upload`: the session's required state, as its test.
unfoldable pub finalize_reclaimed_upload_tx : (UploadState → Bool) → ℕ → Tx Bool Bool
finalize_reclaimed_upload_tx required file_id = do
  session ← reads (λ db. exists_where (λ u. s3_upload file_id u && required u.state) db.uploads)
  n ← update_files (λ f. pending_file file_id f && session) (λ f. record f { state = reclaimed })
  or_return false n
  _ ← update_leases (issued_write file_id) expire
  _ ← delete_locations (location_of file_id)
  _ ← delete_uploads (s3_upload file_id)
  commit true

unfoldable pub finalize_abort : ℕ → Db → Reply Bool × Db
unfolding finalize_reclaimed_upload_tx run_tx
finalize_abort file_id = run_tx (finalize_reclaimed_upload_tx is_cleaning file_id)

unfoldable pub discard_unstarted_upload : ℕ → Db → Reply Bool × Db
unfolding finalize_reclaimed_upload_tx run_tx
discard_unstarted_upload file_id = run_tx (finalize_reclaimed_upload_tx is_opened file_id)

abbrev pub s3_completing : ℕ → Upload → Bool
s3_completing file_id u = s3_upload file_id u && is_completing u.state

unfoldable pub renew_completion_lease_tx : Clock → ℕ → ℕ → Tx Bool Bool
renew_completion_lease_tx now file_id ttl = do
  locked ← reads (λ db. exists_where (pending_file file_id) db.files)
  require locked false
  owner ← reads (λ db. exists_where (s3_completing file_id) db.uploads)
  require owner false
  n ← update_leases (issued_write file_id) (renew now.tx_now ttl)
  or_return false n
  commit true

unfoldable pub renew_completion_lease : Clock → ℕ → ℕ → Db → Reply Bool × Db
unfolding renew_completion_lease_tx run_tx
renew_completion_lease now file_id ttl = run_tx (renew_completion_lease_tx now file_id ttl)

unfoldable pub lock_expired_completion : Clock → ℕ → Db → Bool
lock_expired_completion now file_id db =
    exists_where (pending_file file_id) db.files
    && exists_where (s3_completing file_id) db.uploads
    && exists_where (expired_write now.tx_now file_id) db.leases

abbrev pub reopen : ℕ → Upload → Upload
reopen now u = record u {
  state = opened;
  expected_size = none;
  expected_etag = none;
  updated_at = now;
  recovery_after = now;
}

unfoldable pub reopen_completion_tx : Clock → ℕ → ℕ → Tx Bool Bool
unfolding lock_expired_completion
reopen_completion_tx now file_id ttl = do
  locked ← reads (lock_expired_completion now file_id)
  require locked false
  n ← update_uploads (s3_completing file_id) (reopen now.tx_now)
  or_return false n
  m ← update_leases (issued_write file_id) (renew now.tx_now ttl)
  or_return false m
  commit true

unfoldable pub reopen_completion : Clock → ℕ → ℕ → Db → Reply Bool × Db
unfolding reopen_completion_tx run_tx
reopen_completion now file_id ttl = run_tx (reopen_completion_tx now file_id ttl)

unfoldable pub mark_completion_aborting_tx : Clock → ℕ → Tx Bool Bool
unfolding lock_expired_completion
mark_completion_aborting_tx now file_id = do
  locked ← reads (lock_expired_completion now file_id)
  require locked false
  n ← update_uploads (s3_completing file_id) (give_up now.tx_now)
  or_return false n
  commit true

unfoldable pub mark_completion_aborting : Clock → ℕ → Db → Reply Bool × Db
unfolding mark_completion_aborting_tx run_tx
mark_completion_aborting now file_id = run_tx (mark_completion_aborting_tx now file_id)
