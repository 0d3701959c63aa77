-- ===== src/Files/Completion.antt =====
-- backend/crates/db/src/files/completion.rs: the ownership of a native multipart completion, and
-- its recovery.
use grove_storage.Prelude.{
  ℕ, ◌+◌, Bool, true, false, ◌&&◌, ◌==◌, Option, some, none, List, map, Text, if◌then◌else◌,
  eq_ignore_ascii_case,
}
use grove_storage.Table.{exists_where, find_where, select_where}
use grove_storage.Table.Order.{order_by}
use grove_storage.Db.Schema.{
  Clock, Db, Lease, LeasePart, Upload, native, reclaimed, completing, cleaning, is_claimed, is_done,
  is_native, is_cleaning,
}
use grove_storage.Db.Where.{
  pending_file, pending_multipart, issued_write, expired_write, write_lease_of, upload_of,
  native_upload, native_completing, location_of,
}
use grove_storage.Db.Tx.{
  Tx, Reply, run_tx, ◌>>=◌, ◌>>◌, or_return, require, commit, reads, update_files, update_leases,
  update_uploads, delete_uploads, delete_locations, insert_upload,
}
use grove_storage.Files.Commit.{activate, settle_lease}
use grove_storage.Files.Sweep.{expire}

pub data CompletionStart : Type 0 where
  ready resuming busy unavailable : CompletionStart

-- `lease_parts lp JOIN leases le ON le.id = lp.lease_id WHERE le.file_id = $1 AND le.kind = 'write'`.
abbrev pub part_of_file : ℕ → Db → LeasePart → Bool
part_of_file file_id db p =
    exists_where (λ (le : Lease). le.id == p.lease_id && write_lease_of file_id le) db.leases

unfoldable pub part_uploading : ℕ → Db → Bool
part_uploading file_id db =
    exists_where (λ (p : LeasePart). is_claimed p.state && part_of_file file_id db p) db.parts

-- The answer once the file is locked.
abbrev pub start_of : Option Upload → Bool → CompletionStart
start_of (some u) uploading = if is_native u.protocol then resuming else unavailable
start_of none uploading = if uploading then busy else ready

unfoldable pub begin_completion : ℕ → Db → CompletionStart
unfolding part_uploading
begin_completion file_id db =
    if exists_where (pending_multipart file_id) db.files
    then start_of (find_where (upload_of file_id) db.uploads) (part_uploading file_id db)
    else unavailable

-- The part ledger in the order of the part numbers: number, size and MD5.
abbrev pub measured : LeasePart → ℕ × Option ℕ × Option Text
measured p = (p.part_no, p.uploaded_size, p.uploaded_md5)

unfoldable pub completion_done_parts : ℕ → Db → List (ℕ × Option ℕ × Option Text)
unfolding order_by
completion_done_parts file_id db = map measured (
    order_by (λ (p : LeasePart). p.part_no)
      (select_where (λ p. is_done p.state && part_of_file file_id db p) db.parts))

abbrev pub renew : ℕ → ℕ → Lease → Lease
renew now ttl le = record le { expires_at = now + ttl }

abbrev pub native_claim : ℕ → ℕ → Text → Upload
native_claim now file_id etag = record {
  file_id = file_id;
  protocol = native;
  key = none;
  multipart = true;
  if_none_match = false;
  state = completing;
  expected_size = none;
  expected_etag = some etag;
  updated_at = now;
  recovery_after = now;
}

abbrev pub is_ready : CompletionStart → Bool
is_ready ready = true
is_ready _ = false

-- `begin_completion` answered `Ready`, and its `Completion` claims in the same transaction.
unfoldable pub claim_tx : Clock → ℕ → Text → ℕ → Tx Bool Bool
unfolding begin_completion
claim_tx now file_id etag ttl = do
  start ← reads (begin_completion file_id)
  require (is_ready start) false
  n ← update_leases (issued_write file_id) (renew now.tx_now ttl)
  or_return false n
  _ ← insert_upload (native_claim now.tx_now file_id etag)
  commit true

unfoldable pub claim : Clock → ℕ → Text → ℕ → Db → Reply Bool × Db
unfolding claim_tx run_tx
claim now file_id etag ttl = run_tx (claim_tx now file_id etag ttl)

unfoldable pub renew_completion_lease_tx : Clock → ℕ → ℕ → Tx Bool Bool
renew_completion_lease_tx now file_id ttl = do
  locked ← reads (λ db. exists_where (pending_file file_id) db.files)
  require locked false
  owner ← reads (λ db. exists_where (native_completing file_id) db.uploads)
  require owner false
  n ← update_leases (issued_write file_id) (renew now.tx_now ttl)
  or_return false n
  commit true

unfoldable pub renew_completion_lease : Clock → ℕ → ℕ → Db → Reply Bool × Db
unfolding renew_completion_lease_tx run_tx
renew_completion_lease now file_id ttl = run_tx (renew_completion_lease_tx now file_id ttl)

-- `lower(c.expected_etag) = lower($2)`.
abbrev pub expects : Text → Upload → Bool
expects etag u = elim u.expected_etag [ none ↦ false | some e ↦ eq_ignore_ascii_case e etag ]

-- The completing native upload of the file, with this expected ETag.
abbrev pub agreeing : ℕ → Text → Upload → Bool
agreeing file_id etag u = native_completing file_id u && expects etag u

unfoldable pub finalize_completion_tx : Clock → ℕ → Text → Tx Bool Bool
finalize_completion_tx now file_id etag = do
  locked ← reads (λ db. exists_where (pending_file file_id) db.files)
  require locked false
  agreed ← reads (λ db. exists_where (agreeing file_id etag) db.uploads)
  n ← update_files (λ f. pending_file file_id f && agreed) (activate now.tx_now etag)
  or_return false n
  _ ← update_leases (issued_write file_id) settle_lease
  _ ← delete_uploads (native_upload file_id)
  commit true

unfoldable pub finalize_completion : Clock → ℕ → Text → Db → Reply Bool × Db
unfolding finalize_completion_tx run_tx
finalize_completion now file_id etag = run_tx (finalize_completion_tx now file_id etag)

-- `lock_expired_completion`, with the state `completing` of both its calls.
unfoldable pub lock_expired_completion : Clock → ℕ → Db → Bool
lock_expired_completion now file_id db =
    exists_where (pending_file file_id) db.files
    && exists_where (native_completing file_id) db.uploads
    && exists_where (expired_write now.tx_now file_id) db.leases

unfoldable pub reopen_completion_tx : Clock → ℕ → ℕ → Tx Bool Bool
unfolding lock_expired_completion
reopen_completion_tx now file_id ttl = do
  locked ← reads (lock_expired_completion now file_id)
  require locked false
  n ← delete_uploads (native_completing file_id)
  or_return false n
  _ ← update_leases (issued_write file_id) (renew now.tx_now ttl)
  commit true

unfoldable pub reopen_completion : Clock → ℕ → ℕ → Db → Reply Bool × Db
unfolding reopen_completion_tx run_tx
reopen_completion now file_id ttl = run_tx (reopen_completion_tx now file_id ttl)

abbrev pub start_cleaning : ℕ → Upload → Upload
start_cleaning now u = record u { state = cleaning; updated_at = now; recovery_after = now }

unfoldable pub claim_cleanup_tx : Clock → ℕ → Tx Bool Bool
unfolding lock_expired_completion
claim_cleanup_tx now file_id = do
  locked ← reads (lock_expired_completion now file_id)
  require locked false
  n ← update_uploads (native_completing file_id) (start_cleaning now.tx_now)
  or_return false n
  _ ← update_leases (issued_write file_id) expire
  commit true

unfoldable pub claim_cleanup : Clock → ℕ → Db → Reply Bool × Db
unfolding claim_cleanup_tx run_tx
claim_cleanup now file_id = run_tx (claim_cleanup_tx now file_id)

abbrev pub native_cleaning : ℕ → Upload → Bool
native_cleaning id u = u.file_id == id && is_native u.protocol && is_cleaning u.state

unfoldable pub finalize_cleanup_tx : ℕ → Tx Bool Bool
finalize_cleanup_tx file_id = do
  cleaned ← reads (λ db. exists_where (native_cleaning file_id) db.uploads)
  n ← update_files (λ f. pending_file file_id f && cleaned) (λ f. record f { state = reclaimed })
  or_return false n
  _ ← delete_locations (location_of file_id)
  _ ← delete_uploads (native_upload file_id)
  commit true

unfoldable pub finalize_cleanup : ℕ → Db → Reply Bool × Db
unfolding finalize_cleanup_tx run_tx
finalize_cleanup file_id = run_tx (finalize_cleanup_tx file_id)
