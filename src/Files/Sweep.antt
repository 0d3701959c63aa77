-- ===== src/Files/Sweep.antt =====
-- backend/crates/db/src/files/sweep.rs and reclaim_cleanup.rs: detach, reclaim, purge and the
-- removal of finished rows.
use grove_storage.Prelude.{
  ℕ, Bool, true, false, ◌&&◌, ◌==◌, not, Option, some, none, Text, text_eq, if◌then◌else◌,
}
use grove_storage.Table.{exists_where, find_where}
use grove_storage.Db.Schema.{
  Clock, File, FileState, Location, Lease, Db, deleted, reclaimed, expired, is_active, is_deleted,
  is_reclaimed,
}
use grove_storage.Db.Where.{pending_file, issued_write, expired_write, upload_of, location_of}
use grove_storage.Db.Tx.{
  Tx, Reply, run_tx, ◌>>=◌, ◌>>◌, or_return, commit, update_files, update_leases, delete_locations,
  reads,
}

pub data DeleteOutcome : Type 0 where
  deleted_now already_deleted not_committed not_found : DeleteOutcome

-- `state = 'deleted'`, due for the purge at once.
abbrev pub detach : ℕ → File → File
detach now f = record f { state = deleted; deleted_at = some now; recovery_after = now }

abbrev pub active_of : Text → ℕ → File → Bool
active_of client_id file_id f =
    f.id == file_id && text_eq f.client_id client_id && is_active f.state

abbrev pub file_of : Text → ℕ → File → Bool
file_of client_id file_id f = f.id == file_id && text_eq f.client_id client_id

-- Why no active row was found.
abbrev pub delete_reason : Option File → DeleteOutcome
delete_reason none = not_found
delete_reason (some f) = elim f.state [
  | reclaimed ↦ not_found
  | deleted ↦ already_deleted
  | _ ↦ not_committed
]

unfoldable pub mark_deleted_tx : Clock → Text → ℕ → Tx DeleteOutcome DeleteOutcome
mark_deleted_tx now client_id file_id = do
  n ← update_files (active_of client_id file_id) (detach now.tx_now)
  found ← reads (λ db. find_where (file_of client_id file_id) db.files)
  commit (if n == 0 then delete_reason found else deleted_now)

unfoldable pub mark_deleted : Clock → Text → ℕ → Db → Reply DeleteOutcome × Db
unfolding mark_deleted_tx run_tx
mark_deleted now client_id file_id = run_tx (mark_deleted_tx now client_id file_id)

pub record SweepCandidate : Type 0 where
  pub file_id : ℕ
  pub storage_id : Text
  pub object_key : Text
  pub upload_id : Option Text
  pub write_lease_id : Option ℕ
  pub multipart : Bool

abbrev pub expire : Lease → Lease
expire le = record le { state = expired }

unfoldable pub finalize_reclaim_tx : Clock → ℕ → Tx Bool Bool
finalize_reclaim_tx now file_id = do
  owned ← reads (λ db. exists_where (upload_of file_id) db.uploads)
  n ←
      update_files (λ f. pending_file file_id f && not owned)
        (λ f. record f { state = reclaimed; recovery_after = now.tx_now })
  or_return false n
  m ← update_leases (expired_write now.tx_now file_id) expire
  or_return false m
  commit true

unfoldable pub finalize_reclaim : Clock → SweepCandidate → Db → Reply Bool × Db
unfolding finalize_reclaim_tx run_tx
finalize_reclaim now candidate = run_tx (finalize_reclaim_tx now candidate.file_id)

unfoldable pub reclaim_pending_tx : ℕ → Tx Bool Bool
reclaim_pending_tx file_id = do
  owned ← reads (λ db. exists_where (upload_of file_id) db.uploads)
  n ← update_files (λ f. pending_file file_id f && not owned) (λ f. record f { state = reclaimed })
  or_return false n
  _ ← update_leases (issued_write file_id) expire
  _ ← delete_locations (location_of file_id)
  commit true

unfoldable pub reclaim_pending : ℕ → Db → Reply Bool × Db
unfolding reclaim_pending_tx run_tx
reclaim_pending file_id = run_tx (reclaim_pending_tx file_id)

-- `DELETE FROM locations l USING files f` where the file is in the given state and the location
-- is the one of the candidate.
abbrev pub same_place : SweepCandidate → Location → Bool
same_place c l =
    l.file_id == c.file_id && text_eq l.storage_id c.storage_id && text_eq l.object_key c.object_key

unfoldable pub remove_location_tx : (FileState → Bool) → SweepCandidate → Tx Bool Bool
remove_location_tx in_state c = do
  gone ← reads (λ db. exists_where (λ f. f.id == c.file_id && in_state f.state) db.files)
  n ← delete_locations (λ l. same_place c l && gone)
  commit (not (n == 0))

unfoldable pub finalize_purge : SweepCandidate → Db → Reply Bool × Db
unfolding remove_location_tx run_tx
finalize_purge c = run_tx (remove_location_tx is_deleted c)

unfoldable pub finalize_reclaim_cleanup : SweepCandidate → Db → Reply Bool × Db
unfolding remove_location_tx run_tx
finalize_reclaim_cleanup c = run_tx (remove_location_tx is_reclaimed c)
