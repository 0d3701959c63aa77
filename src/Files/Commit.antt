-- ===== src/Files/Commit.antt =====
-- backend/crates/db/src/files/commit.rs: the confirmation of a single upload.
use grove_storage.Prelude.{ℕ, Bool, true, false, ◌&&◌, not, some, Text}
use grove_storage.Table.{exists_where}
use grove_storage.Db.Schema.{Clock, File, Lease, Db, active, committed}
use grove_storage.Db.Where.{pending_file, issued_write, upload_of}
use grove_storage.Db.Tx.{
  Tx, Reply, run_tx, ◌>>=◌, ◌>>◌, or_return, commit, update_files, update_leases, reads,
}

-- The row of a file that becomes active with an ETag.
abbrev pub activate : ℕ → Text → File → File
activate now etag f = record f { state = active; etag = some etag; committed_at = some now }

abbrev pub settle_lease : Lease → Lease
settle_lease le = record le { state = committed }

unfoldable pub finalize_commit_tx : Clock → ℕ → Text → Tx Bool Bool
finalize_commit_tx now file_id etag = do
  owned ← reads (λ db. exists_where (upload_of file_id) db.uploads)
  n ← update_files (λ f. pending_file file_id f && not owned) (activate now.tx_now etag)
  or_return false n
  _ ← update_leases (issued_write file_id) settle_lease
  commit true

unfoldable pub finalize_commit : Clock → ℕ → Text → Db → Reply Bool × Db
unfolding finalize_commit_tx run_tx
finalize_commit now file_id etag = run_tx (finalize_commit_tx now file_id etag)
