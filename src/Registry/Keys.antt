-- ===== src/Registry/Keys.antt =====
-- backend/crates/db/src/s3_registry/keys.rs: the mapping of a logical key to its active file.
use grove_storage.Prelude.{ℕ, Bool, ◌&&◌, ◌==◌, Option, some, none, Text, if◌then◌else◌}
use grove_storage.Table.{find_where, delete_where}
use grove_storage.Db.Schema.{Clock, Db, File, ObjectKey, is_active}
use grove_storage.Db.Tx.{
  Tx, Reply, row_not_found, fails, run_tx, ◌>>=◌, commit, pure, reads, next, stop, key_at,
  insert_key, refer_file, update_keys, update_files,
}
use grove_storage.Files.Sweep.{detach}

unfoldable pub get_key : Text → Text → Db → Option ObjectKey
get_key client_id key db = find_where (key_at client_id key) db.keys

abbrev pub active_file : ℕ → File → Bool
active_file file_id f = f.id == file_id && is_active f.state

abbrev pub detach_active : {R : Type 0} → Clock → ℕ → Tx R ℕ
detach_active now file_id = update_files (active_file file_id) (detach now.tx_now)

-- The file that the mapping leaves for another, detached in the same transaction.
abbrev pub detach_displaced : {R : Type 0} → Clock → ℕ → ℕ → Tx R (Option ℕ)
detach_displaced now old file_id =
    if old == file_id then pure none else do _ ← detach_active now old; pure (some old)

-- `fetch_one` of the mapping's row.
abbrev pub old_file : {R : Type 0} → Option ObjectKey → Tx R ℕ
old_file none db = stop (fails row_not_found)
old_file (some k) db = next k.file_id db

abbrev pub replace_key : {R : Type 0} → Clock → Text → Text → ℕ → Tx R (Option ℕ)
replace_key now client_id key file_id = do
  found ← reads (λ db. find_where (key_at client_id key) db.keys)
  old ← old_file found
  _ ← refer_file file_id
  _ ←
      update_keys (key_at client_id key)
        (λ k. record k { file_id = file_id; updated_at = now.tx_now })
  detach_displaced now old file_id

abbrev pub new_key : ℕ → Text → Text → ℕ → ObjectKey
new_key now client_id key file_id = record {
  client_id = client_id;
  key = key;
  file_id = file_id;
  updated_at = now;
}

unfoldable pub upsert_key_in_tx : {R : Type 0} → Clock → Text → Text → ℕ → Tx R (Option ℕ)
upsert_key_in_tx now client_id key file_id = do
  inserted ← insert_key (new_key now.tx_now client_id key file_id)
  if inserted then pure none else replace_key now client_id key file_id

unfoldable pub upsert_key : Clock → Text → Text → ℕ → Db → Reply (Option ℕ) × Db
unfolding upsert_key_in_tx run_tx
upsert_key now client_id key file_id = run_tx (upsert_key_in_tx now client_id key file_id)

-- `DELETE FROM s3_object_keys ... RETURNING file_id`.
abbrev pub remove_key : {R : Type 0} → Text → Text → Tx R (Option ObjectKey)
remove_key client_id key db =
    next (find_where (key_at client_id key) db.keys)
      (record db { keys = delete_where (key_at client_id key) db.keys })

abbrev pub detach_removed : Clock → Option ObjectKey → Tx (Option ℕ) (Option ℕ)
detach_removed now none = commit none
detach_removed now (some k) = do _ ← detach_active now k.file_id; commit (some k.file_id)

unfoldable pub delete_key : Clock → Text → Text → Db → Reply (Option ℕ) × Db
unfolding run_tx
delete_key now client_id key =
    run_tx (do removed ← remove_key client_id key; detach_removed now removed)
