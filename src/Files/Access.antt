-- ===== src/Files/Access.antt =====
-- backend/crates/db/src/files/access.rs and relay_upload.rs: the reads of a file, its leases, and the
-- single PUT of the relay.
use grove_storage.Prelude.{
  ℕ, ◌+◌, Bool, true, false, ◌&&◌, ◌==◌, not, Option, some, none, Text, text_eq, ltb, is_some, max,
}
use mathlib.Core.Option
use grove_storage.Table.{exists_where, find_where}
use grove_storage.Db.Schema.{Clock, Db, File, FileState, Lease, Location, read, issued, is_issued}
use grove_storage.Db.Where.{
  pending_single, issued_write, write_lease_of, upload_of, native_upload, location_of,
}
use grove_storage.Db.Tx.{
  Tx, Reply, run_tx, ◌>>=◌, ◌>>◌, require, commit, reads, update_leases, refer_file, insert_lease,
  insert_history,
}
use grove_storage.Files.Sweep.{file_of}

abbrev pub new_read_lease : ℕ → ℕ → ℕ → ℕ → Option Text → Lease
new_read_lease now lease_id file_id ttl secret_hash = record {
  id = lease_id;
  file_id = file_id;
  kind = read;
  state = issued;
  expires_at = now + ttl;
  secret_hash = secret_hash;
  uploaded_size = none;
  uploaded_md5 = none;
  upload_id = none;
  created_at = now;
}

unfoldable pub issue_read_lease_tx : Clock → ℕ → ℕ → ℕ → Option Text → Text → Text → ℕ → Tx ℕ ℕ
issue_read_lease_tx now lease_id file_id ttl secret_hash storage_id client_id size = do
  _ ← refer_file file_id
  _ ← insert_lease (new_read_lease now.tx_now lease_id file_id ttl secret_hash)
  _ ← insert_history (record {
    at = now.tx_now;
    file_id = file_id;
    storage_id = storage_id;
    client_id = client_id;
    kind = read;
    size = size;
  })
  commit lease_id

unfoldable pub issue_read_lease :
    Clock → ℕ → ℕ → ℕ → Option Text → Text → Text → ℕ → Db → Reply ℕ × Db
unfolding issue_read_lease_tx run_tx
issue_read_lease now lease_id file_id ttl secret_hash storage_id client_id size =
    run_tx (issue_read_lease_tx now lease_id file_id ttl secret_hash storage_id client_id size)

unfoldable pub attach_write_secret : ℕ → Text → Db → Reply (Unit {0}) × Db
unfolding run_tx
attach_write_secret lease_id secret_hash = run_tx (do
  _ ← update_leases (λ le. le.id == lease_id) (λ le. record le { secret_hash = some secret_hash })
  commit tt)

-- `secret_hash = $2` of a lease.
abbrev pub has_secret : Text → Lease → Bool
has_secret hash le = elim le.secret_hash [ none ↦ false | some h ↦ text_eq h hash ]

-- The lease opened by its id and secret: issued, not expired, and its file not owned by a native
-- completion.
abbrev pub opens : ℕ → ℕ → Text → Db → Lease → Bool
opens now lease_id hash db le =
    le.id == lease_id
    && has_secret hash le
    && is_issued le.state
    && ltb now le.expires_at
    && not (exists_where (native_upload le.file_id) db.uploads)

unfoldable pub byte_lease : Clock → ℕ → Text → Db → Option Lease
byte_lease now lease_id hash db = find_where (opens now.tx_now lease_id hash db) db.leases

-- The location of the lease's file, which a purge may have removed.
unfoldable pub location_at : ℕ → Db → Option Location
location_at file_id db = find_where (location_of file_id) db.locations

-- The measurement of the relayed upload of a file.
unfoldable pub recorded_upload : ℕ → Db → Option Lease
recorded_upload file_id db =
    find_where (λ le. write_lease_of file_id le && is_some le.uploaded_size) db.leases

pub record FileStat : Type 0 where
  pub state : FileState
  pub declared_size : ℕ

unfoldable pub stat : Text → ℕ → Db → Option FileStat
stat client_id file_id db =
    Option.map (λ (f : File). record { state = f.state; declared_size = f.declared_size })
      (find_where (file_of client_id file_id) db.files)

-- `relay_upload.rs`: the claim of a single relay PUT, and `done` in the transaction it holds.
abbrev pub relay_lease : ℕ → ℕ → ℕ → Lease → Bool
relay_lease wall file_id lease_id le =
    le.id == lease_id && issued_write file_id le && ltb wall le.expires_at && is_some le.secret_hash

-- `locked` says that another transaction holds the file's row (`SKIP LOCKED`).
unfoldable pub claim_relay_upload : Clock → Bool → ℕ → ℕ → Db → Bool
claim_relay_upload now locked file_id lease_id db =
    not locked
    && exists_where (pending_single file_id) db.files
    && exists_where (relay_lease now.wall_now file_id lease_id) db.leases
    && not (exists_where (upload_of file_id) db.uploads)

abbrev pub record_upload : ℕ → ℕ → ℕ → Text → Lease → Lease
record_upload wall ttl size md5 le = record le {
  uploaded_size = some size;
  uploaded_md5 = some md5;
  expires_at = max le.expires_at (wall + ttl);
}

-- `now` is the clock of the claim, and `later` that of `done`.
unfoldable pub relay_upload_tx : Clock → Clock → Bool → ℕ → ℕ → ℕ → Text → ℕ → Tx Bool Bool
unfolding claim_relay_upload
relay_upload_tx now later locked file_id lease_id size md5 ttl = do
  held ← reads (claim_relay_upload now locked file_id lease_id)
  require held false
  _ ← update_leases (λ le. le.id == lease_id) (record_upload later.wall_now ttl size md5)
  commit true

unfoldable pub relay_upload : Clock → Clock → Bool → ℕ → ℕ → ℕ → Text → ℕ → Db → Reply Bool × Db
unfolding relay_upload_tx run_tx
relay_upload now later locked file_id lease_id size md5 ttl =
    run_tx (relay_upload_tx now later locked file_id lease_id size md5 ttl)
