-- ===== src/Files/Create.antt =====
-- backend/crates/db/src/files/create.rs: a pending file with its location, write lease and history.
use grove_storage.Prelude.{
  ℕ, ◌+◌, Option, some, none, List, [], ◌∷◌, ◌++◌, Text, bytes, text_eq, if◌then◌else◌,
}
use grove_storage.Table.{find_where}
use grove_storage.Db.Schema.{Clock, Db, Client, File, Lease, pending, write, issued}
use grove_storage.Db.Tx.{
  Tx, Reply, run_tx, ◌>>=◌, commit, pure, stop, returns, insert_file, insert_location, insert_lease,
  insert_history,
}

pub record CreateSpec : Type 0 where
  pub client_id : Text
  pub declared_size : ℕ
  pub content_type : Option Text
  pub declared_md5 : Option Text
  pub lease_ttl_secs : ℕ
  pub part_size : Option ℕ

pub record CreatedFile : Type 0 where
  pub file_id : ℕ
  pub lease_id : ℕ
  pub object_key : Text
  pub storage_id : Text

pub data CreateOutcome : Type 0 where
  created : CreatedFile → CreateOutcome
  no_client : CreateOutcome

-- How the uuid and the chrono crates print an id, and a time as `%Y/%m`.
pub record Render : Type 0 where
  pub uuid : ℕ → Text
  pub year_month : ℕ → Text

-- The extensions that a content type may give.
abbrev pub extensions : List (Text × Text)
extensions =
    (bytes "image/png", bytes "png")
    ∷ (bytes "image/jpeg", bytes "jpg")
    ∷ (bytes "image/gif", bytes "gif")
    ∷ (bytes "image/webp", bytes "webp")
    ∷ (bytes "application/pdf", bytes "pdf")
    ∷ (bytes "text/plain", bytes "txt")
    ∷ (bytes "text/markdown", bytes "md")
    ∷ (bytes "application/json", bytes "json")
    ∷ (bytes "application/zip", bytes "zip")
    ∷ (bytes "video/mp4", bytes "mp4")
    ∷ (bytes "audio/mpeg", bytes "mp3")
    ∷ []

unfoldable pub lookup : Text → List (Text × Text) → Option Text
lookup k [] = none
lookup k ((j, v) ∷ m) = if text_eq j k then some v else lookup k m

unfoldable pub ext_for : Option Text → Option Text
unfolding lookup text_eq
ext_for none = none
ext_for (some content_type) = lookup content_type extensions

unfoldable pub file_name : Text → Option Text → Text
file_name id none = id
file_name id (some ext) = id ++ bytes "." ++ ext

unfoldable pub object_key : Render → Text → ℕ → Option Text → ℕ → Text
unfolding ext_for file_name
object_key render client_id file_id content_type now =
    bytes "fg/"
    ++ client_id
    ++ bytes "/"
    ++ render.year_month now
    ++ bytes "/"
    ++ file_name (render.uuid file_id) (ext_for content_type)

abbrev pub new_file : ℕ → ℕ → CreateSpec → File
new_file now file_id spec = record {
  id = file_id;
  client_id = spec.client_id;
  state = pending;
  declared_size = spec.declared_size;
  content_type = spec.content_type;
  declared_md5 = spec.declared_md5;
  etag = none;
  part_size = spec.part_size;
  created_at = now;
  committed_at = none;
  deleted_at = none;
  recovery_after = now;
}

abbrev pub new_write_lease : ℕ → ℕ → ℕ → ℕ → Lease
new_write_lease now lease_id file_id ttl = record {
  id = lease_id;
  file_id = file_id;
  kind = write;
  state = issued;
  expires_at = now + ttl;
  secret_hash = none;
  uploaded_size = none;
  uploaded_md5 = none;
  upload_id = none;
  created_at = now;
}

-- The statements after the client's storage is known; the ids are the ones that
-- `gen_random_uuid()` draws.
unfoldable pub reserve : Render → Clock → ℕ → ℕ → CreateSpec → Text → Tx CreateOutcome CreatedFile
reserve render now file_id lease_id spec storage_id =
    let place = object_key render spec.client_id file_id spec.content_type now.tx_now in
    do
      _ ← insert_file (new_file now.tx_now file_id spec)
      _ ←
          insert_location
            (record { file_id = file_id; storage_id = storage_id; object_key = place })
      _ ← insert_lease (new_write_lease now.tx_now lease_id file_id spec.lease_ttl_secs)
      _ ← insert_history (record {
        at = now.tx_now;
        file_id = file_id;
        storage_id = storage_id;
        client_id = spec.client_id;
        kind = write;
        size = spec.declared_size;
      })
      pure (record {
        file_id = file_id;
        lease_id = lease_id;
        object_key = place;
        storage_id = storage_id;
      })

-- `SELECT ... FROM storages s JOIN clients c ... WHERE c.id = $1`.
unfoldable pub storage_of : Text → Db → Option Client
storage_of client_id db = find_where (λ (c : Client). text_eq c.id client_id) db.clients

abbrev pub with_storage :
    Option Client → (Text → Tx CreateOutcome CreateOutcome) → Tx CreateOutcome CreateOutcome
with_storage none k db = stop (returns no_client)
with_storage (some c) k db = k c.storage_id db

unfoldable pub create_in_tx :
    Render
    → Clock
    → ℕ
    → ℕ
    → CreateSpec
    → (CreatedFile → Tx CreateOutcome CreateOutcome)
    → Tx CreateOutcome CreateOutcome
unfolding reserve storage_of
create_in_tx render now file_id lease_id spec rest db =
    with_storage (storage_of spec.client_id db)
      (λ storage_id. do file ← reserve render now file_id lease_id spec storage_id; rest file) db

unfoldable pub create : Render → Clock → ℕ → ℕ → CreateSpec → Db → Reply CreateOutcome × Db
unfolding create_in_tx run_tx
create render now file_id lease_id spec =
    run_tx (create_in_tx render now file_id lease_id spec (λ file. commit (created file)))
