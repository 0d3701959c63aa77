-- ===== src/Lifecycle/Create.antt =====
-- The invariant is kept by the creation of a file, native or with an S3 session.
use grove_storage.Prelude.{
  ℕ, ◌≡◌, refl, ◌∙◌, Bool, true, false, Option, none, some, [], ◌∷◌, ◌++◌, arith, Text, ◌==◌, not,
  is_some, Option-cases, inl, inr,
}
use grove_storage.Table.{exists_where, exists-insert}
use grove_storage.Table.Keyed.{Distinct-append, row_at-append, exists-eq-row_at, row_at-key}
use grove_storage.Db.Schema.{
  Db, Clock, File, Upload, Location, LeaseHistory, Client, write, is_pending,
}
use grove_storage.Db.Where.{location_of, issued_write, upload_of}
use grove_storage.Db.Tx.{Tx, commit, ◌>>=◌, insert_upload}
use grove_storage.Db.View.{file_at}
use grove_storage.Files.Create.{
  Render, CreateSpec, CreateOutcome, create, create_in_tx, with_storage, storage_of, reserve,
  new_file, new_write_lease, created, CreatedFile, object_key,
}
use grove_storage.Registry.Sessions.{create_upload, open_session}
use grove_storage.Lifecycle.Invariant.{IsSound, shape_ok}
use grove_storage.Lifecycle.Rules.{After, keeps_run}
use grove_storage.Lifecycle.Views.{IsSound-by, upload_absent}

pub After-storage :
    (Q : CreateOutcome → Db → Type 0) (o : Option Client)
    (k : Text → Tx CreateOutcome CreateOutcome) (db : Db)
    → ((s : Text) → After Q (k s db))
    → After Q (with_storage o k db)
After-storage Q none k db h = tt
After-storage Q (some c) k db h = h c.storage_id

pub file_absent :
    (id : ℕ) (db : Db)
    → IsSound db
    → not (exists_where (λ (f : File). f.id == id) db.files) ≡ true
    → file_at id db ≡ none
file_absent id db h e = elim (Option-cases (file_at id db)) [
  | inl n ↦ n
  | inr (f, at) ↦ ground (
    arith,
    at,
    row_at-key (λ (f : File). f.id) id db.files at,
    exists-eq-row_at (λ (f : File). f.id) id (λ (f : File). f.id == id) db.files h.one_file
        (λ r q. ground arith),
  )
]

-- The tables after the inserts of a create.
reserved : Clock → ℕ → ℕ → CreateSpec → Location → LeaseHistory → Db → Db
reserved now id lease spec place entry db = record db {
  files = db.files ++ new_file now.tx_now id spec ∷ [];
  locations = db.locations ++ place ∷ [];
  leases = db.leases ++ new_write_lease now.tx_now lease id spec.lease_ttl_secs ∷ [];
  history = db.history ++ entry ∷ [];
}

reserved-IsSound :
    (now : Clock) (id lease : ℕ) (spec : CreateSpec) (place : Location) (entry : LeaseHistory)
    (db : Db)
    → place.file_id ≡ id
    → IsSound db
    → not (exists_where (λ (f : File). f.id == id) db.files) ≡ true
    → IsSound (reserved now id lease spec place entry db)
unfolding reserved
reserved-IsSound now id lease spec place entry db here h fresh =
    IsSound-by id h (Distinct-append _ _ _ (file_absent id db h fresh) h.one_file) h.one_upload
      (λ k ne. record {
        file = row_at-append _ k db.files _ ∙ ground arith;
        here = exists-insert (location_of k) db.locations place ∙ ground arith;
        lease = exists-insert (issued_write k) db.leases _ ∙ ground arith;
        upload = refl;
      })
      (rw (row_at-append, exists-insert, exists-insert)
        (ground (arith, file_absent id db h fresh, h.at id)))

-- From the inserts to the end of the transaction `rest`.
create_in_tx-keeps :
    (render : Render) (now : Clock) (id lease : ℕ) (spec : CreateSpec)
    (rest : CreatedFile → Tx CreateOutcome CreateOutcome) (db : Db)
    → IsSound db
    → ((file : CreatedFile) (db' : Db)
        → file_at file.file_id db' ≡ some (new_file now.tx_now id spec)
        → IsSound db'
        → After (λ r db''. IsSound db'') (rest file db'))
    → After (λ r db''. IsSound db'') (create_in_tx render now id lease spec rest db)
unfolding create_in_tx reserved
create_in_tx-keeps render now id lease spec rest db h then =
    After-storage (λ r db''. IsSound db'') (storage_of spec.client_id db)
      (λ storage_id. do file ← reserve render now id lease spec storage_id; rest file) db
      λ storage fresh free unused.
        let place : Location = record {
          file_id = id;
          storage_id = storage;
          object_key = object_key render spec.client_id id spec.content_type now.tx_now;
        } in
        let entry : LeaseHistory = record {
          at = now.tx_now;
          file_id = id;
          storage_id = storage;
          client_id = spec.client_id;
          kind = write;
          size = spec.declared_size;
        } in
        then
          (record {
            file_id = id;
            lease_id = lease;
            object_key = place.object_key;
            storage_id = storage;
          })
          (reserved now id lease spec place entry db)
          (row_at-append (λ (f : File). f.id) id db.files (new_file now.tx_now id spec)
            ∙ ground (arith, file_absent id db h fresh))
          (reserved-IsSound now id lease spec place entry db refl h fresh)

pub create-IsSound :
    (render : Render) (now : Clock) (id lease : ℕ) (spec : CreateSpec) (db : Db)
    → IsSound db
    → IsSound (create render now id lease spec db).1
unfolding create
create-IsSound render now id lease spec db h =
    keeps_run IsSound (create_in_tx render now id lease spec (λ file. commit (created file))) db h (
      create_in_tx-keeps render now id lease spec (λ file. commit (created file)) db h
        (λ file db' e sound. sound))

-- A new session of a pending file.
session-IsSound :
    (id : ℕ) (db : Db) (u : Upload) {f : File}
    → IsSound db
    → file_at id db ≡ some f
    → is_pending f.state ≡ true
    → u.file_id ≡ id
    → shape_ok u ≡ true
    → exists_where (upload_of id) db.uploads ≡ false
    → IsSound (record db { uploads = db.uploads ++ u ∷ [] })
session-IsSound id db u {f} h at pends mine shape free =
    IsSound-by id h h.one_file
      (Distinct-append _ _ _ (rw mine (upload_absent id db h free)) h.one_upload)
      (λ k ne. record {
        file = refl;
        here = refl;
        lease = refl;
        upload = row_at-append _ k db.uploads u ∙ ground arith;
      })
      (rw (row_at-append, at) (ground (arith, upload_absent id db h free, h.at id, at)))

pub create_upload-IsSound :
    (render : Render) (now : Clock) (id lease : ℕ) (spec : CreateSpec) (key : Text) (cond : Bool)
    (db : Db)
    → IsSound db
    → IsSound (create_upload render now id lease spec key cond db).1
unfolding create_upload
create_upload-IsSound render now id lease spec key cond db h =
    let rest : CreatedFile → Tx CreateOutcome CreateOutcome = λ file. (do
      _ ← insert_upload (open_session now.tx_now file.file_id key (is_some spec.part_size) cond)
      commit (created file)) in
    keeps_run IsSound (create_in_tx render now id lease spec rest) db h (
      create_in_tx-keeps render now id lease spec rest db h λ file db' at sound free.
        session-IsSound file.file_id db'
          (open_session now.tx_now file.file_id key (is_some spec.part_size) cond) sound at refl
          refl refl (ground arith))
