-- ===== src/Lifecycle/KeyUpdates.antt =====
-- Every row of a file moves forward when logical keys change, and when an S3 session is confirmed.
use grove_storage.Prelude.{
  ℕ, ◌≡◌, refl, Bool, true, Option, none, some, arith, Text, ◌==◌, if◌then◌else◌,
}
use grove_storage.Table.{exists_where, find_where, update_where, delete_where}
use grove_storage.Table.Keyed.{row_at-key}
use grove_storage.Db.Schema.{Db, Clock, File, Upload, ObjectKey}
use grove_storage.Db.Where.{issued_write, s3_upload}
use grove_storage.Db.Tx.{next, key_at, ◌>>=◌}
use grove_storage.Files.Commit.{settle_lease}
use grove_storage.Files.Sweep.{detach}
use grove_storage.Registry.Sessions.{mode_file}
use grove_storage.Registry.Keys.{
  active_file, upsert_key_in_tx, upsert_key, delete_key, remove_key, detach_removed,
}
use grove_storage.Registry.Finish.{
  FinalizeOutcome, finalized, finalize_session, finalize_upload, finalize_upload_tx, activate_as,
  confirm, refuse, take_key,
}
use grove_storage.Lifecycle.Invariant.{IsSound}
use grove_storage.Lifecycle.Views.{file_hit}
use grove_storage.Lifecycle.Rules.{After, keeps_run, After-if, After-bind, After-mono}
use grove_storage.Lifecycle.Keys.{KeyChange, kept, moved, upsert_key_in_tx-KeyChange}
use grove_storage.Lifecycle.Finish.{After-reserve_key, take_key-KeyChange}
use grove_storage.Lifecycle.Progress.{Updates, Updates-refl, Updates-trans, update-Lifts}

detach-Updates :
    (now : Clock) (old : ℕ) (db : Db)
    → Updates db (record db { files = update_where (active_file old) (detach now.tx_now) db.files })
detach-Updates now old db k = update-Lifts _ _ db k (λ f. refl) (λ f at e. ground (arith, e))

KeyChange-Updates : {now : Clock} {id : ℕ} {db db' : Db} → KeyChange now id db db' → Updates db db'
KeyChange-Updates {db = db} (kept keys) = Updates-refl db
KeyChange-Updates {now} {db = db} (moved keys old ne) = detach-Updates now old db

pub upsert_key-Updates :
    (now : Clock) (client key : Text) (id : ℕ) (db : Db)
    → Updates db (upsert_key now client key id db).1
unfolding upsert_key
upsert_key-Updates now client key id db =
    keeps_run (Updates db) (upsert_key_in_tx now client key id) db (Updates-refl db) (
      After-mono (λ displaced db'. KeyChange now id db db') (λ displaced db'. Updates db db')
        (upsert_key_in_tx {R = Option ℕ} now client key id db)
        (λ displaced db' change. KeyChange-Updates change)
        (upsert_key_in_tx-KeyChange (Option ℕ) now client key id db))

pub delete_key-Updates :
    (now : Clock) (client key : Text) (db : Db) → Updates db (delete_key now client key db).1
unfolding delete_key
delete_key-Updates now client key db =
    keeps_run (Updates db) (do removed ← remove_key client key; detach_removed now removed) db
      (Updates-refl db) (removed (find_where (key_at client key) db.keys))
  where
    removed :
        (o : Option ObjectKey)
        → After
            (λ r db'. Updates db db')
            (detach_removed now o (record db { keys = delete_where (key_at client key) db.keys }))
    removed none = Updates-refl db
    removed (some k) = detach-Updates now k.file_id db

-- The file that is confirmed is pending until then.
confirmed-Updates :
    (now : Clock) (client : Text) (id : ℕ) (multipart : Bool) (u : Upload) (db : Db)
    → IsSound db
    → exists_where (mode_file client id multipart) db.files ≡ true
    → Updates db
        (record db { files = update_where (λ f. f.id == id) (activate_as now.tx_now u) db.files })
confirmed-Updates now client id multipart u db h pends k =
    let (g, gat, gwas) =
      file_hit id (mode_file client id multipart) db h (λ r e. ground arith) pends in
    update-Lifts _ _ db k (λ f. refl)
      (λ f at e.
        let same : k ≡ id = ground (arith, row_at-key (λ (f : File). f.id) k db.files at, e) in
        ground (arith, gat, gwas, rw same at at))

-- As `finalize_session-keeps`, for the rows of files.
finalize_session-Updates :
    (now : Clock) (client key : Text) (id : ℕ) (multipart : Bool) (o : Option Upload) (db : Db)
    → IsSound db
    → exists_where (mode_file client id multipart) db.files ≡ true
    → After (λ r db'. Updates db db') (finalize_session now client key id o db)
finalize_session-Updates now client key id multipart none db h pends = tt
finalize_session-Updates now client key id multipart (some u) db h pends =
    After-reserve_key (λ r db'. Updates db db') now client key id u.if_none_match
      (λ mine. if mine then confirm now client key id u else refuse now id) db
      λ mine keys.
        let half : Db = record db {
          keys = keys;
          files = update_where (λ f. f.id == id) (activate_as now.tx_now u) db.files;
          leases = update_where (issued_write id) settle_lease db.leases;
        } in
        After-if (λ r db'. Updates db db') mine (confirm now client key id u) (refuse now id)
          (record db { keys = keys })
          (λ e.
            After-bind (λ r db'. Updates db db') (take_key now client key id u.if_none_match half)
              (λ displaced db'.
                next (finalized displaced)
                  (record db' { uploads = delete_where (s3_upload id) db'.uploads }))
              (After-mono _ _ _
                (λ displaced db' change.
                  Updates-trans db half db' (confirmed-Updates now client id multipart u db h pends)
                    (KeyChange-Updates change))
                (take_key-KeyChange FinalizeOutcome now client key id u.if_none_match half)))
          (λ e. Updates-refl db)

pub finalize_upload-Updates :
    (now : Clock) (client key : Text) (id : ℕ) (multipart : Bool) (db : Db)
    → IsSound db
    → Updates db (finalize_upload now client key id multipart db).1
unfolding finalize_upload
finalize_upload-Updates now client key id multipart db h =
    keeps_run (Updates db) (finalize_upload_tx now client key id multipart) db (Updates-refl db)
      λ locked. finalize_session-Updates now client key id multipart _ db h locked
