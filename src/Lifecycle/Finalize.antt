-- ===== src/Lifecycle/Finalize.antt =====
-- The invariant is kept by `finalize_upload`, which activates a file, settles its lease, moves the
-- logical key and detaches the file that the key named before.
use grove_storage.Prelude.{
  ℕ, ◌≡◌, refl, Bool, true, Option, none, some, List, arith, Text, ◌==◌, if◌then◌else◌,
}
use grove_storage.Table.{exists_where, find_where, update_where, delete_where}
use grove_storage.Table.Keyed.{find-hit}
use grove_storage.Db.Schema.{Db, Clock, Upload, ObjectKey}
use grove_storage.Db.Where.{issued_write, s3_upload}
use grove_storage.Db.Tx.{next}
use grove_storage.Files.Commit.{settle_lease}
use grove_storage.Registry.Sessions.{mode_file}
use grove_storage.Registry.Finish.{
  FinalizeOutcome, finalized, finalize_session, finalize_upload, finalize_upload_tx,
  completing_session, activate_as, confirm, refuse, take_key,
}
use grove_storage.Lifecycle.Invariant.{IsSound}
use grove_storage.Lifecycle.Rules.{After, keeps_run, After-if, After-bind, After-mono}
use grove_storage.Lifecycle.Keys.{KeyChange, kept, moved, detach-IsSound}
use grove_storage.Lifecycle.Finish.{
  confirmed-IsSound, given_up-IsSound, After-reserve_key, take_key-KeyChange,
}

abbrev Kept : FinalizeOutcome → Db → Type 0
Kept r db = IsSound db

-- The database in the middle of `confirm`: the file is active, and its session still stands.
abbrev half_confirmed : Clock → ℕ → Upload → Db → Db
half_confirmed now id u db = record db {
  files = update_where (λ f. f.id == id) (activate_as now.tx_now u) db.files;
  leases = update_where (issued_write id) settle_lease db.leases;
}

-- Whatever the change of the keys, the invariant holds once the session is removed.
removed-IsSound :
    (now : Clock) (id : ℕ) (u : Upload) (db : Db) {db' : Db}
    → ((keys : List ObjectKey)
        → IsSound (record (half_confirmed now id u db) {
          uploads = delete_where (s3_upload id) db.uploads;
          keys = keys;
        }))
    → KeyChange now id (half_confirmed now id u db) db'
    → IsSound (record db' { uploads = delete_where (s3_upload id) db'.uploads })
removed-IsSound now id u db h (kept keys) = h keys
removed-IsSound now id u db h (moved keys old other) = detach-IsSound now old _ (h keys)

finalize_session-keeps :
    (now : Clock) (client key : Text) (id : ℕ) (multipart : Bool) (o : Option Upload) (db : Db)
    → IsSound db
    → exists_where (mode_file client id multipart) db.files ≡ true
    → find_where (completing_session key id multipart) db.uploads ≡ o
    → After Kept (finalize_session now client key id o db)
finalize_session-keeps now client key id multipart none db h pends found = tt
finalize_session-keeps now client key id multipart (some u) db h pends found =
    let (at, was) =
      find-hit (λ (u : Upload). u.file_id) id (completing_session key id multipart) db.uploads
        h.one_upload (λ r e. ground arith) found in
    After-reserve_key Kept now client key id u.if_none_match
      (λ mine. if mine then confirm now client key id u else refuse now id) db
      λ mine keys.
        After-if Kept mine (confirm now client key id u) (refuse now id) (record db { keys = keys })
          (λ e.
            After-bind Kept
              (take_key now client key id u.if_none_match
                (half_confirmed now id u (record db { keys = keys })))
              (λ displaced db'.
                next (finalized displaced)
                  (record db' { uploads = delete_where (s3_upload id) db'.uploads }))
              (After-mono _ _ _
                (λ displaced db' change.
                  removed-IsSound now id u (record db { keys = keys })
                    (confirmed-IsSound now client key id multipart u db h pends at was) change)
                (take_key-KeyChange FinalizeOutcome now client key id u.if_none_match _)))
          (λ e. given_up-IsSound now client key id multipart u db h pends at was keys)

pub finalize_upload-IsSound :
    (now : Clock) (client key : Text) (id : ℕ) (multipart : Bool) (db : Db)
    → IsSound db
    → IsSound (finalize_upload now client key id multipart db).1
unfolding finalize_upload
finalize_upload-IsSound now client key id multipart db h =
    keeps_run IsSound (finalize_upload_tx now client key id multipart) db h
      λ locked. finalize_session-keeps now client key id multipart _ db h locked refl
