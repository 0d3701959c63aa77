-- ===== src/Lifecycle/Finish.antt =====
-- The invariant is kept by the confirmation of an S3 session, and by its recovery.
use grove_storage.Prelude.{ℕ, ◌≡◌, refl, Bool, true, false, some, List, arith, Text, ◌&&◌, ◌==◌}
use grove_storage.Table.{exists_where, update_where, delete_where, exists_mono}
use grove_storage.Table.Keyed.{
  Distinct-update, Distinct-delete, row_at-update_other, row_at-delete_other, row_at-update_hit,
  row_at-update, row_at-delete_hit,
}
use grove_storage.Db.Schema.{
  Db, Clock, File, Upload, UploadState, ObjectKey, reclaimed, is_opened, is_cleaning,
}
use grove_storage.Db.Where.{issued_write, s3_upload}
use grove_storage.Db.Tx.{Tx, run_tx, bind}
use grove_storage.Db.View.{upload_at}
use grove_storage.Files.Commit.{settle_lease}
use grove_storage.Files.Completion.{renew, start_cleaning}
use grove_storage.Registry.Sessions.{mode_file}
use grove_storage.Registry.Finish.{
  completing_session, activate_as, give_up, reserve_key, take_key, claim_expired_abort,
  claim_expired_abort_tx, finalize_reclaimed_upload_tx, finalize_abort, discard_unstarted_upload,
  renew_completion_lease, renew_completion_lease_tx, reopen_completion, reopen_completion_tx,
  mark_completion_aborting, mark_completion_aborting_tx, s3_completing, reopen,
}
use grove_storage.Lifecycle.Invariant.{IsSound}
use grove_storage.Lifecycle.Rules.{After, keeps_run, hit}
use grove_storage.Lifecycle.Keys.{KeyChange, kept, upsert_key_in_tx-KeyChange}
use grove_storage.Lifecycle.Views.{
  IsSound-by, IsSound-same, writable_other, writable_same, located_other, upload_hit,
  upload_cleared, file_hit,
}

pub renew_completion_lease-IsSound :
    (now : Clock) (id ttl : ℕ) (db : Db)
    → IsSound db
    → IsSound (renew_completion_lease now id ttl db).1
unfolding renew_completion_lease
renew_completion_lease-IsSound now id ttl db h =
    keeps_run IsSound (renew_completion_lease_tx now id ttl) db h
      λ locked owner renewed. IsSound-same h refl refl refl (λ k. writable_same k _ _ _ (λ r. refl))

pub claim_expired_abort-IsSound :
    (now : Clock) (id : ℕ) (db : Db) → IsSound db → IsSound (claim_expired_abort now id db).1
unfolding claim_expired_abort
claim_expired_abort-IsSound now id db h =
    keeps_run IsSound (claim_expired_abort_tx now id) db h λ locked session lapsed.
      IsSound-by id h h.one_file (Distinct-update _ _ _ _ (λ r. refl) h.one_upload)
        (λ k ne. record {
          file = refl;
          here = refl;
          lease = writable_other id k _ _ _ (λ r. refl) (λ r e. ground arith) ne;
          upload = row_at-update_other _ id k _ _ _ (λ r. refl) (λ r e. ground arith) ne;
        })
        (let (u, uat, uwas, now_at) =
            row_at-update_hit (λ (u : Upload). u.file_id) id (s3_upload id)
              (start_cleaning now.tx_now) db.uploads h.one_upload (λ r. refl) (λ r e. ground arith)
              (exists_mono (λ u. s3_upload id u && is_opened u.state) (s3_upload id) db.uploads
                (λ r e. ground arith) session) in
          let (v, vat, vwas) =
            upload_hit id (λ u. s3_upload id u && is_opened u.state) db h (λ r e. ground arith)
              session in
          rw now_at (ground (arith, uat, uwas, vat, vwas, h.at id)))

module _ (required : UploadState → Bool) where
  finalize_reclaimed_upload-IsSound :
      (id : ℕ) (db : Db)
      → IsSound db
      → IsSound (run_tx (finalize_reclaimed_upload_tx required id) db).1
  unfolding finalize_reclaimed_upload_tx
  finalize_reclaimed_upload-IsSound id db h =
      keeps_run IsSound (finalize_reclaimed_upload_tx required id) db h λ won.
        IsSound-by id h (Distinct-update _ _ _ _ (λ r. refl) h.one_file)
          (Distinct-delete _ _ _ h.one_upload)
          (λ k ne. record {
            file = row_at-update_other _ id k _ _ _ (λ r. refl) (λ r e. ground arith) ne;
            here = located_other id k _ _ (λ r e. ground arith) ne;
            lease = writable_other id k _ _ _ (λ r. refl) (λ r e. ground arith) ne;
            upload = row_at-delete_other _ id k _ _ (λ r e. ground arith) ne;
          })
          (let (f, at, was, now_at) =
              row_at-update_hit (λ (f : File). f.id) id _ (λ f. record f { state = reclaimed })
                db.files h.one_file (λ r. refl) (λ r e. ground arith) (hit _ db.files won) in
            rw
              (
                now_at,
                upload_cleared id (λ u. s3_upload id u && required u.state) (s3_upload id) db h
                    (λ r e. ground arith) (λ r e. ground arith) (ground (arith, was)),
              )
              refl)

pub finalize_abort-IsSound : (id : ℕ) (db : Db) → IsSound db → IsSound (finalize_abort id db).1
unfolding finalize_abort
finalize_abort-IsSound = finalize_reclaimed_upload-IsSound is_cleaning

pub discard_unstarted_upload-IsSound :
    (id : ℕ) (db : Db) → IsSound db → IsSound (discard_unstarted_upload id db).1
unfolding discard_unstarted_upload
discard_unstarted_upload-IsSound = finalize_reclaimed_upload-IsSound is_opened

pub reopen_completion-IsSound :
    (now : Clock) (id ttl : ℕ) (db : Db) → IsSound db → IsSound (reopen_completion now id ttl db).1
unfolding reopen_completion
reopen_completion-IsSound now id ttl db h =
    keeps_run IsSound (reopen_completion_tx now id ttl) db h λ locked reopened renewed.
      IsSound-by id h h.one_file (Distinct-update _ _ _ _ (λ r. refl) h.one_upload)
        (λ k ne. record {
          file = refl;
          here = refl;
          lease = writable_other id k _ _ _ (λ r. refl) (λ r e. ground arith) ne;
          upload = row_at-update_other _ id k _ _ _ (λ r. refl) (λ r e. ground arith) ne;
        })
        (let (u, uat, uwas, now_at) =
            row_at-update_hit (λ (u : Upload). u.file_id) id (s3_completing id) (reopen now.tx_now)
              db.uploads h.one_upload (λ r. refl) (λ r e. ground arith)
              (hit _ db.uploads reopened) in
          rw
            (
              now_at,
              writable_same id (issued_write id) (renew now.tx_now ttl) db.leases (λ r. refl),
              hit _ db.leases renewed,
            )
            (ground (arith, uat, uwas, h.at id)))

pub mark_completion_aborting-IsSound :
    (now : Clock) (id : ℕ) (db : Db) → IsSound db → IsSound (mark_completion_aborting now id db).1
unfolding mark_completion_aborting
mark_completion_aborting-IsSound now id db h =
    keeps_run IsSound (mark_completion_aborting_tx now id) db h λ locked changed.
      IsSound-by id h h.one_file (Distinct-update _ _ _ _ (λ r. refl) h.one_upload)
        (λ k ne. record {
          file = refl;
          here = refl;
          lease = refl;
          upload = row_at-update_other _ id k _ _ _ (λ r. refl) (λ r e. ground arith) ne;
        })
        (let (u, uat, uwas, now_at) =
            row_at-update_hit (λ (u : Upload). u.file_id) id (s3_completing id) (give_up now.tx_now)
              db.uploads h.one_upload (λ r. refl) (λ r e. ground arith)
              (hit _ db.uploads changed) in
          rw now_at (ground (arith, uat, uwas, h.at id)))

module _ (now : Clock) (client key : Text) (id : ℕ) (multipart : Bool) (u : Upload) (db : Db)
    (h : IsSound db) (pends : exists_where (mode_file client id multipart) db.files ≡ true)
    (at : upload_at id db ≡ some u) (was : completing_session key id multipart u ≡ true) where
  -- The file is active, its lease settled and its session gone; the keys are any.
  pub confirmed-IsSound :
      (keys : List ObjectKey)
      → IsSound (record db {
        files = update_where (λ f. f.id == id) (activate_as now.tx_now u) db.files;
        leases = update_where (issued_write id) settle_lease db.leases;
        uploads = delete_where (s3_upload id) db.uploads;
        keys = keys;
      })
  confirmed-IsSound keys =
      IsSound-by id h (Distinct-update _ _ _ _ (λ r. refl) h.one_file)
        (Distinct-delete _ _ _ h.one_upload)
        (λ k ne. record {
          file = row_at-update_other _ id k _ _ _ (λ r. refl) (λ r e. ground arith) ne;
          here = refl;
          lease = writable_other id k _ _ _ (λ r. refl) (λ r e. ground arith) ne;
          upload = row_at-delete_other _ id k _ _ (λ r e. ground arith) ne;
        })
        (let (f, fat, fwas) =
            file_hit id (mode_file client id multipart) db h (λ r e. ground arith) pends in
          rw
            (
              row_at-update,
              fat,
              row_at-delete_hit _ id (s3_upload id) db.uploads {r = u} h.one_upload at
                  (ground (arith, was)),
            )
            (ground (arith, fwas, at, was, fat, h.at id)))

  -- The session is given up, and waits for its cleanup.
  pub given_up-IsSound :
      (keys : List ObjectKey)
      → IsSound (record db {
        uploads = update_where (s3_upload id) (give_up now.tx_now) db.uploads;
        keys = keys;
      })
  given_up-IsSound keys =
      IsSound-by id h h.one_file (Distinct-update _ _ _ _ (λ r. refl) h.one_upload)
        (λ k ne. record {
          file = refl;
          here = refl;
          lease = refl;
          upload = row_at-update_other _ id k _ _ _ (λ r. refl) (λ r e. ground arith) ne;
        })
        (let (f, fat, fwas) =
            file_hit id (mode_file client id multipart) db h (λ r e. ground arith) pends in
          rw (row_at-update, at, fat) (ground (arith, fwas, was, at, fat, h.at id)))

pub After-reserve_key :
    {R A : Type 0} (Q : A → Db → Type 0) (now : Clock) (client key : Text) (id : ℕ) (b : Bool)
    (f : Bool → Tx R A) (db : Db)
    → ((mine : Bool) (keys : List ObjectKey) → After Q (f mine (record db { keys = keys })))
    → After Q (bind (reserve_key now client key id b db) f)
After-reserve_key Q now client key id true f db h = λ e. h _ _
After-reserve_key Q now client key id false f db h = h true db.keys

pub take_key-KeyChange :
    (R : Type 0) (now : Clock) (client key : Text) (id : ℕ) (b : Bool) (db : Db)
    → After (λ d db'. KeyChange now id db db') (take_key {R = R} now client key id b db)
take_key-KeyChange R now client key id true db = kept db.keys
take_key-KeyChange R now client key id false db = upsert_key_in_tx-KeyChange R now client key id db
