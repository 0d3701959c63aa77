-- ===== src/Lifecycle/Completion.antt =====
-- The invariant is kept by a native multipart completion and its recovery.
use grove_storage.Prelude.{ℕ, ◌≡◌, refl, true, arith, Text}
use grove_storage.Table.{exists_where, exists_mono}
use grove_storage.Table.Keyed.{
  Distinct-update, Distinct-delete, Distinct-append, row_at-update_other, row_at-delete_other,
  row_at-update_hit, row_at-delete_hit, row_at-append,
}
use grove_storage.Db.Schema.{Db, Clock, File, Upload, reclaimed}
use grove_storage.Db.Where.{
  pending_multipart, native_completing, issued_write, expired_write, native_upload,
}
use grove_storage.Files.Commit.{activate}
use grove_storage.Files.Completion.{
  begin_completion, native_claim, claim, claim_tx, renew, finalize_completion,
  finalize_completion_tx, reopen_completion, reopen_completion_tx, claim_cleanup, claim_cleanup_tx,
  start_cleaning, finalize_cleanup, finalize_cleanup_tx, agreeing, is_ready, native_cleaning,
}
use grove_storage.Lifecycle.Invariant.{IsSound}
use grove_storage.Lifecycle.Rules.{keeps_run, hit}
use grove_storage.Lifecycle.Views.{
  IsSound-by, writable_other, writable_same, located_other, upload_hit, upload_cleared, file_hit,
  upload_absent,
}

pub finalize_completion-IsSound :
    (now : Clock) (id : ℕ) (etag : Text) (db : Db)
    → IsSound db
    → IsSound (finalize_completion now id etag db).1
unfolding finalize_completion
finalize_completion-IsSound now id etag db h =
    keeps_run IsSound (finalize_completion_tx now id etag) db h λ locked won.
      IsSound-by id h (Distinct-update _ _ _ _ (λ r. refl) h.one_file)
        (Distinct-delete _ _ _ h.one_upload)
        (λ k ne. record {
          file = row_at-update_other _ id k _ _ _ (λ r. refl) (λ r e. ground arith) ne;
          here = refl;
          lease = writable_other id k _ _ _ (λ r. refl) (λ r e. ground arith) ne;
          upload = row_at-delete_other _ id k _ _ (λ r e. ground arith) ne;
        })
        (let (f, at, was, now_at) =
            row_at-update_hit (λ (f : File). f.id) id _ (activate now.tx_now etag) db.files
              h.one_file (λ r. refl) (λ r e. ground arith) (hit _ db.files won) in
          rw
            (
              now_at,
              upload_cleared id (agreeing id etag) (native_upload id) db h (λ r e. ground arith)
                  (λ r e. ground arith) (ground (arith, was)),
            )
            (ground (arith, at, was, h.at id)))

begin_ready :
    (id : ℕ) (db : Db)
    → is_ready (begin_completion id db) ≡ true
    → exists_where (pending_multipart id) db.files ≡ true
unfolding begin_completion
begin_ready id db e = ground arith

pub claim-IsSound :
    (now : Clock) (id : ℕ) (etag : Text) (ttl : ℕ) (db : Db)
    → IsSound db
    → IsSound (claim now id etag ttl db).1
unfolding claim
claim-IsSound now id etag ttl db h =
    keeps_run IsSound (claim_tx now id etag ttl) db h λ start renewed fresh.
      IsSound-by id h h.one_file
        (Distinct-append _ _ _ (upload_absent id db h (ground arith)) h.one_upload)
        (λ k ne. record {
          file = refl;
          here = refl;
          lease = writable_other id k _ _ _ (λ r. refl) (λ r e. ground arith) ne;
          upload = ground (
            arith,
            row_at-append (λ (u : Upload). u.file_id) k db.uploads
                (native_claim now.tx_now id etag),
          );
        })
        (let (f, at, was) =
            file_hit id (pending_multipart id) db h (λ r e. ground arith)
              (begin_ready id db start) in
          rw
            (
              row_at-append,
              at,
              writable_same id (issued_write id) (renew now.tx_now ttl) db.leases (λ r. refl),
              hit _ db.leases renewed,
            )
            (ground (arith, was, h.at id, upload_absent id db h)))

pub reopen_completion-IsSound :
    (now : Clock) (id ttl : ℕ) (db : Db) → IsSound db → IsSound (reopen_completion now id ttl db).1
unfolding reopen_completion
reopen_completion-IsSound now id ttl db h =
    keeps_run IsSound (reopen_completion_tx now id ttl) db h λ locked freed.
      IsSound-by id h h.one_file (Distinct-delete _ _ _ h.one_upload)
        (λ k ne. record {
          file = refl;
          here = refl;
          lease = writable_other id k _ _ _ (λ r. refl) (λ r e. ground arith) ne;
          upload = row_at-delete_other _ id k _ _ (λ r e. ground arith) ne;
        })
        (let (u, uat, uwas) =
            upload_hit id (native_completing id) db h (λ r e. ground arith)
              (hit _ db.uploads freed) in
          let lapsed =
            exists_mono (expired_write now.tx_now id) (issued_write id) db.leases
              (λ r e. ground arith) (ground (arith, locked)) in
          rw
            (
              row_at-delete_hit _ id (native_completing id) db.uploads {r = u} h.one_upload uat
                  uwas,
              writable_same id (issued_write id) (renew now.tx_now ttl) db.leases (λ r. refl),
              lapsed,
            )
            (ground (arith, uat, h.at id)))

pub claim_cleanup-IsSound :
    (now : Clock) (id : ℕ) (db : Db) → IsSound db → IsSound (claim_cleanup now id db).1
unfolding claim_cleanup
claim_cleanup-IsSound now id db h =
    keeps_run IsSound (claim_cleanup_tx now id) db h λ locked changed.
      IsSound-by id h h.one_file (Distinct-update _ _ _ _ (λ r. refl) h.one_upload)
        (λ k ne. record {
          file = refl;
          here = refl;
          lease = writable_other id k _ _ _ (λ r. refl) (λ r e. ground arith) ne;
          upload = row_at-update_other _ id k _ _ _ (λ r. refl) (λ r e. ground arith) ne;
        })
        (let (u, uat, uwas, now_at) =
            row_at-update_hit (λ (u : Upload). u.file_id) id _ (start_cleaning now.tx_now)
              db.uploads h.one_upload (λ r. refl) (λ r e. ground arith)
              (hit _ db.uploads changed) in
          rw now_at (ground (arith, uat, uwas, h.at id)))

pub finalize_cleanup-IsSound : (id : ℕ) (db : Db) → IsSound db → IsSound (finalize_cleanup id db).1
unfolding finalize_cleanup
finalize_cleanup-IsSound id db h = keeps_run IsSound (finalize_cleanup_tx id) db h λ won.
    IsSound-by id h (Distinct-update _ _ _ _ (λ r. refl) h.one_file)
      (Distinct-delete _ _ _ h.one_upload)
      (λ k ne. record {
        file = row_at-update_other _ id k _ _ _ (λ r. refl) (λ r e. ground arith) ne;
        here = located_other id k _ _ (λ r e. ground arith) ne;
        lease = refl;
        upload = row_at-delete_other _ id k _ _ (λ r e. ground arith) ne;
      })
      (let (f, at, was, now_at) =
          row_at-update_hit (λ (f : File). f.id) id _ (λ f. record f { state = reclaimed }) db.files
            h.one_file (λ r. refl) (λ r e. ground arith) (hit _ db.files won) in
        rw
          (
            now_at,
            upload_cleared id (native_cleaning id) (native_upload id) db h (λ r e. ground arith)
                (λ r e. ground arith) (ground (arith, was)),
          )
          (ground (arith, at, was, h.at id)))
