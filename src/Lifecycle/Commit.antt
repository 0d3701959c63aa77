-- ===== src/Lifecycle/Commit.antt =====
-- The invariant is kept by the confirmation of a single upload.
use grove_storage.Prelude.{ℕ, refl, arith, Text}
use grove_storage.Table.Keyed.{Distinct-update, row_at-update_other, row_at-update_hit}
use grove_storage.Db.Schema.{Db, Clock, File}
use grove_storage.Files.Commit.{finalize_commit, finalize_commit_tx, activate}
use grove_storage.Lifecycle.Invariant.{IsSound}
use grove_storage.Lifecycle.Rules.{keeps_run, hit}
use grove_storage.Lifecycle.Views.{IsSound-by, writable_other, owned_row}

pub finalize_commit-IsSound :
    (now : Clock) (id : ℕ) (etag : Text) (db : Db)
    → IsSound db
    → IsSound (finalize_commit now id etag db).1
unfolding finalize_commit
finalize_commit-IsSound now id etag db h =
    keeps_run IsSound (finalize_commit_tx now id etag) db h λ won.
      IsSound-by id h (Distinct-update _ _ _ _ (λ r. refl) h.one_file) h.one_upload
        (λ k ne. record {
          file = row_at-update_other _ id k _ _ _ (λ r. refl) (λ r e. ground arith) ne;
          here = refl;
          lease = writable_other id k _ _ _ (λ r. refl) (λ r e. ground arith) ne;
          upload = refl;
        })
        (let (f, at, was, now_at) =
            row_at-update_hit (λ (f : File). f.id) id _ (activate now.tx_now etag) db.files
              h.one_file (λ r. refl) (λ r e. ground arith) (hit _ db.files won) in
          rw now_at (ground (arith, at, was, h.at id, owned_row id db h)))
