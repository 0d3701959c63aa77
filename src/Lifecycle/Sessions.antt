-- ===== src/Lifecycle/Sessions.antt =====
-- The invariant is kept by the claims, parts and aborts of S3 sessions.
use grove_storage.Prelude.{
  ℕ, ◌≡◌, refl, Bool, true, false, Option, none, some, arith, Text, ◌&&◌, Bool-cases, inl, inr,
}
use grove_storage.Table.{exists_where, find_where, update_where, exists_mono, find_where-some}
use grove_storage.Table.Keyed.{Distinct-update, row_at-update_other, row_at-update_hit}
use grove_storage.Db.Schema.{
  Db, Clock, Upload, UploadState, opened, completing, cleaning, is_opened,
}
use grove_storage.Db.Where.{issued_write, s3_upload}
use grove_storage.Db.Tx.{Tx}
use grove_storage.Files.Completion.{renew, start_cleaning}
use grove_storage.Registry.Sessions.{
  CompletionSpec, CompletionClaim, claim_by_state, claim_session, take_single, take_multipart,
  claim_completion, claim_single_tx, claim_multipart_tx, same_values, start_completing, session_of,
  s3_opened, open_or_completing,
}
use grove_storage.Registry.Parts.{
  claim_upload_part, claim_upload_part_tx, renew_upload_part_lease, renew_upload_part_lease_tx,
  finish_upload_part, finish_upload_part_tx, cancel_upload_part,
}
use grove_storage.Registry.Finish.{claim_abort, claim_abort_tx, keyed_multipart}
use grove_storage.Lifecycle.Invariant.{IsSound}
use grove_storage.Lifecycle.Rules.{After, keeps_run, hit}
use grove_storage.Lifecycle.Views.{IsSound-by, IsSound-same, writable_other, writable_same}

abbrev Kept : CompletionClaim → Db → Type 0
Kept r db = IsSound db

-- An open session may be taken; any other answer leaves the database.
pub After-claim_session :
    (Q : CompletionClaim → Db → Type 0) (spec : CompletionSpec)
    (take : Tx CompletionClaim CompletionClaim) (o : Option Upload) (db : Db)
    → ((u : Upload) → o ≡ some u → is_opened u.state ≡ true → After Q (take db))
    → After Q (claim_session spec take o db)
After-claim_session Q spec take none db h = tt
After-claim_session Q spec take (some u) db h = go u.state refl
  where
    go : (s : UploadState) → u.state ≡ s → After Q (claim_by_state s (same_values spec u) take db)
    go opened e = h u refl (rw e)
    go completing e = tt
    go cleaning e = tt

-- The session of the file becomes completing, and its lease is renewed.
module _ (now : Clock) (spec : CompletionSpec) (p : Upload → Bool)
    (only : (u : Upload) → p u ≡ true → s3_upload spec.file_id u ≡ true) where
  taken-IsSound :
      (db : Db)
      → IsSound db
      → exists_where (issued_write spec.file_id) db.leases ≡ true
      → exists_where p db.uploads ≡ true
      → IsSound (record db {
        leases =
            update_where
              (issued_write spec.file_id)
              (renew now.tx_now spec.lease_ttl_secs)
              db.leases;
        uploads =
            update_where p
              (start_completing now.tx_now spec.expected_size spec.expected_etag)
              db.uploads;
      })
  taken-IsSound db h live found =
      let id = spec.file_id in
      IsSound-by id h h.one_file (Distinct-update _ _ _ _ (λ r. refl) h.one_upload)
        (λ k ne. record {
          file = refl;
          here = refl;
          lease = writable_other id k _ _ _ (λ r. refl) (λ r e. ground arith) ne;
          upload = row_at-update_other _ id k _ _ _ (λ r. refl) (λ r e. ground (arith, only r)) ne;
        })
        (let (u, uat, uwas, now_at) =
            row_at-update_hit (λ (u : Upload). u.file_id) id p
              (start_completing now.tx_now spec.expected_size spec.expected_etag) db.uploads
              h.one_upload (λ r. refl) (λ r e. ground (arith, only r)) found in
          rw
            (
              now_at,
              writable_same id (issued_write id) (renew now.tx_now spec.lease_ttl_secs) db.leases
                  (λ r. refl),
            )
            (ground (arith, uat, only u uwas, live, h.at id)))

pub claim_completion-IsSound :
    (now : Clock) (spec : CompletionSpec) (db : Db)
    → IsSound db
    → IsSound (claim_completion now spec db).1
unfolding claim_completion
claim_completion-IsSound now spec db h = elim (Bool-cases spec.multipart) [
  | inl e ↦ rw e (
      keeps_run IsSound (claim_multipart_tx now spec) db h λ locked found idle.
        After-claim_session Kept spec (take_multipart now spec)
          (find_where (λ u. session_of spec.key spec.file_id true u && open_or_completing u)
            db.uploads)
          db
          λ u at o live won.
            taken-IsSound now spec (s3_opened spec.file_id) (λ u e. ground arith) db h
              (hit _ db.leases live) (hit _ db.uploads won))
  | inr e ↦ rw e (
      keeps_run IsSound (claim_single_tx now spec) db h λ fits.
        After-claim_session Kept spec (take_single now spec)
          (find_where (session_of spec.key spec.file_id false) db.uploads) db
          λ u at o live.
            taken-IsSound now spec (s3_upload spec.file_id) (λ u e. e) db h (hit _ db.leases live)
              (exists_mono (session_of spec.key spec.file_id false) (s3_upload spec.file_id)
                db.uploads (λ r q. ground arith) (find_where-some _ db.uploads at).1))
]

pub claim_upload_part-IsSound :
    (now : Clock) (client key : Text) (id lease part ttl : ℕ) (db : Db)
    → IsSound db
    → IsSound (claim_upload_part now client key id lease part ttl db).1
unfolding claim_upload_part
claim_upload_part-IsSound now client key id lease part ttl db h =
    keeps_run IsSound (claim_upload_part_tx now client key id lease part ttl) db h
      λ locked session renewed claimed.
        IsSound-same h refl refl refl (λ k. writable_same k _ _ _ (λ r. refl))

pub renew_upload_part_lease-IsSound :
    (now : Clock) (id lease part ttl : ℕ) (db : Db)
    → IsSound db
    → IsSound (renew_upload_part_lease now id lease part ttl db).1
unfolding renew_upload_part_lease
renew_upload_part_lease-IsSound now id lease part ttl db h =
    keeps_run IsSound (renew_upload_part_lease_tx now id lease part ttl) db h
      λ locked owned renewed. IsSound-same h refl refl refl (λ k. writable_same k _ _ _ (λ r. refl))

pub finish_upload_part-IsSound :
    (id lease part size : ℕ) (md5 : Text) (db : Db)
    → IsSound db
    → IsSound (finish_upload_part id lease part size md5 db).1
unfolding finish_upload_part
finish_upload_part-IsSound id lease part size md5 db h =
    keeps_run IsSound (finish_upload_part_tx id lease part size md5) db h
      λ locked session finished. IsSound-same h refl refl refl (λ k. refl)

pub cancel_upload_part-IsSound :
    (id lease part : ℕ) (db : Db) → IsSound db → IsSound (cancel_upload_part id lease part db).1
unfolding cancel_upload_part
cancel_upload_part-IsSound id lease part db h = IsSound-same h refl refl refl (λ k. refl)

pub claim_abort-IsSound :
    (now : Clock) (client key : Text) (id : ℕ) (db : Db)
    → IsSound db
    → IsSound (claim_abort now client key id db).1
unfolding claim_abort
claim_abort-IsSound now client key id db h =
    keeps_run IsSound (claim_abort_tx now client key id) db h λ locked session idle changed.
      IsSound-by id h h.one_file (Distinct-update _ _ _ _ (λ r. refl) h.one_upload)
        (λ k ne. record {
          file = refl;
          here = refl;
          lease = refl;
          upload = row_at-update_other _ id k _ _ _ (λ r. refl) (λ r e. ground arith) ne;
        })
        (let (u, uat, uwas, now_at) =
            row_at-update_hit (λ (u : Upload). u.file_id) id (keyed_multipart key id)
              (start_cleaning now.tx_now) db.uploads h.one_upload (λ r. refl) (λ r e. ground arith)
              (hit _ db.uploads changed) in
          rw now_at (ground (arith, uat, uwas, h.at id)))
