-- ===== src/Lifecycle/Allowed.antt =====
-- When the transitions of Races take place, by the rows of their file.
use grove_storage.Prelude.{
  ℕ, List, ◌≡◌, refl, ◌∙◌, Bool, true, false, Option, none, some, arith, Text, ◌&&◌, ◌==◌, not, inl,
  inr, Bool-cases, is_none, Option-cases, ltb, eq_ignore_ascii_case,
}
use grove_storage.Table.{exists_where, affected, affected_of_none, affected_of_exists, exists_congr}
use grove_storage.Table.Keyed.{row_at-key, exists-eq-row_at}
use grove_storage.Db.Schema.{
  Db, File, Upload, Lease, Protocol, native, s3, UploadState, opened, completing, cleaning,
  is_pending, is_native, is_s3, is_opened, is_completing, is_cleaning, is_write, is_issued,
}
use grove_storage.Db.Where.{pending_file, expired_write, upload_of, s3_upload}
use grove_storage.Db.View.{file_at, upload_at}
use grove_storage.Db.Tx.{ok}
use grove_storage.Files.Commit.{finalize_commit_tx}
use grove_storage.Files.Sweep.{finalize_reclaim_tx, reclaim_pending_tx}
use grove_storage.Files.Completion.{
  finalize_completion_tx, finalize_cleanup_tx, agreeing, native_cleaning, expects,
}
use grove_storage.Registry.Finish.{finalize_reclaimed_upload_tx}
use grove_storage.Lifecycle.Invariant.{IsSound}
use grove_storage.Lifecycle.Views.{owned_row}
use grove_storage.Lifecycle.Races.{
  Transition, attempt, commit, reclaim, discard, complete, clean, abort, unstarted,
}

-- When a transition may take place: by the rows of the file and its upload, and a write lease of the
-- file that is issued and whose time is before that of the transaction.
abbrev pub lapsed : ℕ → ℕ → Lease → Bool
lapsed now id le =
    le.file_id == id && is_write le.kind && is_issued le.state && ltb le.expires_at now

-- An upload of the protocol in the state.
abbrev pub session_is : Protocol → UploadState → Upload → Bool
session_is protocol state u = same_protocol protocol u.protocol && same_state state u.state
  where
    same_protocol : Protocol → Protocol → Bool
    same_protocol native native = true
    same_protocol s3 s3 = true
    same_protocol native s3 = false
    same_protocol s3 native = false

    same_state : UploadState → UploadState → Bool
    same_state opened opened = true
    same_state completing completing = true
    same_state cleaning cleaning = true
    same_state _ _ = false

-- The expected ETag, which differs in case at most.
abbrev pub expected : Text → Option Text → Bool
expected etag none = false
expected etag (some e) = eq_ignore_ascii_case e etag

abbrev pub allowed : Transition → ℕ → Option File → Option Upload → Db → Bool
allowed t id none u db = false
allowed (commit now etag) id (some f) u db = is_pending f.state && is_none u
allowed (reclaim now) id (some f) u db =
    is_pending f.state && is_none u && exists_where (lapsed now.tx_now id) db.leases
allowed discard id (some f) u db = is_pending f.state && is_none u
allowed (complete now etag) id (some f) none db = false
allowed (complete now etag) id (some f) (some u) db =
    is_pending f.state && session_is native completing u && expected etag u.expected_etag
allowed clean id (some f) none db = false
allowed clean id (some f) (some u) db = is_pending f.state && session_is native cleaning u
allowed abort id (some f) none db = false
allowed abort id (some f) (some u) db = is_pending f.state && session_is s3 cleaning u
allowed unstarted id (some f) none db = false
allowed unstarted id (some f) (some u) db = is_pending f.state && session_is s3 opened u

hit-exists :
    {A : Type 0} (p : A → Bool) (rs : List A) → not (affected p rs == 0) ≡ exists_where p rs
hit-exists p rs = elim (Bool-cases (exists_where p rs)) [
  | inl t ↦ ground (arith, t, affected_of_exists p rs t)
  | inr f ↦ ground (arith, f, affected_of_none p rs f)
]

file_test :
    (id : ℕ) (b : Bool) (db : Db)
    → IsSound db
    → not (affected (λ f. pending_file id f && b) db.files == 0)
      ≡ elim (file_at id db) [ none ↦ false | some f ↦ is_pending f.state && b ]
file_test id b db h =
    hit-exists _ db.files
    ∙ exists-eq-row_at (λ (f : File). f.id) id (λ f. pending_file id f && b) db.files h.one_file
        (λ r e. ground arith)
    ∙ elim (Option-cases (file_at id db)) [
      | inl e ↦ rw e refl
      | inr (f, e) ↦ rw e (ground (arith, row_at-key (λ (f : File). f.id) id db.files e))
    ]

upload_test :
    (id : ℕ) (p : Upload → Bool) (db : Db)
    → IsSound db
    → exists_where (λ u. u.file_id == id && p u) db.uploads
      ≡ elim (upload_at id db) [ none ↦ false | some u ↦ p u ]
upload_test id p db h =
    exists-eq-row_at (λ (u : Upload). u.file_id) id (λ u. u.file_id == id && p u) db.uploads
      h.one_upload (λ r e. ground arith)
    ∙ elim (Option-cases (upload_at id db)) [
      | inl e ↦ rw e refl
      | inr (u, e) ↦ rw e (ground (arith, row_at-key (λ (u : Upload). u.file_id) id db.uploads e))
    ]

pub pending_test :
    (id : ℕ) (db : Db)
    → IsSound db
    → exists_where (pending_file id) db.files
      ≡ elim (file_at id db) [ none ↦ false | some f ↦ is_pending f.state ]
pending_test id db h =
    exists-eq-row_at (λ (f : File). f.id) id (pending_file id) db.files h.one_file
      (λ r e. ground arith)
    ∙ elim (Option-cases (file_at id db)) [
      | inl e ↦ rw e refl
      | inr (f, e) ↦ rw e (ground (arith, row_at-key (λ (f : File). f.id) id db.files e))
    ]

-- In a sound database each of the seven transitions (finalize_commit,
-- finalize_reclaim, reclaim_pending, finalize_completion, finalize_cleanup, finalize_abort,
-- discard_unstarted_upload) answers exactly whether it is allowed: by the
-- state of its file, by the protocol, state and expected ETag of its upload, and, for
-- finalize_reclaim, by an issued write lease of the file whose time has passed.
pub attempt-allowed :
    (t : Transition) (id : ℕ) (db : Db)
    → IsSound db
    → (attempt t id db).0 ≡ ok (allowed t id (file_at id db) (upload_at id db) db)
unfolding attempt finalize_commit_tx finalize_reclaim_tx reclaim_pending_tx finalize_completion_tx
    finalize_cleanup_tx finalize_reclaimed_upload_tx
attempt-allowed (commit now etag) id db h =
    let owned = owned_row id db h in
    rw (file_test id (not (exists_where (upload_of id) db.uploads)) db h) (ground (arith, owned))
attempt-allowed (reclaim now) id db h =
    let owned = owned_row id db h in
    let late = hit-exists (expired_write now.tx_now id) db.leases in
    rw (file_test id (not (exists_where (upload_of id) db.uploads)) db h, late)
      (ground (arith, owned))
attempt-allowed discard id db h =
    let owned = owned_row id db h in
    rw (file_test id (not (exists_where (upload_of id) db.uploads)) db h) (ground (arith, owned))
attempt-allowed (complete now etag) id db h =
    let agreed =
      upload_test id (λ u. is_native u.protocol && is_completing u.state && expects etag u) db h in
    let same =
      exists_congr (agreeing id etag)
        (λ u. u.file_id == id && (is_native u.protocol && is_completing u.state && expects etag u))
        db.uploads (λ u. ground arith) in
    rw (file_test id (exists_where (agreeing id etag) db.uploads) db h, pending_test id db h)
      (ground (arith, agreed, same))
attempt-allowed clean id db h =
    let cleaned = upload_test id (λ u. is_native u.protocol && is_cleaning u.state) db h in
    rw (file_test id (exists_where (native_cleaning id) db.uploads) db h) (ground (arith, cleaned))
attempt-allowed abort id db h =
    let aborted = upload_test id (λ u. is_s3 u.protocol && is_cleaning u.state) db h in
    let same =
      exists_congr (λ u. s3_upload id u && is_cleaning u.state)
        (λ u. u.file_id == id && (is_s3 u.protocol && is_cleaning u.state)) db.uploads
        (λ u. ground arith) in
    rw (file_test id (exists_where (λ u. s3_upload id u && is_cleaning u.state) db.uploads) db h)
      (ground (arith, aborted, same))
attempt-allowed unstarted id db h =
    let begun = upload_test id (λ u. is_s3 u.protocol && is_opened u.state) db h in
    let same =
      exists_congr (λ u. s3_upload id u && is_opened u.state)
        (λ u. u.file_id == id && (is_s3 u.protocol && is_opened u.state)) db.uploads
        (λ u. ground arith) in
    rw (file_test id (exists_where (λ u. s3_upload id u && is_opened u.state) db.uploads) db h)
      (ground (arith, begun, same))
