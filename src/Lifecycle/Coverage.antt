-- ===== src/Lifecycle/Coverage.antt =====
-- Every pending file whose write lease has expired is found by a scan of the reconciler.
use grove_storage.Prelude.{
  ℕ, ◌≡◌, ◌≤◌, refl, ◌∙◌, Bool, true, false, Option, none, some, List, [], ◌∷◌, arith, ◌&&◌, ◌||◌,
  ◌==◌, any, length, leb, inl, inr, Option-cases,
}
use grove_storage.Table.{exists_where, select_where, exists_mono}
use grove_storage.Table.Keyed.{row_at-key, exists-eq-row_at}
use grove_storage.Table.Scan.{Ranked, for_each, page, any-page, any-for_each, any-join}
use grove_storage.Db.Schema.{
  Db, File, Upload, UploadState, Protocol, Lease, Location, is_pending, is_opened, native, s3,
  opened, completing, cleaning,
}
use grove_storage.Db.Where.{pending_file, expired_write, upload_of, location_of, write_lease_of}
use grove_storage.Db.View.{file_at, upload_at, located, writable}
use grove_storage.Files.Sweep.{SweepCandidate}
use grove_storage.Files.Candidates.{
  CompletionCandidate, expired_pending, pending_unowned, completion_candidates, completing_due,
  cleaning_due, cleanup_candidates,
}
use grove_storage.Registry.Candidates
use grove_storage.Lifecycle.Invariant.{IsSound, shape_ok, file_ok}
use grove_storage.Lifecycle.Views.{owned_row}
use grove_storage.Lifecycle.Allowed.{pending_test}

-- The scans that look for a file whose write lease has expired, by the state of its upload. The
-- scan without an order takes every row.
abbrev pub scanned : ℕ → ℕ → ℕ → Db → Bool
scanned limit now id db =
    any (λ (c : SweepCandidate). c.file_id == id) (expired_pending limit now db)
    || any (λ (c : CompletionCandidate). c.file_id == id) (completion_candidates limit now db)
    || any (λ (c : SweepCandidate). c.file_id == id) (cleanup_candidates limit now db)
    || any (λ k. k == id) (Candidates.expired_open_uploads (λ x. true) now db)
    || any (λ (c : Candidates.CompletionCandidate). c.file_id == id)
        (Candidates.completion_candidates limit now db)
    || any (λ (c : SweepCandidate). c.file_id == id) (Candidates.cleanup_candidates limit now db)

-- An upload that is not open is due.
abbrev pub due_upload : ℕ → Option Upload → Bool
due_upload now none = true
due_upload now (some u) = is_opened u.state || leb u.recovery_after now

-- A scan that finds the file in some page finds it in every longer one.
paged :
    {C : Type 0} (p : C → Bool) (rows : List (Ranked C))
    → any (λ (r : Ranked C). p r.item) rows ≡ true
    → (n : ℕ) × ((limit : ℕ) → n ≤ limit → any p (page limit rows) ≡ true)
paged p rows h = (length rows, λ limit long. any-page p limit rows long ∙ h)

module _ (now id : ℕ) (db : Db) (lapsed : exists_where (expired_write now id) db.leases ≡ true)
    (here : exists_where (location_of id) db.locations ≡ true)
    (pends : exists_where (pending_file id) db.files ≡ true) where
  -- What is found from some limit on.
  abbrev Found : (ℕ → Bool) → Type 0
  Found in_page = (n : ℕ) × ((limit : ℕ) → n ≤ limit → in_page limit ≡ true)

  live_lease : exists_where (write_lease_of id) db.leases ≡ true
  live_lease =
      exists_mono (expired_write now id) (write_lease_of id) db.leases (λ r e. ground arith) lapsed

  expired_pending-Found :
      exists_where (upload_of id) db.uploads ≡ false
      → Found
          (λ limit. any (λ (c : SweepCandidate). c.file_id == id) (expired_pending limit now db))
  unfolding expired_pending
  expired_pending-Found free =
      paged (λ (c : SweepCandidate). c.file_id == id) _
        (any-for_each (pending_unowned db) (λ (f : File). f.id == id) _ db.files _
          (λ f pf mine.
            let same : f.id ≡ id = ground arith in
            any-join (expired_write now f.id) _ db.leases _
              (λ le old.
                any-join (location_of f.id) _ db.locations _ (λ l at. rw mine refl) (rw same here))
              (rw same lapsed))
          (exists_mono (pending_file id) (λ f. pending_unowned db f && f.id == id) db.files
            (λ f e. let same : f.id ≡ id = ground arith in rw (same, free) (ground (arith, e)))
            pends))

  module _ (test : Upload → Bool)
      (matched : exists_where (λ u. test u && u.file_id == id) db.uploads ≡ true) where
    -- The JOINs of the scans for completions: file, location and expired lease.
    completing_join :
        {C : Type 0} (p : C → Bool) (row : Upload → File → Location → Lease → C)
        → ((u : Upload)
            → u.file_id ≡ id
            → (f : File) (l : Location) (le : Lease) → p (row u f l le) ≡ true)
        → any p (
            for_each (select_where test db.uploads) λ u.
              for_each (select_where (pending_file u.file_id) db.files) λ f.
                for_each (select_where (location_of u.file_id) db.locations) λ l.
                  for_each
                    (select_where (expired_write now u.file_id) db.leases)
                    λ le. row u f l le ∷ [])
          ≡ true
    completing_join p row h =
        any-for_each test (λ (u : Upload). u.file_id == id) p db.uploads _
          (λ u tu mine.
            let same : u.file_id ≡ id = ground arith in
            any-join (pending_file u.file_id) p db.files _
              (λ f pf.
                any-join (location_of u.file_id) p db.locations _
                  (λ l at.
                    any-join (expired_write now u.file_id) p db.leases _
                      (λ le old. rw (h u same f l le) refl) (rw same lapsed))
                  (rw same here))
              (rw same pends))
          matched

    cleaning_join :
        {C : Type 0} (p : C → Bool) (row : Upload → Location → Lease → C)
        → ((u : Upload) → u.file_id ≡ id → (l : Location) (le : Lease) → p (row u l le) ≡ true)
        → any p (
            for_each (select_where test db.uploads) λ u.
              for_each (select_where (location_of u.file_id) db.locations) λ l.
                for_each (select_where (write_lease_of u.file_id) db.leases) λ le. row u l le ∷ [])
          ≡ true
    cleaning_join p row h =
        any-for_each test (λ (u : Upload). u.file_id == id) p db.uploads _
          (λ u tu mine.
            let same : u.file_id ≡ id = ground arith in
            any-join (location_of u.file_id) p db.locations _
              (λ l at.
                any-join (write_lease_of u.file_id) p db.leases _
                  (λ le old. rw (h u same l le) refl) (rw same live_lease))
              (rw same here))
          matched

    opened_join :
        any
          (λ k. k == id)
          (for_each (select_where test db.uploads) λ u.
            for_each
              (select_where (pending_file u.file_id) db.files)
              λ f. for_each (select_where (expired_write now f.id) db.leases) λ le. u.file_id ∷ [])
        ≡ true
    opened_join =
        any-for_each test (λ (u : Upload). u.file_id == id) (λ k. k == id) db.uploads _
          (λ u tu mine.
            let same : u.file_id ≡ id = ground arith in
            any-join (pending_file u.file_id) (λ k. k == id) db.files _
              (λ f pf.
                let its : f.id ≡ id = ground (arith, pf, same) in
                any-join (expired_write now f.id) (λ k. k == id) db.leases _
                  (λ le old. rw mine refl) (rw its lapsed))
              (rw same pends))
          matched

  abbrev Matched : (Upload → Bool) → Type 0
  Matched test = exists_where (λ u. test u && u.file_id == id) db.uploads ≡ true

  native_completing-Found :
      Matched (completing_due now)
      → Found (λ limit.
        any (λ (c : CompletionCandidate). c.file_id == id) (completion_candidates limit now db))
  unfolding completion_candidates
  native_completing-Found matched =
      paged (λ (c : CompletionCandidate). c.file_id == id) _
        (completing_join (completing_due now) matched _ _ (λ u same f l le. ground arith))

  native_cleaning-Found :
      Matched (cleaning_due now)
      → Found
          (λ limit. any (λ (c : SweepCandidate). c.file_id == id) (cleanup_candidates limit now db))
  unfolding cleanup_candidates
  native_cleaning-Found matched =
      paged (λ (c : SweepCandidate). c.file_id == id) _
        (cleaning_join (cleaning_due now) matched _ _ (λ u same l le. ground arith))

  s3_completing-Found :
      Matched (Candidates.s3_completing_due now)
      → Found (λ limit.
        any
          (λ (c : Candidates.CompletionCandidate). c.file_id == id)
          (Candidates.completion_candidates limit now db))
  unfolding Candidates.completion_candidates
  s3_completing-Found matched =
      paged (λ (c : Candidates.CompletionCandidate). c.file_id == id) _
        (completing_join (Candidates.s3_completing_due now) matched _ _
          (λ u same f l le. ground arith))

  s3_cleaning-Found :
      Matched (Candidates.s3_cleaning_due now)
      → Found (λ limit.
        any (λ (c : SweepCandidate). c.file_id == id) (Candidates.cleanup_candidates limit now db))
  unfolding Candidates.cleanup_candidates
  s3_cleaning-Found matched =
      paged (λ (c : SweepCandidate). c.file_id == id) _
        (cleaning_join (Candidates.s3_cleaning_due now) matched _ _ (λ u same l le. ground arith))

  s3_opened-Found :
      Matched (λ u. Candidates.opened_s3 u && true)
      → Found (λ limit. any (λ k. k == id) (Candidates.expired_open_uploads (λ x. true) now db))
  unfolding Candidates.expired_open_uploads
  s3_opened-Found matched =
      (0, λ limit long. opened_join (λ u. Candidates.opened_s3 u && true) matched)

  -- The scan that finds the file of an upload, by its protocol and state.
  upload_scanned :
      (u : Upload) (p : Protocol) (s : UploadState)
      → ((test : Upload → Bool) → test u ≡ true → Matched test)
      → u.protocol ≡ p
      → u.state ≡ s
      → shape_ok u ≡ true
      → (is_opened u.state || leb u.recovery_after now) ≡ true
      → Found (λ limit. scanned limit now id db)
  upload_scanned u native opened at ep es shape due = absurd (ground (arith, ep, es, shape))
  upload_scanned u native completing at ep es shape due =
      let (n, found) =
        native_completing-Found (at (completing_due now) (ground (arith, ep, es, due))) in
      (n, λ limit long. ground (arith, found limit long))
  upload_scanned u native cleaning at ep es shape due =
      let (n, found) =
        native_cleaning-Found (at (cleaning_due now) (ground (arith, ep, es, due))) in
      (n, λ limit long. ground (arith, found limit long))
  upload_scanned u s3 opened at ep es shape due =
      let (n, found) =
        s3_opened-Found (at (λ u. Candidates.opened_s3 u && true) (ground (arith, ep, es))) in
      (n, λ limit long. ground (arith, found limit long))
  upload_scanned u s3 completing at ep es shape due =
      let (n, found) =
        s3_completing-Found (at (Candidates.s3_completing_due now) (ground (arith, ep, es, due))) in
      (n, λ limit long. ground (arith, found limit long))
  upload_scanned u s3 cleaning at ep es shape due =
      let (n, found) =
        s3_cleaning-Found (at (Candidates.s3_cleaning_due now) (ground (arith, ep, es, due))) in
      (n, λ limit long. ground (arith, found limit long))

-- In a sound database, a pending file whose write lease has expired, and whose upload, if it has
-- one, is open or due, is found by one of the scans of the reconciler, for every limit from some
-- limit on.
pub expired-scanned :
    (now id : ℕ) (db : Db) (f : File)
    → IsSound db
    → file_at id db ≡ some f
    → is_pending f.state ≡ true
    → exists_where (expired_write now id) db.leases ≡ true
    → due_upload now (upload_at id db) ≡ true
    → (n : ℕ) × ((limit : ℕ) → n ≤ limit → scanned limit now id db ≡ true)
expired-scanned now id db f h at pending_now lapsed due =
    let pends : exists_where (pending_file id) db.files ≡ true =
      pending_test id db h ∙ rw at pending_now in
    let view : file_ok f (located id db) (writable id db) (upload_at id db) ≡ true =
      rw at at (h.at id) in
    let here : located id db ≡ true = ground (arith, view, pending_now) in
    elim (Option-cases (upload_at id db)) [
      | inl e ↦
          let (n, found) =
            expired_pending-Found now id db lapsed here pends (owned_row id db h ∙ rw e refl) in
          (n, λ limit long. ground (arith, found limit long))
      | inr (u, e) ↦
          let view' : file_ok f (located id db) (writable id db) (some u) ≡ true = rw e at view in
          upload_scanned now id db lapsed here pends u u.protocol u.state
            (λ test t.
              exists-eq-row_at (λ (u : Upload). u.file_id) id (λ u. test u && u.file_id == id)
                db.uploads h.one_upload (λ v q. ground arith)
              ∙ rw e (ground (arith, t, row_at-key (λ (u : Upload). u.file_id) id db.uploads e)))
            refl refl (ground (arith, view', pending_now)) (rw e at due)
    ]
