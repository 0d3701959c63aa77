-- ===== src/Registry/Candidates.antt =====
-- The scans of the reconciler in backend/crates/db/src/s3_registry/uploads.rs.
use grove_storage.Prelude.{ℕ, Bool, ◌&&◌, Option, some, List, [], ◌∷◌, Text, leb}
use grove_storage.Table.{select_where}
use grove_storage.Table.Scan.{for_each, page}
use grove_storage.Db.Schema.{Db, Upload, is_s3, is_opened, is_completing, is_cleaning}
use grove_storage.Db.Where.{location_of, write_lease_of, expired_write, pending_file}
use grove_storage.Files.Sweep.{SweepCandidate}
use grove_storage.Files.Candidates.{candidate, ranked}

abbrev pub opened_s3 : Upload → Bool
opened_s3 u = is_s3 u.protocol && is_opened u.state

-- Without ORDER BY, the rows that the LIMIT picks are those that `picked` says.
unfoldable pub expired_open_uploads : (ℕ → Bool) → ℕ → Db → List ℕ
unfolding for_each select_where
expired_open_uploads picked now db =
    for_each (select_where (λ u. opened_s3 u && picked u.file_id) db.uploads) λ u.
      for_each (select_where (pending_file u.file_id) db.files)
        λ f. for_each (select_where (expired_write now f.id) db.leases) λ le. u.file_id ∷ []

abbrev pub s3_cleaning_due : ℕ → Upload → Bool
s3_cleaning_due now u = is_s3 u.protocol && is_cleaning u.state && leb u.recovery_after now

unfoldable pub cleanup_candidates : ℕ → ℕ → Db → List SweepCandidate
unfolding for_each select_where page
cleanup_candidates limit now db = page limit (
    for_each (select_where (s3_cleaning_due now) db.uploads) λ u.
      for_each (select_where (location_of u.file_id) db.locations) λ l.
        for_each (select_where (write_lease_of u.file_id) db.leases)
          λ le. ranked u.recovery_after (candidate u.file_id l (some le) u.multipart) ∷ [])

pub record CompletionCandidate : Type 0 where
  pub file_id : ℕ
  pub client_id : Text
  pub key : Option Text
  pub multipart : Bool
  pub expected_size : Option ℕ
  pub expected_etag : Option Text
  pub storage_id : Text
  pub object_key : Text

abbrev pub s3_completing_due : ℕ → Upload → Bool
s3_completing_due now u = is_s3 u.protocol && is_completing u.state && leb u.recovery_after now

unfoldable pub completion_candidates : ℕ → ℕ → Db → List CompletionCandidate
unfolding for_each select_where page
completion_candidates limit now db = page limit (
    for_each (select_where (s3_completing_due now) db.uploads) λ u.
      for_each (select_where (pending_file u.file_id) db.files) λ f.
        for_each (select_where (location_of u.file_id) db.locations) λ l.
          for_each (select_where (expired_write now u.file_id) db.leases) λ le.
            record {
              due = u.recovery_after;
              tie = u.file_id;
              item = record {
                file_id = u.file_id;
                client_id = f.client_id;
                key = u.key;
                multipart = u.multipart;
                expected_size = u.expected_size;
                expected_etag = u.expected_etag;
                storage_id = l.storage_id;
                object_key = l.object_key;
              };
            }
            ∷ [])
