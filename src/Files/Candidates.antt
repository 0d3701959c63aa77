-- ===== src/Files/Candidates.antt =====
-- The scans of the reconciler in backend/crates/db/src/files (commit.rs, completion.rs,
-- reclaim_cleanup.rs, sweep.rs), and the read behind `access` (access.rs). The row of a location's
-- storage is found by its id: the schema keeps a storage that a location refers to.
use grove_storage.Prelude.{
  ℕ, Bool, true, false, ◌&&◌, not, Option, some, none, List, [], ◌∷◌, Text, leb, is_some, is_none,
}
use mathlib.Core.Option
use grove_storage.Table.{exists_where, find_where, select_where}
use grove_storage.Table.Scan.{Ranked, for_each, or_null, page}
use grove_storage.Db.Schema.{
  Db, File, FileState, Location, Lease, Upload, is_pending, is_deleted, is_reclaimed, is_completing,
  is_cleaning, is_native,
}
use grove_storage.Db.Where.{location_of, upload_of, write_lease_of, expired_write, pending_file}
use grove_storage.Files.Sweep.{SweepCandidate, file_of}
use grove_storage.Files.Recovery.{live_write}

pub record ObservedCommitCandidate : Type 0 where
  pub file_id : ℕ
  pub declared_size : ℕ
  pub declared_md5 : Option Text
  pub object_key : Text
  pub storage : Text

abbrev pub single_due : ℕ → Db → File → Bool
single_due now db f =
    is_pending f.state
    && is_none f.part_size
    && not (exists_where (upload_of f.id) db.uploads)
    && leb f.recovery_after now

abbrev observed_row : File → Location → Ranked (ℕ × ℕ × Option Text × Text)
observed_row f l = record {
  due = f.recovery_after;
  tie = f.id;
  item = (f.id, f.declared_size, f.declared_md5, l.object_key);
}

-- The first query of `observed_commit_candidates`.
unfoldable pub observed_rows : ℕ → ℕ → Db → List (ℕ × ℕ × Option Text × Text)
unfolding for_each select_where page
observed_rows limit now db = page limit (
    for_each (select_where (single_due now db) db.files) λ f.
      for_each (select_where (location_of f.id) db.locations)
        λ l. for_each (select_where (live_write now f.id) db.leases) λ le. observed_row f l ∷ [])

-- The second one, for each row: a location that went meanwhile is passed over.
abbrev pub with_location :
    ℕ × ℕ × Option Text × Text → Option Location → Option ObservedCommitCandidate
with_location row none = none
with_location (file_id, size, md5, key) (some l) = some (record {
  file_id = file_id;
  declared_size = size;
  declared_md5 = md5;
  object_key = key;
  storage = l.storage_id;
})

unfoldable pub observed_candidate : ℕ × ℕ × Option Text × Text → Db → Option ObservedCommitCandidate
observed_candidate row db = with_location row (find_where (location_of row.0) db.locations)

pub record CompletionCandidate : Type 0 where
  pub file_id : ℕ
  pub expected_size : ℕ
  pub expected_etag : Option Text
  pub storage_id : Text
  pub object_key : Text

abbrev pub completing_due : ℕ → Upload → Bool
completing_due now u = is_native u.protocol && is_completing u.state && leb u.recovery_after now

unfoldable pub completion_candidates : ℕ → ℕ → Db → List CompletionCandidate
unfolding for_each select_where page
completion_candidates limit now db = page limit (
    for_each (select_where (completing_due now) db.uploads) λ u.
      for_each (select_where (pending_file u.file_id) db.files) λ f.
        for_each (select_where (location_of u.file_id) db.locations) λ l.
          for_each (select_where (expired_write now u.file_id) db.leases) λ le.
            record {
              due = u.recovery_after;
              tie = u.file_id;
              item = record {
                file_id = u.file_id;
                expected_size = f.declared_size;
                expected_etag = u.expected_etag;
                storage_id = l.storage_id;
                object_key = l.object_key;
              };
            }
            ∷ [])

abbrev pub candidate : ℕ → Location → Option Lease → Bool → SweepCandidate
candidate file_id l le multipart = record {
  file_id = file_id;
  storage_id = l.storage_id;
  object_key = l.object_key;
  upload_id = Option.bind le (λ (x : Lease). x.upload_id);
  write_lease_id = Option.map (λ (x : Lease). x.id) le;
  multipart = multipart;
}

abbrev pub ranked : ℕ → SweepCandidate → Ranked SweepCandidate
ranked due c = record { due = due; tie = c.file_id; item = c }

abbrev pub cleaning_due : ℕ → Upload → Bool
cleaning_due now u = is_native u.protocol && is_cleaning u.state && leb u.recovery_after now

unfoldable pub cleanup_candidates : ℕ → ℕ → Db → List SweepCandidate
unfolding for_each select_where page
cleanup_candidates limit now db = page limit (
    for_each (select_where (cleaning_due now) db.uploads) λ u.
      for_each (select_where (location_of u.file_id) db.locations) λ l.
        for_each (select_where (write_lease_of u.file_id) db.leases)
          λ le. ranked u.recovery_after (candidate u.file_id l (some le) true) ∷ [])

abbrev pub in_state_due : (FileState → Bool) → ℕ → Db → File → Bool
in_state_due in_state now db f =
    in_state f.state && leb f.recovery_after now && not (exists_where (upload_of f.id) db.uploads)

unfoldable pub reclaim_cleanup_candidates : ℕ → ℕ → Db → List SweepCandidate
unfolding for_each select_where page
reclaim_cleanup_candidates limit now db = page limit (
    for_each (select_where (in_state_due is_reclaimed now db) db.files) λ f.
      for_each (select_where (location_of f.id) db.locations) λ l.
        for_each (or_null (select_where (write_lease_of f.id) db.leases))
          λ le. ranked f.recovery_after (candidate f.id l le (is_some f.part_size)) ∷ [])

abbrev pub pending_unowned : Db → File → Bool
pending_unowned db f = is_pending f.state && not (exists_where (upload_of f.id) db.uploads)

unfoldable pub expired_pending : ℕ → ℕ → Db → List SweepCandidate
unfolding for_each select_where page
expired_pending limit now db = page limit (
    for_each (select_where (pending_unowned db) db.files) λ f.
      for_each (select_where (expired_write now f.id) db.leases) λ le.
        for_each (select_where (location_of f.id) db.locations)
          λ l. ranked le.expires_at (candidate f.id l (some le) (is_some f.part_size)) ∷ [])

abbrev pub candidate_from : ℕ → Location → SweepCandidate
candidate_from file_id l = candidate file_id l none false

unfoldable pub purgeable : ℕ → ℕ → Db → List SweepCandidate
unfolding for_each select_where page
purgeable limit now db = page limit (
    for_each (select_where (in_state_due is_deleted now db) db.files) λ f.
      for_each (select_where (location_of f.id) db.locations)
        λ l. ranked f.recovery_after (candidate_from f.id l) ∷ [])

-- `access`: the file of a client with the place of its object.
unfoldable pub access : Text → ℕ → Db → Option (File × Location)
access client_id file_id db = placed (find_where (file_of client_id file_id) db.files)
  where
    beside : File → Option Location → Option (File × Location)
    beside f none = none
    beside f (some l) = some (f, l)

    placed : Option File → Option (File × Location)
    placed none = none
    placed (some f) = beside f (find_where (location_of file_id) db.locations)
