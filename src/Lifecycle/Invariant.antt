-- ===== src/Lifecycle/Invariant.antt =====
-- What holds of every file between two operations.
use grove_storage.Prelude.{
  ℕ, ◌≡◌, Bool, true, false, Option, none, some, ◌&&◌, ◌||◌, is_some, is_none, not,
}
use grove_storage.Table.Keyed.{Distinct}
use grove_storage.Db.Schema.{
  Db, File, Upload, pending, active, deleted, reclaimed, native, s3, opened, completing, cleaning,
}
use grove_storage.Db.View.{file_at, upload_at, located, writable}

abbrev pub being_cleaned : Option Upload → Bool
being_cleaned none = false
being_cleaned (some u) = elim u.state [ cleaning ↦ true | _ ↦ false ]

-- The constraint `uploads_protocol_shape` of 0006_upload_ownership.sql.
abbrev pub shape_ok : Upload → Bool
shape_ok u = elim u.protocol [
  | native ↦
      is_none u.key
      && u.multipart
      && not u.if_none_match
      && is_none u.expected_size
      && is_some u.expected_etag
      && elim u.state [ opened ↦ false | _ ↦ true ]
  | s3 ↦ is_some u.key && elim u.state [
    | completing ↦ is_some u.expected_size && is_some u.expected_etag
    | _ ↦ is_none u.expected_size && is_none u.expected_etag
  ]
]

abbrev pub upload_ok : Option Upload → Bool
upload_ok none = true
upload_ok (some u) = shape_ok u

-- A pending file has its location, and a write lease that is still issued unless its upload is
-- being cleaned; an active file has its location, an ETag and a commit time, and no upload; a
-- deleted file has no upload and both its times; a reclaimed file has no upload.
abbrev pub file_ok : File → Bool → Bool → Option Upload → Bool
file_ok f here lease u = elim f.state [
  | pending ↦ here && (lease || being_cleaned u) && upload_ok u
  | active ↦ here && is_some f.etag && is_some f.committed_at && is_none u
  | deleted ↦ is_some f.etag && is_some f.committed_at && is_some f.deleted_at && is_none u
  | reclaimed ↦ is_none u
]

abbrev pub view_ok : Option File → Bool → Bool → Option Upload → Bool
view_ok none here lease u = is_none u
view_ok (some f) here lease u = file_ok f here lease u

pub record IsSound (db : Db) : Type 0 where
  pub one_file : Distinct (λ (f : File). f.id) db.files
  pub one_upload : Distinct (λ (u : Upload). u.file_id) db.uploads
  pub at : (k : ℕ) → view_ok (file_at k db) (located k db) (writable k db) (upload_at k db) ≡ true
