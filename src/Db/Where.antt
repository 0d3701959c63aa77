-- ===== src/Db/Where.antt =====
-- WHERE clauses that the statements of db/src/files and db/src/s3_registry share.
use grove_storage.Prelude.{ℕ, Bool, ◌&&◌, ◌==◌, ltb, is_none, is_some}
use grove_storage.Db.Schema.{
  File, Location, Lease, LeasePart, Upload, is_pending, is_write, is_issued, is_claimed, is_native,
  is_completing, is_s3,
}

-- `id = $1 AND state = 'pending'`.
abbrev pub pending_file : ℕ → File → Bool
pending_file id f = f.id == id && is_pending f.state

-- The same `AND part_size IS NOT NULL`, and `AND part_size IS NULL`.
abbrev pub pending_multipart : ℕ → File → Bool
pending_multipart id f = f.id == id && is_pending f.state && is_some f.part_size

abbrev pub pending_single : ℕ → File → Bool
pending_single id f = f.id == id && is_pending f.state && is_none f.part_size

-- `file_id = $1` of a location, and of an upload.
abbrev pub location_of : ℕ → Location → Bool
location_of id l = l.file_id == id

abbrev pub upload_of : ℕ → Upload → Bool
upload_of id u = u.file_id == id

abbrev pub native_upload : ℕ → Upload → Bool
native_upload id u = u.file_id == id && is_native u.protocol

abbrev pub s3_upload : ℕ → Upload → Bool
s3_upload id u = u.file_id == id && is_s3 u.protocol

abbrev pub native_completing : ℕ → Upload → Bool
native_completing id u = u.file_id == id && is_native u.protocol && is_completing u.state

-- `file_id = $1 AND kind = 'write'`, `AND state = 'issued'`, `AND expires_at < now`.
abbrev pub write_lease_of : ℕ → Lease → Bool
write_lease_of id le = le.file_id == id && is_write le.kind

abbrev pub issued_write : ℕ → Lease → Bool
issued_write id le = le.file_id == id && is_write le.kind && is_issued le.state

abbrev pub expired_write : ℕ → ℕ → Lease → Bool
expired_write now id le =
    le.file_id == id && is_write le.kind && is_issued le.state && ltb le.expires_at now

-- `lease_id = $2 AND part_no = $3`, and `AND state = 'claimed'`.
abbrev pub part_at : ℕ → ℕ → LeasePart → Bool
part_at lease number p = p.lease_id == lease && p.part_no == number

abbrev pub claimed_part : ℕ → ℕ → LeasePart → Bool
claimed_part lease number p = p.lease_id == lease && p.part_no == number && is_claimed p.state
