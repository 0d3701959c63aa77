-- ===== src/Db/View.antt =====
-- What the tables hold of one file, through the tests of the statements.
use grove_storage.Prelude.{ℕ, Bool, Option}
use grove_storage.Table.{exists_where}
use grove_storage.Table.Keyed.{row_at}
use grove_storage.Db.Schema.{Db, File, Upload}
use grove_storage.Db.Where.{location_of, issued_write}

abbrev pub file_at : ℕ → Db → Option File
file_at k db = row_at (λ (f : File). f.id) k db.files

abbrev pub upload_at : ℕ → Db → Option Upload
upload_at k db = row_at (λ (u : Upload). u.file_id) k db.uploads

abbrev pub located : ℕ → Db → Bool
located k db = exists_where (location_of k) db.locations

abbrev pub writable : ℕ → Db → Bool
writable k db = exists_where (issued_write k) db.leases
