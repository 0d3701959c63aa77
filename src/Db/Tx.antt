-- ===== src/Db/Tx.antt =====
-- A transaction of sqlx. A function that returns before `commit`, and one that fails, drops its
-- transaction, and PostgreSQL rolls back what it did.
use grove_storage.Prelude.{
  ℕ, Bool, [], ◌∷◌, ◌++◌, if◌then◌else◌, ◌==◌, not, ◌&&◌, ◌||◌, Text, text_eq,
}
use grove_storage.Table.{update_where, affected, delete_where, exists_where}
use grove_storage.Db.Where.{upload_of}
use grove_storage.Db.Schema.{
  Db, Client, File, Location, Lease, LeasePart, Upload, ObjectKey, LeaseHistory,
}

-- `locations` is unique by file, and by storage and object key.
abbrev pub clash : Location → Location → Bool
clash l m =
    m.file_id == l.file_id || text_eq m.storage_id l.storage_id && text_eq m.object_key l.object_key

abbrev pub key_at : Text → Text → ObjectKey → Bool
key_at client key k = text_eq k.client_id client && text_eq k.key key

pub data DbError : Type 0 where
  unique_violation foreign_key_violation row_not_found : DbError

pub data Reply (R : Type 0) : Type 0 where
  ok : R → Reply R
  err : DbError → Reply R

-- How a function ends before its commit.
pub data Exit (R : Type 0) : Type 0 where
  returns : R → Exit R
  fails : DbError → Exit R

-- A transaction of a function that returns `R`, seen from one database: it goes on with a value,
-- or ends without a commit, or tests whether to end before the rest.
pub data Step (R A : Type 0) : Type 0 where
  next : A → Db → Step R A
  stop : Exit R → Step R A
  check : Bool → Exit R → Step R A → Step R A

abbrev pub Tx : Type 0 → Type 0 → Type 0
Tx R A = Db → Step R A

abbrev pub bind : {R A B : Type 0} → Step R A → (A → Tx R B) → Step R B
bind (next a db) f = f a db
bind (stop x) f = stop x
bind (check b x s) f = check b x (bind s f)

infixl 5 ◌>>=◌ ◌>>◌
abbrev pub ◌>>=◌ : {R A B : Type 0} → Tx R A → (A → Tx R B) → Tx R B
◌>>=◌ m f db = bind (m db) f

-- `if !test { return Ok(r) }` before the rest: the test, and what is returned.
pub record Guard (R : Type 0) : Type 0 where
  pub test : Bool
  pub otherwise : Exit R

abbrev pub ◌>>◌ : {R A : Type 0} → Guard R → Tx R A → Tx R A
◌>>◌ g k db = check g.test g.otherwise (k db)

-- `tx.commit()` and the function's result.
abbrev pub commit : {R : Type 0} → R → Tx R R
commit r db = next r db

abbrev pub pure : {R A : Type 0} → A → Tx R A
pure a db = next a db

abbrev pub reads : {R A : Type 0} → (Db → A) → Tx R A
reads f db = next (f db) db

abbrev pub require : {R : Type 0} → Bool → R → Guard R
require b r = record { test = b; otherwise = returns r }

-- `if rows_affected() == 0 { return Ok(r) }`.
abbrev pub or_return : {R : Type 0} → R → ℕ → Guard R
or_return r n = record { test = not (n == 0); otherwise = returns r }

abbrev pub update_files : {R : Type 0} → (File → Bool) → (File → File) → Tx R ℕ
update_files p g db = next (affected p db.files) (record db { files = update_where p g db.files })

abbrev pub update_leases : {R : Type 0} → (Lease → Bool) → (Lease → Lease) → Tx R ℕ
update_leases p g db =
    next (affected p db.leases) (record db { leases = update_where p g db.leases })

abbrev pub update_parts : {R : Type 0} → (LeasePart → Bool) → (LeasePart → LeasePart) → Tx R ℕ
update_parts p g db = next (affected p db.parts) (record db { parts = update_where p g db.parts })

abbrev pub update_uploads : {R : Type 0} → (Upload → Bool) → (Upload → Upload) → Tx R ℕ
update_uploads p g db =
    next (affected p db.uploads) (record db { uploads = update_where p g db.uploads })

abbrev pub update_keys : {R : Type 0} → (ObjectKey → Bool) → (ObjectKey → ObjectKey) → Tx R ℕ
update_keys p g db = next (affected p db.keys) (record db { keys = update_where p g db.keys })

abbrev pub delete_locations : {R : Type 0} → (Location → Bool) → Tx R ℕ
delete_locations p db =
    next (affected p db.locations) (record db { locations = delete_where p db.locations })

abbrev pub delete_uploads : {R : Type 0} → (Upload → Bool) → Tx R ℕ
delete_uploads p db =
    next (affected p db.uploads) (record db { uploads = delete_where p db.uploads })

abbrev pub delete_parts : {R : Type 0} → (LeasePart → Bool) → Tx R ℕ
delete_parts p db = next (affected p db.parts) (record db { parts = delete_where p db.parts })

-- `INSERT INTO t`; a row that violates a unique constraint fails the transaction.
abbrev pub insert_file : {R : Type 0} → File → Tx R (Unit {0})
insert_file f db =
    check (not (exists_where (λ (g : File). g.id == f.id) db.files)) (fails unique_violation)
      (next tt (record db { files = db.files ++ f ∷ [] }))

abbrev pub insert_location : {R : Type 0} → Location → Tx R (Unit {0})
insert_location l db =
    check (not (exists_where (clash l) db.locations)) (fails unique_violation)
      (next tt (record db { locations = db.locations ++ l ∷ [] }))

abbrev pub insert_lease : {R : Type 0} → Lease → Tx R (Unit {0})
insert_lease le db =
    check (not (exists_where (λ (m : Lease). m.id == le.id) db.leases)) (fails unique_violation)
      (next tt (record db { leases = db.leases ++ le ∷ [] }))

abbrev pub insert_upload : {R : Type 0} → Upload → Tx R (Unit {0})
insert_upload u db =
    check (not (exists_where (upload_of u.file_id) db.uploads)) (fails unique_violation)
      (next tt (record db { uploads = db.uploads ++ u ∷ [] }))

abbrev pub insert_history : {R : Type 0} → LeaseHistory → Tx R (Unit {0})
insert_history h db = next tt (record db { history = db.history ++ h ∷ [] })

-- A file and a client that a row refers to.
abbrev pub has_file : ℕ → Db → Bool
has_file id db = exists_where (λ (f : File). f.id == id) db.files

abbrev pub has_client : Text → Db → Bool
has_client id db = exists_where (λ (c : Client). text_eq c.id id) db.clients

-- `file_id uuid NOT NULL REFERENCES files(id)`.
abbrev pub refer_file : {R : Type 0} → ℕ → Tx R (Unit {0})
refer_file id db = check (has_file id db) (fails foreign_key_violation) (next tt db)

-- `INSERT ... ON CONFLICT (client_id, key) DO NOTHING`, with the rows inserted; a row that is inserted
-- refers to a client and a file.
abbrev pub insert_key : {R : Type 0} → ObjectKey → Tx R Bool
insert_key k db =
    let known = exists_where (key_at k.client_id k.key) db.keys in
    check (known || has_client k.client_id db && has_file k.file_id db)
      (fails foreign_key_violation)
      (next (not known) (record db { keys = if known then db.keys else db.keys ++ k ∷ [] }))

abbrev pub leave : {R : Type 0} → Exit R → Reply R
leave (returns r) = ok r
leave (fails e) = err e

-- What the pool's function leaves: only a step that reached the end has committed.
abbrev pub settle : {R : Type 0} → Db → Step R R → Reply R × Db
settle db (next r db') = (ok r, db')
settle db (stop x) = (leave x, db)
settle db (check b x s) = if b then settle db s else (leave x, db)

unfoldable pub run_tx : {R : Type 0} → Tx R R → Db → Reply R × Db
run_tx m db = settle db (m db)
