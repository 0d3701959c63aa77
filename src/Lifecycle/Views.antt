-- ===== src/Lifecycle/Views.antt =====
-- The view of one file under the statements of a transaction that works on another, or on it.
use grove_storage.Prelude.{
  ℕ, ◌≡◌, ◌≢◌, refl, sym, ◌∙◌, ◌⊎◌, inl, inr, Bool, true, false, none, some, List, ◌==◌, arith,
  Bool-cases, is_some, Option-cases,
}
use grove_storage.Table.{
  update_where, delete_where, exists_where, exists-update_same, exists-delete_keep,
  exists-delete_none,
}
use grove_storage.Table.Keyed.{
  row_at, Distinct, exists-eq-row_at, row_at-key, exists-hit, row_at-delete_hit,
}
use grove_storage.Db.Schema.{Db, File, Upload, Lease, Location}
use grove_storage.Db.Where.{issued_write, location_of, upload_of}
use grove_storage.Db.View.{file_at, upload_at, located, writable}
use grove_storage.Lifecycle.Invariant.{IsSound, view_ok}

abbrev pub ViewOk : ℕ → Db → Type 0
ViewOk k db = view_ok (file_at k db) (located k db) (writable k db) (upload_at k db) ≡ true

-- What a transaction on the file `id` leaves of another file.
pub record SameView (k : ℕ) (db db' : Db) : Type 0 where
  pub file : file_at k db' ≡ file_at k db
  pub here : located k db' ≡ located k db
  pub lease : writable k db' ≡ writable k db
  pub upload : upload_at k db' ≡ upload_at k db

pub SameView-ViewOk : {k : ℕ} {db db' : Db} → SameView k db db' → ViewOk k db → ViewOk k db'
SameView-ViewOk s h = rw (s.file, s.here, s.lease, s.upload) h

same_or_other : (k id : ℕ) → (k ≡ id) ⊎ (k ≢ id)
same_or_other k id = elim (Bool-cases (k == id)) [
  | inl e ↦ inl (ground arith)
  | inr e ↦ inr (λ q. ground arith)
]

-- The invariant at every file from the file worked on and the others.
pub at_each :
    (id : ℕ) (db db' : Db)
    → ((k : ℕ) → ViewOk k db)
    → ((k : ℕ) → k ≢ id → SameView k db db')
    → ViewOk id db'
    → (k : ℕ) → ViewOk k db'
at_each id db db' h other this k = elim (same_or_other k id) [
  | inl e ↦ rw e this
  | inr ne ↦ SameView-ViewOk (other k ne) (h k)
]

-- An UPDATE of leases of the file `id` leaves the writable test of another file.
pub writable_other :
    (id k : ℕ) (p : Lease → Bool) (g : Lease → Lease) (rs : List Lease)
    → ((r : Lease) → ((g r).file_id ≡ r.file_id))
    → ((r : Lease) → p r ≡ true → r.file_id ≡ id)
    → k ≢ id
    → exists_where (issued_write k) (update_where p g rs) ≡ exists_where (issued_write k) rs
writable_other id k p g rs keep only ne =
    exists-update_same (issued_write k) p g rs λ r. ground (arith, keep r, only r)

pub located_other :
    (id k : ℕ) (p : Location → Bool) (rs : List Location)
    → ((r : Location) → p r ≡ true → r.file_id ≡ id)
    → k ≢ id
    → exists_where (location_of k) (delete_where p rs) ≡ exists_where (location_of k) rs
located_other id k p rs only ne = elim (Bool-cases (exists_where (location_of k) rs)) [
  | inl e ↦ exists-delete_keep (location_of k) p rs (λ r h. ground (arith, only r)) e ∙ sym e
  | inr e ↦ exists-delete_none (location_of k) p rs e ∙ sym e
]

-- An upload row of the file, by the test and by the key.
pub owned_row :
    (id : ℕ) (db : Db)
    → IsSound db
    → exists_where (upload_of id) db.uploads ≡ is_some (upload_at id db)
owned_row id db h =
    let by_key =
      exists-eq-row_at (λ (u : Upload). u.file_id) id (upload_of id) db.uploads h.one_upload
        (λ r e. ground arith) in
    elim (Option-cases (upload_at id db)) [
      | inl e ↦ rw e at by_key ∙ rw e refl
      | inr (u, e) ↦
          ground (arith, by_key, e, row_at-key (λ (u : Upload). u.file_id) id db.uploads e)
    ]

pub upload_absent :
    (id : ℕ) (db : Db)
    → IsSound db
    → exists_where (upload_of id) db.uploads ≡ false
    → upload_at id db ≡ none
upload_absent id db h e = ground (arith, owned_row id db h)

-- A transaction on the file `id` keeps the invariant, if it keeps the keys, the views of the other
-- files, and the invariant of `id`.
pub IsSound-by :
    (id : ℕ) {db db' : Db}
    → IsSound db
    → Distinct (λ (f : File). f.id) db'.files
    → Distinct (λ (u : Upload). u.file_id) db'.uploads
    → ((k : ℕ) → k ≢ id → SameView k db db')
    → ViewOk id db'
    → IsSound db'
IsSound-by id {db} {db'} h files uploads other this = record {
  one_file = files;
  one_upload = uploads;
  at = at_each id db db' h.at other this;
}

-- A transaction that changes no row that the invariant reads.
pub IsSound-same :
    {db db' : Db}
    → IsSound db
    → db'.files ≡ db.files
    → db'.locations ≡ db.locations
    → db'.uploads ≡ db.uploads
    → ((k : ℕ) → writable k db' ≡ writable k db)
    → IsSound db'
IsSound-same {db} {db'} h files locations uploads lease = record {
  one_file = rw files h.one_file;
  one_upload = rw uploads h.one_upload;
  at = λ k. rw (files, locations, uploads, lease k) (h.at k);
}

-- A new expiry leaves every write lease as it was otherwise.
pub writable_same :
    (k : ℕ) (p : Lease → Bool) (g : Lease → Lease) (rs : List Lease)
    → ((r : Lease) → issued_write k (g r) ≡ issued_write k r)
    → exists_where (issued_write k) (update_where p g rs) ≡ exists_where (issued_write k) rs
writable_same k p g rs keep = exists-update_same (issued_write k) p g rs λ r. ground (arith, keep r)

-- The row that a test on the file `id` matched, and the upload that one on its upload matched.
pub file_hit :
    (id : ℕ) (p : File → Bool) (db : Db)
    → IsSound db
    → ((f : File) → p f ≡ true → f.id ≡ id)
    → exists_where p db.files ≡ true
    → (f : File) × (file_at id db ≡ some f) × (p f ≡ true)
file_hit id p db h only e = exists-hit (λ (f : File). f.id) id p db.files h.one_file only e

pub upload_hit :
    (id : ℕ) (p : Upload → Bool) (db : Db)
    → IsSound db
    → ((u : Upload) → p u ≡ true → u.file_id ≡ id)
    → exists_where p db.uploads ≡ true
    → (u : Upload) × (upload_at id db ≡ some u) × (p u ≡ true)
upload_hit id p db h only e =
    exists-hit (λ (u : Upload). u.file_id) id p db.uploads h.one_upload only e

-- A DELETE that takes the matched upload of the file leaves none.
pub upload_cleared :
    (id : ℕ) (p q : Upload → Bool) (db : Db)
    → IsSound db
    → ((u : Upload) → p u ≡ true → u.file_id ≡ id)
    → ((u : Upload) → p u ≡ true → q u ≡ true)
    → exists_where p db.uploads ≡ true
    → row_at (λ (u : Upload). u.file_id) id (delete_where q db.uploads) ≡ none
upload_cleared id p q db h only also e =
    let (u, at, was) = upload_hit id p db h only e in
    row_at-delete_hit (λ (u : Upload). u.file_id) id q db.uploads {r = u} h.one_upload at
      (also u was)
