-- ===== src/Files/Prune.antt =====
-- backend/crates/db/src/files/sweep.rs, last part: the removal of finished rows. The statements pick
-- up to `LIMIT` rows among those that qualify; `picked` is the planner's choice.
use grove_storage.Prelude.{ℕ, ◌+◌, Bool, ◌&&◌, ◌||◌, ◌==◌, not, some, none, ltb}
use grove_storage.Table.{exists_where, delete_where, affected}
use grove_storage.Db.Schema.{
  Clock, Db, File, Lease, LeasePart, ObjectKey, is_deleted, is_reclaimed, is_write, is_issued,
}
use grove_storage.Db.Where.{upload_of, location_of}
use grove_storage.Db.Tx.{Reply, run_tx, ◌>>=◌, commit, next, update_leases}
use grove_storage.Files.Sweep.{expire}

abbrev pub stale_read : ℕ → Lease → Bool
stale_read now le = not (is_write le.kind) && is_issued le.state && ltb le.expires_at now

unfoldable pub expire_read_leases : Clock → (Lease → Bool) → Db → Reply ℕ × Db
unfolding run_tx
expire_read_leases now picked =
    run_tx (do n ← update_leases (λ le. picked le && stale_read now.tx_now le) expire; commit n)

-- A reclaimed file that still has its location keeps its lease for the cleanup.
abbrev pub awaits_cleanup : ℕ → Db → Bool
awaits_cleanup file_id db =
    exists_where (λ (f : File). f.id == file_id && is_reclaimed f.state) db.files
    && exists_where (location_of file_id) db.locations

abbrev pub finished_lease : ℕ → ℕ → Db → Lease → Bool
finished_lease now retention db le =
    not (is_issued le.state)
    && ltb (le.created_at + retention) now
    && not (exists_where (upload_of le.file_id) db.uploads)
    && not (awaits_cleanup le.file_id db)

-- The parts of a deleted lease go with it.
unfoldable pub prune_terminal_leases : Clock → ℕ → (Lease → Bool) → Db → Reply ℕ × Db
unfolding run_tx
prune_terminal_leases now retention picked = run_tx λ db.
    let gone = λ (le : Lease). picked le && finished_lease now.tx_now retention db le in
    next (affected gone db.leases) (record db {
      leases = delete_where gone db.leases;
      parts =
          delete_where
            (λ (p : LeasePart). exists_where (λ le. gone le && le.id == p.lease_id) db.leases)
            db.parts;
    })

-- `COALESCE(deleted_at, created_at)`.
abbrev pub ended_at : File → ℕ
ended_at f = elim f.deleted_at [ none ↦ f.created_at | some t ↦ t ]

abbrev pub finished_file : ℕ → ℕ → Db → File → Bool
finished_file now retention db f =
    (is_deleted f.state || is_reclaimed f.state)
    && ltb (ended_at f + retention) now
    && not (exists_where (location_of f.id) db.locations)
    && not (exists_where (λ (le : Lease). le.file_id == f.id) db.leases)
    && not (exists_where (upload_of f.id) db.uploads)

-- The keys of a deleted file go with it.
unfoldable pub prune_terminal_files : Clock → ℕ → (File → Bool) → Db → Reply ℕ × Db
unfolding run_tx
prune_terminal_files now retention picked = run_tx λ db.
    let gone = λ (f : File). picked f && finished_file now.tx_now retention db f in
    next (affected gone db.files) (record db {
      files = delete_where gone db.files;
      keys =
          delete_where (λ (k : ObjectKey). exists_where (λ f. gone f && f.id == k.file_id) db.files)
            db.keys;
    })
