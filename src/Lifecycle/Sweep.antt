-- ===== src/Lifecycle/Sweep.antt =====
-- The invariant is kept by detach, reclaim and purge.
use grove_storage.Prelude.{
  ℕ, ◌≡◌, refl, Bool, true, arith, Text, ◌&&◌, ◌==◌, ◌⊎◌, Bool-cases, inl, inr,
}
use grove_storage.Table.{exists_where, delete_never}
use grove_storage.Table.Keyed.{
  Distinct-update, row_at-update, row_at-update_other, row_at-update_hit, exists-hit,
}
use grove_storage.Db.Schema.{Db, Clock, File, FileState, is_deleted, is_reclaimed, reclaimed}
use grove_storage.Files.Sweep.{
  SweepCandidate, mark_deleted, finalize_reclaim, finalize_reclaim_tx, reclaim_pending,
  reclaim_pending_tx, remove_location_tx, finalize_purge, finalize_reclaim_cleanup, same_place,
}
use grove_storage.Db.Tx.{run_tx}
use grove_storage.Lifecycle.Invariant.{IsSound}
use grove_storage.Lifecycle.Rules.{keeps_run, hit}
use grove_storage.Lifecycle.Views.{IsSound-by, writable_other, located_other, owned_row}

pub mark_deleted-IsSound :
    (now : Clock) (client : Text) (id : ℕ) (db : Db)
    → IsSound db
    → IsSound (mark_deleted now client id db).1
unfolding mark_deleted
mark_deleted-IsSound now client id db h = record {
  one_file = Distinct-update _ _ _ _ (λ r. refl) h.one_file;
  one_upload = h.one_upload;
  at = λ k. rw row_at-update (ground (arith, h.at k));
}

pub finalize_reclaim-IsSound :
    (now : Clock) (c : SweepCandidate) (db : Db)
    → IsSound db
    → IsSound (finalize_reclaim now c db).1
unfolding finalize_reclaim
finalize_reclaim-IsSound now c db h =
    let id = c.file_id in
    keeps_run IsSound (finalize_reclaim_tx now id) db h λ won lapsed.
      IsSound-by id h (Distinct-update _ _ _ _ (λ r. refl) h.one_file) h.one_upload
        (λ k ne. record {
          file = row_at-update_other _ id k _ _ _ (λ r. refl) (λ r e. ground arith) ne;
          here = refl;
          lease = writable_other id k _ _ _ (λ r. refl) (λ r e. ground arith) ne;
          upload = refl;
        })
        (let (f, at, was, now_at) =
            row_at-update_hit (λ (f : File). f.id) id _
              (λ f. record f { state = reclaimed; recovery_after = now.tx_now }) db.files h.one_file
              (λ r. refl) (λ r e. ground arith) (hit _ db.files won) in
          rw now_at (ground (arith, at, was, h.at id, owned_row id db h)))

pub reclaim_pending-IsSound : (id : ℕ) (db : Db) → IsSound db → IsSound (reclaim_pending id db).1
unfolding reclaim_pending
reclaim_pending-IsSound id db h = keeps_run IsSound (reclaim_pending_tx id) db h λ won.
    IsSound-by id h (Distinct-update _ _ _ _ (λ r. refl) h.one_file) h.one_upload
      (λ k ne. record {
        file = row_at-update_other _ id k _ _ _ (λ r. refl) (λ r e. ground arith) ne;
        here = located_other id k _ _ (λ r e. ground arith) ne;
        lease = writable_other id k _ _ _ (λ r. refl) (λ r e. ground arith) ne;
        upload = refl;
      })
      (let (f, at, was, now_at) =
          row_at-update_hit (λ (f : File). f.id) id _ (λ f. record f { state = reclaimed }) db.files
            h.one_file (λ r. refl) (λ r e. ground arith) (hit _ db.files won) in
        rw now_at (ground (arith, at, was, h.at id, owned_row id db h)))

-- The removal of a location in a state that needs none.
module _ (in_state : FileState → Bool)
    (gone : (s : FileState)
      → in_state s ≡ true
      → (is_deleted s ≡ true) ⊎ (is_reclaimed s ≡ true)) where
  remove_location-IsSound :
      (c : SweepCandidate) (db : Db)
      → IsSound db
      → IsSound (run_tx (remove_location_tx in_state c) db).1
  unfolding remove_location_tx run_tx
  remove_location-IsSound c db h =
      let id = c.file_id in
      IsSound-by id h h.one_file h.one_upload
        (λ k ne. record {
          file = refl;
          here = located_other id k _ _ (λ r e. ground arith) ne;
          lease = refl;
          upload = refl;
        })
        (elim (Bool-cases (exists_where (λ (f : File). f.id == id && in_state f.state) db.files)) [
          | inl e ↦
              let (f, at, was) =
                exists-hit (λ (f : File). f.id) id (λ (f : File). f.id == id && in_state f.state)
                  db.files h.one_file (λ r q. ground arith) e in
              rw at (ground (arith, was, gone f.state, h.at id, at))
          | inr e ↦
              rw
                (delete_never
                  (λ l.
                    same_place c l
                    && exists_where (λ (f : File). f.id == id && in_state f.state) db.files)
                  db.locations (λ l. ground (arith, e)))
                (h.at id)
        ])

pub finalize_purge-IsSound :
    (c : SweepCandidate) (db : Db) → IsSound db → IsSound (finalize_purge c db).1
unfolding finalize_purge
finalize_purge-IsSound c db h = remove_location-IsSound is_deleted (λ s e. inl e) c db h

pub finalize_reclaim_cleanup-IsSound :
    (c : SweepCandidate) (db : Db) → IsSound db → IsSound (finalize_reclaim_cleanup c db).1
unfolding finalize_reclaim_cleanup
finalize_reclaim_cleanup-IsSound c db h = remove_location-IsSound is_reclaimed (λ s e. inr e) c db h
