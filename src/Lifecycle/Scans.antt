-- ===== src/Lifecycle/Scans.antt =====
-- What the scans of the reconciler find.
use grove_storage.Prelude.{ℕ, ◌≡◌, ◌∙◌, true, false, arith, All}
use grove_storage.Table.{exists_where}
use grove_storage.Table.Scan.{All-page, All-for_each}
use grove_storage.Db.Schema.{Db, Clock}
use grove_storage.Db.Where.{pending_file, expired_write, upload_of, location_of}
use grove_storage.Db.Tx.{ok}
use grove_storage.Files.Sweep.{finalize_reclaim}
use grove_storage.Files.Candidates.{expired_pending, pending_unowned}
use grove_storage.Lifecycle.Invariant.{IsSound}
use grove_storage.Lifecycle.Views.{upload_absent}
use grove_storage.Lifecycle.Races.{attempt, reclaim}
use grove_storage.Lifecycle.Allowed.{attempt-allowed, pending_test}

reclaims :
    (now : Clock) (id : ℕ) (db : Db)
    → IsSound db
    → exists_where (pending_file id) db.files ≡ true
    → exists_where (upload_of id) db.uploads ≡ false
    → exists_where (expired_write now.tx_now id) db.leases ≡ true
    → (attempt (reclaim now) id db).0 ≡ ok true
reclaims now id db h pends free lapsed =
    attempt-allowed (reclaim now) id db h
    ∙ ground (arith, pending_test id db h, pends, upload_absent id db h free, lapsed)

-- In a sound database, every candidate of the scan for expired pending files, at one time and with any limit, is reclaimed by `finalize_reclaim` at that time.
pub expired_pending-finalize_reclaim :
    (now : Clock) (limit : ℕ) (db : Db)
    → IsSound db
    → All (λ c. (finalize_reclaim now c db).0 ≡ ok true) (expired_pending limit now.tx_now db)
unfolding expired_pending finalize_reclaim attempt
expired_pending-finalize_reclaim now limit db h =
    All-page (λ c. (finalize_reclaim now c db).0 ≡ ok true) limit _
      (All-for_each (pending_unowned db) _ db.files _ λ f pends known.
        All-for_each (expired_write now.tx_now f.id) _ db.leases _ λ le lapsed known_le.
          All-for_each (location_of f.id) _ db.locations _ λ l here known_l. (
            reclaims now f.id db h (known (pending_file f.id) (ground (arith, pends)))
                (ground (arith, pends)) (known_le (expired_write now.tx_now f.id) lapsed),
            tt,
          ))
