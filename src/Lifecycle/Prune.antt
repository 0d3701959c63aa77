-- ===== src/Lifecycle/Prune.antt =====
-- The invariant is kept by read leases, the relay's PUT and the removal of finished rows.
use grove_storage.Prelude.{ℕ, refl, sym, ◌∙◌, Bool, Option, arith, Text, Bool-cases, inl, inr}
use grove_storage.Table.{
  exists_where, exists-update_same, exists-insert, exists-delete_keep, exists-delete_none,
}
use grove_storage.Table.Keyed.{Distinct-delete, row_at-delete}
use grove_storage.Db.Schema.{Db, Clock, File, Lease}
use grove_storage.Db.Where.{issued_write}
use grove_storage.Files.Access.{
  issue_read_lease, issue_read_lease_tx, attach_write_secret, relay_upload, relay_upload_tx,
}
use grove_storage.Files.Prune.{expire_read_leases, prune_terminal_leases, prune_terminal_files}
use grove_storage.Lifecycle.Invariant.{IsSound}
use grove_storage.Lifecycle.Rules.{keeps_run}
use grove_storage.Lifecycle.Views.{IsSound-same, writable_same}

pub issue_read_lease-IsSound :
    (now : Clock) (lease id ttl : ℕ) (hash : Option Text) (storage client : Text) (size : ℕ)
    (db : Db)
    → IsSound db
    → IsSound (issue_read_lease now lease id ttl hash storage client size db).1
unfolding issue_read_lease
issue_read_lease-IsSound now lease id ttl hash storage client size db h =
    keeps_run IsSound (issue_read_lease_tx now lease id ttl hash storage client size) db h
      λ held fresh.
        IsSound-same h refl refl refl
          (λ k. exists-insert (issued_write k) db.leases _ ∙ ground arith)

pub attach_write_secret-IsSound :
    (lease : ℕ) (hash : Text) (db : Db) → IsSound db → IsSound (attach_write_secret lease hash db).1
unfolding attach_write_secret
attach_write_secret-IsSound lease hash db h =
    IsSound-same h refl refl refl (λ k. writable_same k _ _ _ (λ r. refl))

pub relay_upload-IsSound :
    (now later : Clock) (locked : Bool) (id lease size : ℕ) (md5 : Text) (ttl : ℕ) (db : Db)
    → IsSound db
    → IsSound (relay_upload now later locked id lease size md5 ttl db).1
unfolding relay_upload
relay_upload-IsSound now later locked id lease size md5 ttl db h =
    keeps_run IsSound (relay_upload_tx now later locked id lease size md5 ttl) db h
      λ held. IsSound-same h refl refl refl (λ k. writable_same k _ _ _ (λ r. refl))

pub expire_read_leases-IsSound :
    (now : Clock) (picked : Lease → Bool) (db : Db)
    → IsSound db
    → IsSound (expire_read_leases now picked db).1
unfolding expire_read_leases
expire_read_leases-IsSound now picked db h =
    IsSound-same h refl refl refl
      (λ k. exists-update_same (issued_write k) _ _ db.leases (λ r. ground arith))

pub prune_terminal_leases-IsSound :
    (now : Clock) (retention : ℕ) (picked : Lease → Bool) (db : Db)
    → IsSound db
    → IsSound (prune_terminal_leases now retention picked db).1
unfolding prune_terminal_leases
prune_terminal_leases-IsSound now retention picked db h = IsSound-same h refl refl refl λ k.
    elim (Bool-cases (exists_where (issued_write k) db.leases)) [
      | inl e ↦ exists-delete_keep (issued_write k) _ db.leases (λ r q. ground arith) e ∙ sym e
      | inr e ↦ exists-delete_none (issued_write k) _ db.leases e ∙ sym e
    ]

pub prune_terminal_files-IsSound :
    (now : Clock) (retention : ℕ) (picked : File → Bool) (db : Db)
    → IsSound db
    → IsSound (prune_terminal_files now retention picked db).1
unfolding prune_terminal_files
prune_terminal_files-IsSound now retention picked db h = record {
  one_file = Distinct-delete _ _ _ h.one_file;
  one_upload = h.one_upload;
  at = λ k. rw (row_at-delete _ k _ db.files h.one_file) (ground (arith, h.at k));
}
