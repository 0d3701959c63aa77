-- ===== src/Lifecycle/Leases.antt =====
-- The invariant is kept by the operations on leases and parts, and by the recovery claims.
use grove_storage.Prelude.{ℕ, refl, arith, Text}
use grove_storage.Table.Keyed.{row_at-update, Distinct-update}
use grove_storage.Db.Schema.{Db, Clock}
use grove_storage.Files.Completion.{renew_completion_lease, renew_completion_lease_tx}
use grove_storage.Files.Multipart.{
  claim_relay_part, claim_relay_part_tx, renew_relay_part_lease, renew_relay_part_lease_tx,
  finish_relay_part, finish_relay_part_tx, cancel_relay_part, attach_upload_id, extend_write_lease,
  extend_write_lease_tx,
}
use grove_storage.Files.Recovery.{
  RecoveryJob, UploadJob, claim_recovery, claim_recovery_tx, claim_upload, claim_upload_tx,
}
use grove_storage.Lifecycle.Invariant.{IsSound}
use grove_storage.Lifecycle.Rules.{keeps_run}
use grove_storage.Lifecycle.Views.{IsSound-same, writable_same}

pub renew_completion_lease-IsSound :
    (now : Clock) (id ttl : ℕ) (db : Db)
    → IsSound db
    → IsSound (renew_completion_lease now id ttl db).1
unfolding renew_completion_lease
renew_completion_lease-IsSound now id ttl db h =
    keeps_run IsSound (renew_completion_lease_tx now id ttl) db h
      λ locked owner renewed. IsSound-same h refl refl refl (λ k. writable_same k _ _ _ (λ r. refl))

pub claim_relay_part-IsSound :
    (now : Clock) (id lease part ttl : ℕ) (db : Db)
    → IsSound db
    → IsSound (claim_relay_part now id lease part ttl db).1
unfolding claim_relay_part
claim_relay_part-IsSound now id lease part ttl db h =
    keeps_run IsSound (claim_relay_part_tx now id lease part ttl) db h λ locked renewed claimed.
      IsSound-same h refl refl refl (λ k. writable_same k _ _ _ (λ r. refl))

pub renew_relay_part_lease-IsSound :
    (now : Clock) (id lease part ttl : ℕ) (db : Db)
    → IsSound db
    → IsSound (renew_relay_part_lease now id lease part ttl db).1
unfolding renew_relay_part_lease
renew_relay_part_lease-IsSound now id lease part ttl db h =
    keeps_run IsSound (renew_relay_part_lease_tx now id lease part ttl) db h
      λ locked renewed. IsSound-same h refl refl refl (λ k. writable_same k _ _ _ (λ r. refl))

pub finish_relay_part-IsSound :
    (id lease part size : ℕ) (md5 : Text) (db : Db)
    → IsSound db
    → IsSound (finish_relay_part id lease part size md5 db).1
unfolding finish_relay_part
finish_relay_part-IsSound id lease part size md5 db h =
    keeps_run IsSound (finish_relay_part_tx id lease part size md5) db h
      λ locked finished. IsSound-same h refl refl refl (λ k. refl)

pub cancel_relay_part-IsSound :
    (id lease part : ℕ) (db : Db) → IsSound db → IsSound (cancel_relay_part id lease part db).1
unfolding cancel_relay_part
cancel_relay_part-IsSound id lease part db h = IsSound-same h refl refl refl (λ k. refl)

pub attach_upload_id-IsSound :
    (lease : ℕ) (handle : Text) (db : Db)
    → IsSound db
    → IsSound (attach_upload_id lease handle db).1
unfolding attach_upload_id
attach_upload_id-IsSound lease handle db h =
    IsSound-same h refl refl refl (λ k. writable_same k _ _ _ (λ r. refl))

pub extend_write_lease-IsSound :
    (now : Clock) (lease ttl : ℕ) (db : Db)
    → IsSound db
    → IsSound (extend_write_lease now lease ttl db).1
unfolding extend_write_lease
extend_write_lease-IsSound now lease ttl db h =
    keeps_run IsSound (extend_write_lease_tx now lease ttl) db h
      λ locked extended. IsSound-same h refl refl refl (λ k. writable_same k _ _ _ (λ r. refl))

pub claim_recovery-IsSound :
    (now : Clock) (id : ℕ) (job : RecoveryJob) (retry : ℕ) (db : Db)
    → IsSound db
    → IsSound (claim_recovery now id job retry db).1
unfolding claim_recovery
claim_recovery-IsSound now id job retry db h =
    keeps_run IsSound (claim_recovery_tx now id job retry) db h λ locked. record {
      one_file = Distinct-update _ _ _ _ (λ r. refl) h.one_file;
      one_upload = h.one_upload;
      at = λ k. rw row_at-update (ground (arith, h.at k));
    }

pub claim_upload-IsSound :
    (now : Clock) (id : ℕ) (job : UploadJob) (retry : ℕ) (db : Db)
    → IsSound db
    → IsSound (claim_upload now id job retry db).1
unfolding claim_upload
claim_upload-IsSound now id job retry db h =
    keeps_run IsSound (claim_upload_tx now id job retry) db h λ locked. record {
      one_file = h.one_file;
      one_upload = Distinct-update _ _ _ _ (λ r. refl) h.one_upload;
      at = λ k. rw row_at-update (ground (arith, h.at k));
    }
