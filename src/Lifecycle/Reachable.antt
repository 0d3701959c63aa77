-- ===== src/Lifecycle/Reachable.antt =====
-- What holds after any operations from a database without objects.
use grove_storage.Prelude.{refl, List, [], ◌∷◌}
use grove_storage.Db.Schema.{Db, Client}
use grove_storage.Table.{exists_where}
use grove_storage.Table.Keyed.{row_at}
use grove_storage.Lifecycle.Operations.{Operation, apply, run, start}
use grove_storage.Lifecycle.Invariant.{IsSound}
use grove_storage.Lifecycle.Commit.{finalize_commit-IsSound}
use grove_storage.Lifecycle.Sweep.{
  mark_deleted-IsSound, finalize_reclaim-IsSound, reclaim_pending-IsSound, finalize_purge-IsSound,
  finalize_reclaim_cleanup-IsSound,
}
use grove_storage.Lifecycle.Completion
use grove_storage.Lifecycle.Create.{create-IsSound, create_upload-IsSound}
use grove_storage.Lifecycle.Leases
use grove_storage.Lifecycle.Prune
use grove_storage.Lifecycle.Sessions
use grove_storage.Lifecycle.Finish
use grove_storage.Lifecycle.Finalize.{finalize_upload-IsSound}
use grove_storage.Lifecycle.Keys.{upsert_key-IsSound, delete_key-IsSound}

pub apply-IsSound : (op : Operation) (db : Db) → IsSound db → IsSound (apply op db)
unfolding apply
apply-IsSound (Operation.create_file render now id lease spec) db h =
    create-IsSound render now id lease spec db h
apply-IsSound (Operation.commit_file now id etag) db h = finalize_commit-IsSound now id etag db h
apply-IsSound (Operation.delete_file now client id) db h = mark_deleted-IsSound now client id db h
apply-IsSound (Operation.reclaim_expired now c) db h = finalize_reclaim-IsSound now c db h
apply-IsSound (Operation.reclaim_now id) db h = reclaim_pending-IsSound id db h
apply-IsSound (Operation.purge_location c) db h = finalize_purge-IsSound c db h
apply-IsSound (Operation.clean_location c) db h = finalize_reclaim_cleanup-IsSound c db h
apply-IsSound (Operation.native_claim now id etag ttl) db h =
    Completion.claim-IsSound now id etag ttl db h
apply-IsSound (Operation.native_renew now id ttl) db h =
    Leases.renew_completion_lease-IsSound now id ttl db h
apply-IsSound (Operation.native_finalize now id etag) db h =
    Completion.finalize_completion-IsSound now id etag db h
apply-IsSound (Operation.native_reopen now id ttl) db h =
    Completion.reopen_completion-IsSound now id ttl db h
apply-IsSound (Operation.native_clean now id) db h = Completion.claim_cleanup-IsSound now id db h
apply-IsSound (Operation.native_reclaim id) db h = Completion.finalize_cleanup-IsSound id db h
apply-IsSound (Operation.part_claim now id lease part ttl) db h =
    Leases.claim_relay_part-IsSound now id lease part ttl db h
apply-IsSound (Operation.part_renew now id lease part ttl) db h =
    Leases.renew_relay_part_lease-IsSound now id lease part ttl db h
apply-IsSound (Operation.part_finish id lease part size md5) db h =
    Leases.finish_relay_part-IsSound id lease part size md5 db h
apply-IsSound (Operation.part_cancel id lease part) db h =
    Leases.cancel_relay_part-IsSound id lease part db h
apply-IsSound (Operation.attach_handle lease handle) db h =
    Leases.attach_upload_id-IsSound lease handle db h
apply-IsSound (Operation.attach_secret lease hash) db h =
    Prune.attach_write_secret-IsSound lease hash db h
apply-IsSound (Operation.extend_lease now lease ttl) db h =
    Leases.extend_write_lease-IsSound now lease ttl db h
apply-IsSound (Operation.retry_file now id job retry) db h =
    Leases.claim_recovery-IsSound now id job retry db h
apply-IsSound (Operation.retry_upload now id job retry) db h =
    Leases.claim_upload-IsSound now id job retry db h
apply-IsSound (Operation.read_lease now lease id ttl hash storage client size) db h =
    Prune.issue_read_lease-IsSound now lease id ttl hash storage client size db h
apply-IsSound (Operation.relay_put now later locked id lease size md5 ttl) db h =
    Prune.relay_upload-IsSound now later locked id lease size md5 ttl db h
apply-IsSound (Operation.expire_reads now picked) db h =
    Prune.expire_read_leases-IsSound now picked db h
apply-IsSound (Operation.prune_leases now retention picked) db h =
    Prune.prune_terminal_leases-IsSound now retention picked db h
apply-IsSound (Operation.prune_files now retention picked) db h =
    Prune.prune_terminal_files-IsSound now retention picked db h
apply-IsSound (Operation.s3_create render now id lease spec key cond) db h =
    create_upload-IsSound render now id lease spec key cond db h
apply-IsSound (Operation.s3_claim now spec) db h = Sessions.claim_completion-IsSound now spec db h
apply-IsSound (Operation.s3_part_claim now client key id lease part ttl) db h =
    Sessions.claim_upload_part-IsSound now client key id lease part ttl db h
apply-IsSound (Operation.s3_part_renew now id lease part ttl) db h =
    Sessions.renew_upload_part_lease-IsSound now id lease part ttl db h
apply-IsSound (Operation.s3_part_finish id lease part size md5) db h =
    Sessions.finish_upload_part-IsSound id lease part size md5 db h
apply-IsSound (Operation.s3_part_cancel id lease part) db h =
    Sessions.cancel_upload_part-IsSound id lease part db h
apply-IsSound (Operation.s3_abort now client key id) db h =
    Sessions.claim_abort-IsSound now client key id db h
apply-IsSound (Operation.s3_finalize now client key id multipart) db h =
    finalize_upload-IsSound now client key id multipart db h
apply-IsSound (Operation.s3_expire now id) db h = Finish.claim_expired_abort-IsSound now id db h
apply-IsSound (Operation.s3_reclaim id) db h = Finish.finalize_abort-IsSound id db h
apply-IsSound (Operation.s3_discard id) db h = Finish.discard_unstarted_upload-IsSound id db h
apply-IsSound (Operation.s3_renew now id ttl) db h =
    Finish.renew_completion_lease-IsSound now id ttl db h
apply-IsSound (Operation.s3_reopen now id ttl) db h =
    Finish.reopen_completion-IsSound now id ttl db h
apply-IsSound (Operation.s3_give_up now id) db h =
    Finish.mark_completion_aborting-IsSound now id db h
apply-IsSound (Operation.put_key now client key id) db h = upsert_key-IsSound now client key id db h
apply-IsSound (Operation.remove_key now client key) db h = delete_key-IsSound now client key db h

start-IsSound : (clients : List Client) → IsSound (start clients)
unfolding exists_where row_at
start-IsSound clients = record { one_file = tt; one_upload = tt; at = λ k. refl }

pub run-keeps : (ops : List Operation) (db : Db) → IsSound db → IsSound (run ops db)
unfolding run
run-keeps [] db h = h
run-keeps (op ∷ ops) db h = run-keeps ops (apply op db) (apply-IsSound op db h)

-- After any operations from a database without objects, the invariant holds: one row for each file
-- and each upload; a pending file has its location, and an issued write lease or an upload in
-- cleaning; an active file has its location, an ETag and a commit time; a file that is not pending
-- has no upload; an upload satisfies the shape constraint of its protocol.
pub run-IsSound : (clients : List Client) (ops : List Operation) → IsSound (run ops (start clients))
run-IsSound clients ops = run-keeps ops (start clients) (start-IsSound clients)
