-- ===== src/Lifecycle/Forward.antt =====
-- The lifecycle of a file over any sequence of operations.
use grove_storage.Prelude.{
  ℕ, ◌≡◌, refl, Bool, true, false, Option, none, some, List, [], ◌∷◌, All, sym,
}
use grove_storage.Db.Schema.{Db, File, is_deleted, is_reclaimed, is_cleaning, is_opened}
use grove_storage.Db.View.{file_at}
use grove_storage.Files.Access.{attach_write_secret}
use grove_storage.Files.Multipart.{attach_upload_id, cancel_relay_part}
use grove_storage.Files.Prune.{expire_read_leases, prune_terminal_leases}
use grove_storage.Files.Sweep.{finalize_purge, finalize_reclaim_cleanup}
use grove_storage.Registry.Parts.{cancel_upload_part}
use grove_storage.Registry.Finish.{finalize_abort, discard_unstarted_upload}
use grove_storage.Lifecycle.Invariant.{IsSound}
use grove_storage.Lifecycle.Operations.{Operation, apply, run}
use grove_storage.Lifecycle.Reachable.{apply-IsSound}
use grove_storage.Lifecycle.Progress.{Later, Later-refl, Later-trans, Updates-refl}
use grove_storage.Lifecycle.Updates.{
  finalize_commit-Updates, mark_deleted-Updates, finalize_reclaim-Updates, reclaim_pending-Updates,
  finalize_completion-Updates, finalize_cleanup-Updates, claim_recovery-Updates,
  finalize_reclaimed_upload-Updates,
}
use grove_storage.Lifecycle.KeyUpdates.{
  upsert_key-Updates, delete_key-Updates, finalize_upload-Updates,
}
use grove_storage.Lifecycle.Untouched.{
  native_claim-Updates, native_renew_completion_lease-Updates, native_reopen_completion-Updates,
  native_claim_cleanup-Updates, claim_relay_part-Updates, renew_relay_part_lease-Updates,
  finish_relay_part-Updates, extend_write_lease-Updates, claim_upload-Updates,
  issue_read_lease-Updates, relay_upload-Updates, claim_upload_part-Updates,
  renew_upload_part_lease-Updates, finish_upload_part-Updates, s3_claim_abort-Updates,
  s3_claim_expired_abort-Updates, s3_renew_completion_lease-Updates, s3_reopen_completion-Updates,
  s3_mark_completion_aborting-Updates, remove_location-Updates, claim_completion-Updates,
}
use grove_storage.Lifecycle.Moves.{
  Goes, Moves, Updates-Moves, create-Moves, create_upload-Moves, prune_terminal_files-Moves,
}

-- The operation that removes rows of files.
abbrev pub prunes : Operation → Bool
prunes op = elim op [ Operation.prune_files now retention picked ↦ true | _ ↦ false ]

apply-Moves : (op : Operation) (db : Db) → IsSound db → Moves (prunes op) db (apply op db)
unfolding apply attach_write_secret attach_upload_id cancel_relay_part expire_read_leases
    prune_terminal_leases finalize_purge finalize_reclaim_cleanup cancel_upload_part finalize_abort
    discard_unstarted_upload
apply-Moves (Operation.create_file render now id lease spec) db h =
    create-Moves render now id lease spec db h
apply-Moves (Operation.commit_file now id etag) db h =
    Updates-Moves db (apply (Operation.commit_file now id etag) db)
      (finalize_commit-Updates now id etag db)
apply-Moves (Operation.delete_file now client id) db h =
    Updates-Moves db (apply (Operation.delete_file now client id) db)
      (mark_deleted-Updates now client id db)
apply-Moves (Operation.reclaim_expired now c) db h =
    Updates-Moves db (apply (Operation.reclaim_expired now c) db)
      (finalize_reclaim-Updates now c db)
apply-Moves (Operation.reclaim_now id) db h =
    Updates-Moves db (apply (Operation.reclaim_now id) db) (reclaim_pending-Updates id db)
apply-Moves (Operation.purge_location c) db h =
    Updates-Moves db (apply (Operation.purge_location c) db)
      (remove_location-Updates is_deleted c db)
apply-Moves (Operation.clean_location c) db h =
    Updates-Moves db (apply (Operation.clean_location c) db)
      (remove_location-Updates is_reclaimed c db)
apply-Moves (Operation.native_claim now id etag ttl) db h =
    Updates-Moves db (apply (Operation.native_claim now id etag ttl) db)
      (native_claim-Updates now id etag ttl db)
apply-Moves (Operation.native_renew now id ttl) db h =
    Updates-Moves db (apply (Operation.native_renew now id ttl) db)
      (native_renew_completion_lease-Updates now id ttl db)
apply-Moves (Operation.native_finalize now id etag) db h =
    Updates-Moves db (apply (Operation.native_finalize now id etag) db)
      (finalize_completion-Updates now id etag db)
apply-Moves (Operation.native_reopen now id ttl) db h =
    Updates-Moves db (apply (Operation.native_reopen now id ttl) db)
      (native_reopen_completion-Updates now id ttl db)
apply-Moves (Operation.native_clean now id) db h =
    Updates-Moves db (apply (Operation.native_clean now id) db)
      (native_claim_cleanup-Updates now id db)
apply-Moves (Operation.native_reclaim id) db h =
    Updates-Moves db (apply (Operation.native_reclaim id) db) (finalize_cleanup-Updates id db)
apply-Moves (Operation.part_claim now id lease part ttl) db h =
    Updates-Moves db (apply (Operation.part_claim now id lease part ttl) db)
      (claim_relay_part-Updates now id lease part ttl db)
apply-Moves (Operation.part_renew now id lease part ttl) db h =
    Updates-Moves db (apply (Operation.part_renew now id lease part ttl) db)
      (renew_relay_part_lease-Updates now id lease part ttl db)
apply-Moves (Operation.part_finish id lease part size md5) db h =
    Updates-Moves db (apply (Operation.part_finish id lease part size md5) db)
      (finish_relay_part-Updates id lease part size md5 db)
apply-Moves (Operation.part_cancel id lease part) db h =
    Updates-Moves db (apply (Operation.part_cancel id lease part) db) (Updates-refl db)
apply-Moves (Operation.attach_handle lease handle) db h =
    Updates-Moves db (apply (Operation.attach_handle lease handle) db) (Updates-refl db)
apply-Moves (Operation.attach_secret lease hash) db h =
    Updates-Moves db (apply (Operation.attach_secret lease hash) db) (Updates-refl db)
apply-Moves (Operation.extend_lease now lease ttl) db h =
    Updates-Moves db (apply (Operation.extend_lease now lease ttl) db)
      (extend_write_lease-Updates now lease ttl db)
apply-Moves (Operation.retry_file now id job retry) db h =
    Updates-Moves db (apply (Operation.retry_file now id job retry) db)
      (claim_recovery-Updates now id job retry db)
apply-Moves (Operation.retry_upload now id job retry) db h =
    Updates-Moves db (apply (Operation.retry_upload now id job retry) db)
      (claim_upload-Updates now id job retry db)
apply-Moves (Operation.read_lease now lease id ttl hash storage client size) db h =
    Updates-Moves db (apply (Operation.read_lease now lease id ttl hash storage client size) db)
      (issue_read_lease-Updates now lease id ttl hash storage client size db)
apply-Moves (Operation.relay_put now later locked id lease size md5 ttl) db h =
    Updates-Moves db (apply (Operation.relay_put now later locked id lease size md5 ttl) db)
      (relay_upload-Updates now later locked id lease size md5 ttl db)
apply-Moves (Operation.expire_reads now picked) db h =
    Updates-Moves db (apply (Operation.expire_reads now picked) db) (Updates-refl db)
apply-Moves (Operation.prune_leases now retention picked) db h =
    Updates-Moves db (apply (Operation.prune_leases now retention picked) db) (Updates-refl db)
apply-Moves (Operation.prune_files now retention picked) db h =
    prune_terminal_files-Moves now retention picked db h
apply-Moves (Operation.s3_create render now id lease spec key cond) db h =
    create_upload-Moves render now id lease spec db h key cond
apply-Moves (Operation.s3_claim now spec) db h =
    Updates-Moves db (apply (Operation.s3_claim now spec) db) (claim_completion-Updates now spec db)
apply-Moves (Operation.s3_part_claim now client key id lease part ttl) db h =
    Updates-Moves db (apply (Operation.s3_part_claim now client key id lease part ttl) db)
      (claim_upload_part-Updates now client key id lease part ttl db)
apply-Moves (Operation.s3_part_renew now id lease part ttl) db h =
    Updates-Moves db (apply (Operation.s3_part_renew now id lease part ttl) db)
      (renew_upload_part_lease-Updates now id lease part ttl db)
apply-Moves (Operation.s3_part_finish id lease part size md5) db h =
    Updates-Moves db (apply (Operation.s3_part_finish id lease part size md5) db)
      (finish_upload_part-Updates id lease part size md5 db)
apply-Moves (Operation.s3_part_cancel id lease part) db h =
    Updates-Moves db (apply (Operation.s3_part_cancel id lease part) db) (Updates-refl db)
apply-Moves (Operation.s3_abort now client key id) db h =
    Updates-Moves db (apply (Operation.s3_abort now client key id) db)
      (s3_claim_abort-Updates now client key id db)
apply-Moves (Operation.s3_finalize now client key id multipart) db h =
    Updates-Moves db (apply (Operation.s3_finalize now client key id multipart) db)
      (finalize_upload-Updates now client key id multipart db h)
apply-Moves (Operation.s3_expire now id) db h =
    Updates-Moves db (apply (Operation.s3_expire now id) db)
      (s3_claim_expired_abort-Updates now id db)
apply-Moves (Operation.s3_reclaim id) db h =
    Updates-Moves db (apply (Operation.s3_reclaim id) db)
      (finalize_reclaimed_upload-Updates is_cleaning id db)
apply-Moves (Operation.s3_discard id) db h =
    Updates-Moves db (apply (Operation.s3_discard id) db)
      (finalize_reclaimed_upload-Updates is_opened id db)
apply-Moves (Operation.s3_renew now id ttl) db h =
    Updates-Moves db (apply (Operation.s3_renew now id ttl) db)
      (s3_renew_completion_lease-Updates now id ttl db)
apply-Moves (Operation.s3_reopen now id ttl) db h =
    Updates-Moves db (apply (Operation.s3_reopen now id ttl) db)
      (s3_reopen_completion-Updates now id ttl db)
apply-Moves (Operation.s3_give_up now id) db h =
    Updates-Moves db (apply (Operation.s3_give_up now id) db)
      (s3_mark_completion_aborting-Updates now id db)
apply-Moves (Operation.put_key now client key id) db h =
    Updates-Moves db (apply (Operation.put_key now client key id) db)
      (upsert_key-Updates now client key id db)
apply-Moves (Operation.remove_key now client key) db h =
    Updates-Moves db (apply (Operation.remove_key now client key) db)
      (delete_key-Updates now client key db)

-- In a sound database every operation moves the row of every file only forward: a new row is
-- pending; a row goes only when it is pruned, deleted or reclaimed; any other stays a later row of
-- the same file.
pub apply-Goes :
    (op : Operation) (db : Db) (k : ℕ)
    → IsSound db
    → Goes (prunes op) (file_at k db) (file_at k (apply op db))
apply-Goes op db k h = apply-Moves op db h k

step-Later :
    (pruned : Bool) (a b : Option File) {f : File}
    → a ≡ some f
    → pruned ≡ false
    → Goes pruned a b
    → (g : File) × (b ≡ some g) × Later f g
step-Later pruned none b e none_goes h = absurd (cc)
step-Later pruned (some x) none e none_goes h = absurd (cc (h.0))
step-Later pruned (some x) (some g) {f} e none_goes h =
    let same : x ≡ f = cc in (g, refl, rw (sym same) h)

-- From a sound database, whatever operations but the removal of finished files run, the row of a
-- file stays, and is a later row of the same file: with the same owner, content type, part size and
-- creation time, a state that is the same or follows it in the lifecycle, and, once the file is
-- not pending, the same ETag, commit time and size.
pub run-Later :
    (ops : List Operation) (db : Db) (k : ℕ) (f : File)
    → IsSound db
    → All (λ op. prunes op ≡ false) ops
    → file_at k db ≡ some f
    → (g : File) × (file_at k (run ops db) ≡ some g) × Later f g
unfolding run
run-Later [] db k f h none_prune at = (f, at, Later-refl f)
run-Later (op ∷ ops) db k f h (keeps, all_keep) at =
    let (g, at_g, later) =
      step-Later (prunes op) (file_at k db) (file_at k (apply op db)) {f = f} at keeps
        (apply-Moves op db h k) in
    let (x, at_x, rest) = run-Later ops (apply op db) k g (apply-IsSound op db h) all_keep at_g in
    (x, at_x, Later-trans f g x later rest)
