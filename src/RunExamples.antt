-- ===== src/RunExamples.antt =====
-- The theorems on the course of files and on the reconciler at concrete inputs.
use grove_storage.Prelude.{
  ℕ, zero, suc, ◌⊎◌, ◌≡◌, ◌≤◌, refl, Bool, true, false, none, some, List, [], ◌∷◌, bytes, All,
  text_eq,
}
use grove_storage.Table.{
  exists_where, find_where, update_where, affected, select_where, delete_where,
}
use grove_storage.Table.Keyed.{row_at}
use grove_storage.Db.Schema.{Db, File}
use grove_storage.Db.Tx.{ok, run_tx}
use grove_storage.Db.Where.{expired_write}
use grove_storage.Db.View.{file_at, upload_at}
use grove_storage.Files.Create.{
  create, create_in_tx, reserve, object_key, ext_for, file_name, storage_of, new_file,
}
use grove_storage.Files.Commit.{finalize_commit, finalize_commit_tx, activate}
use grove_storage.Files.Sweep.{finalize_reclaim}
use grove_storage.Files.Candidates.{expired_pending}
use grove_storage.Lifecycle.Operations.{Operation, apply, run, delete_file}
use grove_storage.Lifecycle.Progress.{Later}
use grove_storage.Lifecycle.Moves.{Goes}
use grove_storage.Lifecycle.Forward.{prunes, apply-Goes, run-Later}
use grove_storage.Lifecycle.Scans.{expired_pending-finalize_reclaim}
use grove_storage.Lifecycle.Coverage.{scanned, due_upload, expired-scanned}
use grove_storage.Policy.Validation.{seen}
use grove_storage.Service.Schedule.{purge, reclaim}
use grove_storage.Reconciler.World.{Event, ran, asked, Pass, Env, failed_one}
use grove_storage.Reconciler.Jobs.{run_job, run_purge}
use grove_storage.Reconciler.World.{ask, transact, io}
use grove_storage.Reconciler.Steps.{each, begin_file_recovery, sweep_then, sweep_object}
use grove_storage.Files.Candidates.{purgeable}
use grove_storage.Table.Scan.{page, by_due, place, for_each}
use grove_storage.Files.Recovery.{claim_recovery, claim_recovery_tx}
use grove_storage.Service.Commit.{cleanup_then_finalize}
use grove_storage.Files.Sweep.{mark_deleted, mark_deleted_tx, finalize_purge, remove_location_tx}
use grove_storage.Reconciler.Down.{run_job-down}
use grove_storage.Reconciler.Sweeps.{heeds}
use grove_storage.Files.Candidates.{ObservedCommitCandidate}
use grove_storage.Service.Commit.{Measured}
use grove_storage.Reconciler.Observe.{measure, observe_commit}
use grove_storage.Reconciler.Verified.{IsDeclared, observe_commit-IsDeclared}
use grove_storage.Reconciler.Removed.{run_job-heeds}
use grove_storage.Examples.{
  at_time, photos, png, one_file, one_object, one_file-IsSound, one_object-IsSound,
}

abbrev a_deletion : Operation
a_deletion = delete_file (at_time 9) photos 1

abbrev new_png : File
new_png = new_file 5 1 png

abbrev stored_png : File
stored_png = activate 7 (bytes "aa") new_png

stored_at : file_at 1 one_object ≡ some stored_png
unfolding run apply create create_in_tx reserve object_key ext_for file_name storage_of
    finalize_commit finalize_commit_tx run_tx exists_where find_where update_where affected text_eq
    row_at
stored_at = refl

new_at : file_at 1 one_file ≡ some new_png
unfolding run apply create create_in_tx reserve object_key ext_for file_name storage_of run_tx
    exists_where find_where update_where affected text_eq row_at
new_at = refl

-- The deletion of a committed file.
apply-Goes_example :
    Goes (prunes a_deletion) (file_at 1 one_object) (file_at 1 (apply a_deletion one_object))
apply-Goes_example = apply-Goes a_deletion one_object 1 one_object-IsSound

run-Later_example :
    (g : File) × (file_at 1 (run (a_deletion ∷ a_deletion ∷ []) one_object) ≡ some g)
    × Later stored_png g
run-Later_example =
    run-Later (a_deletion ∷ a_deletion ∷ []) one_object 1 stored_png one_object-IsSound
      (refl, (refl, tt)) stored_at

-- The write lease of the file lasts until 65.
expired_pending-finalize_reclaim_example :
    All
      (λ c. (finalize_reclaim (at_time 99) c one_file).0 ≡ ok true)
      (expired_pending 20 (at_time 99).tx_now one_file)
expired_pending-finalize_reclaim_example =
    expired_pending-finalize_reclaim (at_time 99) 20 one_file one_file-IsSound

lapsed_by_99 : exists_where (expired_write 99 1) one_file.leases ≡ true
unfolding run apply create create_in_tx reserve object_key ext_for file_name storage_of run_tx
    exists_where find_where update_where affected text_eq
lapsed_by_99 = refl

no_upload : due_upload 99 (upload_at 1 one_file) ≡ true
unfolding run apply create create_in_tx reserve object_key ext_for file_name storage_of run_tx
    exists_where find_where update_where affected text_eq row_at
no_upload = refl

expired-scanned_example : (n : ℕ) × ((limit : ℕ) → n ≤ limit → scanned limit 99 1 one_file ≡ true)
expired-scanned_example =
    expired-scanned 99 1 one_file new_png one_file-IsSound new_at refl lapsed_by_99 no_upload

-- A storage that always answers, with a deletion by a request before the first call of a job.
abbrev quiet_storage : Bool → Env (Unit {0}) (Unit {0}) (Unit {0}) (Unit {0})
quiet_storage broken = record {
  clock = λ n. at_time 99;
  others = λ n. elim n [ zero ↦ a_deletion ∷ [] | _ ↦ [] ];
  down = λ n. broken;
  unavailable = tt;
  picked_file = λ id. true;
  picked_lease = λ le. true;
  picked_row = λ f. true;
  storage_row = λ id. tt;
  get_storage = λ id w. (seen (some tt), w);
  backend_from_row = λ row. seen tt;
  is_relay = λ b. false;
  head_object = λ b id key w. (seen none, w);
  observe_object = λ b id key w. (seen none, w);
  cleanup_upload = λ b c w. (seen tt, w);
  record_snapshot = λ day w. (seen 0, w);
}

abbrev a_pass : {W : Type 0} → W → Db → Pass W
a_pass w db = record {
  db = db;
  storage = w;
  step = 0;
  report = record { processed = 0; failures = 0; skipped = 0 };
  trail = [];
}

run_job-down_example :
    run_job (quiet_storage true) reclaim (a_pass tt one_file)
    ≡ failed_one (record (a_pass tt one_file) { db = run (a_deletion ∷ []) one_file; step = 1 })
run_job-down_example = run_job-down (quiet_storage true) (a_pass tt one_file) refl reclaim

run_job-heeds_example :
    heeds (run_job (quiet_storage false) purge (a_pass tt one_object)).trail ≡ true
unfolding heeds
run_job-heeds_example = run_job-heeds (quiet_storage false) purge (a_pass tt one_object) refl refl

-- The object of the deleted file is removed once, and not again.
abbrev removals : List Event → ℕ
removals [] = 0
removals (ran db ∷ t) = removals t
removals (asked c ∷ t) = suc (removals t)

purge_removes : removals (run_job (quiet_storage false) purge (a_pass tt one_object)).trail ≡ 1
unfolding run_job run_purge ask transact each purgeable page by_due place for_each select_where run
    apply mark_deleted mark_deleted_tx update_where finalize_commit finalize_commit_tx affected
    create create_in_tx reserve object_key ext_for file_name storage_of find_where text_eq
    exists_where begin_file_recovery claim_recovery claim_recovery_tx run_tx sweep_then sweep_object
    io cleanup_then_finalize finalize_purge remove_location_tx delete_where
purge_removes = refl

-- A storage whose object has three bytes.
abbrev three_bytes : Measured
three_bytes = record { size = 3; etag = bytes "aa" }

abbrev holding : Env (Unit {0}) (Unit {0}) (Unit {0}) (Unit {0})
holding = record (quiet_storage false) { head_object = λ b id key w. (seen (some three_bytes), w) }

abbrev a_candidate : ObservedCommitCandidate
a_candidate = record {
  file_id = 1;
  declared_size = 3;
  declared_md5 = some (bytes "AA");
  storage = bytes "disk";
  object_key = bytes "key";
}

observe_commit-IsDeclared_example :
    ((m : Measured) × ((measure holding a_candidate tt (a_pass tt one_file)).0 ≡ seen (some m))
      × IsDeclared a_candidate m
      × (observe_commit holding a_candidate (a_pass tt one_file)
          ≡ transact holding
              (λ now. finalize_commit now a_candidate.file_id m.etag)
              (measure holding a_candidate tt (a_pass tt one_file)).1))
    ⊎ (((observe_commit holding a_candidate (a_pass tt one_file)).1
          ≡ (measure holding a_candidate tt (a_pass tt one_file)).1)
        × (¬ (
            (m : Measured) × ((measure holding a_candidate tt (a_pass tt one_file)).0
              ≡ seen (some m))
            × IsDeclared a_candidate m)))
observe_commit-IsDeclared_example =
    observe_commit-IsDeclared holding a_candidate (a_pass tt one_file) tt refl
