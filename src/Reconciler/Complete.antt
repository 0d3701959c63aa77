-- ===== src/Reconciler/Complete.antt =====
-- backend/crates/api/src/reconciler/native_completion.rs and s3_completion.rs: a completion whose
-- owner is gone is finished, reopened or cleaned by what the storage shows. A row with
-- a NULL where its struct has a value does not decode, and fails the scan.
use grove_storage.Prelude.{ℕ, Bool, true, Option, none, some, List, [], ◌∷◌, Text}
use grove_storage.Db.Schema.{Clock}
use grove_storage.Files.Completion
use grove_storage.Files.Candidates.{CompletionCandidate, completion_candidates, cleanup_candidates}
use grove_storage.Files.Recovery.{native_complete, native_cleanup, s3_complete}
use grove_storage.Policy.Validation.{
  Observed, seen, failed, ObjectObservation, CompletionAction, completion_action, finalize, reopen,
  cleanup,
}
use grove_storage.Registry.Candidates as S3Scans
use grove_storage.Registry.Finish as S3Sessions
use grove_storage.Registry.Finish.{FinalizeOutcome, finalized, precondition_failed, not_pending}
use grove_storage.Reconciler.World.{Pass, Env, transact, ask, io, processed_some, failed_one}
use grove_storage.Reconciler.Steps.{batch_limit, count, over, if_begun, begin_recovery, sweep_then}

abbrev pub write_lease_ttl : ℕ
write_lease_ttl = 900

pub record NativeCompletion : Type 0 where
  pub file_id : ℕ
  pub expected_size : ℕ
  pub expected_etag : Text
  pub storage_id : Text
  pub object_key : Text

abbrev native_row : CompletionCandidate → Option Text → Option NativeCompletion
native_row c none = none
native_row c (some etag) = some (record {
  file_id = c.file_id;
  expected_size = c.expected_size;
  expected_etag = etag;
  storage_id = c.storage_id;
  object_key = c.object_key;
})

pub record S3Completion : Type 0 where
  pub file_id : ℕ
  pub client_id : Text
  pub key : Text
  pub multipart : Bool
  pub expected_size : ℕ
  pub expected_etag : Text
  pub storage_id : Text
  pub object_key : Text

abbrev s3_row :
    S3Scans.CompletionCandidate → Option Text → Option ℕ → Option Text → Option S3Completion
s3_row c (some key) (some size) (some etag) = some (record {
  file_id = c.file_id;
  client_id = c.client_id;
  key = key;
  multipart = c.multipart;
  expected_size = size;
  expected_etag = etag;
  storage_id = c.storage_id;
  object_key = c.object_key;
})
s3_row c none size etag = none
s3_row c (some key) none etag = none
s3_row c (some key) (some size) none = none

module _ {D : Type 0} where
  abbrev pub cons_some : Option D → Option (List D) → Option (List D)
  cons_some (some d) (some ds) = some (d ∷ ds)
  cons_some (some d) none = none
  cons_some none ds = none

  abbrev pub all_rows : {E : Type 0} → E → Option (List D) → Observed E (List D)
  all_rows e none = failed e
  all_rows e (some ds) = seen ds

module _ {C D : Type 0} where
  unfoldable pub decode : (C → Option D) → List C → Option (List D)
  decode row [] = some []
  decode row (c ∷ cs) = cons_some (row c) (decode row cs)

module _ {W E Row Backend : Type 0} (env : Env W E Row Backend) where
  -- `observe_backend_object` of the backend of the registered storage.
  abbrev pub observe_with :
      Text → Text → Observed E Backend → Pass W → Observed E (Option ObjectObservation) × Pass W
  observe_with storage key (failed e) s = (failed e, s)
  observe_with storage key (seen backend) s = io env (env.observe_object backend storage key) s

  abbrev pub registered :
      Text
      → Text
      → Observed E (Option Row) × Pass W
      → Observed E (Option ObjectObservation) × Pass W
  registered storage key (failed e, s) = (failed e, s)
  registered storage key (seen none, s) = (failed env.unavailable, s)
  registered storage key (seen (some row), s) =
      observe_with storage key (env.backend_from_row row) s

  unfoldable pub observe_completion :
      Text → Text → Pass W → Observed E (Option ObjectObservation) × Pass W
  observe_completion storage key s = registered storage key (io env (env.get_storage storage) s)

  abbrev pub rows_of :
      {C D : Type 0} → (C → Option D) → Observed E (List C) × Pass W → Observed E (List D) × Pass W
  rows_of row (failed e, s) = (failed e, s)
  rows_of row (seen cs, s) = (all_rows env.unavailable (decode row cs), s)

  -- What is done with a completion, once its object was looked for.
  abbrev pub chosen :
      (CompletionAction → Pass W → Pass W) → Observed E CompletionAction → Pass W → Pass W
  chosen act (failed e) s = failed_one s
  chosen act (seen a) s = act a s

  abbrev pub decided :
      ℕ
      → Text
      → Bool
      → (CompletionAction → Pass W → Pass W)
      → Observed E (Option ObjectObservation) × Pass W
      → Pass W
  decided size etag multipart act (found, s) =
      chosen act (completion_action size etag multipart found) s

  abbrev pub native_act : ℕ → Text → CompletionAction → Pass W → Pass W
  native_act id etag finalize s =
      count (transact env (λ now. Completion.finalize_completion now id etag) s)
  native_act id etag reopen s =
      count (transact env (λ now. Completion.reopen_completion now id write_lease_ttl) s)
  native_act id etag cleanup s = count (transact env (λ now. Completion.claim_cleanup now id) s)

  abbrev pub complete_native : NativeCompletion → Pass W → Pass W
  complete_native c s =
      if_begun
        (λ s.
          decided c.expected_size c.expected_etag true (native_act c.file_id c.expected_etag)
            (observe_completion c.storage_id c.object_key s))
        (begin_recovery env c.file_id native_complete s)

  -- `native_completion::recover`.
  unfoldable pub recover_native : Pass W → Pass W
  unfolding observe_completion
  recover_native s = over complete_native (
      rows_of (λ c. native_row c c.expected_etag)
        (ask env (λ (now : Clock). completion_candidates batch_limit now.tx_now) s))

  -- `native_completion::cleanup`.
  unfoldable pub cleanup_native : Pass W → Pass W
  cleanup_native s =
      over
        (λ c s.
          if_begun (sweep_then env (λ now. Completion.finalize_cleanup c.file_id) c)
            (begin_recovery env c.file_id native_cleanup s))
        (ask env (λ (now : Clock). cleanup_candidates batch_limit now.tx_now) s)

  -- A finalization that a precondition stopped has moved its session on, too.
  abbrev pub count_outcome : Observed E FinalizeOutcome × Pass W → Pass W
  count_outcome (seen (finalized displaced), s) = processed_some 1 s
  count_outcome (seen precondition_failed, s) = processed_some 1 s
  count_outcome (seen not_pending, s) = s
  count_outcome (failed e, s) = failed_one s

  abbrev pub s3_act : S3Completion → CompletionAction → Pass W → Pass W
  s3_act c finalize s = count_outcome (
      transact env (λ now. S3Sessions.finalize_upload now c.client_id c.key c.file_id c.multipart)
        s)
  s3_act c reopen s =
      count (transact env (λ now. S3Sessions.reopen_completion now c.file_id write_lease_ttl) s)
  s3_act c cleanup s =
      count (transact env (λ now. S3Sessions.mark_completion_aborting now c.file_id) s)

  abbrev pub complete_s3 : S3Completion → Pass W → Pass W
  complete_s3 c s =
      if_begun
        (λ s.
          decided c.expected_size c.expected_etag c.multipart (s3_act c)
            (observe_completion c.storage_id c.object_key s))
        (begin_recovery env c.file_id s3_complete s)

  -- `s3_completion::recover`.
  unfoldable pub recover_s3 : Pass W → Pass W
  unfolding observe_completion
  recover_s3 s = over complete_s3 (
      rows_of (λ (c : S3Scans.CompletionCandidate). s3_row c c.key c.expected_size c.expected_etag)
        (ask env (λ (now : Clock). S3Scans.completion_candidates batch_limit now.tx_now) s))
