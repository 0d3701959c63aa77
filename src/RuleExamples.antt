-- ===== src/RuleExamples.antt =====
-- The theorems on upload rules and orchestration at concrete inputs.
use grove_storage.Prelude.{
  suc, ℕ, ◌+◌, ◌-◌, ◌*◌, ◌≡◌, refl, ◌↔◌, ◌≤◌, ◌<◌, true, false, Option, none, some, List, [], ◌∷◌,
  Text, bytes, arith, eq_ignore_ascii_case, lower, lower_byte, text_eq, ◌==◌, if◌then◌else◌, not,
  any, is_empty,
}
use grove_storage.Policy.Validation.{
  pos, classify_upload, accepted, max_i64, classify_upload-multipart, seen,
}
use grove_storage.Policy.Multipart.{part_count, part_expected_size, part_offset, part_number_ok}
use grove_storage.Policy.Geometry.{
  total, part_count_bounds, part_expected_size-sum, part_offset-tile,
}
use grove_storage.Policy.Reconcile.{
  ClientPart, LedgerPart, reconciled, reconcile, resolve, by_number, out_of_order, trim_quotes,
  Answers, Ascending, FullSized, number_ok, reconcile-Answers,
}
use grove_storage.Service.Commit.{
  SingleCommit, Measured, Committed, Won, done, md5_differs, commit_done,
}
use grove_storage.Service.Commit
use grove_storage.Service.Schedule.{passes, rounds, default, passes-rounds}
use grove_storage.Policy.Validation.{
  Observed, ObjectObservation, completion_action, finalize, completion_action-finalize, failed,
}
use grove_storage.Policy.Multipart
use grove_storage.Policy.Multipart.{verify_part_sizes, expected_sizes, sizes_ok}
use grove_storage.Policy.Geometry.{sizes, verify_part_sizes-sum}
use grove_storage.Service.Multipart.{
  MultipartCommit, commit_multipart, commit_multipart_done, initialize, recording, compensations,
  expected_compensations, handle_of, compensations-initialize,
}
use grove_storage.Management.Policy.{
  Caller, reader, admin, active, user_session, valid, console, read_audit_history, authorize, reach,
  allowed, self_only, console_only, is_console, authorize-rank, authorize-allowed,
}

-- 12 MiB and a byte, in parts of 5 MiB.
abbrev declared : ℕ
declared = 12582913

abbrev part_size : ℕ
part_size = 5242880

classify_upload-multipart_example :
    (classify_upload (pos declared) 1000 part_size false ≡ accepted true)
    ↔ ((1000 < declared) × (declared ≤ part_size * 10000) × (declared ≤ max_i64) × (false ≡ false))
classify_upload-multipart_example = classify_upload-multipart declared 1000 part_size false

is_accepted : classify_upload (pos declared) 1000 part_size false ≡ accepted true
unfolding classify_upload
is_accepted = refl

part_count_bounds_example :
    (declared + part_size ≤ max_i64)
    × (part_count declared part_size * part_size ≤ max_i64)
    × (1 ≤ part_count declared part_size)
    × (part_count declared part_size ≤ 10000)
    × (declared ≤ part_count declared part_size * part_size)
    × ((part_count declared part_size - 1) * part_size < declared)
part_count_bounds_example =
    part_count_bounds declared 1000 part_size false is_accepted (omega arith) (omega arith)

part_expected_size-sum_example : total declared part_size (part_count declared part_size) ≡ declared
part_expected_size-sum_example =
    part_expected_size-sum declared 1000 part_size false is_accepted (omega arith) (omega arith)

second_part_ok : part_number_ok 2 (part_count declared part_size) ≡ true
unfolding part_number_ok part_count
second_part_ok = refl

part_offset-tile_example :
    (1 ≤ part_expected_size declared part_size 2)
    × (part_expected_size declared part_size 2 ≤ part_size)
    × (part_offset part_size 2 + part_expected_size declared part_size 2
        ≡ (if 2 == part_count declared part_size then declared else part_offset part_size 3))
part_offset-tile_example =
    part_offset-tile declared 1000 part_size 2 false is_accepted (omega arith) (omega arith)
      second_part_ok

abbrev listed : List ClientPart
listed =
    record { number = 1; etag = bytes "\"AB\"" } ∷ record { number = 4; etag = bytes "cd" } ∷ []

abbrev first_part : LedgerPart
first_part = record { number = 1; size = pos 5242880; etag = bytes "ab" }

abbrev fourth_part : LedgerPart
fourth_part = record { number = 4; size = pos 7; etag = bytes "cd" }

abbrev parts_ledger : List LedgerPart
parts_ledger = first_part ∷ fourth_part ∷ []

is_reconciled : reconcile listed parts_ledger ≡ reconciled (first_part ∷ fourth_part ∷ [])
unfolding reconcile resolve by_number out_of_order trim_quotes eq_ignore_ascii_case lower lower_byte
    text_eq
is_reconciled = refl

reconcile-Answers_example :
    Answers parts_ledger listed (first_part ∷ fourth_part ∷ [])
    × Ascending listed
    × FullSized (first_part ∷ fourth_part ∷ [])
    × (any (λ c. not (number_ok c.number)) listed ≡ false)
    × (is_empty listed ≡ false)
reconcile-Answers_example =
    reconcile-Answers listed parts_ledger (first_part ∷ fourth_part ∷ []) is_reconciled

-- A world that is the ETag of the file, once it is active.
abbrev shelf : SingleCommit (Option Text) Text
shelf = record {
  observe = λ w. (seen (some (record { size = 3; etag = bytes "aa" })), w);
  finalize = λ etag w. elim w [ none ↦ (seen true, some etag) | some old ↦ (seen false, some old) ];
  committed_etag = λ w. (seen w, w);
}

abbrev reply : Committed
reply = record { etag = bytes "bb"; transitioned = false }

late_commit : (Commit.commit shelf 3 none (some (bytes "bb"))).0 ≡ done reply
unfolding Commit.commit
late_commit = refl

commit_done_example :
    (m : Measured) × ((shelf.observe (some (bytes "bb"))).0 ≡ seen (some m))
    × (m.size ≡ 3)
    × (md5_differs none m.etag ≡ false)
    × Won shelf reply m (shelf.observe (some (bytes "bb"))).1
commit_done_example = commit_done shelf 3 none (some (bytes "bb")) reply late_commit

-- Passes of 5, 0 and 8 jobs.
passes-rounds_example : (passes (5 ∷ 0 ∷ 8 ∷ []) default).0 ≡ rounds 1
passes-rounds_example = passes-rounds 1 (5 ∷ 0 ∷ 8 ∷ []) refl

abbrev three_parts : List Multipart.Measured
three_parts =
    record { number = 1; size = 5242880; etag = bytes "a" }
    ∷ record { number = 2; size = 5242880; etag = bytes "b" }
    ∷ record { number = 3; size = 2097153; etag = bytes "c" }
    ∷ []

sizes_checked :
    verify_part_sizes three_parts declared part_size (part_count declared part_size) ≡ sizes_ok
unfolding verify_part_sizes expected_sizes part_count part_expected_size
sizes_checked = refl

verify_part_sizes-sum_example : sizes three_parts ≡ declared
verify_part_sizes-sum_example =
    verify_part_sizes-sum declared 1000 part_size false three_parts is_accepted (omega arith)
      (omega arith) (refl, (refl, (refl, tt))) sizes_checked

abbrev found_object : Observed Text (Option ObjectObservation)
found_object = seen (some (record { size = 3; etag = bytes "Ab" }))

completion_action-finalize_example :
    (completion_action 3 (bytes "aB") true found_object ≡ seen finalize) ↔ (
      (o : ObjectObservation) × (found_object ≡ seen (some o))
      × (o.size ≡ 3)
      × (eq_ignore_ascii_case o.etag (bytes "aB") ≡ true))
completion_action-finalize_example = completion_action-finalize 3 (bytes "aB") true found_object

compensations-initialize_example :
    compensations (initialize (recording (seen (bytes "id")) (failed (bytes "no")) (seen tt)) []).1
    ≡ expected_compensations
        (initialize (recording (seen (bytes "id")) (failed (bytes "no")) (seen tt)) []).0
        (handle_of {E = Text} (seen (bytes "id")))
compensations-initialize_example =
    compensations-initialize {E = Text} (seen (bytes "id")) (failed (bytes "no")) (seen tt)

abbrev vendor : MultipartCommit ℕ Text ℕ
vendor = record {
  prepare = λ w. (seen (some w), suc w);
  complete = λ p w. (seen (some (bytes "e-2")), w);
  finalize = λ etag w. (seen true, w);
}

vendor_commits : (commit_multipart vendor 4).0 ≡ done (some (bytes "e-2"))
unfolding commit_multipart
vendor_commits = refl

commit_multipart_done_example :
    (p : ℕ) × ((vendor.prepare 4).0 ≡ seen (some p))
    × ((vendor.complete p (vendor.prepare 4).1).0 ≡ seen (some (bytes "e-2")))
    × ((vendor.finalize (bytes "e-2") (vendor.complete p (vendor.prepare 4).1).1).0 ≡ seen true)
commit_multipart_done_example = commit_multipart_done vendor 4 (bytes "e-2") vendor_commits

abbrev visitor : Caller
visitor = record { role = reader; account = active; method = user_session; credential = valid }

authorize-rank_example :
    reach (authorize visitor console read_audit_history)
    ≤ reach (authorize (record visitor { role = admin }) console read_audit_history)
authorize-rank_example = authorize-rank visitor admin console read_audit_history (omega arith)

audit_allowed : authorize visitor console read_audit_history ≡ allowed self_only
unfolding authorize
audit_allowed = refl

authorize-allowed_example :
    (visitor.credential ≡ valid)
    × (visitor.account ≡ active)
    × (console_only read_audit_history ≡ true
        → (visitor.method ≡ user_session) × (is_console console ≡ true))
authorize-allowed_example =
    authorize-allowed visitor console read_audit_history self_only audit_allowed
