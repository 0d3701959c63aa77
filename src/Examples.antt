-- ===== src/Examples.antt =====
-- Runs of the definitions, and the theorems at concrete inputs.
use grove_storage.Prelude.{
  ℕ, ◌≡◌, refl, true, false, none, some, List, [], ◌∷◌, Text, bytes, text_eq,
}
use grove_storage.Table.{exists_where, find_where, update_where, affected, delete_where}
use grove_storage.Db.Schema.{Clock, Client, Db}
use grove_storage.Db.Tx.{ok, err, foreign_key_violation, has_client, has_file, run_tx}
use grove_storage.Db.View.{file_at, upload_at}
use grove_storage.Files.Create.{
  Render, CreateSpec, create, create_in_tx, reserve, object_key, ext_for, file_name, storage_of,
}
use grove_storage.Files.Commit.{finalize_commit, finalize_commit_tx}
use grove_storage.Files.Sweep.{
  mark_deleted, mark_deleted_tx, deleted_now, already_deleted, finalize_reclaim_tx,
}
use grove_storage.Lifecycle.Operations.{
  Operation, create_file, commit_file, delete_file, put_key, apply, run, start,
}
use grove_storage.Lifecycle.Invariant.{IsSound}
use grove_storage.Lifecycle.Reachable.{run-IsSound}
use grove_storage.Lifecycle.Races.{attempt, attempt_rollback, commit, reclaim}
use grove_storage.Lifecycle.Allowed.{allowed, attempt-allowed}
use grove_storage.Lifecycle.Departures.{depart, by, finalize, depart_once}
use grove_storage.Lifecycle.Deletion.{deletion, mark_deleted-deletion, mark_deleted_again}
use grove_storage.Registry.Keys.{get_key, upsert_key, delete_key}
use grove_storage.Registry.Mapping.{
  displaced, file_of_key, Detached, upsert_key-get_key, upsert_key_missing, delete_key-get_key,
}
use grove_storage.Prelude.{All}
use grove_storage.Files.Create.{lookup}
use grove_storage.Files.Multipart.{
  claim_relay_part, claim_relay_part_tx, claim_part, finish_relay_part, finish_relay_part_tx,
  cancel_relay_part, part_claimed,
}
use grove_storage.Lifecycle.Operations.{part_claim, part_finish}
use grove_storage.Lifecycle.PartClaims.{
  OnePart, measured_if_done, cancel_relay_part-claim_relay_part,
}

abbrev pub printed : Render
printed = record { uuid = λ id. id ∷ []; year_month = λ t. bytes "1970/01" }

abbrev pub at_time : ℕ → Clock
at_time t = record { tx_now = t; wall_now = t }

abbrev pub photos : Text
photos = bytes "photos"

abbrev pub clients : List Client
clients = record { id = photos; storage_id = bytes "disk" } ∷ []

abbrev pub png : CreateSpec
png = record {
  client_id = photos;
  declared_size = 3;
  content_type = some (bytes "image/png");
  declared_md5 = none;
  lease_ttl_secs = 60;
  part_size = none;
}

abbrev pub upload_one : List Operation
upload_one = create_file printed (at_time 5) 1 9 png ∷ []

abbrev pub upload_and_commit : List Operation
upload_and_commit =
    create_file printed (at_time 5) 1 9 png ∷ commit_file (at_time 7) 1 (bytes "aa") ∷ []

-- A file that was created, committed, put under a key and deleted.
run-IsSound_example : IsSound (
    run
      (create_file printed (at_time 5) 1 9 png
        ∷ commit_file (at_time 7) 1 (bytes "aa")
        ∷ put_key (at_time 8) photos (bytes "cat") 1
        ∷ delete_file (at_time 9) photos 1
        ∷ [])
      (start clients))
run-IsSound_example = run-IsSound clients (
    create_file printed (at_time 5) 1 9 png
    ∷ commit_file (at_time 7) 1 (bytes "aa")
    ∷ put_key (at_time 8) photos (bytes "cat") 1
    ∷ delete_file (at_time 9) photos 1
    ∷ [])

abbrev pub one_file : Db
one_file = run upload_one (start clients)

abbrev pub one_object : Db
one_object = run upload_and_commit (start clients)

pub one_file-IsSound : IsSound one_file
one_file-IsSound = run-IsSound clients upload_one

pub one_object-IsSound : IsSound one_object
one_object-IsSound = run-IsSound clients upload_and_commit

commit_wins : (attempt (commit (at_time 7) (bytes "aa")) 1 one_file).0 ≡ ok true
unfolding attempt run apply create create_in_tx reserve object_key ext_for file_name storage_of
    finalize_commit_tx run_tx exists_where find_where update_where affected delete_where text_eq
commit_wins = refl

-- The confirmation of an upload, and another by an S3 session that comes too late.
commit_departs : (depart (by (commit (at_time 7) (bytes "aa"))) 1 one_file).0 ≡ ok true
unfolding depart
commit_departs = commit_wins

depart_once_example :
    ((depart
        (finalize (at_time 8) photos (bytes "cat") false)
        1
        (depart (by (commit (at_time 7) (bytes "aa"))) 1 one_file).1).0
      ≡ ok false)
    × ((depart
          (finalize (at_time 8) photos (bytes "cat") false)
          1
          (depart (by (commit (at_time 7) (bytes "aa"))) 1 one_file).1).1
        ≡ (depart (by (commit (at_time 7) (bytes "aa"))) 1 one_file).1)
depart_once_example =
    depart_once (by (commit (at_time 7) (bytes "aa")))
      (finalize (at_time 8) photos (bytes "cat") false) 1 one_file commit_departs

attempt-allowed_example :
    (attempt (reclaim (at_time 99)) 1 one_file).0
    ≡ ok (allowed (reclaim (at_time 99)) 1 (file_at 1 one_file) (upload_at 1 one_file) one_file)
attempt-allowed_example = attempt-allowed (reclaim (at_time 99)) 1 one_file one_file-IsSound

-- The lease of the upload lasts until 65.
reclaim_refused : (attempt (reclaim (at_time 60)) 1 one_file).0 ≡ ok false
unfolding attempt run apply create create_in_tx reserve object_key ext_for file_name storage_of
    finalize_reclaim_tx run_tx exists_where find_where update_where affected delete_where text_eq
reclaim_refused = refl

attempt_rollback_example : (attempt (reclaim (at_time 60)) 1 one_file).1 ≡ one_file
attempt_rollback_example = attempt_rollback (reclaim (at_time 60)) 1 one_file reclaim_refused

mark_deleted-deletion_example :
    (mark_deleted (at_time 8) photos 1 one_object).0 ≡ ok (deletion photos (file_at 1 one_object))
mark_deleted-deletion_example =
    mark_deleted-deletion (at_time 8) photos 1 one_object one_object-IsSound

first_deletion : (mark_deleted (at_time 8) photos 1 one_object).0 ≡ ok deleted_now
unfolding mark_deleted mark_deleted_tx run apply create create_in_tx reserve object_key ext_for
    file_name storage_of finalize_commit finalize_commit_tx run_tx exists_where find_where
    update_where affected delete_where text_eq
first_deletion = refl

mark_deleted_again_example :
    mark_deleted (at_time 9) photos 1 (mark_deleted (at_time 8) photos 1 one_object).1
    ≡ (ok already_deleted, (mark_deleted (at_time 8) photos 1 one_object).1)
mark_deleted_again_example =
    mark_deleted_again (at_time 8) (at_time 9) photos 1 one_object one_object-IsSound first_deletion

has_photos : has_client photos one_object ≡ true
unfolding run apply create create_in_tx reserve object_key ext_for file_name storage_of run_tx
    finalize_commit finalize_commit_tx exists_where find_where update_where affected text_eq
has_photos = refl

has_object : has_file 1 one_object ≡ true
unfolding run apply create create_in_tx reserve object_key ext_for file_name storage_of run_tx
    finalize_commit finalize_commit_tx exists_where find_where update_where affected text_eq
has_object = refl

has_no_second : has_file 2 one_object ≡ false
unfolding run apply create create_in_tx reserve object_key ext_for file_name storage_of run_tx
    finalize_commit finalize_commit_tx exists_where find_where update_where affected text_eq
has_no_second = refl

upsert_key_missing_example :
    ((upsert_key (at_time 8) photos (bytes "cat") 2 one_object).0 ≡ err foreign_key_violation)
    × ((upsert_key (at_time 8) photos (bytes "cat") 2 one_object).1 ≡ one_object)
upsert_key_missing_example =
    upsert_key_missing (at_time 8) photos (bytes "cat") 2 one_object has_no_second

upsert_key-get_key_example :
    ((upsert_key (at_time 8) photos (bytes "cat") 1 one_object).0
      ≡ ok (displaced 1 (get_key photos (bytes "cat") one_object)))
    × (file_of_key (
          get_key photos (bytes "cat") (upsert_key (at_time 8) photos (bytes "cat") 1 one_object).1)
        ≡ some 1)
    × Detached
        (upsert_key (at_time 8) photos (bytes "cat") 1 one_object).1
        (displaced 1 (get_key photos (bytes "cat") one_object))
upsert_key-get_key_example =
    upsert_key-get_key (at_time 8) photos (bytes "cat") 1 one_object has_photos has_object

abbrev one_key : Db
one_key = (upsert_key (at_time 8) photos (bytes "cat") 1 one_object).1

delete_key-get_key_example :
    ((delete_key (at_time 9) photos (bytes "cat") one_key).0
      ≡ ok (file_of_key (get_key photos (bytes "cat") one_key)))
    × (get_key photos (bytes "cat") (delete_key (at_time 9) photos (bytes "cat") one_key).1 ≡ none)
    × Detached
        (delete_key (at_time 9) photos (bytes "cat") one_key).1
        (file_of_key (get_key photos (bytes "cat") one_key))
delete_key-get_key_example = delete_key-get_key photos (bytes "cat") (at_time 9) one_key

abbrev pdf_in_parts : CreateSpec
pdf_in_parts = record {
  client_id = photos;
  declared_size = 12;
  content_type = some (bytes "application/pdf");
  declared_md5 = none;
  lease_ttl_secs = 60;
  part_size = some 5;
}

-- A multipart file whose first part was uploaded.
abbrev partly_sent : Db
partly_sent =
    run
      (create_file printed (at_time 5) 1 9 pdf_in_parts
        ∷ part_claim (at_time 6) 1 9 1 60
        ∷ part_finish 1 9 1 5 (bytes "ab")
        ∷ [])
      (start clients)

partly_sent-OnePart : OnePart partly_sent.parts
unfolding run apply create create_in_tx reserve object_key ext_for file_name lookup storage_of
    claim_relay_part claim_relay_part_tx claim_part finish_relay_part finish_relay_part_tx run_tx
    exists_where find_where update_where affected delete_where text_eq
partly_sent-OnePart = (refl, tt)

partly_sent_full : All (λ p. measured_if_done p ≡ true) partly_sent.parts
unfolding run apply create create_in_tx reserve object_key ext_for file_name lookup storage_of
    claim_relay_part claim_relay_part_tx claim_part finish_relay_part finish_relay_part_tx run_tx
    exists_where find_where update_where affected delete_where text_eq
partly_sent_full = (refl, tt)

first_part_claimed : (claim_relay_part (at_time 8) 1 9 1 60 partly_sent).0 ≡ ok part_claimed
unfolding run apply create create_in_tx reserve object_key ext_for file_name lookup storage_of
    claim_relay_part claim_relay_part_tx claim_part finish_relay_part finish_relay_part_tx run_tx
    exists_where find_where update_where affected delete_where text_eq
first_part_claimed = refl

cancel_relay_part-claim_relay_part_example :
    (cancel_relay_part 1 9 1 (claim_relay_part (at_time 8) 1 9 1 60 partly_sent).1).1.parts
    ≡ partly_sent.parts
cancel_relay_part-claim_relay_part_example =
    cancel_relay_part-claim_relay_part (at_time 8) 1 9 1 60 partly_sent partly_sent-OnePart
      partly_sent_full first_part_claimed
