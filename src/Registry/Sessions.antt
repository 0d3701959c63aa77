-- ===== src/Registry/Sessions.antt =====
-- backend/crates/db/src/s3_registry/uploads.rs, first part: an S3 upload is opened, and a Complete
-- claims it before the work at the provider.
use grove_storage.Prelude.{
  ℕ, Bool, true, false, ◌&&◌, ◌||◌, ◌==◌, not, Option, some, none, Text, text_eq, is_some,
  if◌then◌else◌,
}
use grove_storage.Table.{exists_where, find_where}
use grove_storage.Db.Schema.{
  Clock, Db, File, Upload, UploadState, s3, opened, completing, cleaning, is_pending, is_opened,
  is_completing,
}
use grove_storage.Db.Where.{pending_file, issued_write, s3_upload}
use grove_storage.Db.Tx.{
  Tx, Reply, run_tx, ◌>>=◌, ◌>>◌, or_return, require, commit, reads, stop, returns, update_leases,
  update_uploads, insert_upload,
}
use grove_storage.Files.Create.{Render, CreateSpec, CreateOutcome, created, create_in_tx}
use grove_storage.Files.Completion.{renew, part_uploading}

abbrev pub open_session : ℕ → ℕ → Text → Bool → Bool → Upload
open_session now file_id key multipart if_none_match = record {
  file_id = file_id;
  protocol = s3;
  key = some key;
  multipart = multipart;
  if_none_match = if_none_match;
  state = opened;
  expected_size = none;
  expected_etag = none;
  updated_at = now;
  recovery_after = now;
}

unfoldable pub create_upload :
    Render → Clock → ℕ → ℕ → CreateSpec → Text → Bool → Db → Reply CreateOutcome × Db
unfolding create_in_tx run_tx
create_upload render now file_id lease_id spec key if_none_match = run_tx (
    create_in_tx render now file_id lease_id spec λ file. do
      _ ←
          insert_upload
            (open_session now.tx_now file.file_id key (is_some spec.part_size) if_none_match)
      commit (created file))

-- `key = $2` of a session.
abbrev pub keyed : Text → Upload → Bool
keyed key u = elim u.key [ none ↦ false | some k ↦ text_eq k key ]

abbrev pub same_bool : Bool → Bool → Bool
same_bool true b = b
same_bool false b = not b

-- The open session, or the completing one too, of this client, key and mode.
unfoldable pub upload_matches_states : Text → Text → ℕ → Bool → Bool → Db → Bool
upload_matches_states client_id key file_id multipart allow_completing db =
    exists_where
      (λ u.
        s3_upload file_id u
        && keyed key u
        && same_bool u.multipart multipart
        && (is_opened u.state || allow_completing && is_completing u.state)
        && exists_where
            (λ (f : File).
              pending_file file_id f
              && text_eq f.client_id client_id
              && same_bool (is_some f.part_size) multipart)
            db.files)
      db.uploads

unfoldable pub upload_matches : Text → Text → ℕ → Bool → Db → Bool
unfolding upload_matches_states
upload_matches client_id key file_id multipart =
    upload_matches_states client_id key file_id multipart false

unfoldable pub completion_matches : Text → Text → ℕ → Bool → Db → Bool
unfolding upload_matches_states
completion_matches client_id key file_id multipart =
    upload_matches_states client_id key file_id multipart true

pub data CompletionClaim : Type 0 where
  won resuming busy unavailable : CompletionClaim

pub record CompletionSpec : Type 0 where
  pub client_id : Text
  pub key : Text
  pub file_id : ℕ
  pub multipart : Bool
  pub expected_size : ℕ
  pub expected_etag : Text
  pub lease_ttl_secs : ℕ

-- The pending file of this client, of one mode.
abbrev pub mode_file : Text → ℕ → Bool → File → Bool
mode_file client_id file_id multipart f =
    f.id == file_id
    && text_eq f.client_id client_id
    && is_pending f.state
    && same_bool (is_some f.part_size) multipart

abbrev pub session_of : Text → ℕ → Bool → Upload → Bool
session_of key file_id multipart u =
    s3_upload file_id u && keyed key u && same_bool u.multipart multipart

-- The session already expects these values.
abbrev pub same_values : CompletionSpec → Upload → Bool
same_values spec u =
    elim u.expected_size [ none ↦ false | some n ↦ n == spec.expected_size ]
    && elim u.expected_etag [ none ↦ false | some e ↦ text_eq e spec.expected_etag ]

abbrev pub start_completing : ℕ → ℕ → Text → Upload → Upload
start_completing now size etag u = record u {
  state = completing;
  expected_size = some size;
  expected_etag = some etag;
  updated_at = now;
  recovery_after = now;
}

-- `open → completing` of a single PUT: the lease first, then the session.
abbrev pub take_single : Clock → CompletionSpec → Tx CompletionClaim CompletionClaim
take_single now spec = do
  n ← update_leases (issued_write spec.file_id) (renew now.tx_now spec.lease_ttl_secs)
  or_return unavailable n
  _ ←
      update_uploads (s3_upload spec.file_id)
        (start_completing now.tx_now spec.expected_size spec.expected_etag)
  commit won

abbrev pub s3_opened : ℕ → Upload → Bool
s3_opened file_id u = s3_upload file_id u && is_opened u.state

-- The same of a multipart session, which has to be open still.
abbrev pub take_multipart : Clock → CompletionSpec → Tx CompletionClaim CompletionClaim
take_multipart now spec = do
  n ← update_leases (issued_write spec.file_id) (renew now.tx_now spec.lease_ttl_secs)
  or_return unavailable n
  m ←
      update_uploads (s3_opened spec.file_id)
        (start_completing now.tx_now spec.expected_size spec.expected_etag)
  or_return unavailable m
  commit won

-- By the state of the session found: `take` is the transition of an open one.
abbrev pub claim_by_state :
    UploadState → Bool → Tx CompletionClaim CompletionClaim → Tx CompletionClaim CompletionClaim
claim_by_state completing same take db = stop (returns (if same then resuming else unavailable))
claim_by_state opened same take db = take db
claim_by_state cleaning same take db = stop (returns unavailable)

abbrev pub claim_session :
    CompletionSpec
    → Tx CompletionClaim CompletionClaim
    → Option Upload
    → Tx CompletionClaim CompletionClaim
claim_session spec take none db = stop (returns unavailable)
claim_session spec take (some u) db = claim_by_state u.state (same_values spec u) take db

-- The single PUT: the session's size is the declared one.
unfoldable pub claim_single_tx : Clock → CompletionSpec → Tx CompletionClaim CompletionClaim
claim_single_tx now spec = do
  file ← reads (λ db. find_where (mode_file spec.client_id spec.file_id false) db.files)
  require (elim file [ none ↦ false | some f ↦ spec.expected_size == f.declared_size ]) unavailable
  session ← reads (λ db. find_where (session_of spec.key spec.file_id false) db.uploads)
  claim_session spec (take_single now spec) session

abbrev pub open_or_completing : Upload → Bool
open_or_completing u = is_opened u.state || is_completing u.state

-- `begin_multipart_completion` and the claim of its guard, in one transaction.
unfoldable pub claim_multipart_tx : Clock → CompletionSpec → Tx CompletionClaim CompletionClaim
unfolding part_uploading
claim_multipart_tx now spec = do
  locked ← reads (λ db. exists_where (mode_file spec.client_id spec.file_id true) db.files)
  require locked unavailable
  session ← reads (λ db.
      find_where (λ u. session_of spec.key spec.file_id true u && open_or_completing u) db.uploads)
  require (is_some session) unavailable
  uploading ← reads (part_uploading spec.file_id)
  require (not uploading) busy
  claim_session spec (take_multipart now spec) session

unfoldable pub claim_completion : Clock → CompletionSpec → Db → Reply CompletionClaim × Db
unfolding claim_single_tx claim_multipart_tx run_tx
claim_completion now spec db =
    if spec.multipart
    then run_tx (claim_multipart_tx now spec) db
    else run_tx (claim_single_tx now spec) db
