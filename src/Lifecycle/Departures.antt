-- ===== src/Lifecycle/Departures.antt =====
-- All the ways out of `pending`: the transitions of Races, and finalize_upload of
-- db/src/s3_registry/uploads.rs, which answers an outcome.
use grove_storage.Prelude.{
  ℕ, ◌≡◌, refl, Bool, true, false, Option, none, some, Text, arith, ◌==◌, ◌∙◌, if◌then◌else◌,
}
use grove_storage.Table.{
  exists_where, find_where, update_where, delete_where, exists-update_never, exists-update_same,
  exists_mono_none,
}
use grove_storage.Db.Schema.{Db, Clock, Upload, ObjectKey}
use grove_storage.Db.Where.{pending_file, issued_write, s3_upload}
use grove_storage.Db.Tx.{
  Tx, Reply, Step, Exit, ok, err, next, stop, check, returns, fails, settle, bind, pure, key_at,
  refer_file, update_keys, ◌>>=◌, run_tx,
}
use grove_storage.Files.Commit.{settle_lease}
use grove_storage.Files.Sweep.{detach}
use grove_storage.Registry.Sessions.{mode_file}
use grove_storage.Registry.Keys.{
  active_file, detach_displaced, replace_key, old_file, upsert_key_in_tx,
}
use grove_storage.Registry.Finish.{
  FinalizeOutcome, finalized, precondition_failed, not_pending, finalize_upload, finalize_upload_tx,
  finalize_session, completing_session, confirm, refuse, take_key, reserve_key, activate_as,
}
use grove_storage.Lifecycle.Races.{
  Transition, attempt, NotPending, attempt_rollback, attempt_leaves, attempt_refuses,
}

pub data Departure : Type 0 where
  by : Transition → Departure
  finalize : Clock → Text → Text → Bool → Departure

abbrev pub took_place : FinalizeOutcome → Bool
took_place (finalized displaced) = true
took_place precondition_failed = false
took_place not_pending = false

abbrev pub answer : Reply FinalizeOutcome → Reply Bool
answer (ok r) = ok (took_place r)
answer (err e) = err e

-- One attempt to leave `pending`, and whether it took place.
unfoldable pub depart : Departure → ℕ → Db → Reply Bool × Db
unfolding attempt finalize_upload
depart (by t) id db = attempt t id db
depart (finalize now client key multipart) id db =
    let r = finalize_upload now client key id multipart db in (answer r.0, r.1)

-- What ends a step early does not take place.
abbrev Lost : Exit FinalizeOutcome → Type 0
Lost (returns r) = took_place r ≡ false
Lost (fails e) = Unit {0}

abbrev Ends : {A : Type 0} → (A → Db → Type 0) → Step FinalizeOutcome A → Type 0
Ends Q (next a db) = Q a db
Ends Q (stop x) = Lost x
Ends Q (check b x s) = Lost x × Ends Q s

Ends-bind :
    {A B : Type 0} (Q : B → Db → Type 0) (s : Step FinalizeOutcome A) (f : A → Tx FinalizeOutcome B)
    → Ends (λ a db. Ends Q (f a db)) s
    → Ends Q (bind s f)
Ends-bind Q (next a db) f h = h
Ends-bind Q (stop x) f h = h
Ends-bind Q (check b x s) f (l, h) = (l, Ends-bind Q s f h)

Ends-if :
    {A : Type 0} (Q : A → Db → Type 0) (b : Bool) (m k : Tx FinalizeOutcome A) (db : Db)
    → Ends Q (m db)
    → Ends Q (k db)
    → Ends Q ((if b then m else k) db)
Ends-if Q true m k db h l = h
Ends-if Q false m k db h l = l

Ends-mono :
    {A : Type 0} (P Q : A → Db → Type 0) (s : Step FinalizeOutcome A)
    → ((a : A) (db : Db) → P a db → Q a db)
    → Ends P s
    → Ends Q s
Ends-mono P Q (next a db) h p = h a db p
Ends-mono P Q (stop x) h p = p
Ends-mono P Q (check b x s) h (l, p) = (l, Ends-mono P Q s h p)

Ends-old_file :
    {A : Type 0} (Q : A → Db → Type 0) (o : Option ObjectKey) (f : ℕ → Tx FinalizeOutcome A)
    (db : Db)
    → ((k : ObjectKey) → Ends Q (f k.file_id db))
    → Ends Q (bind (old_file o db) f)
Ends-old_file Q none f db h = tt
Ends-old_file Q (some k) f db h = h k

settled_took :
    (P : Db → Type 0) (db : Db) (s : Step FinalizeOutcome FinalizeOutcome)
    → Ends (λ r d. took_place r ≡ true → P d) s
    → answer (settle db s).0 ≡ ok true
    → P (settle db s).1
settled_took P db (next r d) q h = q (cc h)
settled_took P db (stop (returns r)) q h = absurd (cc (rw q at h))
settled_took P db (stop (fails e)) q h = cc h
settled_took P db (check true x s) (l, q) h = settled_took P db s q h
settled_took P db (check false (returns r) s) (l, q) h = absurd (cc (rw l at h))
settled_took P db (check false (fails e) s) q h = cc h

detached :
    (now : Clock) (id old : ℕ) (db : Db)
    → NotPending id db
    → exists_where (pending_file id) (update_where (active_file old) (detach now.tx_now) db.files)
      ≡ false
detached now id old db h =
    exists-update_same (pending_file id) (active_file old) (detach now.tx_now) db.files
      (λ r. ground arith)
    ∙ h

take_key-Ends :
    (now : Clock) (client key : Text) (id : ℕ) (b : Bool) (db : Db)
    → NotPending id db
    → Ends (λ d db'. NotPending id db') (take_key {R = FinalizeOutcome} now client key id b db)
unfolding upsert_key_in_tx
take_key-Ends now client key id true db h = h
take_key-Ends now client key id false db h = (
  tt,
  Ends-if (λ d db'. NotPending id db') _ (pure none) (replace_key now client key id) _ h
      (Ends-old_file (λ d db'. NotPending id db') _
        (λ old. do
          _ ← refer_file id
          _ ←
              update_keys (key_at client key)
                (λ k. record k { file_id = id; updated_at = now.tx_now })
          detach_displaced now old id)
        _
        λ k. (
          tt,
          Ends-if (λ d db'. NotPending id db') (k.file_id == id) (pure none) _ _ h
              (detached now id k.file_id db h),
        )),
)

confirm-Ends :
    (now : Clock) (client key : Text) (id : ℕ) (u : Upload) (db : Db)
    → Ends (λ r d. took_place r ≡ true → NotPending id d) (confirm now client key id u db)
confirm-Ends now client key id u db =
    let half : Db = record db {
      files = update_where (λ f. f.id == id) (activate_as now.tx_now u) db.files;
      leases = update_where (issued_write id) settle_lease db.leases;
    } in
    Ends-bind (λ r d. took_place r ≡ true → NotPending id d)
      (take_key now client key id u.if_none_match half)
      (λ displaced db'.
        next (finalized displaced)
          (record db' { uploads = delete_where (s3_upload id) db'.uploads }))
      (Ends-mono (λ d db'. NotPending id db') _ (take_key now client key id u.if_none_match half)
        (λ displaced db' left e. left)
        (take_key-Ends now client key id u.if_none_match half
          (exists-update_never (pending_file id) _ _ db.files (λ r. ground arith))))

finalize_session-Ends :
    (now : Clock) (client key : Text) (id : ℕ) (o : Option Upload) (db : Db)
    → Ends (λ r d. took_place r ≡ true → NotPending id d) (finalize_session now client key id o db)
finalize_session-Ends now client key id none db = refl
finalize_session-Ends now client key id (some u) db = reserved u.if_none_match
  where
    reserved :
        (b : Bool)
        → Ends
            (λ r d. took_place r ≡ true → NotPending id d)
            (bind
              (reserve_key now client key id b db)
              (λ mine. if mine then confirm now client key id u else refuse now id))
    reserved true = (
      tt,
      Ends-if (λ r d. took_place r ≡ true → NotPending id d) _ (confirm now client key id u)
          (refuse now id) _ (confirm-Ends now client key id u _) (λ e. cc e),
    )
    reserved false = confirm-Ends now client key id u db

finalize_leaves :
    (now : Clock) (client key : Text) (id : ℕ) (multipart : Bool) (db : Db)
    → answer (finalize_upload now client key id multipart db).0 ≡ ok true
    → NotPending id (finalize_upload now client key id multipart db).1
unfolding finalize_upload finalize_upload_tx run_tx
finalize_leaves now client key id multipart db h =
    settled_took (NotPending id) db (finalize_upload_tx now client key id multipart db)
      (
        refl,
        finalize_session-Ends now client key id
            (find_where (completing_session key id multipart) db.uploads) db,
      )
      h

depart_leaves :
    (t : Departure) (id : ℕ) (db : Db)
    → (depart t id db).0 ≡ ok true
    → NotPending id (depart t id db).1
unfolding depart
depart_leaves (by t) id db h = attempt_leaves t id db h
depart_leaves (finalize now client key multipart) id db h =
    finalize_leaves now client key id multipart db h

finalize_refuses :
    (now : Clock) (client key : Text) (id : ℕ) (multipart : Bool) (db : Db)
    → NotPending id db
    → finalize_upload now client key id multipart db ≡ (ok not_pending, db)
unfolding finalize_upload finalize_upload_tx run_tx
finalize_refuses now client key id multipart db left =
    let none_here =
      exists_mono_none (mode_file client id multipart) (pending_file id) db.files
        (λ r e. ground (arith, e)) left in
    rw none_here refl

-- Of any two attempts to make one file leave `pending`, in any order and with any arguments, at most
-- one takes place: after the first did, the second is refused and leaves the whole database. An attempt
-- is finalize_commit, finalize_reclaim, reclaim_pending, finalize_completion, finalize_cleanup,
-- finalize_abort, discard_unstarted_upload or finalize_upload.
pub depart_once :
    (t u : Departure) (id : ℕ) (db : Db)
    → (depart t id db).0 ≡ ok true
    → (depart u id (depart t id db).1).0 ≡ ok false
      × ((depart u id (depart t id db).1).1 ≡ (depart t id db).1)
unfolding depart
depart_once t (by u) id db won =
    let refused = attempt_refuses u id (depart t id db).1 (depart_leaves t id db won) in
    (refused, attempt_rollback u id (depart t id db).1 refused)
depart_once t (finalize now client key multipart) id db won =
    let refused =
      finalize_refuses now client key id multipart (depart t id db).1 (depart_leaves t id db won) in
    rw refused (refl, refl)
