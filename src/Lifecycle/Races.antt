-- ===== src/Lifecycle/Races.antt =====
-- The transitions out of `pending` that answer whether they took place: those of db/src/files
-- (commit.rs, sweep.rs, completion.rs), and finalize_abort and discard_unstarted_upload of
-- db/src/s3_registry/uploads.rs. Requests and the reconciler attempt them on one file in any order.
use grove_storage.Prelude.{ℕ, List, ◌≡◌, refl, Bool, true, false, arith, Text, ◌&&◌, ◌==◌, not}
use grove_storage.Table.{
  exists_where, update_where, affected, affected_of_none, exists-update_never, exists_mono_none,
  exists_never,
}
use grove_storage.Db.Schema.{Db, Clock, File, is_pending, is_opened, is_cleaning}
use grove_storage.Db.Where.{pending_file, upload_of, s3_upload}
use grove_storage.Db.Tx.{Tx, Reply, Step, ok, next, stop, check, returns, fails, run_tx, settle}
use grove_storage.Files.Commit.{finalize_commit_tx}
use grove_storage.Files.Sweep.{finalize_reclaim_tx, reclaim_pending_tx}
use grove_storage.Files.Completion.{finalize_completion_tx, finalize_cleanup_tx, native_cleaning}
use grove_storage.Registry.Finish.{finalize_reclaimed_upload_tx}
use grove_storage.Lifecycle.Rules.{After, hit}

pub data Transition : Type 0 where
  commit : Clock → Text → Transition
  reclaim : Clock → Transition
  discard : Transition
  complete : Clock → Text → Transition
  clean : Transition
  abort : Transition
  unstarted : Transition

abbrev pub transition_tx : Transition → ℕ → Tx Bool Bool
transition_tx (commit now etag) id = finalize_commit_tx now id etag
transition_tx (reclaim now) id = finalize_reclaim_tx now id
transition_tx discard id = reclaim_pending_tx id
transition_tx (complete now etag) id = finalize_completion_tx now id etag
transition_tx clean id = finalize_cleanup_tx id
transition_tx abort id = finalize_reclaimed_upload_tx is_cleaning id
transition_tx unstarted id = finalize_reclaimed_upload_tx is_opened id

-- One attempt: the function of the transition, run as its own transaction.
unfoldable pub attempt : Transition → ℕ → Db → Reply Bool × Db
unfolding run_tx
attempt t id = run_tx (transition_tx t id)

-- The exits of a step before its commit answer `false`, if they answer.
abbrev StopsFalse : Step Bool Bool → Type 0
StopsFalse (next b db) = Unit {0}
StopsFalse (stop (returns b)) = b ≡ false
StopsFalse (stop (fails e)) = Unit {0}
StopsFalse (check b (returns r) s) = (r ≡ false) × StopsFalse s
StopsFalse (check b (fails e) s) = StopsFalse s

settled_keeps :
    (db : Db) (s : Step Bool Bool)
    → After (λ b db'. b ≡ true) s
    → (settle db s).0 ≡ ok false
    → (settle db s).1 ≡ db
settled_keeps db (next b db') c h = cc
settled_keeps db (stop x) c h = refl
settled_keeps db (check true x s) c h = settled_keeps db s (c refl) h
settled_keeps db (check false x s) c h = refl

settled_won :
    (P : Db → Type 0) (db : Db) (s : Step Bool Bool)
    → After (λ b db'. P db') s
    → StopsFalse s
    → (settle db s).0 ≡ ok true
    → P (settle db s).1
settled_won P db (next b db') c z h = c
settled_won P db (stop (returns b)) c z h = cc
settled_won P db (stop (fails e)) c z h = cc
settled_won P db (check true (returns r) s) c z h = settled_won P db s (c refl) z.1 h
settled_won P db (check true (fails e) s) c z h = settled_won P db s (c refl) z h
settled_won P db (check false (returns r) s) c z h = cc (z.0)
settled_won P db (check false (fails e) s) c z h = cc

-- Any of the seven transitions (finalize_commit, finalize_reclaim, reclaim_pending,
-- finalize_completion, finalize_cleanup, finalize_abort, discard_unstarted_upload) that answers `false` leaves the whole database as it was.
pub attempt_rollback :
    (t : Transition) (id : ℕ) (db : Db) → (attempt t id db).0 ≡ ok false → (attempt t id db).1 ≡ db
unfolding attempt finalize_commit_tx finalize_reclaim_tx reclaim_pending_tx finalize_completion_tx
    finalize_cleanup_tx finalize_reclaimed_upload_tx
attempt_rollback (commit now etag) id db h =
    settled_keeps db (finalize_commit_tx now id etag db) (λ _. refl) h
attempt_rollback (reclaim now) id db h =
    settled_keeps db (finalize_reclaim_tx now id db) (λ _ _. refl) h
attempt_rollback discard id db h = settled_keeps db (reclaim_pending_tx id db) (λ _. refl) h
attempt_rollback (complete now etag) id db h =
    settled_keeps db (finalize_completion_tx now id etag db) (λ _ _. refl) h
attempt_rollback clean id db h = settled_keeps db (finalize_cleanup_tx id db) (λ _. refl) h
attempt_rollback abort id db h =
    settled_keeps db (finalize_reclaimed_upload_tx is_cleaning id db) (λ _. refl) h
attempt_rollback unstarted id db h =
    settled_keeps db (finalize_reclaimed_upload_tx is_opened id db) (λ _. refl) h

abbrev pub NotPending : ℕ → Db → Type 0
NotPending id db = exists_where (pending_file id) db.files ≡ false

gate_open :
    {A : Type 0} (p : A → Bool) (b : Bool) (rs : List A)
    → exists_where (λ r. p r && b) rs ≡ true
    → b ≡ true
gate_open p true rs e = refl
gate_open p false rs e = cc (exists_never (λ r. p r && false) rs (λ r. ground arith))

-- The file of a guarded UPDATE that matched it is pending no more.
leaves_pending :
    (id : ℕ) (b : Bool) (g : File → File) (files : List File)
    → ((r : File) → is_pending (g r).state ≡ false)
    → not (affected (λ f. pending_file id f && b) files == 0) ≡ true
    → exists_where (pending_file id) (update_where (λ f. pending_file id f && b) g files) ≡ false
leaves_pending id b g files never won =
    let is_open = gate_open (pending_file id) b files (hit _ files won) in
    exists-update_never (pending_file id) _ g files (λ r. ground (arith, is_open, never r))

pub attempt_leaves :
    (t : Transition) (id : ℕ) (db : Db)
    → (attempt t id db).0 ≡ ok true
    → NotPending id (attempt t id db).1
unfolding attempt finalize_commit_tx finalize_reclaim_tx reclaim_pending_tx finalize_completion_tx
    finalize_cleanup_tx finalize_reclaimed_upload_tx
attempt_leaves (commit now etag) id db h =
    settled_won (NotPending id) db (finalize_commit_tx now id etag db)
      (λ won. leaves_pending id _ _ db.files (λ r. refl) won) (refl, tt) h
attempt_leaves (reclaim now) id db h =
    settled_won (NotPending id) db (finalize_reclaim_tx now id db)
      (λ won _. leaves_pending id _ _ db.files (λ r. refl) won) (refl, (refl, tt)) h
attempt_leaves discard id db h =
    settled_won (NotPending id) db (reclaim_pending_tx id db)
      (λ won. leaves_pending id _ _ db.files (λ r. refl) won) (refl, tt) h
attempt_leaves (complete now etag) id db h =
    settled_won (NotPending id) db (finalize_completion_tx now id etag db)
      (λ _ won. leaves_pending id _ _ db.files (λ r. refl) won) (refl, (refl, tt)) h
attempt_leaves clean id db h =
    settled_won (NotPending id) db (finalize_cleanup_tx id db)
      (λ won. leaves_pending id _ _ db.files (λ r. refl) won) (refl, tt) h
attempt_leaves abort id db h =
    settled_won (NotPending id) db (finalize_reclaimed_upload_tx is_cleaning id db)
      (λ won. leaves_pending id _ _ db.files (λ r. refl) won) (refl, tt) h
attempt_leaves unstarted id db h =
    settled_won (NotPending id) db (finalize_reclaimed_upload_tx is_opened id db)
      (λ won. leaves_pending id _ _ db.files (λ r. refl) won) (refl, tt) h

gated_none :
    (id : ℕ) (b : Bool) (db : Db)
    → NotPending id db
    → affected (λ f. pending_file id f && b) db.files ≡ 0
gated_none id b db none_left = affected_of_none _ db.files (
    exists_mono_none (λ f. pending_file id f && b) (pending_file id) db.files (λ r e. ground arith)
      none_left)

pub attempt_refuses :
    (t : Transition) (id : ℕ) (db : Db) → NotPending id db → (attempt t id db).0 ≡ ok false
unfolding attempt finalize_commit_tx finalize_reclaim_tx reclaim_pending_tx finalize_completion_tx
    finalize_cleanup_tx finalize_reclaimed_upload_tx
attempt_refuses (commit now etag) id db left =
    rw (gated_none id (not (exists_where (upload_of id) db.uploads)) db left) refl
attempt_refuses (reclaim now) id db left =
    rw (gated_none id (not (exists_where (upload_of id) db.uploads)) db left) refl
attempt_refuses discard id db left =
    rw (gated_none id (not (exists_where (upload_of id) db.uploads)) db left) refl
attempt_refuses (complete now etag) id db left = rw left refl
attempt_refuses clean id db left =
    rw (gated_none id (exists_where (native_cleaning id) db.uploads) db left) refl
attempt_refuses abort id db left =
    rw
      (gated_none id (exists_where (λ u. s3_upload id u && is_cleaning u.state) db.uploads) db left)
      refl
attempt_refuses unstarted id db left =
    rw (gated_none id (exists_where (λ u. s3_upload id u && is_opened u.state) db.uploads) db left)
      refl
