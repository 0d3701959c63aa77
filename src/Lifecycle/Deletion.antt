-- ===== src/Lifecycle/Deletion.antt =====
-- What backend/crates/db/src/files/sweep.rs answers to a deletion, and to a second one.
use grove_storage.Prelude.{
  ℕ, ◌≡◌, refl, ◌∙◌, Bool, true, false, Option, none, some, List, [], ◌∷◌, arith, Text, text_eq,
  ◌&&◌, inl, inr, Bool-cases, Option-cases, if◌then◌else◌,
}
use mathlib.Core.Option
use grove_storage.Table.{
  exists_where, find_where, update_where, affected_of_none, affected_of_exists, set_if,
}
use grove_storage.Table.Keyed.{Distinct, row_at, row_at-key, row_at-update, exists-eq-row_at}
use grove_storage.Db.Schema.{Db, Clock, File, pending, active, deleted, reclaimed, is_active}
use grove_storage.Db.View.{file_at}
use grove_storage.Db.Tx.{ok}
use grove_storage.Files.Sweep.{
  DeleteOutcome, deleted_now, already_deleted, not_committed, not_found, mark_deleted,
  mark_deleted_tx, active_of, file_of, detach,
}
use grove_storage.Lifecycle.Invariant.{IsSound}
use grove_storage.Lifecycle.Sweep.{mark_deleted-IsSound}

update_never :
    {A : Type 0} (p : A → Bool) (g : A → A) (rs : List A)
    → exists_where p rs ≡ false
    → update_where p g rs ≡ rs
unfolding update_where exists_where
update_never p g [] h = refl
update_never p g (r ∷ rs) h = ground (arith, update_never p g rs)

-- The first row that a test on one key finds, under a primary key.
find-eq-row_at :
    {A : Type 0} (key : A → ℕ) (k : ℕ) (p : A → Bool) (rs : List A)
    → Distinct key rs
    → ((r : A) → p r ≡ true → key r ≡ k)
    → find_where p rs
      ≡ elim (row_at key k rs) [ none ↦ none | some r ↦ if p r then some r else none ]
unfolding row_at find_where
find-eq-row_at key k p [] d h = refl
find-eq-row_at key k p (r ∷ rs) d h =
    ground (arith, d.0, h r, find-eq-row_at key k p rs d.1 h, row_at-key key k rs)

-- What a deletion by a client should answer for the row of the file.
abbrev pub deletion : Text → Option File → DeleteOutcome
deletion client none = not_found
deletion client (some f) =
    if text_eq f.client_id client
    then elim f.state [
      | active ↦ deleted_now
      | deleted ↦ already_deleted
      | pending ↦ not_committed
      | reclaimed ↦ not_found
    ]
    else not_found

active_row :
    (client : Text) (id : ℕ) (db : Db)
    → IsSound db
    → exists_where (active_of client id) db.files ≡ elim (file_at id db) [
      | none ↦ false
      | some f ↦ text_eq f.client_id client && is_active f.state
    ]
active_row client id db h =
    exists-eq-row_at (λ (f : File). f.id) id (active_of client id) db.files h.one_file
      (λ r e. ground arith)
    ∙ elim (Option-cases (file_at id db)) [
      | inl e ↦ rw e refl
      | inr (f, e) ↦ rw e (ground (arith, row_at-key (λ (f : File). f.id) id db.files e))
    ]

found_row :
    (client : Text) (id : ℕ) (db : Db)
    → IsSound db
    → find_where (file_of client id) db.files ≡ elim (file_at id db) [
      | none ↦ none
      | some f ↦ if text_eq f.client_id client then some f else none
    ]
found_row client id db h =
    find-eq-row_at (λ (f : File). f.id) id (file_of client id) db.files h.one_file
      (λ r e. ground arith)
    ∙ elim (Option-cases (file_at id db)) [
      | inl e ↦ rw e refl
      | inr (f, e) ↦ rw e (ground (arith, row_at-key (λ (f : File). f.id) id db.files e))
    ]

-- In a sound database a deletion answers what the row of the file says, for every state of the
-- file and for a missing or foreign one.
pub mark_deleted-deletion :
    (now : Clock) (client : Text) (id : ℕ) (db : Db)
    → IsSound db
    → (mark_deleted now client id db).0 ≡ ok (deletion client (file_at id db))
unfolding mark_deleted mark_deleted_tx
mark_deleted-deletion now client id db h =
    elim (Bool-cases (exists_where (active_of client id) db.files)) [
      | inl t ↦ ground (arith, t, affected_of_exists _ db.files t, active_row client id db h)
      | inr f ↦
          rw
            (
              affected_of_none _ db.files f,
              update_never _ (detach now.tx_now) db.files f,
              found_row client id db h,
            )
            (ground (arith, f, active_row client id db h))
    ]

mark_deleted_idle :
    (now : Clock) (client : Text) (id : ℕ) (db : Db)
    → exists_where (active_of client id) db.files ≡ false
    → (mark_deleted now client id db).1 ≡ db
unfolding mark_deleted mark_deleted_tx
mark_deleted_idle now client id db f = rw (update_never _ (detach now.tx_now) db.files f) refl

-- The row of the file after a deletion.
mark_deleted_row :
    (now : Clock) (client : Text) (id : ℕ) (db : Db)
    → file_at id (mark_deleted now client id db).1
      ≡ Option.map (set_if (active_of client id) (detach now.tx_now)) (file_at id db)
unfolding mark_deleted mark_deleted_tx
mark_deleted_row now client id db =
    row_at-update (λ (f : File). f.id) id (active_of client id) (detach now.tx_now) db.files
      (λ r. refl)

deleted_row :
    (now : Clock) (client : Text) (id : ℕ) (found : Option File)
    → deletion client found ≡ deleted_now
    → ((f : File) → found ≡ some f → f.id ≡ id)
    → (f : File) × (Option.map (set_if (active_of client id) (detach now.tx_now)) found ≡ some f)
      × (text_eq f.client_id client ≡ true)
      × (f.state ≡ deleted)
deleted_row now client id none h own = cc
deleted_row now client id (some f) h own =
    (detach now.tx_now f, ground (arith, own f refl), ground arith, refl)

-- A deletion that is repeated after it took place answers `already_deleted` and changes nothing.
pub mark_deleted_again :
    (now later : Clock) (client : Text) (id : ℕ) (db : Db)
    → IsSound db
    → (mark_deleted now client id db).0 ≡ ok deleted_now
    → mark_deleted later client id (mark_deleted now client id db).1
      ≡ (ok already_deleted, (mark_deleted now client id db).1)
mark_deleted_again now later client id db h won =
    let db1 = (mark_deleted now client id db).1 in
    let sound1 = mark_deleted-IsSound now client id db h in
    let (f, at, mine, gone) =
      deleted_row now client id (file_at id db) (cc (mark_deleted-deletion now client id db h, won))
        (λ f e. row_at-key (λ (f : File). f.id) id db.files e) in
    let row = mark_deleted_row now client id db ∙ at in
    let idle = rw (row, mine, gone) at (active_row client id db1 sound1) in
    let answer = rw (row, mine, gone) at (mark_deleted-deletion later client id db1 sound1) in
    cc (answer, mark_deleted_idle later client id db1 idle)
