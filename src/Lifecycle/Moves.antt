-- ===== src/Lifecycle/Moves.antt =====
-- How each operation moves the row of each file: it may appear, move forward, or go when it is
-- finished.
use grove_storage.Prelude.{
  ℕ, ◌≡◌, refl, sym, ◌||◌, Bool, true, false, Option, none, some, [], ◌∷◌, ◌++◌, arith, Text, ◌==◌,
  is_some, Option-cases, Bool-cases, inl, inr, ◌&&◌,
}
use grove_storage.Table.Keyed.{row_at, row_at-append, row_at-delete}
use grove_storage.Db.Schema.{Db, Clock, File, is_pending, is_deleted, is_reclaimed}
use grove_storage.Db.Tx.{Tx, commit, ◌>>=◌, insert_upload}
use grove_storage.Db.View.{file_at}
use grove_storage.Files.Create.{
  Render, CreateSpec, CreateOutcome, create, create_in_tx, storage_of, reserve, created,
  CreatedFile, new_file,
}
use grove_storage.Files.Prune.{prune_terminal_files, finished_file}
use grove_storage.Registry.Sessions.{create_upload, open_session}
use grove_storage.Lifecycle.Invariant.{IsSound}
use grove_storage.Lifecycle.Rules.{keeps_run}
use grove_storage.Lifecycle.Create.{After-storage, file_absent}
use grove_storage.Lifecycle.Progress.{Later, Later-refl, Lifts, Updates, Updates-refl}

-- `pruned` says whether rows may go.
abbrev pub Goes : Bool → Option File → Option File → Type 0
Goes pruned none none = Unit {0}
Goes pruned none (some g) = is_pending g.state ≡ true
Goes pruned (some f) none = (pruned ≡ true) × ((is_deleted f.state || is_reclaimed f.state) ≡ true)
Goes pruned (some f) (some g) = Later f g

abbrev pub Moves : Bool → Db → Db → Type 0
Moves pruned db db' = (k : ℕ) → Goes pruned (file_at k db) (file_at k db')

Lifts-Goes : (a b : Option File) → Lifts a b → Goes false a b
Lifts-Goes none none h = tt
Lifts-Goes (some f) (some g) h = h
Lifts-Goes none (some g) h = absurd h
Lifts-Goes (some f) none h = absurd h

pub Updates-Moves : (db db' : Db) → Updates db db' → Moves false db db'
Updates-Moves db db' h k = Lifts-Goes (file_at k db) (file_at k db') (h k)

Moves-refl : (db : Db) → Moves false db db
Moves-refl db = Updates-Moves db db (Updates-refl db)

-- A new row of a file that had none.
append-Goes :
    (db : Db) (x : File) (k : ℕ)
    → file_at x.id db ≡ none
    → is_pending x.state ≡ true
    → Goes false (file_at k db) (row_at (λ (f : File). f.id) k (db.files ++ x ∷ []))
append-Goes db x k free pends = elim (Bool-cases (x.id == k)) [
  | inl t ↦
      let same : x.id ≡ k = ground arith in
      let none_at : file_at k db ≡ none = rw (sym same) free in
      rw (row_at-append (λ (f : File). f.id) k db.files x, t, none_at) pends
  | inr n ↦ rw (row_at-append (λ (f : File). f.id) k db.files x, n) (Moves-refl db k)
]

module _ (render : Render) (now : Clock) (id lease : ℕ) (spec : CreateSpec) (db : Db)
    (h : IsSound db) where
  pub create-Moves : Moves false db (create render now id lease spec db).1
  unfolding create create_in_tx
  create-Moves =
      keeps_run (Moves false db)
        (create_in_tx render now id lease spec (λ file. commit (created file))) db (Moves-refl db)
        (After-storage (λ r db'. Moves false db db') (storage_of spec.client_id db)
          (λ storage_id. do
            file ← reserve render now id lease spec storage_id
            commit (created file))
          db
          λ storage fresh free unused k.
            append-Goes db (new_file now.tx_now id spec) k (file_absent id db h fresh) refl)

  pub create_upload-Moves :
      (key : Text) (cond : Bool)
      → Moves false db (create_upload render now id lease spec key cond db).1
  unfolding create_upload create_in_tx
  create_upload-Moves key cond =
      let rest : CreatedFile → Tx CreateOutcome CreateOutcome = λ file. (do
        _ ← insert_upload (open_session now.tx_now file.file_id key (is_some spec.part_size) cond)
        commit (created file)) in
      keeps_run (Moves false db) (create_in_tx render now id lease spec rest) db (Moves-refl db) (
        After-storage (λ r db'. Moves false db db') (storage_of spec.client_id db)
          (λ storage_id. do file ← reserve render now id lease spec storage_id; rest file) db
          λ storage fresh free unused alone k.
            append-Goes db (new_file now.tx_now id spec) k (file_absent id db h fresh) refl)

pub prune_terminal_files-Moves :
    (now : Clock) (retention : ℕ) (picked : File → Bool) (db : Db)
    → IsSound db
    → Moves true db (prune_terminal_files now retention picked db).1
unfolding prune_terminal_files
prune_terminal_files-Moves now retention picked db h k =
    let gone = λ (f : File). picked f && finished_file now.tx_now retention db f in
    elim (Option-cases (file_at k db)) [
      | inl e ↦ rw (row_at-delete (λ (f : File). f.id) k gone db.files h.one_file, e) tt
      | inr (f, e) ↦
          rw (row_at-delete (λ (f : File). f.id) k gone db.files h.one_file, e)
            (elim (Bool-cases (gone f)) [
              | inl t ↦ rw t (refl, ground (arith, t))
              | inr n ↦ rw n (Later-refl f)
            ])
    ]
