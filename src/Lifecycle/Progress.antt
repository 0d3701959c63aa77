-- ===== src/Lifecycle/Progress.antt =====
-- How the row of a file moves: the lifecycle as a relation on rows, and what an UPDATE of files does
-- to it.
use grove_storage.Prelude.{
  ℕ, ◌≡◌, refl, ◌⊎◌, inl, inr, Bool, true, false, Option, none, some, arith, Option-cases,
  Bool-cases,
}
use grove_storage.Table.{update_where}
use grove_storage.Table.Keyed.{row_at-update, row_at}
use grove_storage.Db.Schema.{Db, File, FileState, pending, active, deleted, reclaimed, is_pending}
use grove_storage.Db.View.{file_at}

-- A pending file becomes active or reclaimed, and an active one deleted.
abbrev pub state_le : FileState → FileState → Bool
state_le pending t = true
state_le active t = elim t [ active ↦ true | deleted ↦ true | _ ↦ false ]
state_le deleted t = elim t [ deleted ↦ true | _ ↦ false ]
state_le reclaimed t = elim t [ reclaimed ↦ true | _ ↦ false ]

-- What the commit fixed.
abbrev pub Settled : File → File → Type 0
Settled f g =
    (g.etag ≡ f.etag) × (g.committed_at ≡ f.committed_at) × (g.declared_size ≡ f.declared_size)

-- A row and a later row of one file: owner, type, geometry and creation stay, the state moves
-- forward, and what a commit fixed stays once the file is not pending.
abbrev pub Later : File → File → Type 0
Later f g =
    (g.client_id ≡ f.client_id)
    × (g.content_type ≡ f.content_type)
    × (g.part_size ≡ f.part_size)
    × (g.created_at ≡ f.created_at)
    × (state_le f.state g.state ≡ true)
    × ((is_pending f.state ≡ true) ⊎ Settled f g)

abbrev pub Lifts : Option File → Option File → Type 0
Lifts none none = Unit {0}
Lifts (some f) (some g) = Later f g
Lifts none (some g) = ⊥
Lifts (some f) none = ⊥

abbrev pub Updates : Db → Db → Type 0
Updates db db' = (k : ℕ) → Lifts (file_at k db) (file_at k db')

state_le_refl : (s : FileState) → state_le s s ≡ true
state_le_refl pending = refl
state_le_refl active = refl
state_le_refl deleted = refl
state_le_refl reclaimed = refl

pub Later-refl : (f : File) → Later f f
Later-refl f = (refl, refl, refl, refl, state_le_refl f.state, inr (refl, refl, refl))

Lifts-refl : (o : Option File) → Lifts o o
Lifts-refl none = tt
Lifts-refl (some f) = Later-refl f

pub Updates-refl : (db : Db) → Updates db db
Updates-refl db k = Lifts-refl (file_at k db)

state_le_trans :
    (s t u : FileState) → state_le s t ≡ true → state_le t u ≡ true → state_le s u ≡ true
state_le_trans s t u h k = ground (arith, h, k)

pub Later-trans : (f g h : File) → Later f g → Later g h → Later f h
Later-trans f g h a b = ground (arith, a, b)

Lifts-trans : (a b c : Option File) → Lifts a b → Lifts b c → Lifts a c
Lifts-trans none none none p q = tt
Lifts-trans (some f) (some g) (some h) p q = Later-trans f g h p q
Lifts-trans none (some g) c p q = absurd p
Lifts-trans (some f) none c p q = absurd p
Lifts-trans none none (some h) p q = absurd q
Lifts-trans (some f) (some g) none p q = absurd q

pub Updates-trans : (a b c : Db) → Updates a b → Updates b c → Updates a c
Updates-trans a b c p q k = Lifts-trans (file_at k a) (file_at k b) (file_at k c) (p k) (q k)

-- An UPDATE of files whose change moves each matched row forward.
pub update-Lifts :
    (p : File → Bool) (g : File → File) (db : Db) (k : ℕ)
    → ((f : File) → (g f).id ≡ f.id)
    → ((f : File) → file_at k db ≡ some f → p f ≡ true → Later f (g f))
    → Lifts (file_at k db) (row_at (λ (f : File). f.id) k (update_where p g db.files))
update-Lifts p g db k keep forward = elim (Option-cases (file_at k db)) [
  | inl e ↦ rw (row_at-update (λ (f : File). f.id) k p g db.files keep, e) tt
  | inr (f, e) ↦
      rw (row_at-update (λ (f : File). f.id) k p g db.files keep, e)
        (elim (Bool-cases (p f)) [ inl t ↦ rw t (forward f e t) | inr n ↦ rw n (Later-refl f) ])
]
