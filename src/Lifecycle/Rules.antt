-- ===== src/Lifecycle/Rules.antt =====
-- How a transaction keeps a property of the database: a run that does not commit leaves it.
use grove_storage.Prelude.{◌≡◌, refl, Bool, true, false, List, if◌then◌else◌, ◌==◌, arith, not}
use grove_storage.Table.{affected, exists_where, affected_pos}
use grove_storage.Db.Schema.{Db}
use grove_storage.Db.Tx.{Tx, Step, bind, next, stop, check, run_tx, settle}

-- `Q` holds of the value and the database with which the transaction goes on, if it does.
abbrev pub After : {R A : Type 0} → (A → Db → Type 0) → Step R A → Type 0
After Q (next a db) = Q a db
After Q (stop x) = Unit {0}
After Q (check b x s) = b ≡ true → After Q s

keeps_settle :
    {R : Type 0} (P : Db → Type 0) (db : Db) (s : Step R R)
    → P db
    → After (λ r db'. P db') s
    → P (settle db s).1
keeps_settle P db (next a db') h after = after
keeps_settle P db (stop x) h after = h
keeps_settle P db (check true x s) h after = keeps_settle P db s h (after refl)
keeps_settle P db (check false x s) h after = h

pub keeps_run :
    {R : Type 0} (P : Db → Type 0) (m : Tx R R) (db : Db)
    → P db
    → After (λ r db'. P db') (m db)
    → P (run_tx m db).1
unfolding run_tx
keeps_run P m db h after = keeps_settle P db (m db) h after

pub hit :
    {A : Type 0} (p : A → Bool) (rs : List A)
    → not (affected p rs == 0) ≡ true
    → exists_where p rs ≡ true
hit p rs h = affected_pos p rs (ground arith)

-- The rest of a transaction after a part that is taken as a whole.
pub After-bind :
    {R A B : Type 0} (Q : B → Db → Type 0) (s : Step R A) (f : A → Tx R B)
    → After (λ a db. After Q (f a db)) s
    → After Q (bind s f)
After-bind Q (next a db) f h = h
After-bind Q (stop x) f h = tt
After-bind Q (check b x s) f h = λ e. After-bind Q s f (h e)

pub After-if :
    {R A : Type 0} (Q : A → Db → Type 0) (b : Bool) (m k : Tx R A) (db : Db)
    → (b ≡ true → After Q (m db))
    → (b ≡ false → After Q (k db))
    → After Q ((if b then m else k) db)
After-if Q true m k db h l = h refl
After-if Q false m k db h l = l refl

pub After-mono :
    {R A : Type 0} (P Q : A → Db → Type 0) (s : Step R A)
    → ((a : A) (db : Db) → P a db → Q a db)
    → After P s
    → After Q s
After-mono P Q (next a db) h p = h a db p
After-mono P Q (stop x) h p = tt
After-mono P Q (check b x s) h p = λ e. After-mono P Q s h (p e)
