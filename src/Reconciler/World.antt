-- ===== src/Reconciler/World.antt =====
-- What a job of the reconciler works on: the database, the storage and its report; and the ways it
-- reaches them.
use grove_storage.Prelude.{ℕ, suc, Bool, Option, List, ◌∷◌, Text, if◌then◌else◌, ◌+◌}
use grove_storage.Db.Schema.{Db, Clock, File, Lease}
use grove_storage.Db.Tx.{Reply, ok, err}
use grove_storage.Files.Sweep.{SweepCandidate}
use grove_storage.Policy.Validation.{Observed, seen, failed, ObjectObservation}
use grove_storage.Service.Commit.{Measured}
use grove_storage.Lifecycle.Operations.{Operation, run}

pub record Report : Type 0 where
  pub processed : ℕ
  pub failures : ℕ
  pub skipped : ℕ

-- What a job did: a transaction of its own that ran in a database, and an object that the storage was
-- asked to remove.
pub data Event : Type 0 where
  ran : Db → Event
  asked : SweepCandidate → Event

-- The state of a job: `step` counts its database calls, and `trail` is what it did, latest first.
-- Nothing reads the trail.
pub record Pass (W : Type 0) : Type 0 where
  pub db : Db
  pub storage : W
  pub step : ℕ
  pub report : Report
  pub trail : List Event

-- What a job runs among: the clock of each of its database calls, the operations of requests that
-- come before it, whether the connection fails in it, the choices of statements without an order,
-- the registry of storages, and the storage backends.
pub record Env (W E Row Backend : Type 0) : Type 0 where
  pub clock : ℕ → Clock
  pub others : ℕ → List Operation
  pub down : ℕ → Bool
  pub unavailable : E
  pub picked_file : ℕ → Bool
  pub picked_lease : Lease → Bool
  pub picked_row : File → Bool
  pub storage_row : Text → Row
  pub get_storage : Text → W → Observed E (Option Row) × W
  pub backend_from_row : Row → Observed E Backend
  pub is_relay : Backend → Bool
  pub head_object : Backend → Text → Text → W → Observed E (Option Measured) × W
  pub observe_object : Backend → Text → Text → W → Observed E (Option ObjectObservation) × W
  pub cleanup_upload : Backend → SweepCandidate → W → Observed E (Unit {0}) × W
  pub record_snapshot : ℕ → W → Observed E ℕ × W

module _ {W E Row Backend : Type 0} (env : Env W E Row Backend) where
  -- A call of the database: the operations of others that come first, and then its transaction.
  abbrev pub answered : {A : Type 0} → Pass W → Reply A × Db → Observed E A × Pass W
  answered s (ok a, db) = (seen a, record s { db = db; step = suc s.step })
  answered s (err e, db) = (failed env.unavailable, record s { db = db; step = suc s.step })

  unfoldable pub transact :
      {A : Type 0} → (Clock → Db → Reply A × Db) → Pass W → Observed E A × Pass W
  unfolding run
  transact f s =
      let db = run (env.others s.step) s.db in
      if env.down s.step
      then (failed env.unavailable, record s { db = db; step = suc s.step })
      else answered (record s { trail = ran db ∷ s.trail }) (f (env.clock s.step) db)

  unfoldable pub ask : {A : Type 0} → (Clock → Db → A) → Pass W → Observed E A × Pass W
  unfolding transact
  ask f = transact (λ now db. (ok (f now db), db))

  -- A call of the storage, or of the registry.
  abbrev pub kept_db : {A : Type 0} → Pass W → Observed E A × W → Observed E A × Pass W
  kept_db s (a, w) = (a, record s { storage = w })

  unfoldable pub io : {A : Type 0} → (W → Observed E A × W) → Pass W → Observed E A × Pass W
  io f s = kept_db s (f s.storage)

module _ {W : Type 0} where
  abbrev pub processed_some : ℕ → Pass W → Pass W
  processed_some n s = record s { report = record s.report { processed = s.report.processed + n } }

  abbrev pub failed_one : Pass W → Pass W
  failed_one s = record s { report = record s.report { failures = suc s.report.failures } }

  abbrev pub skipped_one : Pass W → Pass W
  skipped_one s = record s { report = record s.report { skipped = suc s.report.skipped } }
