-- ===== src/Reconciler/Trail.antt =====
-- The steps of a job keep that it asks only for objects that were cleared.
use grove_storage.Prelude.{
  ◌≡◌, refl, Bool, true, false, Option, none, some, List, [], ◌∷◌, ◌⊎◌, inl, inr, Bool-cases, arith,
}
use grove_storage.Db.Schema.{Db, Clock}
use grove_storage.Db.Tx.{Reply, ok, err}
use grove_storage.Files.Sweep.{SweepCandidate}
use grove_storage.Lifecycle.Operations.{run}
use grove_storage.Policy.Validation.{Observed, seen, failed}
use grove_storage.Service.Commit.{
  Outcome, done, fail, cleanup_then_finalize, after_cleanup, finish_cleanup,
}
use grove_storage.Reconciler.World.{Pass, Env, ran, transact, ask, io, kept_db, answered}
use grove_storage.Reconciler.Steps.{
  begun, sweep_object, sweep_then, cleaned, remove_with, found_storage, over, each, if_begun,
}
use grove_storage.Reconciler.Sweeps.{was_cleared, heeds}

module _ {W E Row Backend : Type 0} (env : Env W E Row Backend) where
  pub answered-trail :
      {A : Type 0} (s : Pass W) (r : Reply A × Db) → (answered env s r).1.trail ≡ s.trail
  answered-trail s (ok a, db) = refl
  answered-trail s (err e, db) = refl

  pub answered-true :
      (s : Pass W) (r : Reply Bool × Db) → (answered env s r).0 ≡ seen true → r.0 ≡ ok true
  answered-true s (ok a, db) h = cc h
  answered-true s (err e, db) h = cc h

  -- An answer comes from the database that the operations of others had left, and the trail has it.
  pub transact-true :
      (f : Clock → Db → Reply Bool × Db) (s : Pass W)
      → (transact env f s).0 ≡ seen true
      → ((f (env.clock s.step) (run (env.others s.step) s.db)).0 ≡ ok true)
        × ((transact env f s).1.trail ≡ ran (run (env.others s.step) s.db) ∷ s.trail)
  unfolding transact
  transact-true f s h =
      let db = run (env.others s.step) s.db in
      let mid : Pass W = record s { trail = ran db ∷ s.trail } in
      let r = f (env.clock s.step) db in
      elim (Bool-cases (env.down s.step)) [
        | inl t ↦ cc (rw t at h)
        | inr n ↦ (answered-true mid r (rw n at h), rw n (answered-trail mid r))
      ]

  pub begun-true : (r : Observed E Bool × Pass W) → (begun r).0 ≡ true → r.0 ≡ seen true
  begun-true (seen true, s) h = refl
  begun-true (seen false, s) h = cc h
  begun-true (failed e, s) h = cc h

  pub begun-trail : (r : Observed E Bool × Pass W) → (begun r).1.trail ≡ r.1.trail
  begun-trail (seen true, s) = refl
  begun-trail (seen false, s) = refl
  begun-trail (failed e, s) = refl

  pub cleaned-trail : (r : Outcome (E ⊎ E) Bool × Pass W) → (cleaned r).trail ≡ r.1.trail
  cleaned-trail (done true, s) = refl
  cleaned-trail (done false, s) = refl
  cleaned-trail (fail e, s) = refl

  abbrev pub Safe : Pass W → Type 0
  Safe s = heeds s.trail ≡ true

  pub transact-Safe :
      {A : Type 0} (f : Clock → Db → Reply A × Db) (s : Pass W) → Safe s → Safe (transact env f s).1
  unfolding transact heeds
  transact-Safe f s h = elim (Bool-cases (env.down s.step)) [
    | inl t ↦ rw t h
    | inr n ↦ rw (n, answered-trail _ (f (env.clock s.step) (run (env.others s.step) s.db))) h
  ]

module _ {W E Row Backend : Type 0} (env : Env W E Row Backend) where
  -- The storage is asked for an object that was cleared.
  pub sweep_object-Safe :
      (c : SweepCandidate) (s : Pass W)
      → was_cleared c.file_id s.trail ≡ true
      → Safe env s
      → Safe env (sweep_object env c s).1
  unfolding sweep_object io heeds
  sweep_object-Safe c s gone safe = found (env.get_storage c.storage_id s.storage)
    where
      removed :
          (b : Observed E Backend) (v : W)
          → Safe env (remove_with env c b (record s { storage = v })).1
      removed (failed e) v = safe
      removed (seen b) v = ground (arith, gone, safe)

      found : (r : Observed E (Option Row) × W) → Safe env (found_storage env c (kept_db env s r)).1
      found (failed e, v) = safe
      found (seen none, v) = safe
      found (seen (some row), v) = removed (env.backend_from_row row) v

  pub after_sweep-Safe :
      (settle : Clock → Db → Reply Bool × Db) (r : Observed E (Unit {0}) × Pass W)
      → Safe env r.1
      → Safe env (after_cleanup {P = E} {M = E} (transact env settle) r).1
  after_sweep-Safe settle (failed e, s) h = h
  after_sweep-Safe settle (seen u, s) h =
      finished (transact env settle s) (transact-Safe env settle s h)
    where
      finished :
          (r : Observed E Bool × Pass W) → Safe env r.1 → Safe env (finish_cleanup {P = E} r).1
      finished (seen b, t) h = h
      finished (failed e, t) h = h

  pub sweep_then-Safe :
      (settle : Clock → Db → Reply Bool × Db) (c : SweepCandidate) (s : Pass W)
      → was_cleared c.file_id s.trail ≡ true
      → Safe env s
      → Safe env (sweep_then env settle c s)
  unfolding sweep_then cleanup_then_finalize
  sweep_then-Safe settle c s gone safe =
      rw
        (cleaned-trail env
          (after_cleanup {P = E} {M = E} (transact env settle) (sweep_object env c s)))
        (after_sweep-Safe settle (sweep_object env c s) (sweep_object-Safe c s gone safe))

  pub if_begun-Safe :
      (work : Pass W → Pass W) (r : Bool × Pass W)
      → (r.0 ≡ true → Safe env r.1 → Safe env (work r.1))
      → Safe env r.1
      → Safe env (if_begun work r)
  if_begun-Safe work (true, s) k h = k refl h
  if_begun-Safe work (false, s) k h = h

  pub each-Safe :
      {C : Type 0} (work : C → Pass W → Pass W) (cs : List C) (s : Pass W)
      → ((c : C) (s : Pass W) → Safe env s → Safe env (work c s))
      → Safe env s
      → Safe env (each work cs s)
  unfolding each
  each-Safe work [] s k h = h
  each-Safe work (c ∷ cs) s k h = each-Safe work cs (work c s) k (k c s h)

  pub over-Safe :
      {C : Type 0} (work : C → Pass W → Pass W) (r : Observed E (List C) × Pass W)
      → ((c : C) (s : Pass W) → Safe env s → Safe env (work c s))
      → Safe env r.1
      → Safe env (over work r)
  over-Safe work (failed e, s) k h = h
  over-Safe work (seen cs, s) k h = each-Safe work cs s k h

  pub ask-Safe :
      {A : Type 0} (f : Clock → Db → A) (s : Pass W) → Safe env s → Safe env (ask env f s).1
  unfolding ask
  ask-Safe f s h = transact-Safe env (λ now db. (ok (f now db), db)) s h
