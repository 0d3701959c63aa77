-- ===== src/Service/Schedule.antt =====
-- backend/crates/api/src/reconciler/schedule.rs: the round of the reconciler's jobs.
use native.Mathlib.Nat.{zero-add, zero-mul}
use grove_storage.Prelude.{ℕ, zero, suc, ◌+◌, ◌*◌, ◌≡◌, refl, ap, List, [], ◌∷◌, ◌++◌, arith}

pub data Job : Type 0 where
  observe native_complete native_cleanup s3_complete s3_expire s3_cleanup reclaim reclaim_cleanup
        purge read_leases prune_leases prune_files snapshot :
      Job

abbrev pub jobs : List Job
jobs =
    observe ∷ native_complete ∷ native_cleanup ∷ s3_complete ∷ s3_expire ∷ s3_cleanup ∷ reclaim
    ∷ reclaim_cleanup ∷ purge ∷ read_leases ∷ prune_leases ∷ prune_files ∷ snapshot ∷ []

-- `Schedule`: the jobs that remain of the round.
pub record Schedule : Type 0 where
  pub remaining : List Job

abbrev pub default : Schedule
default = record { remaining = [] }

-- One turn of the loop: the job it starts, and the schedule, advanced before the job runs.
unfoldable pub select : Schedule → Job × Schedule
select s = elim s.remaining [
  | [] ↦ (
    observe,
    record {
      remaining =
          native_complete ∷ native_cleanup ∷ s3_complete ∷ s3_expire ∷ s3_cleanup ∷ reclaim
          ∷ reclaim_cleanup ∷ purge ∷ read_leases ∷ prune_leases ∷ prune_files ∷ snapshot ∷ [];
    },
  )
  | job ∷ rest ↦ (job, record { remaining = rest })
]

-- A pass that starts `n` jobs before its timeout or its end.
unfoldable pub pass : ℕ → Schedule → List Job × Schedule
pass zero s = ([], s)
pass (suc n) s = let (job, s1) = select s in let (rest, s2) = pass n s1 in (job ∷ rest, s2)

-- Passes one after another, each with the number of jobs that it started.
unfoldable pub passes : List ℕ → Schedule → List Job × Schedule
passes [] s = ([], s)
passes (n ∷ ns) s = let (now, s1) = pass n s in let (later, s2) = passes ns s1 in (now ++ later, s2)

abbrev pub started : List ℕ → ℕ
started [] = 0
started (n ∷ ns) = n + started ns

abbrev pub rounds : ℕ → List Job
rounds zero = []
rounds (suc k) = jobs ++ rounds k

pass-add :
    (n m : ℕ) (s : Schedule)
    → pass (n + m) s ≡ ((pass n s).0 ++ (pass m (pass n s).1).0, (pass m (pass n s).1).1)
unfolding pass
pass-add zero m s = ap (λ k. pass k s) (zero-add m)
pass-add (suc n) m s =
    let step : suc n + m ≡ suc (n + m) = omega arith in rw (step, pass-add n m (select s).1) refl

passes-pass : (ns : List ℕ) (s : Schedule) → passes ns s ≡ pass (started ns) s
unfolding passes pass
passes-pass [] s = refl
passes-pass (n ∷ ns) s = rw (passes-pass ns (pass n s).1, pass-add n (started ns) s) refl

pass-rounds : (k : ℕ) → pass (k * 13) default ≡ (rounds k, default)
unfolding pass select
pass-rounds zero = ap (λ n. pass n default) (zero-mul 13)
pass-rounds (suc k) =
    let step : suc k * 13 ≡ 13 + k * 13 = omega arith in
    rw (step, pass-add 13 (k * 13) default, pass-rounds k) refl

-- However passes are cut short, their starts go round the jobs in order: after 13 starts for each
-- of `k` rounds every job was started exactly `k` times, one round after the other.
pub passes-rounds : (k : ℕ) (ns : List ℕ) → started ns ≡ k * 13 → (passes ns default).0 ≡ rounds k
passes-rounds k ns h = rw (passes-pass ns default, h, pass-rounds k) refl
