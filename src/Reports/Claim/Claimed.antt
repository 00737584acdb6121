-- ===== src/Reports/Claim/Claimed.antt =====
-- What claim_runnable_runs of backend/app/reports/scheduler.py claims.
use Prim.Native.Nat.{ℕ, zero, suc, ◌≤◌, max}
use mathlib.Core.Path.{◌≡◌, refl, ap}
use mathlib.Core.Logic.{◌⊎◌, inl, inr}
use mathlib.Core.Bool.{true, false}
use mathlib.Core.Option.{Option, some}
use mathlib.Core.List.{List, [], ◌∷◌, map}
use native.Mathlib.Omega.{arith}
use drivee_tolmach.Common.{
  leb, nat_eq, length, length-take, take, filter, filter-in, filter-out, elem, All, Bool-cases,
  if-cases, same_string, same_ℕ,
}
use drivee_tolmach.Settings.{Settings}
use drivee_tolmach.Reports.Records.{ScheduleRun}
use drivee_tolmach.Reports.Queue.{Queue, place, order_by}
use drivee_tolmach.Reports.Claim.{
  retry_due, is_runnable, batch_size, runnable_runs, claimed, claim_runnable_runs,
}

module _ {ℓ κ} {A : Type ℓ} (P : A → Type κ) where
  All-take : (n : ℕ) (xs : List A) → All P xs → All P (take n xs)
  All-take zero xs _ = tt
  All-take (suc n) [] _ = tt
  All-take (suc n) (x ∷ xs) (p, ps) = (p, All-take n xs ps)

  module _ (key : A → ℕ) where
    All-place : (x : A) (xs : List A) → P x → All P xs → All P (place key x xs)
    unfolding place
    All-place x [] p _ = (p, tt)
    All-place x (y ∷ ys) p (q, qs) =
        if-cases (All P) (leb (key x) (key y)) _ _ (λ _. (p, (q, qs)))
          (λ _. (q, All-place x ys p qs))

    All-order_by : (xs : List A) → All P xs → All P (order_by key xs)
    unfolding order_by
    All-order_by [] _ = tt
    All-order_by (x ∷ xs) (p, ps) = All-place x (order_by key xs) p (All-order_by xs ps)

not_both :
    (now : ℕ) (r run : ScheduleRun)
    → r ≡ run
    → is_runnable now r ≡ true
    → is_runnable now run ≡ false
    → ⊥
not_both now r run same runs idle = ground (arith, ap (is_runnable now) same)

-- No other run of the table has the id of a run.
unfoldable pub HasKey : ScheduleRun → List ScheduleRun → Type 0
HasKey run runs = All (λ r. (nat_eq run.id r.id ≡ false) ⊎ (r ≡ run)) runs

-- What has another id than a run, in the rows that are chosen.
abbrev Others : ScheduleRun → List ScheduleRun → Type 0
Others run runs = All (λ r. nat_eq run.id r.id ≡ false) runs

filter-Others :
    (now : ℕ) (run : ScheduleRun) (runs : List ScheduleRun)
    → is_runnable now run ≡ false
    → HasKey run runs
    → Others run (filter (is_runnable now) runs)
unfolding HasKey
filter-Others now run [] idle _ = tt
filter-Others now run (r ∷ runs) idle (key, keys) =
    let rest = filter-Others now run runs idle keys in
    elim (Bool-cases (is_runnable now r)) [
      | inl e ↦ rw (filter-in (is_runnable now) r runs e) (elim key [
        | inl other ↦ (other, rest)
        | inr same ↦ absurd (not_both now r run same e idle)
      ])
      | inr e ↦ rw (filter-out (is_runnable now) r runs e) rest
    ]

elem-of_Others :
    (run : ScheduleRun) (runs : List ScheduleRun)
    → Others run runs
    → elem run.id (map (λ r. r.id) runs) ≡ false
unfolding elem
elem-of_Others run [] _ = refl
elem-of_Others run (r ∷ runs) (e, es) = ground (arith, elem-of_Others run runs es)

module _ (settings : Settings) (now : ℕ) (limit : Option ℕ) (runs : List ScheduleRun) where
  unclaimed :
      (run : ScheduleRun)
      → is_runnable now run ≡ false
      → HasKey run runs
      → elem run.id (map (λ r. r.id) (runnable_runs settings now limit runs)) ≡ false
  unfolding runnable_runs
  unclaimed run idle key = elem-of_Others run (runnable_runs settings now limit runs) (
      All-take _ (batch_size settings limit) _ (
        All-order_by _ (λ r. r.queued_at) _
          (All-order_by _ (λ r. r.ran_at) _ (filter-Others now run runs idle key))))

length-map {ℓ κ} :
    {A : Type ℓ} {B : Type κ} (f : A → B) (xs : List A) → length (map f xs) ≡ length xs
length-map f [] = refl
length-map f (x ∷ xs) = omega (arith, length-map f xs)

-- A row that stays as it is, since it is not claimed, or that was queued and due and runs from now on.
unfoldable pub IsClaim : ℕ → List ℕ → ScheduleRun → Type 0
IsClaim now ids run =
    ((elem run.id ids ≡ false) × (claimed now ids run ≡ run))
    ⊎ ((run.status ≡ "queued")
        × (retry_due now run.next_retry_at ≡ true)
        × ((claimed now ids run).status ≡ "running")
        × ((claimed now ids run).started_at ≡ some now))

IsClaim-runnable :
    (now : ℕ) (ids : List ℕ) (run : ScheduleRun) → is_runnable now run ≡ true → IsClaim now ids run
unfolding IsClaim claimed is_runnable
IsClaim-runnable now ids run e = elim (Bool-cases (elem run.id ids)) [
  | inl here ↦ inr (
    (same_string.same_iff run.status "queued").0 (ground arith),
    ground arith,
    rw here refl,
    rw here refl,
  )
  | inr there ↦ inl (there, rw there refl)
]

IsClaim-idle :
    (now : ℕ) (ids : List ℕ) (run : ScheduleRun) → elem run.id ids ≡ false → IsClaim now ids run
unfolding IsClaim claimed
IsClaim-idle now ids run e = inl (e, rw e refl)

few_runnable :
    (settings : Settings) (now : ℕ) (limit : Option ℕ) (runs : List ScheduleRun)
    → length (runnable_runs settings now limit runs) ≤ max 1 settings.scheduler_max_concurrent_runs
unfolding runnable_runs
few_runnable settings now limit runs =
    rw
      (length-take (batch_size settings limit) (
        order_by (λ run. run.queued_at)
          (order_by (λ run. run.ran_at) (filter (is_runnable now) runs))))
      (omega arith)

-- At most as many runs are claimed as may run at once (one, if the setting is zero); a run whose id is
-- its own is changed only if it was queued and its time for a retry has come, and then it runs.
pub claim_runnable_runs-IsClaim :
    (settings : Settings) (now : ℕ) (limit : Option ℕ) (q : Queue) (run : ScheduleRun)
    → HasKey run q.runs
    → (length (claim_runnable_runs settings now limit q).0
        ≤ max 1 settings.scheduler_max_concurrent_runs)
      × ((claim_runnable_runs settings now limit q).1.runs
          ≡ map (claimed now (claim_runnable_runs settings now limit q).0) q.runs)
      × IsClaim now (claim_runnable_runs settings now limit q).0 run
unfolding claim_runnable_runs
claim_runnable_runs-IsClaim settings now limit q run key = (
  rw (length-map (λ r. r.id) (runnable_runs settings now limit q.runs))
      (few_runnable settings now limit q.runs),
  refl,
  elim (Bool-cases (is_runnable now run)) [
    | inl e ↦ IsClaim-runnable now _ run e
    | inr e ↦ IsClaim-idle now _ run (unclaimed settings now limit q.runs run e key)
  ],
)
