-- ===== src/Reports/Cycle/Stranded.antt =====
-- A run that is running when a cycle of backend/app/reports/scheduler.py starts, since the execution that
-- claimed it raised or its worker died.
use Prim.Native.Nat.{ℕ, ◌≤◌, ◌<◌}
use mathlib.Core.Path.{◌≡◌, refl}
use mathlib.Core.Logic.{◌⊎◌, inl, inr}
use mathlib.Core.Bool.{true, false}
use mathlib.Core.Option.{Option, none, some}
use mathlib.Core.List.{List, [], ◌∷◌, ◌++◌, map}
use native.Mathlib.Omega.{arith}
use drivee_tolmach.Common.{
  nat_eq, nat_eq_iff, elem, All, All-append, Bool-cases, if-cases, ◌==◌, same_string, same_ℕ,
}
use drivee_tolmach.Settings.{Settings}
use drivee_tolmach.Reports.Calendar.{Moment}
use drivee_tolmach.Reports.Records.{ScheduleRun}
use drivee_tolmach.Reports.Queue.{Queue, counts_for, active_count, enqueue_due_schedules}
use drivee_tolmach.Reports.Claim.{claimed, claim_runnable_runs}
use drivee_tolmach.Reports.Claim.Claimed.{HasKey, IsClaim, claim_runnable_runs-IsClaim}
use drivee_tolmach.Reports.Queue.Adding.{
  IsElsewhere, enqueue_due_schedules-step, enqueue_due_schedules-IsElsewhere,
}
use drivee_tolmach.Reports.Cycle.{
  Cycle, find_run, saved_run, saved, execute_found, process_run, process, run_scheduler_cycle,
}

-- The run stands in the table, alone with its id, and its status says that it is running.
unfoldable pub IsStranded : ScheduleRun → Queue → Type 0
IsStranded run q =
    (find_run run.id q.runs ≡ some run)
    × HasKey run q.runs
    × (run.id < q.next_run_id)
    × (run.status ≡ "running")

-- What is done to each row leaves the run alone and gives no other row its id.
abbrev Spares : ScheduleRun → (ScheduleRun → ScheduleRun) → Type 0
Spares run f =
    (f run ≡ run)
    × ((r : ScheduleRun) → nat_eq run.id r.id ≡ false → nat_eq run.id (f r).id ≡ false)

module _ (run : ScheduleRun) (f : ScheduleRun → ScheduleRun) (spares : Spares run f) where
  HasKey-map : (runs : List ScheduleRun) → HasKey run runs → HasKey run (map f runs)
  unfolding HasKey
  HasKey-map [] _ = tt
  HasKey-map (r ∷ runs) (inl other, keys) = (inl (spares.1 r other), HasKey-map runs keys)
  HasKey-map (r ∷ runs) (inr same, keys) = (inr (rw same spares.0), HasKey-map runs keys)

  find_run-map :
      (runs : List ScheduleRun)
      → HasKey run runs
      → find_run run.id runs ≡ some run
      → find_run run.id (map f runs) ≡ some run
  unfolding HasKey find_run
  find_run-map [] _ found = found
  find_run-map (r ∷ runs) (inl other, keys) found =
      let before : nat_eq r.id run.id ≡ false = ground arith in
      let after : nat_eq (f r).id run.id ≡ false = ground (arith, spares.1 r other) in
      rw after (find_run-map runs keys (ground arith))
  find_run-map (r ∷ runs) (inr same, keys) found =
      let kept : f r ≡ run = rw same spares.0 in rw kept (ground arith)

-- A new row with another id.
HasKey-append :
    (run new : ScheduleRun) (runs : List ScheduleRun)
    → nat_eq run.id new.id ≡ false
    → HasKey run runs
    → HasKey run (runs ++ new ∷ [])
unfolding HasKey
HasKey-append run new runs e keys =
    All-append (λ r. (nat_eq run.id r.id ≡ false) ⊎ (r ≡ run)) runs (new ∷ []) keys (inl e, tt)

find_run-append :
    (id : ℕ) (run : ScheduleRun) (runs more : List ScheduleRun)
    → find_run id runs ≡ some run
    → find_run id (runs ++ more) ≡ some run
unfolding find_run
find_run-append id run [] more found = absurd (ground arith)
find_run-append id run (r ∷ runs) more found = ground (arith, find_run-append id run runs more)

-- A run that runs counts for its schedule.
find_run-active :
    (id : ℕ) (run : ScheduleRun) (schedule : ℕ) (runs : List ScheduleRun)
    → find_run id runs ≡ some run
    → counts_for schedule run ≡ true
    → 1 ≤ active_count schedule runs
unfolding find_run active_count
find_run-active id run schedule [] found counts = absurd (ground arith)
find_run-active id run schedule (r ∷ runs) found counts = elim (Bool-cases (nat_eq r.id id)) [
  | inl here ↦
      let same : r ≡ run = ground arith in
      let this : counts_for schedule r ≡ true = rw same counts in rw this (omega arith)
  | inr other ↦ omega (arith, find_run-active id run schedule runs (ground arith) counts)
]

running-counts_for :
    (run : ScheduleRun) (schedule : ℕ)
    → run.status ≡ "running"
    → run.schedule_id ≡ some schedule
    → counts_for schedule run ≡ true
unfolding counts_for elem
running-counts_for run schedule running at = rw (running, at) (ground arith)

claimed-id : (now : ℕ) (ids : List ℕ) (r : ScheduleRun) → (claimed now ids r).id ≡ r.id
unfolding claimed
claimed-id now ids r =
    if-cases {A = ScheduleRun} (λ x. x.id ≡ r.id) (elem r.id ids) _ _ (λ _. refl) (λ _. refl)

saved_run-Spares :
    (run new : ScheduleRun) (id : ℕ)
    → nat_eq run.id id ≡ false
    → new.id ≡ id
    → Spares run (saved_run id new)
unfolding saved_run
saved_run-Spares run new id other same = (
  rw other refl,
  (λ r e.
      if-cases {A = ScheduleRun} (λ x. nat_eq run.id x.id ≡ false) (nat_eq r.id id) _ _
        (λ _. rw same other) (λ _. e)),
)

find_run-id :
    (id : ℕ) (runs : List ScheduleRun) (run : ScheduleRun)
    → find_run id runs ≡ some run
    → run.id ≡ id
unfolding find_run
find_run-id id [] run found = absurd (ground arith)
find_run-id id (r ∷ runs) run found = elim (Bool-cases (nat_eq r.id id)) [
  | inl here ↦ let same : r ≡ run = ground arith in rw (← same) ((nat_eq_iff r.id id).0 here)
  | inr other ↦ find_run-id id runs run (ground arith)
]

module _ (settings : Settings) (run : ScheduleRun) where
  enqueue-IsStranded :
      (now : Moment) (limit : Option ℕ) (q : Queue)
      → IsStranded run q
      → IsStranded run (enqueue_due_schedules settings now limit q).1
  unfolding IsStranded
  enqueue-IsStranded now limit q stranded =
      enqueue_due_schedules-step (IsStranded run) now
        (λ q new schedules (found, keys, below, running) fresh.
          let other : nat_eq run.id new.id ≡ false = ground arith in
          (
            find_run-append run.id run q.runs (new ∷ []) found,
            HasKey-append run new q.runs other keys,
            omega arith,
            running,
          ))
        settings limit q stranded

  IsClaim-running :
      (now : ℕ) (ids : List ℕ)
      → run.status ≡ "running"
      → IsClaim now ids run
      → (elem run.id ids ≡ false) × (claimed now ids run ≡ run)
  unfolding IsClaim
  IsClaim-running now ids running (inl kept) = kept
  IsClaim-running now ids running (inr (queued, _, _, _)) =
      let both : (run.status == "queued") ≡ true = rw queued refl in
      let not_both : (run.status == "queued") ≡ false = rw running refl in absurd (ground arith)

  claim-IsStranded :
      (now : ℕ) (limit : Option ℕ) (q : Queue)
      → IsStranded run q
      → IsStranded run (claim_runnable_runs settings now limit q).1
        × (elem run.id (claim_runnable_runs settings now limit q).0 ≡ false)
  unfolding IsStranded claim_runnable_runs
  claim-IsStranded now limit q (found, keys, below, running) =
      let ids : List ℕ = (claim_runnable_runs settings now limit q).0 in
      let (_, _, claim) = claim_runnable_runs-IsClaim settings now limit q run keys in
      let (free, kept) = IsClaim-running now ids running claim in
      let spares : Spares run (claimed now ids) =
        (kept, λ r other. rw (claimed-id now ids r) other) in
      (
        (
          find_run-map run (claimed now ids) spares q.runs keys found,
          HasKey-map run (claimed now ids) spares q.runs keys,
          below,
          running,
        ),
        free,
      )

  module _ (execute : ScheduleRun → Option ScheduleRun)
      (keeps : (r new : ScheduleRun) → execute r ≡ some new → new.id ≡ r.id) where
    execute_found-id :
        (id : ℕ) (o : Option ScheduleRun) (new : ScheduleRun)
        → ((r : ScheduleRun) → o ≡ some r → r.id ≡ id)
        → execute_found settings execute o ≡ some new
        → new.id ≡ id
    unfolding execute_found
    execute_found-id id none new named h = absurd (ground arith)
    execute_found-id id (some r) new named h = rw (← named r refl) (keeps r new h)

    process_run-IsStranded :
        (id : ℕ) (o : Option ScheduleRun) (p : Cycle × Queue)
        → nat_eq run.id id ≡ false
        → ((new : ScheduleRun) → o ≡ some new → new.id ≡ id)
        → IsStranded run p.1
        → IsStranded run (process_run settings execute id o p).1
    unfolding process_run saved IsStranded
    process_run-IsStranded id none (c, q) other named stranded = stranded
    process_run-IsStranded id (some new) (c, q) other named (found, keys, below, running) =
        let spares = saved_run-Spares run new id other (named new refl) in
        (
          find_run-map run (saved_run id new) spares q.runs keys found,
          HasKey-map run (saved_run id new) spares q.runs keys,
          below,
          running,
        )

    process-IsStranded :
        (ids : List ℕ) (p : Cycle × Queue)
        → elem run.id ids ≡ false
        → IsStranded run p.1
        → IsStranded run (process settings execute ids p).1
    unfolding process elem
    process-IsStranded [] p _ stranded = stranded
    process-IsStranded (id ∷ ids) p free stranded =
        let other : nat_eq run.id id ≡ false = ground arith in
        let rest : elem run.id ids ≡ false = ground arith in
        process-IsStranded ids
          (process_run settings execute id (execute_found settings execute (find_run id p.1.runs))
            p)
          rest
          (process_run-IsStranded id (execute_found settings execute (find_run id p.1.runs)) p other
            (λ new. execute_found-id id (find_run id p.1.runs) new (find_run-id id p.1.runs))
            stranded)

    -- If a run of a schedule is running when a cycle starts, and stands alone with its id in the table,
    -- the cycle leaves it so and creates no run for its schedule, whatever the executions of other runs
    -- do to them, as long as these keep their ids.
    pub run_scheduler_cycle-IsStranded :
        (now : Moment) (claim_at schedule : ℕ) (q : Queue)
        → run.schedule_id ≡ some schedule
        → IsStranded run q
        → IsStranded run (run_scheduler_cycle settings execute now claim_at q).1
          × All (IsElsewhere schedule) (enqueue_due_schedules settings now none q).0
    unfolding run_scheduler_cycle IsStranded
    run_scheduler_cycle-IsStranded now claim_at schedule q at stranded =
        let (found, keys, below, running) = stranded in
        let (held, free) =
          claim-IsStranded claim_at none (enqueue_due_schedules settings now none q).1
            (enqueue-IsStranded now none q stranded) in
        (
          process-IsStranded _ _ free held,
          enqueue_due_schedules-IsElsewhere schedule now settings none q (
              find_run-active run.id run schedule q.runs found
                (running-counts_for run schedule running at)),
        )
