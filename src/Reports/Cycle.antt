-- ===== src/Reports/Cycle.antt =====
-- run_scheduler_cycle of backend/app/reports/scheduler.py. The execution of a claimed run is a
-- parameter: the row that it commits, or none if it raised and was rolled back. Of what an execution
-- writes, the row of the run is kept here.
pub mod Stranded
use Prim.Native.Nat.{ℕ, suc, ◌+◌}
use Prim.Native.String.{String}
use mathlib.Core.Bool.{Bool, true, false}
use mathlib.Core.Option.{Option, none, some}
use mathlib.Core.List.{List, [], ◌∷◌, map}
use drivee_tolmach.Common.{nat_eq, length, ◌==◌, same_string, if◌then◌else◌}
use drivee_tolmach.Settings.{Settings}
use drivee_tolmach.Reports.Calendar.{Moment}
use drivee_tolmach.Reports.Records.{ScheduleRun}
use drivee_tolmach.Reports.Queue.{Queue, enqueue_due_schedules}
use drivee_tolmach.Reports.Claim.{claim_runnable_runs}

-- The dict that a cycle returns.
pub record Cycle : Type 0 where
  pub enqueued : ℕ
  pub processed : ℕ
  pub failed : ℕ

-- `db.get(ScheduleRun, id)`
unfoldable pub find_run : ℕ → List ScheduleRun → Option ScheduleRun
find_run id [] = none
find_run id (run ∷ runs) = if nat_eq run.id id then some run else find_run id runs

saved_run : ℕ → ScheduleRun → ScheduleRun → ScheduleRun
saved_run id new run = if nat_eq run.id id then new else run

saved : ℕ → ScheduleRun → Queue → Queue
unfolding saved_run
saved id new q = record q { runs = map (saved_run id new) q.runs }

module _ (settings : Settings) (execute : ScheduleRun → Option ScheduleRun) where
  execute_found : Option ScheduleRun → Option ScheduleRun
  execute_found none = none
  execute_found (some run) = execute run

  -- A failed execution is rolled back.
  process_run : ℕ → Option ScheduleRun → Cycle × Queue → Cycle × Queue
  unfolding saved
  process_run id none (c, q) = (record c { failed = c.failed + 1 }, q)
  process_run id (some run) (c, q) = (
    record c {
      processed = c.processed + 1;
      failed = if run.status == "failed" then c.failed + 1 else c.failed;
    },
    saved id run q,
  )

  process : List ℕ → Cycle × Queue → Cycle × Queue
  unfolding process_run execute_found find_run
  process [] p = p
  process (id ∷ ids) p = process ids (process_run id (execute_found (find_run id p.1.runs)) p)

  -- One cycle, with the readings of the clock for the two tables.
  unfoldable pub run_scheduler_cycle : Moment → ℕ → Queue → Cycle × Queue
  unfolding process
  run_scheduler_cycle now claim_at q =
      let (created, q') = enqueue_due_schedules settings now none q in
      let (ids, q'') = claim_runnable_runs settings claim_at none q' in
      process ids (record { enqueued = length created; processed = 0; failed = 0 }, q'')
