-- ===== src/Reports/QueueTests.antt =====
-- The queue of runs of backend/app/reports/scheduler.py at concrete inputs.
use Prim.Native.Nat.{◌≤◌, max}
use mathlib.Core.Path.{◌≡◌, refl}
use mathlib.Core.Logic.{inl, inr}
use mathlib.Core.Bool.{true}
use mathlib.Core.Option.{Option, none, some}
use mathlib.Core.List.{[], ◌∷◌, map}
use native.Mathlib.Omega.{arith}
use drivee_tolmach.Reports.Calendar.{elapsed}
use drivee_tolmach.Common.{elem, length, All, same_list, same_pair, same_string, same_ℕ}
use drivee_tolmach.Settings.{default_settings}
use drivee_tolmach.Reports.Records.{ScheduleRun, Schedule}
use drivee_tolmach.Reports.Queue.{
  Queue, order_by, place, active_count, due_schedules, enqueue_due_schedules,
}
use drivee_tolmach.Reports.Queue.Active.{enqueue_due_schedules-active}
use drivee_tolmach.Reports.Claim.{claimed, runnable_runs, claim_runnable_runs}
use drivee_tolmach.Reports.Claim.Claimed.{HasKey, IsClaim, claim_runnable_runs-IsClaim}
use drivee_tolmach.Reports.Queue.Adding.{IsElsewhere}
use drivee_tolmach.Reports.Cycle.{find_run, run_scheduler_cycle}
use drivee_tolmach.Reports.Cycle.Stranded.{IsStranded, run_scheduler_cycle-IsStranded}
use drivee_tolmach.Reports.Tests.{new_year, dates, run_of, report}

abbrev schedule : Schedule
schedule = record {
  id = 8;
  report_id = 3;
  frequency = "daily";
  run_at_time = none;
  day_of_week = none;
  day_of_month = none;
  next_run_at = some new_year;
  last_run_at = none;
  max_retries = 2;
  retry_backoff_seconds = 300;
  last_error_message = [];
  last_error_at = none;
  is_active = true;
}

abbrev queue : Queue
queue = record {
  schedules = schedule ∷ record schedule { id = 7 } ∷ [];
  runs = run_of 1 "queued" ∷ run_of 2 "failed" ∷ [];
  reports = report ∷ [];
  versions = [];
  next_run_id = 3;
}

enqueued : Unit {0}
unfolding dates elapsed elem order_by place due_schedules enqueue_due_schedules active_count
    runnable_runs claim_runnable_runs HasKey
enqueued = tt

-- Schedule 7 has an active run already.
queues :
    (map (λ run. run.schedule_id) (enqueue_due_schedules default_settings new_year none queue).0
      ≡ some 8 ∷ [])
    × ((claim_runnable_runs default_settings 9 none queue).0 ≡ 1 ∷ [])
unfolding enqueued
queues = (refl, refl)

counted : active_count 8 queue.runs ≤ 1
unfolding enqueued
counted = omega arith

enqueue_due_schedules-active_example :
    active_count 8 (enqueue_due_schedules default_settings new_year none queue).1.runs ≤ 1
enqueue_due_schedules-active_example =
    enqueue_due_schedules-active default_settings new_year none queue 8 counted

keyed : HasKey (run_of 1 "queued") queue.runs
unfolding enqueued
keyed = (inr refl, (inl refl, tt))

claim_runnable_runs-IsClaim_example :
    (length (claim_runnable_runs default_settings 9 none queue).0 ≤ max 1 2)
    × ((claim_runnable_runs default_settings 9 none queue).1.runs
        ≡ map (claimed 9 (claim_runnable_runs default_settings 9 none queue).0) queue.runs)
    × IsClaim 9 (claim_runnable_runs default_settings 9 none queue).0 (run_of 1 "queued")
claim_runnable_runs-IsClaim_example =
    claim_runnable_runs-IsClaim default_settings 9 none queue (run_of 1 "queued") keyed

-- A cycle in which every execution fails, with a run that runs already.
abbrev raises : ScheduleRun → Option ScheduleRun
raises run = none

abbrev left_over : Queue
left_over = record queue { runs = run_of 1 "running" ∷ run_of 2 "queued" ∷ [] }

left_over-IsStranded : IsStranded (run_of 1 "running") left_over
unfolding enqueued IsStranded find_run
left_over-IsStranded = (refl, (inr refl, (inl refl, tt)), omega arith, refl)

raises-keeps : (r new : ScheduleRun) → raises r ≡ some new → new.id ≡ r.id
raises-keeps r new h = absurd (ground arith)

cycles :
    ((run_scheduler_cycle default_settings raises new_year 5 left_over).0
      ≡ record { enqueued = 1; processed = 0; failed = 1 })
    × (map
          (λ run. run.status)
          (run_scheduler_cycle default_settings raises new_year 5 left_over).1.runs
        ≡ "running" ∷ "running" ∷ "queued" ∷ [])
unfolding enqueued run_scheduler_cycle
cycles = (refl, refl)

run_scheduler_cycle-IsStranded_example :
    IsStranded
      (run_of 1 "running")
      (run_scheduler_cycle default_settings raises new_year 5 left_over).1
    × All (IsElsewhere 7) (enqueue_due_schedules default_settings new_year none left_over).0
run_scheduler_cycle-IsStranded_example =
    run_scheduler_cycle-IsStranded default_settings (run_of 1 "running") raises raises-keeps
      new_year 5 7 left_over refl left_over-IsStranded
