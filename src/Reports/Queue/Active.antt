-- ===== src/Reports/Queue/Active.antt =====
-- At most one active run for each schedule: enqueue_due_schedules of backend/app/reports/scheduler.py.
use Prim.Native.Nat.{ℕ, ◌+◌, ◌≤◌}
use mathlib.Core.Path.{◌≡◌, sym}
use mathlib.Core.Bool.{Bool, true, false}
use mathlib.Core.Option.{Option, none, some}
use mathlib.Core.List.{List, [], ◌∷◌, ◌++◌}
use native.Mathlib.Omega.{arith}
use drivee_tolmach.Common.{nat_eq, nat_eq_iff, elem, if-cases, same_string, if◌then◌else◌}
use drivee_tolmach.Settings.{Settings}
use drivee_tolmach.Reports.Calendar.{elapsed, Moment}
use drivee_tolmach.Reports.Records.{ScheduleRun, Report, ReportVersion, Schedule}
use drivee_tolmach.Reports.Queue.{
  Queue, counts_for, active_count, latest_report_version, run_record, create_run_record,
  due_schedules, enqueue_report, enqueue_one, enqueue_all, enqueue_due_schedules,
}

pub active_count-append :
    (id : ℕ) (runs more : List ScheduleRun)
    → active_count id (runs ++ more) ≡ active_count id runs + active_count id more
unfolding active_count
active_count-append id [] more = omega arith
active_count-append id (run ∷ runs) more = omega (arith, active_count-append id runs more)

created-counts :
    (key now id backoff retries : ℕ) (report : Report) (version : Option ReportVersion)
    (schedule : ℕ)
    → counts_for id
        (run_record key now report version (some schedule) "schedule" none retries backoff)
      ≡ nat_eq schedule id
unfolding counts_for run_record elem
created-counts key now id backoff retries report version schedule = ground arith

created_count :
    (free : Bool) (s id : ℕ) (runs : List ScheduleRun)
    → free ≡ nat_eq s id
    → active_count s runs ≡ 0
    → active_count id runs ≤ 1
    → active_count id runs + ((if free then 1 else 0) + 0) ≤ 1
created_count false s id runs e empty few = omega arith
created_count true s id runs e empty few =
    let same : s ≡ id = (nat_eq_iff s id).0 (sym e) in
    let free : active_count id runs ≡ 0 = rw (← same) empty in omega arith

-- The created run counts for its schedule alone.
enqueue_report-counted :
    (now : Moment) (s : Schedule) (o : Option Report) (q : Queue) (id : ℕ)
    → active_count s.id q.runs ≡ 0
    → active_count id q.runs ≤ 1
    → active_count id (enqueue_report now s o q).1.runs ≤ 1
unfolding enqueue_report create_run_record active_count
enqueue_report-counted now s none q id free few = few
enqueue_report-counted now s (some report) q id free few = rw (active_count-append id q.runs _) (
    created_count _ s.id id q.runs
      (created-counts q.next_run_id (elapsed now) id s.retry_backoff_seconds s.max_retries report
        (latest_report_version report.id none q.versions) s.id)
      free few)

enqueue_one-counted :
    (now : Moment) (s : Schedule) (q : Queue) (id : ℕ)
    → active_count id q.runs ≤ 1
    → active_count id (enqueue_one now s q).1.runs ≤ 1
unfolding enqueue_one
enqueue_one-counted now s q id few =
    if-cases {A = List ScheduleRun × Queue} (λ p. active_count id p.1.runs ≤ 1)
      (nat_eq (active_count s.id q.runs) 0) _ _
      (λ e. enqueue_report-counted now s _ q id (ground arith) few) (λ _. few)

enqueue_all-counted :
    (now : Moment) (ss : List Schedule) (q : Queue) (id : ℕ)
    → active_count id q.runs ≤ 1
    → active_count id (enqueue_all now ss q).1.runs ≤ 1
unfolding enqueue_all
enqueue_all-counted now [] q id few = few
enqueue_all-counted now (s ∷ ss) q id few =
    enqueue_all-counted now ss (enqueue_one now s q).1 id (enqueue_one-counted now s q id few)

-- If a schedule has at most one run that is queued or running, it has at most one behind
-- enqueue_due_schedules, whatever is due.
pub enqueue_due_schedules-active :
    (settings : Settings) (now : Moment) (limit : Option ℕ) (q : Queue) (id : ℕ)
    → active_count id q.runs ≤ 1
    → active_count id (enqueue_due_schedules settings now limit q).1.runs ≤ 1
unfolding enqueue_due_schedules
enqueue_due_schedules-active settings now limit q id few =
    enqueue_all-counted now (due_schedules settings now limit q.schedules) q id few
