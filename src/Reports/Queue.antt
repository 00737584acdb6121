-- ===== src/Reports/Queue.antt =====
-- The queue of runs of backend/app/reports/scheduler.py: enqueue_due_schedules and
-- claim_runnable_runs, with create_run_record of backend/app/reports/service.py. One scheduler works on
-- the tables; rows that a query orders equally come in the order of the table.
pub mod Active
pub mod Adding
use Prim.Native.Nat.{ℕ, zero, suc, ◌+◌, min, max}
use Prim.Native.String.{String}
use mathlib.Core.Bool.{Bool, true, false, ◌&&◌, ◌||◌, not}
use mathlib.Core.Option.{Option, none, some}
use mathlib.Core.List.{List, [], ◌∷◌, ◌++◌, map}
use drivee_tolmach.Common.{
  Text, leb, ltb, nat_eq, take, filter, elem, ◌==◌, same_string, same_ℕ, if◌then◌else◌,
}
use drivee_tolmach.Json.{Json, object}
use drivee_tolmach.Settings.{Settings}
use drivee_tolmach.Reports.Calendar.{elapsed, Moment, stamp, next_run_at}
use drivee_tolmach.Reports.Records.{or_text, or_json, ScheduleRun, Report, ReportVersion, Schedule}

pub record Queue : Type 0 where
  pub schedules : List Schedule
  pub runs : List ScheduleRun
  pub reports : List Report
  pub versions : List ReportVersion
  pub next_run_id : ℕ

-- ORDER BY key, in a stable way
module _ {ℓ} {A : Type ℓ} (key : A → ℕ) where
  unfoldable pub place : A → List A → List A
  place x [] = x ∷ []
  place x (y ∷ ys) = if leb (key x) (key y) then x ∷ y ∷ ys else y ∷ place x ys

  unfoldable pub order_by : List A → List A
  unfolding place
  order_by [] = []
  order_by (x ∷ xs) = place x (order_by xs)

abbrev pub same_key : Option ℕ → ℕ → Bool
same_key none n = false
same_key (some m) n = nat_eq m n

-- ACTIVE_RUN_STATUSES
abbrev pub active_run_statuses : List String
active_run_statuses = "queued" ∷ "running" ∷ []

unfoldable pub counts_for : ℕ → ScheduleRun → Bool
unfolding elem
counts_for id run = same_key run.schedule_id id && elem run.status active_run_statuses

-- The active runs of a schedule.
unfoldable pub active_count : ℕ → List ScheduleRun → ℕ
unfolding counts_for
active_count id [] = 0
active_count id (run ∷ runs) = (if counts_for id run then 1 else 0) + active_count id runs

find_report : ℕ → List Report → Option Report
find_report id [] = none
find_report id (report ∷ reports) =
    if nat_eq report.id id then some report else find_report id reports

newer : Option ReportVersion → ReportVersion → Option ReportVersion
newer none version = some version
newer (some best) version =
    if leb version.version_number best.version_number then some best else some version

-- The version of a report with the greatest number.
latest_report_version : ℕ → Option ReportVersion → List ReportVersion → Option ReportVersion
unfolding newer
latest_report_version id best [] = best
latest_report_version id best (version ∷ versions) =
    latest_report_version id (if nat_eq version.report_id id then newer best version else best)
      versions

abbrev version_id : Option ReportVersion → Option ℕ
version_id none = none
version_id (some version) = some version.id

-- `version.field if version else report.field`
abbrev of_version {ℓ} : {A : Type ℓ} → Option ReportVersion → (ReportVersion → A) → A → A
of_version none field value = value
of_version (some version) field value = field version

run_record :
    ℕ → ℕ → Report → Option ReportVersion → Option ℕ → String → Option ℕ → ℕ → ℕ → ScheduleRun
run_record id now report version schedule_id trigger_type requested_by max_retries backoff =
    record {
      id = id;
      schedule_id = schedule_id;
      report_id = report.id;
      report_version_id = version_id version;
      requested_by_user_id = requested_by;
      trigger_type = trigger_type;
      status = "queued";
      queued_at = now;
      started_at = none;
      finished_at = none;
      next_retry_at = some now;
      retry_count = 0;
      max_retries = max_retries;
      retry_backoff_seconds = backoff;
      final_sql =
          or_text (of_version version (λ v. v.generated_sql) report.generated_sql)
            report.generated_sql;
      chart_type =
          or_text (of_version version (λ v. v.chart_type) report.chart_type) report.chart_type;
      chart_spec_json =
          or_json (of_version version (λ v. v.chart_spec_json) report.chart_spec) report.chart_spec;
      semantic_snapshot_json =
          or_json (of_version version (λ v. v.semantic_snapshot_json) report.semantic_snapshot_json)
            report.semantic_snapshot_json;
      result_snapshot = [];
      execution_fingerprint = [];
      explain_plan_json = object [];
      explain_cost = 0;
      validator_summary_json = object [];
      structured_error_json = none;
      stack_trace = [];
      attempts_json = [];
      artifact_summary_json = [];
      delivery_summary_json = [];
      rows_returned = 0;
      execution_ms = 0;
      error_message = [];
      ran_at = now;
    }

pub create_run_record :
    ℕ → Report → Option ℕ → String → Option ℕ → ℕ → ℕ → Queue → ScheduleRun × Queue
unfolding run_record latest_report_version
create_run_record now report schedule_id trigger_type requested_by max_retries backoff q =
    let run =
      run_record q.next_run_id now report (latest_report_version report.id none q.versions)
        schedule_id trigger_type requested_by max_retries backoff in
    (run, record q { runs = q.runs ++ run ∷ []; next_run_id = suc q.next_run_id })

-- `x or y` of numbers, and `limit or setting`
abbrev pub or_number : Option ℕ → ℕ → ℕ
or_number none n = n
or_number (some zero) n = n
or_number (some (suc m)) n = suc m

abbrev due_at : Moment → Option Moment → Bool
due_at now none = false
due_at now (some m) = leb (stamp m) (stamp now)

pub is_due : Moment → Schedule → Bool
is_due now s = s.is_active && due_at now s.next_run_at

abbrev due_stamp : Schedule → ℕ
due_stamp s = elim s.next_run_at [ none ↦ 0 | some m ↦ stamp m ]

unfoldable pub due_schedules : Settings → Moment → Option ℕ → List Schedule → List Schedule
unfolding is_due order_by
due_schedules settings now limit schedules =
    take (max 1 (or_number limit settings.scheduler_batch_size))
      (order_by due_stamp (filter (is_due now) schedules))

-- `schedule.next_run_at = next_run_at(...)`
rescheduled : Moment → Schedule → Schedule
unfolding next_run_at
rescheduled now s = record s {
  next_run_at = some (next_run_at now s.frequency s.run_at_time s.day_of_week s.day_of_month);
}

reschedule : Moment → ℕ → List Schedule → List Schedule
unfolding rescheduled
reschedule now id [] = []
reschedule now id (s ∷ ss) =
    if nat_eq s.id id then rescheduled now s ∷ reschedule now id ss else s ∷ reschedule now id ss

enqueue_report : Moment → Schedule → Option Report → Queue → List ScheduleRun × Queue
unfolding create_run_record reschedule
enqueue_report now s none q = ([], q)
enqueue_report now s (some report) q =
    let (run, q') =
      create_run_record (elapsed now) report (some s.id) "schedule" none s.max_retries
        s.retry_backoff_seconds q in
    (run ∷ [], record q' { schedules = reschedule now s.id q'.schedules })

-- The body of the loop of enqueue_due_schedules, with the runs it creates.
enqueue_one : Moment → Schedule → Queue → List ScheduleRun × Queue
unfolding enqueue_report active_count find_report
enqueue_one now s q =
    if nat_eq (active_count s.id q.runs) 0
    then enqueue_report now s (find_report s.report_id q.reports) q
    else ([], q)

enqueue_all : Moment → List Schedule → Queue → List ScheduleRun × Queue
unfolding enqueue_one
enqueue_all now [] q = ([], q)
enqueue_all now (s ∷ ss) q =
    let (created, q') = enqueue_one now s q in
    let (more, q'') = enqueue_all now ss q' in (created ++ more, q'')

unfoldable pub enqueue_due_schedules :
    Settings → Moment → Option ℕ → Queue → List ScheduleRun × Queue
unfolding enqueue_all due_schedules
enqueue_due_schedules settings now limit q =
    enqueue_all now (due_schedules settings now limit q.schedules) q
