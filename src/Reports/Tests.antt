-- ===== src/Reports/Tests.antt =====
-- Runs of the report scheduler, and the theorems at inputs that meet their hypotheses.
use Prim.Native.Nat.{ℕ}
use mathlib.Core.Path.{◌≡◌, refl}
use mathlib.Core.Bool.{true, false}
use mathlib.Core.Option.{none, some}
use mathlib.Core.List.{[], ◌∷◌}
use native.Mathlib.Omega.{arith}
use drivee_tolmach.Reports.Calendar.{
  Moment, toordinal, isoweekday, next_day, add_days, frequency_of, next_run_at, at_time,
}
use drivee_tolmach.Reports.Calendar.Dates.{IsDate}
use drivee_tolmach.Reports.Calendar.NextRun.{IsMoment, IsNext, next_run_at-IsNext}
use Prim.Native.String.{String}
use drivee_tolmach.Common.{
  Text, codes, Unicode, ascii_tables, is_space, lower, strip, show, elem, same_list, same_pair,
  same_string, same_ℕ,
}
use drivee_tolmach.Json.{null}
use drivee_tolmach.Settings.{default_settings}
use drivee_tolmach.Guardrails.Decision.{ValidatedSql}
use drivee_tolmach.Execution.Service.{QueryExecutionResult}
use drivee_tolmach.Reports.Records.{done, thrown, other_error, ScheduleRun, Report, ReportRecipient}
use drivee_tolmach.Reports.Delivery.{
  adapter_key, get_delivery_adapter, destination_of, is_target, deliver_to_targets,
}
use drivee_tolmach.Reports.Session.{
  Services, Session, append_attempt, report_summary_from_rows, retry_delay,
}
use drivee_tolmach.Reports.Execute.{execute_report_run}
use drivee_tolmach.Reports.Execute.Outcomes.{IsOutcome, execute_report_run-IsOutcome}
use drivee_tolmach.Reports.Execute.Delivered.{IsReported, execute_report_run-IsReported}
use drivee_tolmach.Reports.Execute.Retries.{rerun, terminal_run_statuses, rerun-terminal}

unfoldable pub dates : Unit {0}
unfolding toordinal isoweekday next_day add_days next_run_at frequency_of IsDate IsMoment
dates = tt

-- The last day of 2024, a Tuesday, at a quarter past nine.
abbrev pub new_year : Moment
new_year = record {
  date = record { year = 2024; month = 12; day = 31 };
  time = record { hour = 9; minute = 15; second = 30; microsecond = 1 };
}

calendar :
    (toordinal new_year.date ≡ 739251)
    × (isoweekday new_year.date ≡ 2)
    × ((next_run_at new_year "daily" none none none).date
        ≡ record { year = 2025; month = 1; day = 1 })
    × ((next_run_at new_year "weekly" none (some 2) none).date
        ≡ record { year = 2025; month = 1; day = 7 })
    × ((next_run_at new_year "monthly" none none (some 31)).date
        ≡ record { year = 2025; month = 1; day = 28 })
unfolding dates
calendar = (refl, refl, refl, refl, refl)

new_year-IsMoment : IsMoment new_year
unfolding dates
new_year-IsMoment = ((omega arith, omega arith, omega arith, omega arith, omega arith), omega arith)

next_run_at-IsNext_example :
    IsNext
      (frequency_of "weekly")
      2
      1
      new_year
      (at_time new_year none).time
      (next_run_at new_year "weekly" none (some 2) none)
next_run_at-IsNext_example =
    next_run_at-IsNext new_year "weekly" none (some 2) none new_year-IsMoment (omega arith)
      (omega arith) (omega arith)

instance abbrev tables : Unicode
tables = ascii_tables

abbrev pub run_of : ℕ → String → ScheduleRun
run_of id status = record {
  id = id;
  schedule_id = some 7;
  report_id = 3;
  report_version_id = none;
  requested_by_user_id = none;
  trigger_type = "schedule";
  status = status;
  queued_at = 5;
  started_at = none;
  finished_at = none;
  next_retry_at = some 5;
  retry_count = 0;
  max_retries = 1;
  retry_backoff_seconds = 300;
  final_sql = codes "select 1";
  chart_type = codes "bar";
  chart_spec_json = null;
  semantic_snapshot_json = null;
  result_snapshot = [];
  execution_fingerprint = [];
  explain_plan_json = null;
  explain_cost = 0;
  validator_summary_json = null;
  structured_error_json = none;
  stack_trace = [];
  attempts_json = [];
  artifact_summary_json = [];
  delivery_summary_json = [];
  rows_returned = 0;
  execution_ms = 0;
  error_message = [];
  ran_at = 5;
}

abbrev pub report : Report
report = record {
  id = 3;
  user_id = 1;
  query_id = none;
  title = codes "Orders";
  generated_sql = codes "select 1";
  chart_type = codes "bar";
  chart_spec = null;
  semantic_snapshot_json = null;
  result_snapshot = [];
  last_run_at = none;
  last_run_status = "never";
  updated_at = 0;
}

abbrev pub recipient : ℕ → Text → ReportRecipient
recipient id channel = record {
  id = id;
  report_id = 3;
  email = none;
  channel = channel;
  destination = codes " a@b ";
  config_json = null;
  is_active = true;
  last_sent_at = none;
}

abbrev pub session : Session
session = record {
  run = run_of 1 "queued";
  report = report;
  owner_role = codes "user";
  schedule = none;
  version = none;
  recipients = recipient 1 (codes "email") ∷ recipient 2 (codes "fax") ∷ [];
  artifacts = [];
  deliveries = [];
  next_delivery_id = 1;
  store = record { cache = []; audits = [] };
}

abbrev query : ValidatedSql
query = record {
  sql = codes "select 1 LIMIT 5";
  tables = [];
  row_limit = 5;
  explain_plan = null;
  explain_cost = 1;
  ast_json = null;
  validator_summary = null;
  column_references = [];
}

abbrev execution : QueryExecutionResult
execution = record {
  rows = [] ∷ [];
  row_count = 1;
  execution_ms = 4;
  cached = false;
  fingerprint = codes "f";
  explain_plan = null;
  explain_cost = 1;
  execution_mode = "database";
  cache_expires_at = none;
}

-- Everything works, and the database is down.
abbrev pub works : Services
works = record {
  validate_sql = λ sql role. done (record {
    ok = true;
    sql = sql;
    message = [];
    logs = [];
    block_reasons = [];
    validated_sql = some query;
  });
  execute_validated_query = λ v role query_id store. (done execution, store);
  build_report_artifacts = λ _ _ _ _ _ _. done [];
  send = λ adapter payload.
      done (record { adapter_key = adapter_key adapter; external_message_id = []; details = null });
  stack_trace = λ exc. [];
  now = 100;
}

abbrev down : Services
down = record works {
  execute_validated_query = λ v role query_id store.
      (thrown (other_error (codes "down") (codes "OperationalError")), store);
}

unfoldable pub opened : Unit {0}
unfolding is_space lower strip append_attempt report_summary_from_rows retry_delay elem
    execute_report_run rerun get_delivery_adapter destination_of is_target deliver_to_targets show
opened = tt

-- A channel without an adapter fails the delivery; a database that is down queues the run again once.
runs :
    ((execute_report_run default_settings works session).run.status ≡ "delivery_failed")
    × ((execute_report_run default_settings down session).run.status ≡ "queued")
    × ((execute_report_run default_settings down session).run.next_retry_at ≡ some 300000100)
    × ((rerun default_settings (down ∷ down ∷ works ∷ []) session).run.status ≡ "failed")
unfolding opened
runs = (refl, refl, refl, refl)

execute_report_run-IsOutcome_example :
    IsOutcome 100 session.run (execute_report_run default_settings down session).run
execute_report_run-IsOutcome_example = execute_report_run-IsOutcome default_settings down session

execute_report_run-IsReported_example :
    IsReported session (execute_report_run default_settings works session)
execute_report_run-IsReported_example = execute_report_run-IsReported default_settings works session

rerun-terminal_example :
    elem (rerun default_settings (down ∷ down ∷ []) session).run.status terminal_run_statuses ≡ true
rerun-terminal_example =
    rerun-terminal default_settings (down ∷ down ∷ []) session refl (omega arith) (omega arith)
