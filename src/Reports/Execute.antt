-- ===== src/Reports/Execute.antt =====
-- execute_report_run of backend/app/reports/scheduler.py: one run of a report. The guardrails, the
-- execution of queries, the building of artifacts and the sending of messages are an interface.
pub mod Outcomes
pub mod Retries
pub mod Delivered
pub mod Guarded
pub mod Stored
use Prim.Native.Nat.{◌+◌, ◌*◌}
use mathlib.Core.Bool.{Bool, ◌&&◌}
use mathlib.Core.Option
use mathlib.Core.Option.{Option, none, some}
use mathlib.Core.List.{List, [], ◌∷◌, ◌++◌, map}
use drivee_tolmach.Common.{
  Text, codes, Unicode, strip, ltb, length, take, same_list, same_ℕ, if◌then◌else◌,
}
use drivee_tolmach.Json.{num, object, array}
use drivee_tolmach.Settings.{Settings}
use drivee_tolmach.Guardrails.Decision.{ValidatedSql, GuardrailDecision, log_json}
use drivee_tolmach.Execution.Cache.{second}
use drivee_tolmach.Execution.Service.{QueryExecutionResult}
use drivee_tolmach.Reports.Records.{
  Exception, Try, done, thrown, report_validation_error, StructuredError, structured_error,
  structured_json, or_text, or_json, BuiltArtifact, ScheduleRun, Schedule,
}
use drivee_tolmach.Reports.Delivery.{deliver_to_targets, delivery_summary}
use drivee_tolmach.Reports.Session.{
  Services, Session, append_attempt, report_summary_from_rows, generated_sql_of, retry_delay,
  block_json,
}

pub refusal : GuardrailDecision → Exception
unfolding block_json
refusal decision = report_validation_error decision.message (
    object (
      ("logs", array (map log_json decision.logs))
      ∷ ("block_reasons", array (map block_json decision.block_reasons))
      ∷ []))

module _ ⦃u : Unicode⦄ (settings : Settings) (services : Services) where
  pub sql_text : Session → Text
  unfolding strip
  sql_text s =
      strip (or_text s.run.final_sql (or_text (generated_sql_of s.version) s.report.generated_sql))

  -- What is written before the first check.
  start : Session → Session
  start s = record s {
    run = record s.run {
      status = "running";
      started_at = some services.now;
      error_message = [];
      stack_trace = [];
      structured_error_json = none;
    };
  }

  should_retry : ScheduleRun → StructuredError → Bool
  should_retry run error = error.retryable && ltb run.retry_count run.max_retries

  retried : ScheduleRun → ScheduleRun
  retried run =
      let counted : ScheduleRun = record run { retry_count = run.retry_count + 1 } in
      record counted {
        next_retry_at = some (services.now + retry_delay counted * second);
        status = "queued";
        finished_at = none;
      }

  failed_schedule : Text → Schedule → Schedule
  failed_schedule message schedule = record schedule {
    last_error_message = message;
    last_error_at = some services.now;
  }

  -- The run with what the exception handler writes before it decides on a retry.
  with_error : ScheduleRun → Exception → ScheduleRun
  with_error run exc =
      let error = structured_error exc in
      let told : ScheduleRun = record run {
        error_message = error.message;
        structured_error_json = some error;
        stack_trace = services.stack_trace exc;
        finished_at = some services.now;
        ran_at = services.now;
      } in
      append_attempt services.now told "failed" error.message (structured_json error)

  handled_run : ScheduleRun → Exception → ScheduleRun
  unfolding with_error should_retry retried
  handled_run run exc =
      let told = with_error run exc in
      if should_retry told (structured_error exc)
      then retried told
      else record told { status = "failed" }

  -- The exception handler.
  handle : Session → Exception → Session
  unfolding handled_run failed_schedule
  handle s exc =
      let run = handled_run s.run exc in
      record s {
        run = run;
        report = record s.report { last_run_at = some services.now; last_run_status = run.status };
        schedule = Option.map (failed_schedule (structured_error exc).message) s.schedule;
      }

  succeeded_run :
      ScheduleRun → ValidatedSql → QueryExecutionResult → List BuiltArtifact → ScheduleRun
  succeeded_run run v execution built =
      let told : ScheduleRun = record run {
        artifact_summary_json = built;
        final_sql = v.sql;
        execution_fingerprint = execution.fingerprint;
        explain_plan_json = v.explain_plan;
        explain_cost = v.explain_cost;
        validator_summary_json = v.validator_summary;
        rows_returned = execution.row_count;
        execution_ms = execution.execution_ms;
        result_snapshot = take settings.report_result_snapshot_limit execution.rows;
        finished_at = some services.now;
        ran_at = services.now;
        status = "succeeded";
      } in
      append_attempt services.now told "succeeded"
        (codes "Report SQL validated and executed successfully.")
        (object (
          ("row_count", num execution.row_count)
          ∷ ("execution_ms", num execution.execution_ms)
          ∷ []))

  succeeded_schedule : Schedule → Schedule
  succeeded_schedule schedule = record schedule {
    last_run_at = some services.now;
    last_error_message = [];
    last_error_at = none;
  }

  -- The part behind the building of artifacts, up to the deliveries.
  succeed : Session → ValidatedSql → QueryExecutionResult → List BuiltArtifact → Session
  unfolding succeeded_run succeeded_schedule
  succeed s v execution built = record s {
    artifacts =
        s.artifacts
        ++ map (λ item. record { report_id = s.report.id; run_id = s.run.id; artifact = item })
            built;
    run = succeeded_run s.run v execution built;
    report = record s.report {
      result_snapshot = take settings.report_result_snapshot_limit execution.rows;
      last_run_at = some services.now;
      last_run_status = "succeeded";
      updated_at = services.now;
    };
    schedule = Option.map succeeded_schedule s.schedule;
  }

  delivery_failed : Session → Session
  unfolding failed_schedule
  delivery_failed s = record s {
    run = record s.run { status = "delivery_failed" };
    report = record s.report { last_run_status = "delivery_failed" };
    schedule =
        Option.map (failed_schedule (codes "One or more report deliveries failed.")) s.schedule;
  }

  conclude : Bool → Session → Session
  unfolding delivery_failed
  conclude failure s = if failure then delivery_failed s else s

  deliver : Session → List BuiltArtifact → Text → Session
  unfolding conclude
  deliver s built summary =
      let (ds, rs, failure) =
        deliver_to_targets services.send services.stack_trace services.now s.report s.run built
          summary s.next_delivery_id s.recipients in
      let sent : Session = record s {
        deliveries = s.deliveries ++ ds;
        next_delivery_id = s.next_delivery_id + length ds;
        recipients = rs;
        run = record s.run { delivery_summary_json = map delivery_summary ds };
      } in
      conclude failure sent

  after_artifacts :
      Session → ValidatedSql → QueryExecutionResult → Try (List BuiltArtifact) → Session
  unfolding handle succeed deliver
  after_artifacts s v execution (thrown exc) = handle s exc
  after_artifacts s v execution (done built) =
      deliver (succeed s v execution built) built (report_summary_from_rows execution.rows)

  after_execution : Session → ValidatedSql → Try QueryExecutionResult → Session
  unfolding handle after_artifacts
  after_execution s v (thrown exc) = handle s exc
  after_execution s v (done execution) = after_artifacts s v execution (
      services.build_report_artifacts s.report.id s.run.id s.report.title execution.rows
        (or_text s.run.chart_type s.report.chart_type)
        (or_json s.run.semantic_snapshot_json
          (or_json s.report.semantic_snapshot_json (object []))))

  approved : Session → ValidatedSql → Session
  unfolding after_execution
  approved s v =
      let (execution, store) =
        services.execute_validated_query v s.owner_role s.report.query_id s.store in
      after_execution (record s { store = store }) v execution

  refused : Session → GuardrailDecision → Session
  unfolding handle
  refused s decision = handle s (refusal decision)

  after_decision : Session → GuardrailDecision → Option ValidatedSql → Session
  unfolding approved refused
  after_decision s decision none = refused s decision
  after_decision s decision (some v) = if decision.ok then approved s v else refused s decision

  after_validation : Session → Try GuardrailDecision → Session
  unfolding handle after_decision
  after_validation s (thrown exc) = handle s exc
  after_validation s (done decision) = after_decision s decision decision.validated_sql

  -- execute_report_run from the rows that it loads
  unfoldable pub execute_report_run : Session → Session
  unfolding after_validation start sql_text
  execute_report_run s =
      after_validation (start s) (services.validate_sql (sql_text s) s.owner_role)
