-- ===== src/Reports/Session.antt =====
-- What a run of a report reads, writes and calls, with the helpers of execute_report_run of
-- backend/app/reports/scheduler.py. All readings of the clock in one call are one number of microseconds.
use Prim.Native.Nat.{ℕ, ◌+◌, ◌-◌, ◌*◌, ◌^◌, max}
use Prim.Native.String.{String}
use mathlib.Core.Option.{Option, none, some}
use mathlib.Core.List.{List, [], ◌∷◌, ◌++◌}
use drivee_tolmach.Common.{Text, codes, show, length, elem, same_list, same_ℕ, if◌then◌else◌}
use drivee_tolmach.Json.{Json, str, object}
use drivee_tolmach.Guardrails.Decision.{ValidatedSql, GuardrailDecision, BlockReason}
use drivee_tolmach.Execution.Cache.{Rows}
use drivee_tolmach.Execution.Service.{QueryExecutionResult, Store}
use drivee_tolmach.Reports.Records.{
  Exception, Try, BuiltArtifact, ReportArtifact, ScheduleRun, Report, ReportVersion,
  ReportRecipient, ReportDelivery, Schedule,
}
use drivee_tolmach.Reports.Delivery.{Adapter, DeliveryPayload, DeliveryResult}

-- The parts of the program that a run calls, and the clock.
pub record Services : Type 0 where
  pub validate_sql : Text → Text → Try GuardrailDecision
  pub execute_validated_query :
      ValidatedSql → Text → Option Text → Store → Try QueryExecutionResult × Store
  pub build_report_artifacts : ℕ → ℕ → Text → Rows → Text → Json → Try (List BuiltArtifact)
  pub send : Adapter → DeliveryPayload → Try DeliveryResult
  pub stack_trace : Exception → Text
  pub now : ℕ

unfoldable pub block_json : BlockReason → Json
block_json reason = object (
    ("code", str (codes reason.code))
    ∷ ("message", str reason.message)
    ∷ ("details", reason.details)
    ∷ [])

-- What a run reads and writes; the recipients are the active ones of the report.
pub record Session : Type 0 where
  pub run : ScheduleRun
  pub report : Report
  pub owner_role : Text
  pub schedule : Option Schedule
  pub version : Option ReportVersion
  pub recipients : List ReportRecipient
  pub artifacts : List ReportArtifact
  pub deliveries : List ReportDelivery
  pub next_delivery_id : ℕ
  pub store : Store

-- `_append_attempt`
unfoldable pub append_attempt : ℕ → ScheduleRun → String → Text → Json → ScheduleRun
append_attempt now run status message details = record run {
  attempts_json =
      run.attempts_json
      ++ record {
        attempt_number = length run.attempts_json + 1;
        status = status;
        message = message;
        timestamp = now;
        details = details;
      }
        ∷ [];
}

-- The keys of a row that are not seen, and then those of the rows, in order.
add_keys : List Text → List (Text × Json) → List Text
add_keys seen [] = seen
add_keys seen ((key, _) ∷ row) = add_keys (if elem key seen then seen else seen ++ key ∷ []) row

columns_of : List Text → Rows → List Text
unfolding add_keys
columns_of seen [] = seen
columns_of seen (row ∷ rows) = columns_of (add_keys seen row) rows

unfoldable pub report_summary_from_rows : Rows → Text
unfolding columns_of
report_summary_from_rows [] = codes "Query returned no rows."
report_summary_from_rows (row ∷ rows) =
    codes "Query returned "
    ++ (show (length (row ∷ rows))
        ++ (codes " rows across "
            ++ (show (length (columns_of [] (row ∷ rows))) ++ codes " columns.")))

abbrev pub generated_sql_of : Option ReportVersion → Text
generated_sql_of none = []
generated_sql_of (some version) = version.generated_sql

-- `max(30, backoff) * max(1, 2 ** max(0, retry_count - 1))` for the raised count
unfoldable pub retry_delay : ScheduleRun → ℕ
retry_delay run = max 30 run.retry_backoff_seconds * max 1 (2 ^ (run.retry_count - 1))
