-- ===== src/Reports/Records.antt =====
-- The tables of scheduled reports of backend/app/models.py, with the exceptions of
-- backend/app/reports/errors.py. A key is a number; times count microseconds.
use Prim.Native.Nat.{ℕ}
use Prim.Native.String.{String}
use mathlib.Core.Bool.{Bool, true, false}
use mathlib.Core.Option.{Option}
use mathlib.Core.List.{List, [], ◌∷◌}
use drivee_tolmach.Common.{Text, codes}
use drivee_tolmach.Json.{Json, null, str, bool, obj, end, object}
use drivee_tolmach.Execution.Cache.{Rows}
use drivee_tolmach.Reports.Calendar.{Time, Moment}

-- A ReportRuntimeError, or any other exception with its message and the name of its class.
pub data Exception : Type 0 where
  report_error : (code : String) (message : Text) (retryable : Bool) (details : Json) → Exception
  other_error : (message class_name : Text) → Exception

-- What a call gives that may raise.
pub data Try {ℓ} (A : Type ℓ) : Type ℓ where
  done : A → Try A
  thrown : Exception → Try A

abbrev pub report_validation_error : Text → Json → Exception
report_validation_error message details =
    report_error "report_validation_failed" message false details

abbrev artifact_generation_error : Text → Json → Exception
artifact_generation_error message details =
    report_error "artifact_generation_failed" message false details

abbrev pub delivery_configuration_error : Text → Json → Exception
delivery_configuration_error message details =
    report_error "delivery_configuration_error" message false details

abbrev delivery_transport_error : Text → Json → Exception
delivery_transport_error message details =
    report_error "delivery_transport_error" message true details

-- The dict of `_structured_error`
pub record StructuredError : Type 0 where
  pub code : String
  pub message : Text
  pub retryable : Bool
  pub details : Json

-- `_structured_error`, whose third part is the field `retryable`.
abbrev pub structured_error : Exception → StructuredError
structured_error (report_error code message retryable details) = record {
  code = code;
  message = message;
  retryable = retryable;
  details = details;
}
structured_error (other_error message class_name) = record {
  code = "unexpected_report_error";
  message = message;
  retryable = true;
  details = object (("exception_type", str class_name) ∷ []);
}

abbrev pub structured_json : StructuredError → Json
structured_json e = object (
    ("code", str (codes e.code))
    ∷ ("message", str e.message)
    ∷ ("retryable", bool e.retryable)
    ∷ ("details", e.details)
    ∷ [])

-- `x or y` of texts and of dicts
abbrev pub or_text : Text → Text → Text
or_text [] y = y
or_text (c ∷ s) y = c ∷ s

abbrev pub or_json : Json → Json → Json
or_json null y = y
or_json (obj end) y = y
or_json x y = x

-- An entry of `attempts_json`
pub record RunAttempt : Type 0 where
  pub attempt_number : ℕ
  pub status : String
  pub message : Text
  pub timestamp : ℕ
  pub details : Json

-- An entry of `delivery_summary_json`
pub record DeliverySummary : Type 0 where
  pub id : ℕ
  pub channel : Text
  pub destination : Text
  pub status : String
  pub attempt_count : ℕ
  pub error_message : Text

pub record BuiltArtifact : Type 0 where
  pub artifact_type : Text
  pub file_name : Text
  pub file_path : Text
  pub content_type : Text
  pub file_size_bytes : ℕ
  pub checksum_sha256 : Text
  pub metadata_json : Json

pub record ReportArtifact : Type 0 where
  pub report_id : ℕ
  pub run_id : ℕ
  pub artifact : BuiltArtifact

pub record ScheduleRun : Type 0 where
  pub id : ℕ
  pub schedule_id : Option ℕ
  pub report_id : ℕ
  pub report_version_id : Option ℕ
  pub requested_by_user_id : Option ℕ
  pub trigger_type : String
  pub status : String
  pub queued_at : ℕ
  pub started_at : Option ℕ
  pub finished_at : Option ℕ
  pub next_retry_at : Option ℕ
  pub retry_count : ℕ
  pub max_retries : ℕ
  pub retry_backoff_seconds : ℕ
  pub final_sql : Text
  pub chart_type : Text
  pub chart_spec_json : Json
  pub semantic_snapshot_json : Json
  pub result_snapshot : Rows
  pub execution_fingerprint : Text
  pub explain_plan_json : Json
  pub explain_cost : ℕ
  pub validator_summary_json : Json
  pub structured_error_json : Option StructuredError
  pub stack_trace : Text
  pub attempts_json : List RunAttempt
  pub artifact_summary_json : List BuiltArtifact
  pub delivery_summary_json : List DeliverySummary
  pub rows_returned : ℕ
  pub execution_ms : ℕ
  pub error_message : Text
  pub ran_at : ℕ

pub record Report : Type 0 where
  pub id : ℕ
  pub user_id : ℕ
  pub query_id : Option Text
  pub title : Text
  pub generated_sql : Text
  pub chart_type : Text
  pub chart_spec : Json
  pub semantic_snapshot_json : Json
  pub result_snapshot : Rows
  pub last_run_at : Option ℕ
  pub last_run_status : String
  pub updated_at : ℕ

pub record ReportVersion : Type 0 where
  pub id : ℕ
  pub report_id : ℕ
  pub version_number : ℕ
  pub generated_sql : Text
  pub chart_type : Text
  pub chart_spec_json : Json
  pub semantic_snapshot_json : Json

pub record ReportRecipient : Type 0 where
  pub id : ℕ
  pub report_id : ℕ
  pub email : Option Text
  pub channel : Text
  pub destination : Text
  pub config_json : Json
  pub is_active : Bool
  pub last_sent_at : Option ℕ

pub record ReportDelivery : Type 0 where
  pub id : ℕ
  pub report_id : ℕ
  pub run_id : ℕ
  pub recipient_id : ℕ
  pub channel : Text
  pub destination : Text
  pub adapter_key : Text
  pub status : String
  pub attempt_count : ℕ
  pub external_message_id : Text
  pub error_message : Text
  pub structured_error_json : Option StructuredError
  pub stack_trace : Text
  pub details_json : Json
  pub sent_at : Option ℕ

pub record Schedule : Type 0 where
  pub id : ℕ
  pub report_id : ℕ
  pub frequency : String
  pub run_at_time : Option Time
  pub day_of_week : Option ℕ
  pub day_of_month : Option ℕ
  pub next_run_at : Option Moment
  pub last_run_at : Option ℕ
  pub max_retries : ℕ
  pub retry_backoff_seconds : ℕ
  pub last_error_message : Text
  pub last_error_at : Option ℕ
  pub is_active : Bool
