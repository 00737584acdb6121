-- ===== src/Guardrails/Decision.antt =====
-- The records that the guardrails of backend/app/semantic/sql_validator.py return, with the error
-- codes and block reasons of backend/app/semantic/errors.py.
use Prim.Native.Nat.{ℕ}
use Prim.Native.String.{String}
use mathlib.Core.Bool.{Bool, false}
use mathlib.Core.Option.{Option, none}
use mathlib.Core.List.{List, [], ◌∷◌, ◌++◌}
use drivee_tolmach.Common.{Text, codes}
use drivee_tolmach.Json.{Json, str, object}

-- SemanticErrorCode, without the two codes that no code uses.
pub data SemanticErrorCode : Type 0 where
  unknown_metric metric_required unsupported_grain unknown_dimension : SemanticErrorCode
  disallowed_dimension unknown_filter disallowed_filter : SemanticErrorCode
  invalid_filter_operator missing_filter_values invalid_filter_value : SemanticErrorCode
  invalid_period invalid_limit invalid_sort invalid_join_path : SemanticErrorCode
  sql_parse_error multi_statement non_readonly_statement write_operation : SemanticErrorCode
  unknown_table access_policy_missing unknown_column forbidden_column : SemanticErrorCode
  select_star limit_injected limit_capped explain_failed explain_cost_exceeded : SemanticErrorCode

abbrev pub value : SemanticErrorCode → String
value unknown_metric = "unknown_metric"
value metric_required = "metric_required"
value unsupported_grain = "unsupported_grain"
value unknown_dimension = "unknown_dimension"
value disallowed_dimension = "disallowed_dimension"
value unknown_filter = "unknown_filter"
value disallowed_filter = "disallowed_filter"
value invalid_filter_operator = "invalid_filter_operator"
value missing_filter_values = "missing_filter_values"
value invalid_filter_value = "invalid_filter_value"
value invalid_period = "invalid_period"
value invalid_limit = "invalid_limit"
value invalid_sort = "invalid_sort"
value invalid_join_path = "invalid_join_path"
value sql_parse_error = "sql_parse_error"
value multi_statement = "multi_statement"
value non_readonly_statement = "non_readonly_statement"
value write_operation = "write_operation"
value unknown_table = "unknown_table"
value access_policy_missing = "access_policy_missing"
value unknown_column = "unknown_column"
value forbidden_column = "forbidden_column"
value select_star = "select_star"
value limit_injected = "limit_injected"
value limit_capped = "limit_capped"
value explain_failed = "explain_failed"
value explain_cost_exceeded = "explain_cost_exceeded"

pub record BlockReason : Type 0 where
  pub code : String
  pub message : Text
  pub details : Json

abbrev pub build_block_reason : SemanticErrorCode → Text → Json → BlockReason
build_block_reason code message details = record {
  code = value code;
  message = message;
  details = details;
}

-- One entry of the check log, a dict in the source.
pub record Log : Type 0 where
  pub check_name : String
  pub status : String
  pub severity : String
  pub code : String
  pub message : Text
  pub details : Json

-- `_log`; `details or {}` keeps the empty object for no details.
abbrev pub log : String → String → String → String → Text → Json → Log
log check_name status severity code message details = record {
  check_name = check_name;
  status = status;
  severity = severity;
  code = code;
  message = message;
  details = details;
}

abbrev pub log_json : Log → Json
log_json entry = object (
    ("check_name", str (codes entry.check_name))
    ∷ ("status", str (codes entry.status))
    ∷ ("severity", str (codes entry.severity))
    ∷ ("code", str (codes entry.code))
    ∷ ("message", str entry.message)
    ∷ ("details", entry.details)
    ∷ [])

pub record ColumnReference : Type 0 where
  pub table_alias : Text
  pub column_name : Text

pub record ValidatedSql : Type 0 where
  pub sql : Text
  pub tables : List Text
  pub row_limit : ℕ
  pub explain_plan : Json
  pub explain_cost : ℕ
  pub ast_json : Json
  pub validator_summary : Json
  pub column_references : List ColumnReference

pub record GuardrailDecision : Type 0 where
  pub ok : Bool
  pub sql : Text
  pub message : Text
  pub logs : List Log
  pub block_reasons : List BlockReason
  pub validated_sql : Option ValidatedSql

-- `_fail`
unfoldable pub fail : List Log → String → SemanticErrorCode → Text → Json → GuardrailDecision
fail logs check_name code message details =
    let reason = build_block_reason code message details in
    record {
      ok = false;
      sql = [];
      message = message;
      logs = logs ++ log check_name "failed" "critical" reason.code message reason.details ∷ [];
      block_reasons = reason ∷ [];
      validated_sql = none;
    }
