-- ===== src/Guardrails/Validator.antt =====
-- validate_sql of backend/app/semantic/sql_validator.py, check by check.
pub mod Columns
pub mod Passing
pub mod Shape
pub mod Soundness
pub mod Loopholes
use Prim.Native.Nat.{ℕ, min}
use Prim.Native.String.{String}
use mathlib.Core.Bool.{Bool, true, false, not, ◌&&◌, ◌||◌}
use mathlib.Core.Option.{Option, none, some}
use mathlib.Core.List.{List, [], ◌∷◌, ◌++◌, map}
use drivee_tolmach.Common.{
  Text, codes, Unicode, lower, strip, drop_end, sorted, join, distinct, difference, elem, is_empty,
  filter, insert, lookup, ltb, leb, nat_eq, ◌==◌, same_list, same_ℕ, if◌then◌else◌,
}
use drivee_tolmach.Json.{Json, num, str, object, array}
use drivee_tolmach.Settings.{Settings, allowed_analytics_tables, forbidden_columns}
use drivee_tolmach.Guardrails.Patterns.{is_forbidden, is_readonly, extract_limit, apply_limit}
use drivee_tolmach.Guardrails.Decision.{
  SemanticErrorCode, fail, Log, log_json, ColumnReference, ValidatedSql, GuardrailDecision,
  sql_parse_error, multi_statement, non_readonly_statement, write_operation, unknown_table,
  access_policy_missing, unknown_column, forbidden_column, select_star, limit_injected,
  limit_capped, explain_failed, explain_cost_exceeded,
}
use drivee_tolmach.Guardrails.Statement.{
  Outcome, returned, raised, Statement, Sqlglot, serialize_ast, table_identifier, output_aliases,
  alias_map, collect_column_references,
}
use drivee_tolmach.Guardrails.Check.{
  Step, Check, continue, blocked, passed, ◌>>=◌, ◌>>◌, pure, note, block, no_details, passes, warns,
}
use Columns.{AccessPolicy, check_columns, column_json}

abbrev pub texts : List Text → Json
texts ts = array (map str ts)

abbrev is_nil {ℓ} : {A : Type ℓ} → List A → Bool
is_nil xs = is_empty xs

-- `min(policy.row_limit for policy in policies.values()) if policies else default`
pub min_row_limit : ℕ → List (Text × AccessPolicy) → ℕ
min_row_limit default [] = default
min_row_limit default ((_, p) ∷ []) = p.row_limit
min_row_limit default ((_, p) ∷ q ∷ rest) = min p.row_limit (min_row_limit default (q ∷ rest))

-- The keys of a dictionary.
abbrev pub keys {ℓ} : {V : Type ℓ} → List (Text × V) → List Text
keys m = map (λ e. e.0) m

module _ ⦃u : Unicode⦄ where
  -- `sql.strip().rstrip(";")`
  unfoldable pub clean : Text → Text
  unfolding strip
  clean sql = drop_end (λ c. nat_eq c b';') (strip sql)

  pub check_non_empty : Text → Check (Unit {0})
  check_non_empty sql =
      if is_empty sql
      then block "non_empty_sql" sql_parse_error (codes "SQL is empty.") no_details
      else note (passes "non_empty_sql" "SQL is not empty." no_details)

  pub check_keywords : Text → Check (Unit {0})
  check_keywords sql =
      if is_forbidden sql
      then block "keyword_denylist" write_operation
          (codes "Request blocked: only read-only SELECT/WITH queries are allowed.")
          (object (("sql", str sql) ∷ []))
      else note (passes "keyword_denylist" "No write/DDL keywords found." no_details)

  pub check_readonly : Text → Check (Unit {0})
  check_readonly sql =
      if is_readonly sql
      then note (passes "readonly_statement" "SQL starts with SELECT/WITH." no_details)
      else block "readonly_statement" non_readonly_statement
          (codes "Request blocked: SQL must begin with SELECT or WITH.") no_details

  single : List Statement → Check Statement
  single (statement ∷ []) = do
    note (passes "parse_tree" "SQL parse tree built successfully." no_details)
    pure statement
  single _ =
      block "single_statement" multi_statement
        (codes "Request blocked: multiple SQL statements are not allowed.") no_details

  after_parse : Outcome (List Statement) → Check Statement
  unfolding single
  after_parse (raised exc) =
      block "parse_tree" sql_parse_error (codes "SQL failed syntax validation: " ++ exc) no_details
  after_parse (returned statements) = single statements

  pub check_parse : Sqlglot → Text → Check Statement
  unfolding after_parse
  check_parse sqlglot sql = after_parse (sqlglot.parse sql)

  pub check_star : Statement → Check (Unit {0})
  check_star parsed =
      if parsed.has_star
      then block "select_star" select_star
          (codes "SELECT * is forbidden. Use explicit approved columns only.") no_details
      else note (passes "select_star" "SELECT * is not used." no_details)

  pub table_names : Statement → List Text
  unfolding table_identifier distinct
  table_names parsed = distinct (map table_identifier parsed.tables)

  pub check_tables : List Text → Check (Unit {0})
  unfolding difference sorted join
  check_tables tables =
      if is_empty tables
      then block "table_presence" unknown_table
          (codes "Query must target approved analytics tables.") no_details
      else let illegal = sorted (difference tables allowed_analytics_tables) in
        if is_empty illegal
        then note (
            passes "table_whitelist"
              "All referenced tables are in the approved analytics whitelist."
              (object (("tables", texts (sorted tables)) ∷ [])))
        else block "table_whitelist" unknown_table
            (codes "Request references forbidden tables: " ++ join (codes ", ") illegal)
            (object (("tables", texts (sorted tables)) ∷ []))

  pub check_policies : Text → List Text → List (Text × AccessPolicy) → Check (Unit {0})
  unfolding difference sorted join
  check_policies role tables policies =
      let missing = sorted (difference tables (keys policies)) in
      if is_empty missing
      then note (
          passes "access_policy" "Role-based access policies were found for all referenced tables."
            (object (("role", str role) ∷ [])))
      else block "access_policy" access_policy_missing
          (codes "No active access policy for tables: " ++ join (codes ", ") missing)
          (object (("tables", texts missing) ∷ ("role", str role) ∷ []))

  pub check_forbidden : List Text → Check (Unit {0})
  unfolding distinct sorted join
  check_forbidden columns =
      if is_empty columns
      then note (passes "forbidden_columns" "No sensitive columns are referenced." no_details)
      else let listed = sorted (distinct columns) in
        block "forbidden_columns" forbidden_column
          (codes "Request references forbidden columns: " ++ join (codes ", ") listed)
          (object (("columns", texts listed) ∷ []))

  pub check_unknown : List Json → Check (Unit {0})
  check_unknown columns =
      if is_empty columns
      then note
          (passes "column_whitelist" "All column references are approved by policy." no_details)
      else block "column_whitelist" unknown_column
          (codes "Request references columns outside approved access policies.")
          (object (("columns", array columns) ∷ []))

  -- By the limit that the SQL asks for.
  limit_by : ℕ → Text → Option ℕ → Check (Text × ℕ)
  limit_by row_limit sql none = do
    note (
        warns "limit_injection" limit_injected "LIMIT was injected automatically."
          (object (("applied_limit", num row_limit) ∷ [])))
    pure (apply_limit sql row_limit, row_limit)
  limit_by row_limit sql (some requested) =
      if ltb row_limit requested
      then (do
        note (
            warns "limit_cap" limit_capped "LIMIT was capped by policy."
              (object (("requested_limit", num requested) ∷ ("applied_limit", num row_limit) ∷ [])))
        pure (apply_limit sql row_limit, row_limit))
      else (do
        note (
            passes "limit_present" "LIMIT is present and within policy."
              (object (("limit", num requested) ∷ [])))
        pure (sql, requested))

  -- The SQL to run, and the row limit to run it with.
  pub limit_rows : ℕ → Text → Check (Text × ℕ)
  unfolding limit_by
  limit_rows row_limit sql = limit_by row_limit sql (extract_limit sql)

  after_reparse : Text → Outcome Statement → Check Statement
  after_reparse sql (raised exc) =
      block "post_limit_parse_tree" sql_parse_error
        (codes "SQL failed validation after LIMIT normalization: " ++ exc)
        (object (("sql", str sql) ∷ []))
  after_reparse sql (returned reparsed) = do
    note (passes "post_limit_parse_tree" "SQL remains valid after LIMIT normalization." no_details)
    pure reparsed

  pub check_reparse : Sqlglot → Text → Check Statement
  unfolding after_reparse
  check_reparse sqlglot sql = after_reparse sql (sqlglot.parse_one sql)

  cost_details : Settings → ℕ → Json
  cost_details settings cost =
      object (
        ("estimated_cost", num cost) ∷ ("max_allowed_cost", num settings.sql_explain_max_cost) ∷ [])

  after_explain : Settings → Outcome (Json × ℕ) → Check (Json × ℕ)
  after_explain settings (raised exc) =
      block "explain_plan" explain_failed (codes "Query did not pass EXPLAIN preflight: " ++ exc)
        no_details
  after_explain settings (returned (plan, cost)) =
      if ltb settings.sql_explain_max_cost cost
      then block "explain_cost" explain_cost_exceeded
          (codes "Request blocked: estimated plan cost exceeds the safety threshold.")
          (cost_details settings cost)
      else (do
        note (passes "explain_cost" "Explain-cost check passed." (cost_details settings cost))
        pure (plan, cost))

  pub check_explain : Settings → (Text → Outcome (Json × ℕ)) → Text → Check (Json × ℕ)
  unfolding after_explain
  check_explain settings explain_runner sql = after_explain settings (explain_runner sql)

  pub accepted : Text → List Text → Text → ℕ → Json → ℕ → Statement → List Log → ValidatedSql
  unfolding sorted collect_column_references
  accepted role tables sql row_limit plan cost reparsed logs = record {
    sql = sql;
    tables = tables;
    row_limit = row_limit;
    explain_plan = plan;
    explain_cost = cost;
    ast_json = serialize_ast reparsed;
    validator_summary = object (
        ("role", str role)
        ∷ ("tables", texts (sorted tables))
        ∷ ("row_limit", num row_limit)
        ∷ ("logs", array (map log_json logs))
        ∷ []);
    column_references = collect_column_references reparsed;
  }

  accept : Text → List Text → Text → ℕ → Json → ℕ → Statement → Check ValidatedSql
  unfolding accepted
  accept role tables sql row_limit plan cost reparsed logs =
      passed (accepted role tables sql row_limit plan cost reparsed logs) logs

  decide : Step ValidatedSql → GuardrailDecision
  decide (blocked d) = d
  decide (passed v logs) = record {
    ok = true;
    sql = v.sql;
    message = codes "SQL passed guardrails.";
    logs = logs;
    block_reasons = [];
    validated_sql = some v;
  }

  -- The column references of a compiled query, if there is one, in place of those of the statement.
  pub references : Option (List ColumnReference) → Statement → List ColumnReference
  unfolding collect_column_references
  references none parsed = collect_column_references parsed
  references (some compiled) parsed = compiled

  module _ (settings : Settings) (sqlglot : Sqlglot)
      (policy_loader : Text → List Text → List (Text × AccessPolicy))
      (explain_runner : Text → Outcome (Json × ℕ)) where
    pub row_limit_of : List (Text × AccessPolicy) → ℕ
    row_limit_of policies =
        min (min_row_limit settings.max_result_rows policies) settings.max_result_rows

    pub check_sql : Text → Text → Option (List ColumnReference) → Check ValidatedSql
    check_sql sql role compiled = do
      check_non_empty sql
      check_keywords sql
      check_readonly sql
      parsed ← check_parse sqlglot sql
      check_star parsed
      let tables = table_names parsed
      check_tables tables
      let policies = policy_loader role tables
      check_policies role tables policies
      let columns =
          check_columns tables policies (alias_map parsed) (output_aliases parsed)
            (references compiled parsed)
      check_forbidden columns.forbidden
      check_unknown (map column_json columns.unknown)
      (limited, row_limit) ← limit_rows (row_limit_of policies) sql
      reparsed ← check_reparse sqlglot limited
      (plan, cost) ← check_explain settings explain_runner limited
      accept role tables limited row_limit plan cost reparsed

    unfoldable pub validate_sql : Text → Text → Option (List ColumnReference) → GuardrailDecision
    unfolding clean decide check_sql accept
    validate_sql sql role compiled = decide (check_sql (clean sql) role compiled [])

-- Opens every check, for runs.
unfoldable pub checks : Unit {0}
unfolding clean check_non_empty check_keywords check_readonly check_parse check_star table_names
    check_tables check_policies check_forbidden check_unknown limit_rows check_reparse check_explain
    accept references row_limit_of min_row_limit decide check_sql alias_map output_aliases
    collect_column_references check_columns is_forbidden is_readonly extract_limit apply_limit
    continue fail
checks = tt
