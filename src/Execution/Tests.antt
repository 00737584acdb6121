-- ===== src/Execution/Tests.antt =====
-- Runs of the query execution, and the theorems at inputs that meet their hypotheses.
use Prim.Native.Nat.{ℕ, ◌+◌}
use mathlib.Core.Path.{◌≡◌, refl}
use mathlib.Core.Bool.{true, false}
use mathlib.Core.Option.{some}
use mathlib.Core.List.{List, [], ◌∷◌, ◌++◌}
use native.Mathlib.Omega.{arith}
use drivee_tolmach.Common.{Text, codes, Unicode, ascii_tables, is_space, lower, strip}
use drivee_tolmach.Json.{null}
use drivee_tolmach.Settings.{default_settings}
use drivee_tolmach.Guardrails.Decision.{ValidatedSql}
use drivee_tolmach.Guardrails.Statement.{Outcome, returned, raised}
use drivee_tolmach.Execution.Fingerprint.{normalize_sql_for_fingerprint, build_query_fingerprint}
use drivee_tolmach.Execution.Fingerprint.Folding.{build_query_fingerprint-case}
use drivee_tolmach.Execution.Cache.{
  Rows, cache_enabled_for, get_cache_entry, prune_expired_cache, touch_cache_hit,
  upsert_cache_entry,
}
use drivee_tolmach.Execution.Cache.Table.{IsTable}
use drivee_tolmach.Execution.Service.{
  Cell, plain, QueryExecutionAudit, QueryExecutionResult, Store, Readings, Request, fingerprint_of,
  execute_safe_query, execute_without_db,
}
use drivee_tolmach.Execution.Service.Laws.{
  Reports, IsBounded, execute_safe_query-audit, execute_safe_query-IsTable,
}
use drivee_tolmach.Execution.Service.Repeated.{execute_safe_query-repeated}

instance abbrev tables : Unicode
tables = ascii_tables

abbrev hash : Text → Text
hash s = s

abbrev query : ValidatedSql
query = record {
  sql = codes "SELECT city FROM dim.cities LIMIT 2";
  tables = codes "dim.cities" ∷ [];
  row_limit = 2;
  explain_plan = null;
  explain_cost = 810;
  ast_json = null;
  validator_summary = null;
  column_references = [];
}

abbrev request : Request
request = record {
  validated_sql = query;
  role = codes "Analyst";
  query_id = some (codes "q1");
  use_cache = true;
}

abbrev row : ℕ → List (Text × Cell)
row n = (n ∷ [], plain null) ∷ []

-- A database that answers three rows, and one that is down.
abbrev three : Text → Outcome (List (List (Text × Cell)))
three sql = returned (row 1 ∷ row 2 ∷ row 3 ∷ [])

abbrev down : Text → Outcome (List (List (Text × Cell)))
down sql = raised (codes "down")

abbrev clock : ℕ → Readings
clock n = record {
  prune_at = n;
  lookup_at = n;
  touch_at = n;
  started = n;
  finished = n + 5000;
  store_at = n;
}

abbrev empty : Store
empty = record { cache = []; audits = [] }

abbrev first : Outcome QueryExecutionResult × Store
first = execute_safe_query hash default_settings three (clock 0) request empty

abbrev second : ℕ → Outcome QueryExecutionResult × Store
second n = execute_safe_query hash default_settings down (clock n) request first.1

opened : Unit {0}
unfolding is_space lower strip normalize_sql_for_fingerprint build_query_fingerprint
    cache_enabled_for get_cache_entry prune_expired_cache touch_cache_hit upsert_cache_entry
    fingerprint_of execute_safe_query execute_without_db
opened = tt

abbrev stored : Rows
stored = ((1 ∷ [], null) ∷ []) ∷ ((2 ∷ [], null) ∷ []) ∷ []

abbrev answer : QueryExecutionResult
answer = record {
  rows = stored;
  row_count = 2;
  execution_ms = 5;
  cached = false;
  fingerprint = codes "v1|analyst|select city from dim.cities limit 2";
  explain_plan = null;
  explain_cost = 810;
  execution_mode = "database";
  cache_expires_at = some 300000000;
}

first-answer : first.0 ≡ returned answer
unfolding opened
first-answer = refl

-- Behind the time of expiry the database is asked again.
second-expired : (second 300000001).0 ≡ raised (codes "down")
unfolding opened
second-expired = refl

request-enabled : cache_enabled_for default_settings request.validated_sql request.use_cache ≡ true
unfolding opened
request-enabled = refl

execute_safe_query-repeated_example :
    (again : QueryExecutionResult) × ((second 300000000).0 ≡ returned again)
    × (again.rows ≡ stored)
    × (again.row_count ≡ 2)
    × (again.cached ≡ true)
    × (again.cache_expires_at ≡ some 300000000)
execute_safe_query-repeated_example =
    execute_safe_query-repeated hash default_settings three down (clock 0) (clock 300000000) request
      request empty answer 300000000 first-answer refl refl request-enabled (omega arith)
      (omega arith)

execute_safe_query-audit_example :
    (a : QueryExecutionAudit) × ((second 7).1.audits ≡ first.1.audits ++ a ∷ [])
    × Reports request a (second 7).0
execute_safe_query-audit_example =
    execute_safe_query-audit hash default_settings down (clock 7) request first.1

empty-IsTable : IsTable default_settings empty.cache
unfolding IsTable
empty-IsTable = tt

execute_safe_query-IsTable_example :
    IsTable default_settings first.1.cache × IsBounded default_settings request first.0
execute_safe_query-IsTable_example =
    execute_safe_query-IsTable hash default_settings three (clock 0) request empty empty-IsTable

build_query_fingerprint-case_example :
    build_query_fingerprint hash default_settings (codes "select 1 where x = 'A'") (codes "user")
    ≡ build_query_fingerprint hash default_settings (codes "select 1 where x = 'a'") (codes "user")
build_query_fingerprint-case_example =
    build_query_fingerprint-case hash default_settings (codes "select 1 where x = 'A'")
      (codes "select 1 where x = 'a'") (codes "user") refl
