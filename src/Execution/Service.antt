-- ===== src/Execution/Service.antt =====
-- execute_safe_query of backend/app/query_execution/service.py. The analytics database is a
-- parameter, `run`: the rows of a text, or the message of the exception. Each reading of the clock
-- is an argument, and the clock does not go back between two readings of one execution.
pub mod Laws
pub mod Repeated
use Prim.Native.Nat.{ℕ, ◌-◌, ◌/◌}
use Prim.Native.String.{String}
use mathlib.Core.Bool.{Bool, true, false}
use mathlib.Core.Option.{Option, none, some}
use mathlib.Core.List.{List, [], ◌∷◌, ◌++◌, map}
use drivee_tolmach.Common.{Text, codes, Unicode, leb, length, take, if◌then◌else◌}
use drivee_tolmach.Json.{Json, str, object}
use drivee_tolmach.Settings.{Settings}
use drivee_tolmach.Guardrails.Decision.{ValidatedSql}
use drivee_tolmach.Guardrails.Statement.{Outcome, returned, raised}
use drivee_tolmach.Execution.Fingerprint.{build_query_fingerprint}
use drivee_tolmach.Execution.Cache.{
  Rows, QueryResultCache, cache_enabled_for, get_cache_entry, prune_expired_cache, touch_cache_hit,
  upsert_cache_entry, expiry,
}

-- A value of a result row: a date or a time by its ISO text, a Decimal by its float, or another.
pub data Cell : Type 0 where
  moment : Text → Cell
  decimal : Json → Cell
  plain : Json → Cell

-- charts.serialize_value and serialize_rows
pub serialize_value : Cell → Json
serialize_value (moment iso) = str iso
serialize_value (decimal value) = value
serialize_value (plain value) = value

pub serialize_rows : List (List (Text × Cell)) → Rows
unfolding serialize_value
serialize_rows rows = map (λ row. map (λ cell. (cell.0, serialize_value cell.1)) row) rows

pub record QueryExecutionAudit : Type 0 where
  pub query_id : Option Text
  pub fingerprint : Text
  pub role : Text
  pub sql_text : Text
  pub cache_hit : Bool
  pub execution_mode : String
  pub row_count : ℕ
  pub execution_ms : ℕ
  pub explain_cost : ℕ
  pub status : String
  pub error_message : Text
  pub details_json : Json
  pub explain_plan_json : Json

pub record QueryExecutionResult : Type 0 where
  pub rows : Rows
  pub row_count : ℕ
  pub execution_ms : ℕ
  pub cached : Bool
  pub fingerprint : Text
  pub explain_plan : Json
  pub explain_cost : ℕ
  pub execution_mode : String
  pub cache_expires_at : Option ℕ

-- The two tables of the platform database that an execution writes.
pub record Store : Type 0 where
  pub cache : List QueryResultCache
  pub audits : List QueryExecutionAudit

-- The readings of the clock in one execution.
pub record Readings : Type 0 where
  pub prune_at : ℕ
  pub lookup_at : ℕ
  pub touch_at : ℕ
  pub started : ℕ
  pub finished : ℕ
  pub store_at : ℕ

pub record Request : Type 0 where
  pub validated_sql : ValidatedSql
  pub role : Text
  pub query_id : Option Text
  pub use_cache : Bool

-- `_record_execution_audit` with a database
abbrev pub record_execution_audit : QueryExecutionAudit → Store → Store
record_execution_audit audit s = record s { audits = s.audits ++ audit ∷ [] }

module _ ⦃u : Unicode⦄ (sha256 : Text → Text) (settings : Settings) where
  unfoldable pub fingerprint_of : Request → Text
  unfolding build_query_fingerprint
  fingerprint_of r = build_query_fingerprint sha256 settings r.validated_sql.sql r.role

  validator_details : ValidatedSql → Json
  validator_details v = object (("validator_summary", v.validator_summary) ∷ [])

  hit_audit : Request → QueryResultCache → QueryExecutionAudit
  unfolding fingerprint_of
  hit_audit r e = record {
    query_id = r.query_id;
    fingerprint = fingerprint_of r;
    role = r.role;
    sql_text = r.validated_sql.sql;
    cache_hit = true;
    execution_mode = "cache";
    row_count = e.row_count;
    execution_ms = 0;
    explain_cost = e.explain_cost;
    status = "ok";
    error_message = [];
    details_json = object (("source", str (codes "query_result_cache")) ∷ []);
    explain_plan_json = e.explain_plan_json;
  }

  database_audit : Request → ℕ → ℕ → String → Text → QueryExecutionAudit
  unfolding fingerprint_of validator_details
  database_audit r row_count execution_ms status error_message = record {
    query_id = r.query_id;
    fingerprint = fingerprint_of r;
    role = r.role;
    sql_text = r.validated_sql.sql;
    cache_hit = false;
    execution_mode = "database";
    row_count = row_count;
    execution_ms = execution_ms;
    explain_cost = r.validated_sql.explain_cost;
    status = status;
    error_message = error_message;
    details_json = validator_details r.validated_sql;
    explain_plan_json = r.validated_sql.explain_plan;
  }

  pub from_cache : Request → QueryResultCache → QueryExecutionResult
  unfolding fingerprint_of
  from_cache r e = record {
    rows = e.result_rows_json;
    row_count = e.row_count;
    execution_ms = 0;
    cached = true;
    fingerprint = fingerprint_of r;
    explain_plan = e.explain_plan_json;
    explain_cost = e.explain_cost;
    execution_mode = "cache";
    cache_expires_at = some e.expires_at;
  }

  from_database : Request → Rows → ℕ → Option ℕ → QueryExecutionResult
  unfolding fingerprint_of
  from_database r rows execution_ms expires_at = record {
    rows = rows;
    row_count = length rows;
    execution_ms = execution_ms;
    cached = false;
    fingerprint = fingerprint_of r;
    explain_plan = r.validated_sql.explain_plan;
    explain_cost = r.validated_sql.explain_cost;
    execution_mode = "database";
    cache_expires_at = expires_at;
  }

  module _ (run : Text → Outcome (List (List (Text × Cell)))) (t : Readings) where
    -- `_execute_database_query`: the rows up to the row limit, and the milliseconds taken.
    after_run : ℕ → Outcome (List (List (Text × Cell))) → Outcome (Rows × ℕ)
    unfolding serialize_rows
    after_run row_limit (raised exc) = raised exc
    after_run row_limit (returned rows) =
        returned (serialize_rows (take row_limit rows), (t.finished - t.started) / 1000)

    pub execute_database_query : ValidatedSql → Outcome (Rows × ℕ)
    unfolding after_run
    execute_database_query v = after_run v.row_limit (run v.sql)

    -- The part behind the lookup in the cache, with a database to write to.
    after_database :
        Request → Bool → Store → Outcome (Rows × ℕ) → Outcome QueryExecutionResult × Store
    unfolding from_database database_audit
    after_database r allowed s (raised exc) =
        (raised exc, record_execution_audit (database_audit r 0 0 "error" exc) s)
    after_database r allowed s (returned (rows, ms)) =
        let cache =
          if allowed
          then upsert_cache_entry settings t.store_at (fingerprint_of r) r.role r.validated_sql rows
              s.cache
          else s.cache in
        let expires_at = if allowed then some (expiry settings t.store_at) else none in
        (
          returned (from_database r rows ms expires_at),
          record_execution_audit (database_audit r (length rows) ms "ok" [])
              (record s { cache = cache }),
        )

    ask_database : Request → Bool → Store → Outcome QueryExecutionResult × Store
    unfolding after_database execute_database_query
    ask_database r allowed s = after_database r allowed s (execute_database_query r.validated_sql)

    -- The entry that was found is used if it has not expired.
    use_entry : Request → Store → Option QueryResultCache → Outcome QueryExecutionResult × Store
    unfolding ask_database from_cache hit_audit
    use_entry r s none = ask_database r true s
    use_entry r s (some e) =
        if leb t.lookup_at e.expires_at
        then (
          returned (from_cache r e),
          record_execution_audit (hit_audit r e)
              (record s { cache = touch_cache_hit t.touch_at (fingerprint_of r) s.cache }),
        )
        else ask_database r true s

    -- execute_safe_query with a database
    unfoldable pub execute_safe_query : Request → Store → Outcome QueryExecutionResult × Store
    unfolding use_entry ask_database
    execute_safe_query r s =
        if cache_enabled_for settings r.validated_sql r.use_cache
        then (let pruned = prune_expired_cache t.prune_at s.cache in
            use_entry r (record s { cache = pruned }) (get_cache_entry (fingerprint_of r) pruned))
        else ask_database r false s

    -- execute_safe_query with db=None: no cache and no audit.
    unfoldable pub execute_without_db : Request → Outcome QueryExecutionResult
    unfolding from_database execute_database_query
    execute_without_db r = elim (execute_database_query r.validated_sql) [
      | raised exc ↦ raised exc
      | returned (rows, ms) ↦ returned (from_database r rows ms none)
    ]
