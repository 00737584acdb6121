-- ===== src/Settings.antt =====
-- backend/app/config.py: the settings that the modelled code reads. Integers are natural numbers;
-- a cost of a query plan is counted in hundredths, the precision in which EXPLAIN prints it.
use Prim.Native.Nat.{ℕ, ◌*◌, max}
use mathlib.Core.Bool.{Bool, true}
use mathlib.Core.List.{List, [], ◌∷◌}
use drivee_tolmach.Common.{Text, codes}

pub record Settings : Type 0 where
  pub max_result_rows : ℕ
  pub sql_explain_max_cost : ℕ
  pub query_cache_enabled : Bool
  pub query_cache_ttl_seconds : ℕ
  pub query_cache_max_rows : ℕ
  pub query_cache_namespace : Text
  pub query_observability_limit : ℕ
  pub benchmark_p95_target_ms : ℕ
  pub scheduler_poll_interval_seconds : ℕ
  pub scheduler_batch_size : ℕ
  pub scheduler_max_concurrent_runs : ℕ
  pub worker_heartbeat_ttl_seconds : ℕ
  pub report_result_snapshot_limit : ℕ
  pub session_ttl_hours : ℕ

-- Settings.allowed_analytics_tables
abbrev pub allowed_analytics_tables : List Text
allowed_analytics_tables =
    codes "dim.cities"
    ∷ codes "dim.drivers"
    ∷ codes "dim.clients"
    ∷ codes "fact.orders"
    ∷ codes "fact.tenders"
    ∷ codes "mart.city_daily"
    ∷ codes "mart.driver_daily"
    ∷ codes "mart.client_daily"
    ∷ codes "mart.orders_kpi_daily"
    ∷ []

-- Settings.forbidden_columns
abbrev pub forbidden_columns : List Text
forbidden_columns =
    codes "password" ∷ codes "password_hash" ∷ codes "credit_card" ∷ codes "ssn" ∷ []

-- Settings.scheduler_worker_stale_after_seconds
abbrev pub scheduler_worker_stale_after_seconds : Settings → ℕ
scheduler_worker_stale_after_seconds s =
    max s.worker_heartbeat_ttl_seconds (s.scheduler_poll_interval_seconds * 3)

-- The defaults of the class.
abbrev pub default_settings : Settings
default_settings = record {
  max_result_rows = 1000;
  sql_explain_max_cost = 20000000;
  query_cache_enabled = true;
  query_cache_ttl_seconds = 300;
  query_cache_max_rows = 500;
  query_cache_namespace = codes "v1";
  query_observability_limit = 200;
  benchmark_p95_target_ms = 1200;
  scheduler_poll_interval_seconds = 15;
  scheduler_batch_size = 10;
  scheduler_max_concurrent_runs = 2;
  worker_heartbeat_ttl_seconds = 60;
  report_result_snapshot_limit = 200;
  session_ttl_hours = 168;
}
