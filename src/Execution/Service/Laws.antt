-- ===== src/Execution/Service/Laws.antt =====
-- What execute_safe_query of backend/app/query_execution/service.py promises: what an audit says,
-- which rows a result holds, and that the table of cached results stays well formed.
use Prim.Native.Nat.{ℕ, ◌≤◌}
use mathlib.Core.Path.{◌≡◌, refl}
use mathlib.Core.Logic.{◌⊎◌, inl, inr}
use mathlib.Core.Bool.{Bool, true, false}
use mathlib.Core.Option.{Option, none, some}
use mathlib.Core.List.{List, [], ◌∷◌, ◌++◌, map}
use native.Mathlib.Omega.{arith}
use drivee_tolmach.Common.{Text, Unicode, leb, length, take, length-take, if-cases}
use drivee_tolmach.Settings.{Settings}
use drivee_tolmach.Guardrails.Decision.{ValidatedSql}
use drivee_tolmach.Guardrails.Statement.{Outcome, returned, raised}
use drivee_tolmach.Execution.Cache.{
  Rows, QueryResultCache, cache_enabled_for, get_cache_entry, prune_expired_cache,
}
use drivee_tolmach.Execution.Cache.Table.{
  IsEntry, IsTable, get-IsEntry, IsTable-pruned, IsTable-touched, IsTable-upsert,
}
use drivee_tolmach.Execution.Service.{
  Cell, QueryExecutionAudit, QueryExecutionResult, Store, Readings, Request, serialize_rows,
  after_run, execute_database_query, fingerprint_of, hit_audit, database_audit, from_cache,
  from_database, after_database, ask_database, use_entry, execute_safe_query,
}

pub length-map {ℓ κ} :
    {A : Type ℓ} {B : Type κ} (f : A → B) (xs : List A) → length (map f xs) ≡ length xs
length-map f [] = refl
length-map f (x ∷ xs) = omega (arith, length-map f xs)

length-serialize_rows :
    (rows : List (List (Text × Cell))) → length (serialize_rows rows) ≡ length rows
unfolding serialize_rows
length-serialize_rows rows = length-map _ rows

-- The audit of one execution tells what the caller was given.
pub Reports : Request → QueryExecutionAudit → Outcome QueryExecutionResult → Type 0
Reports r a (raised exc) =
    (a.status ≡ "error")
    × (a.error_message ≡ exc)
    × (a.row_count ≡ 0)
    × (a.cache_hit ≡ false)
    × (a.query_id ≡ r.query_id)
    × (a.sql_text ≡ r.validated_sql.sql)
Reports r a (returned res) =
    (a.status ≡ "ok")
    × (a.cache_hit ≡ res.cached)
    × (a.row_count ≡ res.row_count)
    × (a.execution_ms ≡ res.execution_ms)
    × (a.execution_mode ≡ res.execution_mode)
    × (a.fingerprint ≡ res.fingerprint)
    × (a.explain_cost ≡ res.explain_cost)
    × (a.query_id ≡ r.query_id)
    × (a.sql_text ≡ r.validated_sql.sql)

-- The rows are counted, are no more than the limit of the query when they come from the database,
-- and no more than the setting allows when they come from the cache.
pub IsBounded : Settings → Request → Outcome QueryExecutionResult → Type 0
IsBounded settings r (raised exc) = Unit
IsBounded settings r (returned res) =
    (res.row_count ≡ length res.rows)
    × (((res.cached ≡ false) × (res.row_count ≤ r.validated_sql.row_limit))
        ⊎ ((res.cached ≡ true) × (res.row_count ≤ settings.query_cache_max_rows)))

module _ ⦃u : Unicode⦄ (sha256 : Text → Text) (settings : Settings)
    (run : Text → Outcome (List (List (Text × Cell)))) (t : Readings) where
  abbrev execute : Request → Store → Outcome QueryExecutionResult × Store
  execute r s = execute_safe_query sha256 settings run t r s

  abbrev Audited : Request → Store → Outcome QueryExecutionResult × Store → Type 0
  Audited r s (o, s') = (a : QueryExecutionAudit) × (s'.audits ≡ s.audits ++ a ∷ []) × Reports r a o

  after_database-audit :
      (r : Request) (allowed : Bool) (s : Store) (o : Outcome (Rows × ℕ))
      → Audited r s (after_database sha256 settings run t r allowed s o)
  unfolding after_database from_database database_audit Reports
  after_database-audit r allowed s (raised exc) =
      (database_audit sha256 settings r 0 0 "error" exc, refl, (refl, refl, refl, refl, refl, refl))
  after_database-audit r allowed s (returned (rows, ms)) = (
    database_audit sha256 settings r (length rows) ms "ok" [],
    refl,
    (refl, refl, refl, refl, refl, refl, refl, refl, refl),
  )

  use_entry-audit :
      (r : Request) (s : Store) (o : Option QueryResultCache)
      → Audited r s (use_entry sha256 settings run t r s o)
  unfolding use_entry ask_database hit_audit from_cache Reports
  use_entry-audit r s none = after_database-audit r true s _
  use_entry-audit r s (some e) =
      if-cases (Audited r s) (leb t.lookup_at e.expires_at) _ _
        (λ _. (
          hit_audit sha256 settings r e,
          refl,
          (refl, refl, refl, refl, refl, refl, refl, refl, refl),
        ))
        (λ _. after_database-audit r true s _)

  -- Each execution with a platform database adds one audit at the end and agrees with it: on an
  -- exception the status is error with its message and no rows, else it is ok with the result's rows,
  -- time, mode, fingerprint and cost, and says whether they came from the cache.
  pub execute_safe_query-audit :
      (r : Request) (s : Store)
      → (a : QueryExecutionAudit) × ((execute_safe_query sha256 settings run t r s).1.audits
          ≡ s.audits ++ a ∷ [])
        × Reports r a (execute_safe_query sha256 settings run t r s).0
  unfolding execute_safe_query ask_database
  execute_safe_query-audit r s =
      if-cases (Audited r s) (cache_enabled_for settings r.validated_sql r.use_cache) _ _
        (λ _. use_entry-audit r (record s { cache = prune_expired_cache t.prune_at s.cache }) _)
        (λ _. after_database-audit r false s _)

  abbrev IsFew : ValidatedSql → Outcome (Rows × ℕ) → Type 0
  IsFew v (raised exc) = Unit
  IsFew v (returned (rows, ms)) = length rows ≤ v.row_limit

  after_run-IsFew :
      (v : ValidatedSql) (o : Outcome (List (List (Text × Cell))))
      → IsFew v (after_run sha256 settings run t v.row_limit o)
  unfolding after_run
  after_run-IsFew v (raised exc) = tt
  after_run-IsFew v (returned rows) =
      omega (arith, length-serialize_rows (take v.row_limit rows), length-take v.row_limit rows)

  abbrev Kept : Request → Outcome QueryExecutionResult × Store → Type 0
  Kept r (o, s) = IsTable settings s.cache × IsBounded settings r o

  after_database-Kept :
      (r : Request) (allowed : Bool) (s : Store) (o : Outcome (Rows × ℕ))
      → (allowed ≡ true → r.validated_sql.row_limit ≤ settings.query_cache_max_rows)
      → IsFew r.validated_sql o
      → IsTable settings s.cache
      → Kept r (after_database sha256 settings run t r allowed s o)
  unfolding after_database from_database IsBounded
  after_database-Kept r allowed s (raised exc) _ _ table = (table, tt)
  after_database-Kept r true s (returned (rows, ms)) small few table = (
    IsTable-upsert settings t.store_at (fingerprint_of sha256 settings r) r.role r.validated_sql
        rows few (small refl) s.cache table,
    (refl, inl (refl, few)),
  )
  after_database-Kept r false s (returned (rows, ms)) _ few table = (table, (refl, inl (refl, few)))

  ask_database-Kept :
      (r : Request) (allowed : Bool) (s : Store)
      → (allowed ≡ true → r.validated_sql.row_limit ≤ settings.query_cache_max_rows)
      → IsTable settings s.cache
      → Kept r (ask_database sha256 settings run t r allowed s)
  unfolding ask_database execute_database_query
  ask_database-Kept r allowed s small table =
      after_database-Kept r allowed s _ small (after_run-IsFew r.validated_sql _) table

  use_entry-Kept :
      (r : Request) (s : Store) (o : Option QueryResultCache)
      → r.validated_sql.row_limit ≤ settings.query_cache_max_rows
      → get_cache_entry (fingerprint_of sha256 settings r) s.cache ≡ o
      → IsTable settings s.cache
      → Kept r (use_entry sha256 settings run t r s o)
  unfolding use_entry from_cache IsBounded IsEntry
  use_entry-Kept r s none small _ table = ask_database-Kept r true s (λ _. small) table
  use_entry-Kept r s (some e) small found table =
      if-cases (Kept r) (leb t.lookup_at e.expires_at) _ _
        (λ _.
          let (counted, few, less) = get-IsEntry settings _ s.cache e table found in
          (IsTable-touched settings t.touch_at _ s.cache table, (counted, inr (refl, omega arith))))
        (λ _. ask_database-Kept r true s (λ _. small) table)

  -- If the table of cached results is well formed, it is so behind an execution, whose result counts
  -- its rows and has no more of them than the limit of the query, if they are from the database, or
  -- than the setting for cached rows, if they are from the cache.
  pub execute_safe_query-IsTable :
      (r : Request) (s : Store)
      → IsTable settings s.cache
      → IsTable settings (execute_safe_query sha256 settings run t r s).1.cache
        × IsBounded settings r (execute_safe_query sha256 settings run t r s).0
  unfolding execute_safe_query cache_enabled_for
  execute_safe_query-IsTable r s table =
      if-cases (Kept r) (cache_enabled_for settings r.validated_sql r.use_cache) _ _
        (λ on.
          use_entry-Kept r (record s { cache = prune_expired_cache t.prune_at s.cache }) _
            (ground arith) refl (IsTable-pruned settings t.prune_at s.cache table))
        (λ _. ask_database-Kept r false s (λ h. absurd (ground arith)) table)
