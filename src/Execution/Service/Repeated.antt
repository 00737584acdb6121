-- ===== src/Execution/Service/Repeated.antt =====
-- The cache of execute_safe_query over two executions, backend/app/query_execution/service.py.
use Prim.Native.Nat.{ℕ, ◌≤◌}
use mathlib.Core.Path.{◌≡◌, refl, ap}
use mathlib.Core.Bool.{Bool, true, false}
use mathlib.Core.Option.{Option, none, some}
use mathlib.Core.List.{List}
use native.Mathlib.Omega.{arith}
use drivee_tolmach.Common.{Text, Unicode, leb, le→leb, if-cases}
use drivee_tolmach.Settings.{Settings}
use drivee_tolmach.Guardrails.Statement.{Outcome, returned, raised}
use drivee_tolmach.Execution.Cache.{
  Rows, QueryResultCache, cache_enabled_for, get_cache_entry, prune_expired_cache,
}
use drivee_tolmach.Execution.Cache.Laws.{IsStored, get-pruned, get-touched, upsert-IsStored}
use drivee_tolmach.Execution.Service.{
  Cell, QueryExecutionResult, Store, Readings, Request, fingerprint_of, from_cache, from_database,
  after_database, ask_database, use_entry, execute_safe_query,
}

module _ ⦃u : Unicode⦄ (sha256 : Text → Text) (settings : Settings) where
  -- The table has a row that gives the rows of a result back until it expires.
  abbrev Holds : Text → List QueryResultCache → QueryExecutionResult → ℕ → Type 0
  Holds f es res until =
      (e : QueryResultCache) × (get_cache_entry f es ≡ some e)
      × (e.expires_at ≡ until)
      × (e.result_rows_json ≡ res.rows)
      × (e.row_count ≡ res.row_count)

  abbrev Offers : Request → Outcome QueryExecutionResult × Store → Type 0
  Offers r (raised exc, s) = Unit
  Offers r (returned res, s) =
      (until : ℕ)
      → res.cache_expires_at ≡ some until
      → Holds (fingerprint_of sha256 settings r) s.cache res until

  module _ (run : Text → Outcome (List (List (Text × Cell)))) (t : Readings) where
    after_database-Offers :
        (r : Request) (allowed : Bool) (s : Store) (o : Outcome (Rows × ℕ))
        → Offers r (after_database sha256 settings run t r allowed s o)
    unfolding after_database from_database IsStored
    after_database-Offers r allowed s (raised exc) = tt
    after_database-Offers r false s (returned (rows, ms)) = λ until h. absurd (ground arith)
    after_database-Offers r true s (returned (rows, ms)) = λ until h.
        let (e, found, (_, same, counted, _, _, expires)) =
          upsert-IsStored settings t.store_at (fingerprint_of sha256 settings r) r.role
            r.validated_sql rows s.cache in
        (e, found, ground arith, same, counted)

    use_entry-Offers :
        (r : Request) (s : Store) (o : Option QueryResultCache)
        → get_cache_entry (fingerprint_of sha256 settings r) s.cache ≡ o
        → Offers r (use_entry sha256 settings run t r s o)
    unfolding use_entry ask_database from_cache
    use_entry-Offers r s none _ = after_database-Offers r true s _
    use_entry-Offers r s (some e) found =
        if-cases (Offers r) (leb t.lookup_at e.expires_at) _ _
          (λ _ until h. (_, get-touched t.touch_at _ s.cache e found, ground arith, refl, refl))
          (λ _. after_database-Offers r true s _)

    execute_safe_query-Offers :
        (r : Request) (s : Store) → Offers r (execute_safe_query sha256 settings run t r s)
    unfolding execute_safe_query ask_database
    execute_safe_query-Offers r s =
        if-cases (Offers r) (cache_enabled_for settings r.validated_sql r.use_cache) _ _
          (λ _.
            use_entry-Offers r (record s { cache = prune_expired_cache t.prune_at s.cache }) _ refl)
          (λ _. after_database-Offers r false s _)

    -- A live row is the result, whatever the database does.
    pub execute_safe_query-live :
        (r : Request) (s : Store) (e : QueryResultCache)
        → cache_enabled_for settings r.validated_sql r.use_cache ≡ true
        → get_cache_entry (fingerprint_of sha256 settings r) s.cache ≡ some e
        → t.prune_at ≤ e.expires_at
        → t.lookup_at ≤ e.expires_at
        → (execute_safe_query sha256 settings run t r s).0
          ≡ returned (from_cache sha256 settings r e)
    unfolding execute_safe_query use_entry
    execute_safe_query-live r s e on found kept live =
        rw (on, get-pruned t.prune_at _ s.cache e found kept, le→leb t.lookup_at e.expires_at live)
          refl

  offered :
      (r : Request) (p : Outcome QueryExecutionResult × Store) (res : QueryExecutionResult)
      (until : ℕ)
      → Offers r p
      → p.0 ≡ returned res
      → res.cache_expires_at ≡ some until
      → Holds (fingerprint_of sha256 settings r) p.1.cache res until
  offered r (raised exc, s) res until _ h named = absurd (ground arith)
  offered r (returned other, s) res until offers h named =
      let same : other ≡ res = ground arith in rw (← same) (offers until (rw same named))

  -- A result that names a time of expiry is given again, from the cache, to each request with the
  -- same fingerprint that may use the cache and comes next, up to that time, whatever the database
  -- would answer then.
  pub execute_safe_query-repeated :
      (run run' : Text → Outcome (List (List (Text × Cell)))) (t t' : Readings) (r r' : Request)
      (s : Store) (res : QueryExecutionResult) (until : ℕ)
      → (execute_safe_query sha256 settings run t r s).0 ≡ returned res
      → res.cache_expires_at ≡ some until
      → fingerprint_of sha256 settings r' ≡ fingerprint_of sha256 settings r
      → cache_enabled_for settings r'.validated_sql r'.use_cache ≡ true
      → t'.prune_at ≤ until
      → t'.lookup_at ≤ until
      → (again : QueryExecutionResult) × ((execute_safe_query sha256 settings run' t' r'
            (execute_safe_query sha256 settings run t r s).1).0
          ≡ returned again)
        × (again.rows ≡ res.rows)
        × (again.row_count ≡ res.row_count)
        × (again.cached ≡ true)
        × (again.cache_expires_at ≡ some until)
  unfolding from_cache
  execute_safe_query-repeated run run' t t' r r' s res until h named same on kept live =
      let (e, found, expires, rows, counted) =
        offered r (execute_safe_query sha256 settings run t r s) res until
          (execute_safe_query-Offers run t r s) h named in
      (
        from_cache sha256 settings r' e,
        execute_safe_query-live run' t' r' (execute_safe_query sha256 settings run t r s).1 e on
            (rw same found) (omega arith) (omega arith),
        rows,
        counted,
        refl,
        ap some expires,
      )
