-- ===== src/Execution/Cache.antt =====
-- The table of cached results and its operations, backend/app/query_execution/service.py. A table is
-- the list of its rows in the order of insertion; times count microseconds.
pub mod Laws
pub mod Table
use Prim.Native.Nat.{ℕ, zero, suc, ◌+◌, ◌*◌, ◌-◌}
use mathlib.Core.Bool.{Bool, true, false, ◌&&◌}
use mathlib.Core.Option.{Option, none, some}
use mathlib.Core.List.{List, [], ◌∷◌, ◌++◌}
use drivee_tolmach.Common.{Text, ltb, leb, length, ◌==◌, same_list, same_ℕ, if◌then◌else◌}
use drivee_tolmach.Json.{Json}
use drivee_tolmach.Settings.{Settings}
use drivee_tolmach.Guardrails.Decision.{ValidatedSql}

-- Serialised rows, list[dict[str, Any]].
abbrev pub Rows : Type 0
Rows = List (List (Text × Json))

pub record QueryResultCache : Type 0 where
  pub fingerprint : Text
  pub role : Text
  pub sql_text : Text
  pub row_limit : ℕ
  pub explain_cost : ℕ
  pub explain_plan_json : Json
  pub result_rows_json : Rows
  pub row_count : ℕ
  pub hit_count : ℕ
  pub expires_at : ℕ
  pub last_accessed_at : ℕ
  pub updated_at : ℕ

abbrev pub second : ℕ
second = 1000000

-- `_cache_enabled_for`
unfoldable pub cache_enabled_for : Settings → ValidatedSql → Bool → Bool
cache_enabled_for settings v use_cache =
    (use_cache && settings.query_cache_enabled) && leb v.row_limit settings.query_cache_max_rows

-- `_get_cache_entry`; the column is unique, so there is one row at most.
unfoldable pub get_cache_entry : Text → List QueryResultCache → Option QueryResultCache
get_cache_entry fingerprint [] = none
get_cache_entry fingerprint (e ∷ es) =
    if e.fingerprint == fingerprint then some e else get_cache_entry fingerprint es

-- `_prune_expired_cache`: of the expired rows, the first `quota` go.
pub prune : ℕ → ℕ → List QueryResultCache → List QueryResultCache
prune zero now es = es
prune (suc quota) now [] = []
prune (suc quota) now (e ∷ es) =
    let gone = prune quota now es in
    let kept = e ∷ prune (suc quota) now es in if ltb e.expires_at now then gone else kept

unfoldable pub prune_expired_cache : ℕ → List QueryResultCache → List QueryResultCache
unfolding prune
prune_expired_cache now es = prune 100 now es

-- `entry.hit_count += 1` and so on, on the row with the fingerprint.
pub update :
    Text → (QueryResultCache → QueryResultCache) → List QueryResultCache → List QueryResultCache
update fingerprint f [] = []
update fingerprint f (e ∷ es) =
    if e.fingerprint == fingerprint then f e ∷ es else e ∷ update fingerprint f es

abbrev touched : ℕ → QueryResultCache → QueryResultCache
touched now e = record e { hit_count = e.hit_count + 1; last_accessed_at = now }

unfoldable pub touch_cache_hit : ℕ → Text → List QueryResultCache → List QueryResultCache
unfolding update
touch_cache_hit now fingerprint es = update fingerprint (touched now) es

abbrev pub expiry : Settings → ℕ → ℕ
expiry settings now = now + settings.query_cache_ttl_seconds * second

abbrev fresh : Settings → ℕ → Text → Text → ValidatedSql → Rows → QueryResultCache
fresh settings now fingerprint role v rows = record {
  fingerprint = fingerprint;
  role = role;
  sql_text = v.sql;
  row_limit = v.row_limit;
  explain_cost = v.explain_cost;
  explain_plan_json = v.explain_plan;
  result_rows_json = rows;
  row_count = length rows;
  hit_count = 0;
  expires_at = expiry settings now;
  last_accessed_at = now;
  updated_at = now;
}

abbrev renewed : Settings → ℕ → Text → ValidatedSql → Rows → QueryResultCache → QueryResultCache
renewed settings now role v rows e = record e {
  role = role;
  sql_text = v.sql;
  row_limit = v.row_limit;
  explain_cost = v.explain_cost;
  explain_plan_json = v.explain_plan;
  result_rows_json = rows;
  row_count = length rows;
  expires_at = expiry settings now;
  updated_at = now;
  last_accessed_at = now;
}

store :
    Settings
    → ℕ
    → Text
    → Text
    → ValidatedSql
    → Rows
    → List QueryResultCache
    → Option QueryResultCache
    → List QueryResultCache
unfolding update
store settings now fingerprint role v rows es none =
    es ++ fresh settings now fingerprint role v rows ∷ []
store settings now fingerprint role v rows es (some _) =
    update fingerprint (renewed settings now role v rows) es

-- `_upsert_cache_entry`
unfoldable pub upsert_cache_entry :
    Settings → ℕ → Text → Text → ValidatedSql → Rows → List QueryResultCache → List QueryResultCache
unfolding store get_cache_entry
upsert_cache_entry settings now fingerprint role v rows es =
    store settings now fingerprint role v rows es (get_cache_entry fingerprint es)
