-- ===== src/Execution/Cache/Table.antt =====
-- The table of cached results stays well formed: one row for a fingerprint, and each row counts its
-- rows rightly and holds no more of them than its limit and the setting allow.
use Prim.Native.Nat.{ℕ, zero, suc, ◌≤◌}
use mathlib.Core.Path.{◌≡◌, refl}
use mathlib.Core.Logic.{inl, inr}
use mathlib.Core.Bool.{false}
use mathlib.Core.Option.{Option, none, some}
use mathlib.Core.List.{List, [], ◌∷◌, ◌++◌}
use native.Mathlib.Omega.{arith}
use drivee_tolmach.Common.{Text, ltb, length, Bool-cases, ◌==◌, same_list, same_ℕ}
use drivee_tolmach.Settings.{Settings}
use drivee_tolmach.Guardrails.Decision.{ValidatedSql}
use drivee_tolmach.Execution.Cache.{
  Rows, QueryResultCache, get_cache_entry, prune, prune_expired_cache, update, touched,
  touch_cache_hit, fresh, renewed, store, upsert_cache_entry,
}
use drivee_tolmach.Execution.Cache.Laws.{key_iff, get-prune-none, get-update-none}

module _ (settings : Settings) where
  unfoldable pub IsEntry : QueryResultCache → Type 0
  IsEntry e =
      (e.row_count ≡ length e.result_rows_json)
      × (e.row_count ≤ e.row_limit)
      × (e.row_limit ≤ settings.query_cache_max_rows)

  unfoldable pub IsTable : List QueryResultCache → Type 0
  unfolding IsEntry get_cache_entry
  IsTable [] = Unit
  IsTable (e ∷ es) = IsEntry e × (get_cache_entry e.fingerprint es ≡ none) × IsTable es

  pub get-IsEntry :
      (f : Text) (es : List QueryResultCache) (e : QueryResultCache)
      → IsTable es
      → get_cache_entry f es ≡ some e
      → IsEntry e
  unfolding IsTable get_cache_entry
  get-IsEntry f [] e _ h = ground arith
  get-IsEntry f (d ∷ es) e (entry, alone, rest) h = elim (Bool-cases (d.fingerprint == f)) [
    | inl here ↦ let same : d ≡ e = ground arith in rw (← same) entry
    | inr other ↦ get-IsEntry f es e rest (ground arith)
  ]

  IsTable-prune :
      (quota now : ℕ) (es : List QueryResultCache) → IsTable es → IsTable (prune quota now es)
  unfolding IsTable prune
  IsTable-prune zero now es h = h
  IsTable-prune (suc quota) now [] h = tt
  IsTable-prune (suc quota) now (e ∷ es) (entry, alone, rest) =
      elim (Bool-cases (ltb e.expires_at now)) [
        | inl old ↦ rw old (IsTable-prune quota now es rest)
        | inr live ↦ rw live (
          entry,
          get-prune-none (suc quota) now e.fingerprint es alone,
          IsTable-prune (suc quota) now es rest,
        )
      ]

  pub IsTable-pruned :
      (now : ℕ) (es : List QueryResultCache) → IsTable es → IsTable (prune_expired_cache now es)
  unfolding prune_expired_cache
  IsTable-pruned now es h = IsTable-prune 100 now es h

  module _ (f : Text) (g : QueryResultCache → QueryResultCache)
      (keeps : (e : QueryResultCache) → (g e).fingerprint ≡ e.fingerprint)
      (valid : (e : QueryResultCache) → IsEntry e → IsEntry (g e)) where
    IsTable-update : (es : List QueryResultCache) → IsTable es → IsTable (update f g es)
    unfolding IsTable update
    IsTable-update [] h = tt
    IsTable-update (e ∷ es) (entry, alone, rest) = elim (Bool-cases (e.fingerprint == f)) [
      | inl here ↦ rw here (valid e entry, rw (keeps e) alone, rest)
      | inr other ↦
          rw other (entry, get-update-none f g keeps e.fingerprint es alone, IsTable-update es rest)
    ]

  pub IsTable-touched :
      (now : ℕ) (f : Text) (es : List QueryResultCache)
      → IsTable es
      → IsTable (touch_cache_hit now f es)
  unfolding touch_cache_hit IsEntry
  IsTable-touched now f es h = IsTable-update f (touched now) (λ _. refl) (λ _ k. k) es h

  get-append-none :
      (k : Text) (es : List QueryResultCache) (e : QueryResultCache)
      → get_cache_entry k es ≡ none
      → (e.fingerprint == k) ≡ false
      → get_cache_entry k (es ++ e ∷ []) ≡ none
  unfolding get_cache_entry
  get-append-none k [] e h other = ground arith
  get-append-none k (d ∷ es) e h other = ground (arith, get-append-none k es e (ground arith) other)

  IsTable-append :
      (es : List QueryResultCache) (e : QueryResultCache)
      → IsTable es
      → IsEntry e
      → get_cache_entry e.fingerprint es ≡ none
      → IsTable (es ++ e ∷ [])
  unfolding IsTable get_cache_entry
  IsTable-append [] e _ k h = (k, refl, tt)
  IsTable-append (d ∷ es) e (entry, alone, rest) k h =
      let differ : (e.fingerprint == d.fingerprint) ≡ false =
        ground (arith, key_iff e.fingerprint d.fingerprint, key_iff d.fingerprint e.fingerprint) in
      (
        entry,
        get-append-none d.fingerprint es e alone differ,
        IsTable-append es e rest k (ground arith),
      )

  module _ (now : ℕ) (f role : Text) (v : ValidatedSql) (rows : Rows)
      (few : length rows ≤ v.row_limit) (small : v.row_limit ≤ settings.query_cache_max_rows) where
    IsTable-store :
        (es : List QueryResultCache) (o : Option QueryResultCache)
        → get_cache_entry f es ≡ o
        → IsTable es
        → IsTable (store settings now f role v rows es o)
    unfolding store IsEntry
    IsTable-store es none h table =
        IsTable-append es (fresh settings now f role v rows) table (refl, few, small) h
    IsTable-store es (some e) h table =
        IsTable-update f (renewed settings now role v rows) (λ _. refl) (λ _ _. (refl, few, small))
          es table

    pub IsTable-upsert :
        (es : List QueryResultCache)
        → IsTable es
        → IsTable (upsert_cache_entry settings now f role v rows es)
    unfolding upsert_cache_entry
    IsTable-upsert es table = IsTable-store es (get_cache_entry f es) refl table
