-- ===== src/Execution/Cache/Laws.antt =====
-- Laws of the table of cached results of backend/app/query_execution/service.py.
use Prim.Native.Nat.{ℕ, zero, suc, ◌≤◌}
use mathlib.Core.Path.{◌≡◌, refl}
use mathlib.Core.Logic.{◌↔◌, inl, inr}
use mathlib.Core.Bool.{true, false}
use mathlib.Core.Option.{Option, none, some}
use mathlib.Core.List.{List, [], ◌∷◌, ◌++◌}
use native.Mathlib.Omega.{arith}
use drivee_tolmach.Common.{Text, length, Bool-cases, ◌==◌, same_list, same_ℕ}
use drivee_tolmach.Settings.{Settings}
use drivee_tolmach.Guardrails.Decision.{ValidatedSql}
use drivee_tolmach.Execution.Cache.{
  Rows, QueryResultCache, get_cache_entry, prune, prune_expired_cache, update, touched,
  touch_cache_hit, expiry, fresh, renewed, store, upsert_cache_entry,
}

pub key_iff : (f g : Text) → ((f == g) ≡ true) ↔ (f ≡ g)
key_iff f g = same_list.same_iff f g

pub get_cache_entry-fingerprint :
    (f : Text) (es : List QueryResultCache) (e : QueryResultCache)
    → get_cache_entry f es ≡ some e
    → e.fingerprint ≡ f
unfolding get_cache_entry
get_cache_entry-fingerprint f [] e h = ground arith
get_cache_entry-fingerprint f (d ∷ es) e h = elim (Bool-cases (d.fingerprint == f)) [
  | inl here ↦ ground (arith, key_iff d.fingerprint f)
  | inr other ↦ get_cache_entry-fingerprint f es e (ground arith)
]

-- Pruning keeps the row of a fingerprint that has not expired.
get-prune :
    (quota now : ℕ) (f : Text) (es : List QueryResultCache) (e : QueryResultCache)
    → get_cache_entry f es ≡ some e
    → now ≤ e.expires_at
    → get_cache_entry f (prune quota now es) ≡ some e
unfolding get_cache_entry prune
get-prune zero now f es e h live = h
get-prune (suc quota) now f [] e h live = h
get-prune (suc quota) now f (d ∷ es) e h live = elim (Bool-cases (d.fingerprint == f)) [
  | inl here ↦ ground arith
  | inr other ↦
      let found : get_cache_entry f es ≡ some e = ground arith in
      ground
        (arith, get-prune quota now f es e found live, get-prune (suc quota) now f es e found live)
]

pub get-prune-none :
    (quota now : ℕ) (f : Text) (es : List QueryResultCache)
    → get_cache_entry f es ≡ none
    → get_cache_entry f (prune quota now es) ≡ none
unfolding get_cache_entry prune
get-prune-none zero now f es h = h
get-prune-none (suc quota) now f [] h = h
get-prune-none (suc quota) now f (d ∷ es) h = elim (Bool-cases (d.fingerprint == f)) [
  | inl here ↦ ground arith
  | inr other ↦
      let gone : get_cache_entry f es ≡ none = ground arith in
      ground (arith, get-prune-none quota now f es gone, get-prune-none (suc quota) now f es gone)
]

module _ (f : Text) (g : QueryResultCache → QueryResultCache)
    (keeps : (e : QueryResultCache) → (g e).fingerprint ≡ e.fingerprint) where
  get-update :
      (es : List QueryResultCache) (e : QueryResultCache)
      → get_cache_entry f es ≡ some e
      → get_cache_entry f (update f g es) ≡ some (g e)
  unfolding get_cache_entry update
  get-update [] e h = ground arith
  get-update (d ∷ es) e h = elim (Bool-cases (d.fingerprint == f)) [
    | inl here ↦
        let same : d ≡ e = ground arith in
        let kept : ((g d).fingerprint == f) ≡ true = rw (keeps d) here in rw (here, kept, same) refl
    | inr other ↦ ground (arith, get-update es e (ground arith))
  ]

  pub get-update-none :
      (k : Text) (es : List QueryResultCache)
      → get_cache_entry k es ≡ none
      → get_cache_entry k (update f g es) ≡ none
  unfolding get_cache_entry update
  get-update-none k [] h = h
  get-update-none k (d ∷ es) h =
      let other : (d.fingerprint == k) ≡ false = ground arith in
      let kept : ((g d).fingerprint == k) ≡ false = rw (keeps d) other in
      elim (Bool-cases (d.fingerprint == f)) [
        | inl here ↦ rw (here, kept) (ground arith)
        | inr there ↦ rw (there, other) (get-update-none k es (ground arith))
      ]

get-append :
    (f : Text) (es : List QueryResultCache) (e : QueryResultCache)
    → get_cache_entry f es ≡ none
    → e.fingerprint ≡ f
    → get_cache_entry f (es ++ e ∷ []) ≡ some e
unfolding get_cache_entry
get-append f [] e h same = ground (arith, key_iff e.fingerprint f)
get-append f (d ∷ es) e h same = ground (arith, get-append f es e (ground arith) same)

pub get-pruned :
    (now : ℕ) (f : Text) (es : List QueryResultCache) (e : QueryResultCache)
    → get_cache_entry f es ≡ some e
    → now ≤ e.expires_at
    → get_cache_entry f (prune_expired_cache now es) ≡ some e
unfolding prune_expired_cache
get-pruned now f es e h live = get-prune 100 now f es e h live

-- A hit keeps the rows and the time of expiry.
pub get-touched :
    (now : ℕ) (f : Text) (es : List QueryResultCache) (e : QueryResultCache)
    → get_cache_entry f es ≡ some e
    → get_cache_entry f (touch_cache_hit now f es) ≡ some (touched now e)
unfolding touch_cache_hit
get-touched now f es e h = get-update f (touched now) (λ _. refl) es e h

-- What is stored is found: the rows, their number and the time of expiry.
unfoldable pub IsStored : Settings → ℕ → Text → ValidatedSql → Rows → QueryResultCache → Type 0
IsStored settings now f v rows e =
    (e.fingerprint ≡ f)
    × (e.result_rows_json ≡ rows)
    × (e.row_count ≡ length rows)
    × (e.row_limit ≡ v.row_limit)
    × (e.sql_text ≡ v.sql)
    × (e.expires_at ≡ expiry settings now)

store-IsStored :
    (settings : Settings) (now : ℕ) (f role : Text) (v : ValidatedSql) (rows : Rows)
    (es : List QueryResultCache) (o : Option QueryResultCache)
    → get_cache_entry f es ≡ o
    → (e : QueryResultCache) × (get_cache_entry f (store settings now f role v rows es o) ≡ some e)
      × IsStored settings now f v rows e
unfolding store IsStored
store-IsStored settings now f role v rows es none h =
    let e = fresh settings now f role v rows in
    (e, get-append f es e h refl, (refl, refl, refl, refl, refl, refl))
store-IsStored settings now f role v rows es (some e) h = (
  renewed settings now role v rows e,
  get-update f (renewed settings now role v rows) (λ _. refl) es e h,
  (get_cache_entry-fingerprint f es e h, refl, refl, refl, refl, refl),
)

pub upsert-IsStored :
    (settings : Settings) (now : ℕ) (f role : Text) (v : ValidatedSql) (rows : Rows)
    (es : List QueryResultCache)
    → (e : QueryResultCache) × (get_cache_entry f (upsert_cache_entry settings now f role v rows es)
        ≡ some e)
      × IsStored settings now f v rows e
unfolding upsert_cache_entry
upsert-IsStored settings now f role v rows es =
    store-IsStored settings now f role v rows es (get_cache_entry f es) refl
