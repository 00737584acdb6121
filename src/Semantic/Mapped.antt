-- ===== src/Semantic/Mapped.antt =====
-- The table of metrics as a finite map: what each handler of backend/app/semantic/service.py does to it.
pub mod Rows
pub mod Refined
use Prim.Native.Nat.{ℕ}
use mathlib.Core.Path.{◌≡◌}
use mathlib.Core.Option.{Option, none, some}
use drivee_tolmach.Common.{Text, ◌==◌, same_list, same_ℕ, if◌then◌else◌}
use drivee_tolmach.Semantic.Catalog.{MetricRow, SemanticMetricDefinition}
use drivee_tolmach.Semantic.Store.{Store, get_row}
use drivee_tolmach.Semantic.Admin.{MetricPatch, or_kept, metric_key, patched_metric}
use drivee_tolmach.Semantic.Admin.Handlers.{
  Operation, creates_metric, updates_metric, deletes_metric,
}

abbrev pub insert_at {ℓ} : {A : Type ℓ} → Text → A → (Text → Option A) → Text → Option A
insert_at key a m k = if key == k then some a else m k

abbrev pub remove_at {ℓ} : {A : Type ℓ} → Text → (Text → Option A) → Text → Option A
remove_at key m k = if key == k then none else m k

abbrev pub Metrics : Type 0
Metrics = Text → Option MetricRow

abbrev pub metrics_of : Store → Metrics
metrics_of s key = get_row metric_key key s.metrics

abbrev pub changed_metric : MetricPatch → ℕ → MetricRow → MetricRow
changed_metric patch user row = record {
  definition = patched_metric patch row.definition;
  is_active = or_kept patch.is_active row.is_active;
  updated_by = user;
}

abbrev pub Same : Metrics → Metrics → Type 0
Same m m' = (k : Text) → m' k ≡ m k

-- What an operation does to the map: a new key is inserted, the row of a key that is there is changed or
-- removed, and nothing else touches it.
unfoldable pub IsMetricStep : Operation → Metrics → Metrics → Type 0
IsMetricStep (creates_metric d is_active user) m m' =
    (m d.metric_key ≡ none)
    × Same
        (insert_at d.metric_key
          (record { definition = d; is_active = is_active; updated_by = user }) m)
        m'
IsMetricStep (updates_metric key patch user) m m' =
    (row : MetricRow) × (m key ≡ some row)
    × Same (insert_at key (changed_metric patch user row) m) m'
IsMetricStep (deletes_metric key) m m' =
    (row : MetricRow) × (m key ≡ some row) × Same (remove_at key m) m'
IsMetricStep _ m m' = Same m m'
