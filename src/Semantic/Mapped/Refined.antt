-- ===== src/Semantic/Mapped/Refined.antt =====
-- The handlers of backend/app/semantic/service.py do to the table of metrics what the map says.
use Prim.Native.Nat.{ℕ}
use mathlib.Core.Path.{◌≡◌, refl}
use mathlib.Core.Bool.{Bool}
use drivee_tolmach.Common.{Text, Unicode}
use drivee_tolmach.Guardrails.Statement.{Sqlglot}
use drivee_tolmach.Semantic.Catalog.{SemanticMetricDefinition}
use drivee_tolmach.Semantic.Store.{Store, replied}
use drivee_tolmach.Semantic.Store.Rows.{
  Leaves, Leaves-replied, Leaves-reply, Leaves-http_if, Leaves-valid, Leaves-validated,
  Leaves-or_missing, get_row-key,
}
use drivee_tolmach.Semantic.Admin.{
  MetricPatch, metric_key, create_metric, update_metric, delete_metric, create_dimension,
  update_dimension, delete_dimension, ensure_metric_can_be_deleted, ensure_dimension_can_be_deleted,
}
use drivee_tolmach.Semantic.Admin.Handlers.{
  Operation, creates_metric, updates_metric, deletes_metric, creates_dimension, updates_dimension,
  deletes_dimension, creates_term, updates_term, deletes_term, creates_example, updates_example,
  deletes_example, creates_template, updates_template, deletes_template, create_term, update_term,
  delete_term, create_example, update_example, delete_example, create_template, update_template,
  delete_template, handle,
}
use drivee_tolmach.Semantic.Linked.Kept.{Leaves-guards, Leaves-unless_taken}
use drivee_tolmach.Semantic.Mapped.{metrics_of, IsMetricStep, Same}
use drivee_tolmach.Semantic.Mapped.Rows.{exists_row-none, get_row-append, get_row-put, get_row-drop}

module _ ⦃u : Unicode⦄ (sqlglot : Sqlglot) (s : Store) where
  abbrev Step : Operation → Store → Type 0
  Step op t = IsMetricStep op (metrics_of s) (metrics_of t)

  create_metric-Step :
      (m : SemanticMetricDefinition) (is_active : Bool) (user : ℕ)
      → Leaves (Step (creates_metric m is_active user)) (create_metric sqlglot m is_active user s)
  unfolding create_metric IsMetricStep
  create_metric-Step m is_active user =
      Leaves-validated (Step (creates_metric m is_active user)) _ _ λ ok.
        Leaves-http_if (Step (creates_metric m is_active user)) _ _ _ _ λ new.
          let absent = exists_row-none metric_key m.metric_key s.metrics new in
          Leaves-replied (Step (creates_metric m is_active user)) _
            (absent, λ k. get_row-append metric_key k _ s.metrics absent)

  update_metric-Step :
      (key : Text) (patch : MetricPatch) (user : ℕ)
      → Leaves (Step (updates_metric key patch user)) (update_metric sqlglot key patch user s)
  unfolding update_metric IsMetricStep
  update_metric-Step key patch user =
      Leaves-or_missing (Step (updates_metric key patch user)) _ _ _ λ row found.
        Leaves-validated (Step (updates_metric key patch user)) _ _ λ ok.
          Leaves-replied (Step (updates_metric key patch user)) _ (
            row,
            found,
            λ k.
                get_row-put metric_key key k _ row s.metrics
                  (get_row-key metric_key key row s.metrics found) found,
          )

  delete_metric-Step : (key : Text) → Leaves (Step (deletes_metric key)) (delete_metric key s)
  unfolding delete_metric ensure_metric_can_be_deleted IsMetricStep
  delete_metric-Step key = Leaves-or_missing (Step (deletes_metric key)) _ _ _ λ row found.
      Leaves-guards (Step (deletes_metric key)) _ _ _ _ _ λ examples.
        Leaves-guards (Step (deletes_metric key)) _ _ _ _ _ λ templates.
          Leaves-http_if (Step (deletes_metric key)) _ _ _ _ λ terms.
            Leaves-replied (Step (deletes_metric key)) _
              (row, found, λ k. get_row-drop metric_key key k s.metrics)

  abbrev Kept : Store → Type 0
  Kept t = Same (metrics_of s) (metrics_of t)

  kept : (t : Store) → s.metrics ≡ t.metrics → Leaves Kept (replied t)
  kept t e = Leaves-replied Kept t (λ k. rw e refl)

  handle-Step : (op : Operation) → Leaves (Step op) (handle sqlglot op s)
  unfolding handle IsMetricStep create_dimension update_dimension delete_dimension
      ensure_dimension_can_be_deleted create_term update_term delete_term create_example
      update_example delete_example create_template update_template delete_template
  handle-Step (creates_metric m is_active user) = create_metric-Step m is_active user
  handle-Step (updates_metric key patch user) = update_metric-Step key patch user
  handle-Step (deletes_metric key) = delete_metric-Step key
  handle-Step (creates_dimension d is_active user) =
      Leaves-validated Kept _ _ λ ok. Leaves-http_if Kept _ _ _ _ λ new. kept _ refl
  handle-Step (updates_dimension key patch user) =
      Leaves-or_missing Kept _ _ _ λ row found. Leaves-validated Kept _ _ λ ok. kept _ refl
  handle-Step (deletes_dimension key) = Leaves-or_missing Kept _ _ _ λ row found.
      Leaves-guards Kept _ _ _ _ _ λ metrics. Leaves-guards Kept _ _ _ _ _ λ terms.
        Leaves-guards Kept _ _ _ _ _
          λ examples. Leaves-http_if Kept _ _ _ _ λ templates. kept _ refl
  handle-Step (creates_term t is_active user) =
      Leaves-valid Kept _ _ λ ok. Leaves-http_if Kept _ _ _ _ λ new. kept _ refl
  handle-Step (updates_term term patch user) =
      Leaves-or_missing Kept _ _ _
        λ row found. Leaves-valid Kept _ _ λ ok. Leaves-unless_taken Kept _ _ (λ k. refl)
  handle-Step (deletes_term term) = Leaves-or_missing Kept _ _ _ λ row found. kept _ refl
  handle-Step (creates_example id e is_active user) = Leaves-valid Kept _ _ λ ok. kept _ refl
  handle-Step (updates_example id patch user) =
      Leaves-or_missing Kept _ _ _ λ row found. Leaves-valid Kept _ _ λ ok. kept _ refl
  handle-Step (deletes_example id) = Leaves-or_missing Kept _ _ _ λ row found. kept _ refl
  handle-Step (creates_template t is_active user) =
      Leaves-valid Kept _ _ λ ok. Leaves-http_if Kept _ _ _ _ λ new. kept _ refl
  handle-Step (updates_template key patch user) =
      Leaves-or_missing Kept _ _ _ λ row found. Leaves-valid Kept _ _ λ ok. kept _ refl
  handle-Step (deletes_template key) = Leaves-or_missing Kept _ _ _ λ row found. kept _ refl

-- A request that replies does to the table of metrics, read as a map from keys, what the map says: it
-- creates a metric under a key that had none, changes or deletes the metric of a key that has one, and
-- leaves the metrics of all other keys as they are; the requests on other tables leave every metric.
pub handle-IsMetricStep :
    ⦃u : Unicode⦄ (sqlglot : Sqlglot) (op : Operation) (s t : Store)
    → handle sqlglot op s ≡ replied t
    → IsMetricStep op (metrics_of s) (metrics_of t)
handle-IsMetricStep sqlglot op s t e =
    Leaves-reply (λ t. IsMetricStep op (metrics_of s) (metrics_of t)) (handle sqlglot op s) t
      (handle-Step sqlglot s op) e
