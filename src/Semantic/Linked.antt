-- ===== src/Semantic/Linked.antt =====
-- The references between the tables of the semantic layer, under the handlers of
-- backend/app/semantic/service.py.
pub mod Reports
pub mod Tables
pub mod Dropped
pub mod Kept
pub mod Invariant
mod Tests
use mathlib.Core.Path.{◌≡◌}
use mathlib.Core.Bool.{Bool, true}
use mathlib.Core.List.{List}
use drivee_tolmach.Common.{Text, All, elem, same_list, same_ℕ}
use drivee_tolmach.Guardrails.Statement.{Sqlglot}
use drivee_tolmach.Common.{Unicode}
use drivee_tolmach.Semantic.Catalog.{SemanticMetricDefinition}
use drivee_tolmach.Semantic.Validators.{Example, Template}
use drivee_tolmach.Semantic.Store.{Store, Reply, replied, keys_of}
use drivee_tolmach.Semantic.Admin.{metric_key, dimension_key}
use drivee_tolmach.Semantic.Admin.Handlers.{Operation, handle}

-- Each key of the second list is one of the first.
abbrev pub Known : List Text → List Text → Type 0
Known keys = All (λ key. elem key keys ≡ true)

-- The references of a metric, of an example and of a template, for the keys of metrics and dimensions
abbrev pub IsLinkedMetric : List Text → SemanticMetricDefinition → Type 0
IsLinkedMetric dimensions m =
    Known dimensions m.allowed_dimensions × Known dimensions m.allowed_filters

abbrev pub IsLinkedExample : List Text → List Text → Example → Type 0
IsLinkedExample metrics dimensions e =
    (elem e.metric_key metrics ≡ true)
    × Known dimensions e.dimension_keys
    × Known dimensions e.filter_keys

abbrev pub IsLinkedTemplate : List Text → List Text → Template → Type 0
IsLinkedTemplate metrics dimensions t =
    (elem t.metric_key metrics ≡ true)
    × Known dimensions t.dimension_keys
    × Known dimensions t.filter_keys

abbrev pub all_metrics : Store → List Text
all_metrics s = keys_of metric_key s.metrics

abbrev pub all_dimensions : Store → List Text
all_dimensions s = keys_of dimension_key s.dimensions

-- Everything that a metric, an example or a template refers to exists.
unfoldable pub IsLinked : Store → Type 0
IsLinked s =
    All (λ row. IsLinkedMetric (all_dimensions s) row.definition) s.metrics
    × All (λ row. IsLinkedExample (all_metrics s) (all_dimensions s) row.1.definition) s.examples
    × All (λ row. IsLinkedTemplate (all_metrics s) (all_dimensions s) row.definition) s.templates

-- The stores that a sequence of handled requests leads to
module _ ⦃u : Unicode⦄ (sqlglot : Sqlglot) where
  pub data Administered : Store → Store → Type 0 where
    untouched : {s : Store} → Administered s s
    handled :
        {s middle final : Store} (op : Operation)
        → Administered s middle
        → handle sqlglot op middle ≡ replied final
        → Administered s final
