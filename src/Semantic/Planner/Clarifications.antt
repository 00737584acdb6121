-- ===== src/Semantic/Planner/Clarifications.antt =====
-- `_build_clarification_reasons` of backend/app/semantic/planner.py.
use mathlib.Core.Bool.{Bool, true, false}
use mathlib.Core.Option.{Option, none, some}
use mathlib.Core.List.{List, [], ◌∷◌, ◌++◌, map}
use drivee_tolmach.Common.{
  Text, codes, lookup, filter, is_empty, ◌==◌, same_list, same_ℕ, if◌then◌else◌,
}
use drivee_tolmach.Json.{str, object}
use drivee_tolmach.Semantic.Errors.{
  ambiguous_request, metric_is_required, metric_not_in_catalog, dimension_not_in_catalog,
  filter_not_in_catalog, period_required, ClarificationReason, build_clarification_reason,
}
use drivee_tolmach.Semantic.Catalog.{SemanticMetricDefinition, SemanticCatalog}
use drivee_tolmach.Semantic.Request.{Interpretation}

-- `key not in table`
abbrev pub is_missing {ℓ} : {A : Type ℓ} → List (Text × A) → Text → Bool
is_missing table key = elim (lookup key table) [ some a ↦ false | none ↦ true ]

abbrev metric_reasons : Interpretation → Option SemanticMetricDefinition → List ClarificationReason
metric_reasons i metric =
    if is_empty i.metric
    then build_clarification_reason metric_is_required
        (codes "The request does not resolve to a governed metric yet.") (object [])
      ∷ []
    else elim metric [
      | some _ ↦ []
      | none ↦
          build_clarification_reason metric_not_in_catalog
            (codes "Metric " ++ (i.metric ++ codes " is not present in the semantic catalog."))
            (object (("metric_key", str i.metric) ∷ []))
          ∷ []
    ]

abbrev dimension_clarification : Text → ClarificationReason
dimension_clarification key =
    build_clarification_reason dimension_not_in_catalog
      (codes "Dimension " ++ (key ++ codes " is not present in the semantic catalog."))
      (object (("dimension_key", str key) ∷ []))

abbrev filter_clarification : Text → ClarificationReason
filter_clarification key =
    build_clarification_reason filter_not_in_catalog
      (codes "Filter " ++ (key ++ codes " is not present in the semantic catalog."))
      (object (("filter_key", str key) ∷ []))

abbrev ambiguity_clarification : Text → ClarificationReason
ambiguity_clarification ambiguity =
    build_clarification_reason ambiguous_request ambiguity
      (object (("ambiguity", str ambiguity) ∷ []))

abbrev period_reasons : Option Text → List ClarificationReason
period_reasons none = []
period_reasons (some kind) =
    if kind == codes "missing"
    then build_clarification_reason period_required
        (codes
          "The request does not specify a period; the system can still compile it, but the result may be broad.")
        (object [])
      ∷ []
    else []

unfoldable pub build_clarification_reasons :
    Interpretation → Option SemanticMetricDefinition → SemanticCatalog → List ClarificationReason
unfolding lookup
build_clarification_reasons i metric catalog =
    metric_reasons i metric
    ++ (map dimension_clarification (filter (is_missing catalog.dimensions) i.dimensions)
        ++ (map filter_clarification
              (filter (is_missing catalog.filters) (map (λ entry. entry.0) i.filters))
            ++ (map ambiguity_clarification i.ambiguity_flags ++ period_reasons i.date_range.kind)))
