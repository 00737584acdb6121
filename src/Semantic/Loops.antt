-- ===== src/Semantic/Loops.antt =====
-- The loops of plan_sql_query of backend/app/semantic/planner.py over the dimensions and the filters, and
-- the records that the planner makes.
use Prim.Native.Nat.{ℕ}
use mathlib.Core.Bool.{Bool, not, ◌&&◌}
use mathlib.Core.Option.{Option, none, some}
use mathlib.Core.List.{List, [], ◌∷◌, ◌++◌, map}
use drivee_tolmach.Common.{Text, codes, Unicode, elem, filter, is_empty, same_list, same_ℕ}
use drivee_tolmach.Json.{Json, str, object}
use drivee_tolmach.Guardrails.Decision.{
  unknown_dimension, disallowed_dimension, unknown_filter, disallowed_filter,
}
use drivee_tolmach.Semantic.Errors.{
  Compiled, ClarificationReason, ◌>>=◌, ◌>>◌, pure, or_else, refuse_if,
}
use drivee_tolmach.Semantic.Catalog.{
  GrainDefinition, SemanticMetricDefinition, SemanticDimensionDefinition, SemanticCatalog,
  get_dimension, get_filter,
}
use drivee_tolmach.Semantic.Literals.{Parsers}
use drivee_tolmach.Semantic.Request.{FilterValue}
use drivee_tolmach.Semantic.Clauses.{texts, resolve_dimension_sql, compile_filter_clause}

pub record PlannedDimension : Type 0 where
  pub definition : SemanticDimensionDefinition
  pub select_sql : Text
  pub group_by_sql : Text
  pub join_sql : Option Text

pub record PlannedFilter : Type 0 where
  pub definition : SemanticDimensionDefinition
  pub operator : Text
  pub values : List Text
  pub clause_sql : Text
  pub join_sql : Option Text

pub record QueryPlannerResult : Type 0 where
  pub metric : SemanticMetricDefinition
  pub grain : GrainDefinition
  pub metric_expression_sql : Text
  pub dimensions : List PlannedDimension
  pub filters : List PlannedFilter
  pub period_clauses : List Text
  pub joins : List Text
  pub order_by_sql : Text
  pub limit : ℕ
  pub chart_type : Text
  pub explanation : List Text
  pub clarification_reasons : List ClarificationReason
  pub planner_notes : List Json

-- `allowed and key not in allowed`
abbrev pub is_disallowed : List Text → Text → Bool
is_disallowed allowed key = not (is_empty allowed) && not (elem key allowed)

abbrev pub operator_of : FilterValue → Text
operator_of value = elim value.operator [ some operator ↦ operator | none ↦ codes "eq" ]

-- `[str(value) for value in ... if value not in {None, ""}]`
abbrev pub values_of : FilterValue → List Text
values_of value = filter (λ v. not (is_empty v)) value.values

module _ ⦃u : Unicode⦄ (catalog : SemanticCatalog) (metric : SemanticMetricDefinition)
    (grain : GrainDefinition) where
  unfoldable pub plan_dimension : Text → Compiled PlannedDimension
  plan_dimension key =
      refuse_if (is_disallowed metric.allowed_dimensions key) disallowed_dimension
        (codes "Dimension "
          ++ (key ++ (codes " is not allowed for metric " ++ (metric.metric_key ++ codes "."))))
        (object (
          ("metric_key", str metric.metric_key)
          ∷ ("dimension_key", str key)
          ∷ ("allowed_dimensions", texts metric.allowed_dimensions)
          ∷ []))
      >> (or_else (get_dimension catalog key) unknown_dimension
            (codes "Dimension " ++ (key ++ codes " not found in dimension_catalog."))
            (object (("dimension_key", str key) ∷ []))
          >>= λ dimension. resolve_dimension_sql dimension grain >>= λ resolved. pure (record {
            definition = dimension;
            select_sql = resolved.0;
            group_by_sql = resolved.0;
            join_sql = resolved.1;
          }))

  unfoldable pub plan_dimensions : List Text → Compiled (List PlannedDimension)
  plan_dimensions [] = pure []
  plan_dimensions (key ∷ keys) =
      plan_dimension key >>= λ planned. plan_dimensions keys >>= λ rest. pure (planned ∷ rest)

module _ ⦃u : Unicode⦄ (parsers : Parsers) (catalog : SemanticCatalog)
    (metric : SemanticMetricDefinition) (grain : GrainDefinition) where
  unfoldable pub plan_filter : Text → FilterValue → Compiled PlannedFilter
  plan_filter key value =
      refuse_if (is_disallowed metric.allowed_filters key) disallowed_filter
        (codes "Filter "
          ++ (key ++ (codes " is not allowed for metric " ++ (metric.metric_key ++ codes "."))))
        (object (
          ("metric_key", str metric.metric_key)
          ∷ ("filter_key", str key)
          ∷ ("allowed_filters", texts metric.allowed_filters)
          ∷ []))
      >> (or_else (get_filter catalog key) unknown_filter
            (codes "Filter " ++ (key ++ codes " not found in dimension_catalog."))
            (object (("filter_key", str key) ∷ []))
          >>= λ dimension.
              compile_filter_clause parsers dimension grain (operator_of value) (values_of value)
              >>= λ clause. pure (record {
                definition = dimension;
                operator = operator_of value;
                values = values_of value;
                clause_sql = clause.0;
                join_sql = clause.1;
              }))

  unfoldable pub plan_filters : List (Text × FilterValue) → Compiled (List PlannedFilter)
  plan_filters [] = pure []
  plan_filters ((key, value) ∷ entries) =
      plan_filter key value >>= λ planned. plan_filters entries >>= λ rest. pure (planned ∷ rest)

abbrev pub joins_of : List (Option Text) → List Text
joins_of [] = []
joins_of (some join_sql ∷ rest) = join_sql ∷ joins_of rest
joins_of (none ∷ rest) = joins_of rest

abbrev pub dimension_joins : List PlannedDimension → List Text
dimension_joins dimensions = joins_of (map (λ d. d.join_sql) dimensions)

abbrev pub filter_joins : List PlannedFilter → List Text
filter_joins filters = joins_of (map (λ f. f.join_sql) filters)
