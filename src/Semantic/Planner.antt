-- ===== src/Semantic/Planner.antt =====
-- plan_sql_query of backend/app/semantic/planner.py: an interpretation is planned over the governed
-- catalog, or refused with a reason.
pub mod Clarifications
pub mod Governed
pub mod Joined
pub mod Sound
use Prim.Native.Nat.{ℕ}
use Prim.Native.String.{String}
use mathlib.Core.Bool.{Bool, true, false, not, ◌||◌, ◌&&◌}
use mathlib.Core.Option.{Option, none, some}
use mathlib.Core.List.{List, [], ◌∷◌, ◌++◌, map}
use drivee_tolmach.Common.{
  Text, codes, Unicode, strip, lower, show, join, elem, filter, take, is_empty, lookup, ◌==◌, ℤ,
  same_list, same_ℕ, if◌then◌else◌,
}
use drivee_tolmach.Json.{Json, str, num, array, object, null}
use drivee_tolmach.Settings.{Settings}
use drivee_tolmach.Guardrails.Decision.{
  unknown_metric, metric_required, unsupported_grain, unknown_dimension, disallowed_dimension,
  unknown_filter, disallowed_filter, invalid_sort,
}
use drivee_tolmach.Semantic.Errors.{
  Compiled, ClarificationReason, clarification_json, ◌>>=◌, ◌>>◌, pure, or_else, refuse_if,
}
use drivee_tolmach.Semantic.Catalog.{
  GrainDefinition, grain_registry, SemanticMetricDefinition, SemanticDimensionDefinition,
  SemanticCatalog, found, get_metric, get_dimension, get_filter,
}
use drivee_tolmach.Semantic.Literals.{Parsers}
use drivee_tolmach.Semantic.Request.{
  Interpretation, RetrievalResult, FilterValue, DateRange, int_json,
}
use drivee_tolmach.Semantic.Clauses.{
  Resolved, texts, render_template, normalize_limit, compile_period, resolve_dimension_sql,
  compile_filter_clause,
}
use drivee_tolmach.Semantic.Dedupe.{dedupe}
use drivee_tolmach.Semantic.Planner.Clarifications.{build_clarification_reasons}
pub use drivee_tolmach.Semantic.Loops.{
  PlannedDimension, PlannedFilter, QueryPlannerResult, is_disallowed, operator_of, values_of,
  joins_of, dimension_joins, filter_joins,
}
unfoldable pub use drivee_tolmach.Semantic.Loops.{
  plan_dimension, plan_dimensions, plan_filter, plan_filters,
}

abbrev metric_note : SemanticMetricDefinition → GrainDefinition → Json
metric_note metric grain = object (
    ("stage", str (codes "metric"))
    ∷ ("metric_key", str metric.metric_key)
    ∷ ("grain", str grain.grain_key)
    ∷ ("source_table", str grain.source_table)
    ∷ [])

abbrev join_text : Option Text → Text
join_text (some join_sql) = join_sql
join_text none = []

abbrev dimension_notes : List Text → List PlannedDimension → List Json
dimension_notes (key ∷ keys) (planned ∷ rest) =
    object (
      ("stage", str (codes "dimension"))
      ∷ ("dimension_key", str key)
      ∷ ("table_name", str planned.definition.table_name)
      ∷ ("join_sql", str (join_text planned.join_sql))
      ∷ [])
    ∷ dimension_notes keys rest
dimension_notes _ _ = []

abbrev filter_notes : List (Text × FilterValue) → List Json
filter_notes entries =
    map
      (λ entry. object (
        ("stage", str (codes "filter"))
        ∷ ("filter_key", str entry.0)
        ∷ ("operator", str (operator_of entry.1))
        ∷ ("values", texts (values_of entry.1))
        ∷ []))
      entries

abbrev limit_json : Option ℤ → Json
limit_json (some n) = int_json n
limit_json none = null

-- `', '.join(keys) or 'none'`
or_no_keys : List Text → Text
or_no_keys [] = codes "none"
or_no_keys (key ∷ keys) = join (codes ", ") (key ∷ keys)

unless_none : List Text → Text → List Text
unless_none [] line = []
unless_none (x ∷ xs) line = line ∷ []

explain : SemanticMetricDefinition → GrainDefinition → RetrievalResult → List Text → List Text
unfolding or_no_keys unless_none
explain metric grain retrieval period_clauses =
    ((codes "Metric "
        ++ (metric.business_name
            ++ (codes " compiled from metric_catalog key " ++ (metric.metric_key ++ codes "."))))
      ∷ (codes "SQL uses only approved grain "
          ++ (grain.grain_key ++ (codes " and source table " ++ (grain.source_table ++ codes "."))))
      ∷ (codes "Dimensions allowed by catalog: "
          ++ (or_no_keys metric.allowed_dimensions ++ codes "."))
      ∷ (codes "Filters allowed by catalog: " ++ (or_no_keys metric.allowed_filters ++ codes "."))
      ∷ [])
    ++ (unless_none retrieval.semantic_terms (
          codes "Matched semantic terms: "
          ++ (join (codes ", ") (take 6 retrieval.semantic_terms) ++ codes "."))
        ++ (unless_none retrieval.planner_candidates (
              codes "Planner candidates considered: "
              ++ (join (codes ", ")
                    (filter (λ key. not (is_empty key)) (take 6 retrieval.planner_candidates))
                  ++ codes "."))
            ++ unless_none period_clauses (
                codes "Period applied on "
                ++ (grain.base_alias ++ (b'.' ∷ (grain.time_column ++ codes "."))))))

abbrev pub is_daily : Interpretation → Bool
is_daily i = elem (codes "day") i.dimensions

abbrev order_by : Interpretation → SemanticMetricDefinition → Text → Text
order_by i metric direction =
    if is_daily i
    then codes "day ASC"
    else metric.metric_key
      ++ (b' ' ∷ (if direction == codes "asc" then codes "ASC" else codes "DESC"))

abbrev direction_of : ⦃u : Unicode⦄ → Interpretation → Text
direction_of i = lower (elim i.sort_direction [ some d ↦ d | none ↦ codes "desc" ])

module _ ⦃u : Unicode⦄ (settings : Settings) where
  -- Behind the loops: the period, the joins, the limit and the order
  unfoldable pub assemble :
      Interpretation
      → RetrievalResult
      → SemanticCatalog
      → SemanticMetricDefinition
      → GrainDefinition
      → Text
      → List PlannedDimension
      → List PlannedFilter
      → Compiled QueryPlannerResult
  unfolding explain build_clarification_reasons ◌>>=◌
  assemble i retrieval catalog metric grain expression dimensions filters =
      compile_period i.date_range grain.time_column grain.base_alias >>= λ period_clauses.
      normalize_limit settings i.limit >>= λ limit.
      let direction = direction_of i in
      refuse_if (not (elem direction (codes "asc" ∷ codes "desc" ∷ []))) invalid_sort
        (codes "Unsupported sort direction: " ++ (direction ++ codes "."))
        (object (("sort_direction", str direction) ∷ []))
      >> pure (record {
        metric = metric;
        grain = grain;
        metric_expression_sql = expression;
        dimensions = dimensions;
        filters = filters;
        period_clauses = period_clauses;
        joins = dedupe (dimension_joins dimensions ++ filter_joins filters);
        order_by_sql = order_by i metric direction;
        limit = limit;
        chart_type = if is_daily i then codes "line" else metric.default_chart;
        explanation = explain metric grain retrieval period_clauses;
        clarification_reasons = build_clarification_reasons i (some metric) catalog;
        planner_notes =
            (metric_note metric grain ∷ dimension_notes i.dimensions dimensions)
            ++ (filter_notes i.filters
                ++ (object (
                      ("stage", str (codes "limit"))
                      ∷ ("requested_limit", limit_json i.limit)
                      ∷ ("applied_limit", num limit)
                      ∷ [])
                    ∷ object (
                        ("stage", str (codes "order_by"))
                        ∷ ("order_by_sql", str (order_by i metric direction))
                        ∷ [])
                    ∷ object (
                        ("stage", str (codes "group_by"))
                        ∷ ("group_by", texts (dedupe (map (λ d. d.group_by_sql) dimensions)))
                        ∷ [])
                    ∷ []));
      })

module _ ⦃u : Unicode⦄ (settings : Settings) (parsers : Parsers) where
  -- With the metric and its grain
  unfoldable pub plan_over :
      Interpretation
      → RetrievalResult
      → SemanticCatalog
      → SemanticMetricDefinition
      → GrainDefinition
      → Compiled QueryPlannerResult
  plan_over i retrieval catalog metric grain =
      render_template metric.sql_expression_template grain (codes "dim_value") >>= λ expression.
      plan_dimensions catalog metric grain i.dimensions >>= λ dimensions.
      plan_filters parsers catalog metric grain i.filters >>= λ filters.
      assemble settings i retrieval catalog metric grain expression dimensions filters

  unfoldable pub plan_sql_query :
      Interpretation → RetrievalResult → SemanticCatalog → Compiled QueryPlannerResult
  plan_sql_query i retrieval catalog =
      or_else (get_metric catalog i.metric)
        (if is_empty i.metric then metric_required else unknown_metric)
        (codes "Metric not found in metric_catalog.")
        (object (
          ("metric_key", if is_empty i.metric then null else str i.metric)
          ∷ (
            "clarification_reasons",
            array (map clarification_json (build_clarification_reasons i none catalog)),
          )
          ∷ []))
      >>= λ metric.
          or_else (lookup metric.grain grain_registry) unsupported_grain
            (codes "Unsupported grain " ++ (metric.grain ++ codes " in metric_catalog."))
            (object (("metric_key", str metric.metric_key) ∷ ("grain", str metric.grain) ∷ []))
          >>= λ grain. plan_over i retrieval catalog metric grain
