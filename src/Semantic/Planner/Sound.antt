-- ===== src/Semantic/Planner/Sound.antt =====
-- What plan_sql_query promises of a query that it plans.
use Prim.Native.Nat.{ℕ, zero, suc, min}
use mathlib.Core.Path.{◌≡◌, refl}
use mathlib.Core.Bool.{true}
use mathlib.Core.Option.{Option, none, some}
use mathlib.Core.List.{List, ◌++◌}
use drivee_tolmach.Common.{
  Text, Unicode, All, All-append, elem, lookup, ℤ, pos, negsuc, same_list, same_ℕ,
}
use drivee_tolmach.Settings.{Settings}
use drivee_tolmach.Semantic.Errors.{
  compiled, Gives, Gives-or_else, Gives-anything, Gives-itself, Gives-pure, Gives-weaken,
  Gives-bind, Gives-refuse_if, Gives-compiled,
}
use drivee_tolmach.Semantic.Catalog.{
  GrainDefinition, grain_registry, SemanticMetricDefinition, SemanticCatalog, get_metric,
}
use drivee_tolmach.Semantic.Literals.{Parsers}
use drivee_tolmach.Semantic.Request.{Interpretation, RetrievalResult}
use drivee_tolmach.Semantic.Clauses.{requested_limit, normalize_limit, compile_period}
use drivee_tolmach.Semantic.Dedupe.Kept.{IsDistinct}
use drivee_tolmach.Semantic.Planner.{
  PlannedDimension, PlannedFilter, QueryPlannerResult, dimension_joins, filter_joins, assemble,
  plan_over, plan_sql_query,
}
use drivee_tolmach.Semantic.Planner.Governed.{
  AreGoverned, AreGovernedFilters, plan_dimensions-Gives, plan_filters-Gives,
}
use drivee_tolmach.Semantic.Planner.Joined.{
  dimension_joins-AreJoins, filter_joins-AreJoins, dedupe-AreJoins,
}

-- A positive number was asked for, and it is cut down to the maximum.
abbrev pub IsLimited : Settings → Option ℤ → ℕ → Type 0
IsLimited settings asked limit =
    (n : ℕ) × (requested_limit asked ≡ pos (suc n)) × (limit ≡ min (suc n) settings.max_result_rows)

normalize_limit-Gives :
    (settings : Settings) (asked : Option ℤ)
    → Gives (IsLimited settings asked) (normalize_limit settings asked)
unfolding normalize_limit Gives
normalize_limit-Gives settings none = (19, refl, refl)
normalize_limit-Gives settings (some (pos zero)) = (19, refl, refl)
normalize_limit-Gives settings (some (pos (suc n))) = (n, refl, refl)
normalize_limit-Gives settings (some (negsuc n)) = tt

module _ ⦃u : Unicode⦄ (settings : Settings) (parsers : Parsers) (i : Interpretation) where
  -- The plan is over a metric and a grain, with governed dimensions and filters.
  abbrev pub IsPlanOf :
      SemanticCatalog → SemanticMetricDefinition → GrainDefinition → QueryPlannerResult → Type 0
  IsPlanOf catalog metric grain plan =
      (plan.metric ≡ metric)
      × (plan.grain ≡ grain)
      × AreGoverned catalog metric grain i.dimensions plan.dimensions
      × AreGovernedFilters catalog metric grain parsers i.filters plan.filters
      × (compile_period i.date_range grain.time_column grain.base_alias
          ≡ compiled plan.period_clauses)
      × IsLimited settings i.limit plan.limit
      × IsDistinct plan.joins
      × All (λ join_sql. elem join_sql plan.joins ≡ true)
          (dimension_joins plan.dimensions ++ filter_joins plan.filters)

  assemble-Gives :
      (retrieval : RetrievalResult) (catalog : SemanticCatalog) (metric : SemanticMetricDefinition)
      (grain : GrainDefinition) (expression : Text) (dimensions : List PlannedDimension)
      (filters : List PlannedFilter)
      → AreGoverned catalog metric grain i.dimensions dimensions
      → AreGovernedFilters catalog metric grain parsers i.filters filters
      → Gives
          (IsPlanOf catalog metric grain)
          (assemble settings i retrieval catalog metric grain expression dimensions filters)
  unfolding assemble
  assemble-Gives retrieval catalog metric grain expression dimensions filters d f =
      let joins =
        All-append _ (dimension_joins dimensions) (filter_joins filters)
          (dimension_joins-AreJoins catalog metric grain i.dimensions dimensions d)
          (filter_joins-AreJoins catalog metric grain parsers i.filters filters f) in
      let (distinct, all) =
        dedupe-AreJoins (dimension_joins dimensions ++ filter_joins filters) joins in
      Gives-bind _ _ _ _
        (Gives-itself (compile_period i.date_range grain.time_column grain.base_alias))
        (λ clauses p. Gives-bind _ _ _ _ (normalize_limit-Gives settings i.limit) (λ limit l.
          Gives-refuse_if _ _ _ _ _ _ (λ _.
            Gives-pure (IsPlanOf catalog metric grain) _ (refl, refl, d, f, p, l, distinct, all))))

  plan_over-Gives :
      (retrieval : RetrievalResult) (catalog : SemanticCatalog) (metric : SemanticMetricDefinition)
      (grain : GrainDefinition)
      → Gives
          (IsPlanOf catalog metric grain)
          (plan_over settings parsers i retrieval catalog metric grain)
  unfolding plan_over
  plan_over-Gives retrieval catalog metric grain =
      Gives-bind _ _ _ _ (Gives-anything _) (λ expression _.
        Gives-bind _ _ _ _ (plan_dimensions-Gives catalog metric grain i.dimensions)
          (λ dimensions d.
            Gives-bind _ _ _ _ (plan_filters-Gives parsers catalog metric grain i.filters)
              (λ filters f.
                assemble-Gives retrieval catalog metric grain _ dimensions filters d f)))

  -- The metric is one of the catalog, and the grain is registered.
  unfoldable pub IsSound : SemanticCatalog → QueryPlannerResult → Type 0
  IsSound catalog plan =
      (metric : SemanticMetricDefinition) × (grain : GrainDefinition) × (get_metric catalog i.metric
        ≡ some metric)
      × (lookup metric.grain grain_registry ≡ some grain)
      × IsPlanOf catalog metric grain plan

  -- What is planned is governed: see IsSound.
  pub plan_sql_query-IsSound :
      (retrieval : RetrievalResult) (catalog : SemanticCatalog) (plan : QueryPlannerResult)
      → plan_sql_query settings parsers i retrieval catalog ≡ compiled plan
      → IsSound catalog plan
  unfolding plan_sql_query IsSound
  plan_sql_query-IsSound retrieval catalog plan h =
      Gives-compiled (IsSound catalog) _ plan
        (Gives-bind _ (IsSound catalog) _ _ (Gives-or_else (get_metric catalog i.metric) _ _ _)
          (λ metric m.
            Gives-bind _ (IsSound catalog) _ _
              (Gives-or_else (lookup metric.grain grain_registry) _ _ _)
              (λ grain g.
                Gives-weaken _ (IsSound catalog) _ (plan_over-Gives retrieval catalog metric grain)
                  (λ plan h. (metric, grain, m, g, h)))))
        h
