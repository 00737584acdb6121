-- ===== src/Semantic/Planner/Governed.antt =====
-- The loops of plan_sql_query over the dimensions and the filters: what they keep of the catalog.
use mathlib.Core.Path.{◌≡◌, refl, sym}
use mathlib.Core.Bool.{Bool, true, false, not}
use mathlib.Core.Option.{some}
use mathlib.Core.List.{List, [], ◌∷◌}
use drivee_tolmach.Common.{Text, Unicode, elem, is_empty, same_list, same_ℕ}
use drivee_tolmach.Semantic.Errors.{
  compiled, Gives, Gives-or_else, Gives-anything, Gives-itself, Gives-pure, Gives-bind,
  Gives-refuse_if, Gives-compiled,
}
use drivee_tolmach.Semantic.Catalog.{
  GrainDefinition, SemanticMetricDefinition, SemanticDimensionDefinition, SemanticCatalog,
  get_dimension, get_filter,
}
use drivee_tolmach.Semantic.Literals.{Parsers, allowed_operators}
use drivee_tolmach.Semantic.Request.{FilterValue}
use drivee_tolmach.Semantic.Clauses.{resolve_dimension_sql, compile_filter_clause}
use drivee_tolmach.Semantic.Planner.{
  PlannedDimension, PlannedFilter, is_disallowed, operator_of, values_of, plan_dimension,
  plan_dimensions, plan_filter, plan_filters,
}

module _ ⦃u : Unicode⦄ (catalog : SemanticCatalog) (metric : SemanticMetricDefinition)
    (grain : GrainDefinition) where
  -- Each key is allowed for the metric and known to the catalog, and stands with the SQL of its own
  -- dimension.
  abbrev pub AreGoverned : List Text → List PlannedDimension → Type 0
  AreGoverned [] [] = Unit
  AreGoverned (key ∷ keys) (planned ∷ rest) =
      (is_disallowed metric.allowed_dimensions key ≡ false)
      × (get_dimension catalog key ≡ some planned.definition)
      × (resolve_dimension_sql planned.definition grain
          ≡ compiled (planned.select_sql, planned.join_sql))
      × (planned.group_by_sql ≡ planned.select_sql)
      × AreGoverned keys rest
  AreGoverned _ _ = ⊥

  -- The same of filters, whose operators the types of their dimensions allow, with at least one value.
  abbrev pub AreGovernedFilters : Parsers → List (Text × FilterValue) → List PlannedFilter → Type 0
  AreGovernedFilters parsers [] [] = Unit
  AreGovernedFilters parsers ((key, value) ∷ entries) (planned ∷ rest) =
      (is_disallowed metric.allowed_filters key ≡ false)
      × (get_filter catalog key ≡ some planned.definition)
      × (planned.operator ≡ operator_of value)
      × (planned.values ≡ values_of value)
      × (elem planned.operator (allowed_operators planned.definition.data_type) ≡ true)
      × (is_empty planned.values ≡ false)
      × (compile_filter_clause parsers planned.definition grain planned.operator planned.values
          ≡ compiled (planned.clause_sql, planned.join_sql))
      × AreGovernedFilters parsers entries rest
  AreGovernedFilters parsers _ _ = ⊥

undo_not : (b : Bool) → not b ≡ false → b ≡ true
undo_not true h = refl
undo_not false h = sym h

module _ ⦃u : Unicode⦄ (catalog : SemanticCatalog) (metric : SemanticMetricDefinition)
    (grain : GrainDefinition) where
  plan_dimension-Gives :
      (key : Text)
      → Gives
          (λ planned.
            (is_disallowed metric.allowed_dimensions key ≡ false)
            × (get_dimension catalog key ≡ some planned.definition)
            × (resolve_dimension_sql planned.definition grain
                ≡ compiled (planned.select_sql, planned.join_sql))
            × (planned.group_by_sql ≡ planned.select_sql))
          (plan_dimension catalog metric grain key)
  unfolding plan_dimension
  plan_dimension-Gives key = Gives-refuse_if _ _ _ _ _ _ (λ e.
      Gives-bind _ _ _ _ (Gives-or_else (get_dimension catalog key) _ _ _) (λ dimension f.
        Gives-bind _ _ _ _ (Gives-itself (resolve_dimension_sql dimension grain))
          (λ resolved r. Gives-pure _ _ (e, f, r, refl))))

  pub plan_dimensions-Gives :
      (keys : List Text)
      → Gives (AreGoverned catalog metric grain keys) (plan_dimensions catalog metric grain keys)
  unfolding plan_dimensions
  plan_dimensions-Gives [] = Gives-pure _ _ tt
  plan_dimensions-Gives (key ∷ keys) =
      Gives-bind _ _ _ _ (plan_dimension-Gives key) (λ planned (e, f, r, g).
        Gives-bind _ _ _ _ (plan_dimensions-Gives keys)
          (λ rest h. Gives-pure _ (planned ∷ rest) (e, f, r, g, h)))

module _ ⦃u : Unicode⦄ (parsers : Parsers) (catalog : SemanticCatalog)
    (metric : SemanticMetricDefinition) (grain : GrainDefinition) where
  compile_filter_clause-Gives :
      (dimension : SemanticDimensionDefinition) (operator : Text) (values : List Text)
      → Gives
          (λ _.
            (elem operator (allowed_operators dimension.data_type) ≡ true)
            × (is_empty values ≡ false))
          (compile_filter_clause parsers dimension grain operator values)
  unfolding compile_filter_clause
  compile_filter_clause-Gives dimension operator values = Gives-refuse_if _ _ _ _ _ _ (λ e.
      Gives-refuse_if _ _ _ _ _ _ (λ f.
        Gives-bind _ _ _ _ (Gives-anything (resolve_dimension_sql dimension grain)) (λ resolved _.
          Gives-bind _ _ _ _ (Gives-anything _) (λ clause _. Gives-pure _ _ (undo_not _ e, f)))))

  plan_filter-Gives :
      (key : Text) (value : FilterValue)
      → Gives
          (λ planned.
            (is_disallowed metric.allowed_filters key ≡ false)
            × (get_filter catalog key ≡ some planned.definition)
            × (planned.operator ≡ operator_of value)
            × (planned.values ≡ values_of value)
            × (elem planned.operator (allowed_operators planned.definition.data_type) ≡ true)
            × (is_empty planned.values ≡ false)
            × (compile_filter_clause parsers planned.definition grain planned.operator
                  planned.values
                ≡ compiled (planned.clause_sql, planned.join_sql)))
          (plan_filter parsers catalog metric grain key value)
  unfolding plan_filter
  plan_filter-Gives key value = Gives-refuse_if _ _ _ _ _ _ (λ e.
      Gives-bind _ _ _ _ (Gives-or_else (get_filter catalog key) _ _ _) (λ dimension f.
        Gives-bind _ _ _ _
          (Gives-itself
            (compile_filter_clause parsers dimension grain (operator_of value) (values_of value)))
          (λ clause r.
            let (o, n) =
              Gives-compiled _ _ clause
                (compile_filter_clause-Gives dimension (operator_of value) (values_of value)) r in
            Gives-pure _ _ (e, f, refl, refl, o, n, r))))

  pub plan_filters-Gives :
      (entries : List (Text × FilterValue))
      → Gives
          (AreGovernedFilters catalog metric grain parsers entries)
          (plan_filters parsers catalog metric grain entries)
  unfolding plan_filters
  plan_filters-Gives [] = Gives-pure _ _ tt
  plan_filters-Gives ((key, value) ∷ entries) =
      Gives-bind _ _ _ _ (plan_filter-Gives key value) (λ planned (e, f, o, v, a, n, c).
        Gives-bind _ _ _ _ (plan_filters-Gives entries)
          (λ rest h. Gives-pure _ (planned ∷ rest) (e, f, o, v, a, n, c, h)))
