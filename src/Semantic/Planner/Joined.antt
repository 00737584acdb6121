-- ===== src/Semantic/Planner/Joined.antt =====
-- The joins that the dimensions and the filters of a plan ask for are the joins of the plan.
use mathlib.Core.Path.{◌≡◌, ap, sym, subst}
use mathlib.Core.Logic.{◌⊎◌, inl, inr}
use mathlib.Core.Bool.{true, false}
use mathlib.Core.Option.{Option, none, some}
use mathlib.Core.List.{List, [], ◌∷◌}
use native.Mathlib.Omega.{arith}
use drivee_tolmach.Common.{
  Text, Unicode, strip, All, elem, is_empty, ◌==◌, same_list, same_ℕ, if-cases,
}
use drivee_tolmach.Common.Texts.Stripped.{strip-strip}
use drivee_tolmach.Semantic.Errors.{
  Gives, Gives-anything, Gives-pure, Gives-bind, Gives-refuse_if, Gives-compiled,
}
use drivee_tolmach.Semantic.Catalog.{
  GrainDefinition, SemanticMetricDefinition, SemanticDimensionDefinition, SemanticCatalog,
}
use drivee_tolmach.Semantic.Literals.{Parsers}
use drivee_tolmach.Semantic.Request.{FilterValue}
use drivee_tolmach.Semantic.Clauses.{Resolved, resolve_dimension_sql, compile_filter_clause}
use drivee_tolmach.Semantic.Dedupe.{dedupe}
use drivee_tolmach.Semantic.Dedupe.Kept.{IsDistinct, dedupe-kept}
use drivee_tolmach.Semantic.Planner.{
  PlannedDimension, PlannedFilter, joins_of, dimension_joins, filter_joins,
}
use drivee_tolmach.Semantic.Planner.Governed.{AreGoverned, AreGovernedFilters}

module _ ⦃u : Unicode⦄ where
  -- A stripped text that is not blank
  abbrev IsJoin : Text → Type 0
  IsJoin join_sql = (strip join_sql ≡ join_sql) × (is_empty join_sql ≡ false)

  abbrev JoinsIf : Option Text → Type 0
  JoinsIf none = Unit
  JoinsIf (some join_sql) = IsJoin join_sql

  abbrev Joins : Resolved → Type 0
  Joins resolved = JoinsIf resolved.1

  resolve_dimension_sql-Gives :
      (dimension : SemanticDimensionDefinition) (grain : GrainDefinition)
      → Gives Joins (resolve_dimension_sql dimension grain)
  unfolding resolve_dimension_sql
  resolve_dimension_sql-Gives dimension grain = Gives-bind _ _ _ _ (Gives-anything _) (λ column _.
      if-cases (Gives Joins) (dimension.table_name == _) _ _ (λ _. Gives-pure Joins _ tt)
        (λ _.
          Gives-bind _ _ _ _ (Gives-anything _) (λ path _.
            Gives-refuse_if _ _ _ _ _ _ (λ e. Gives-pure Joins _ (strip-strip path, e)))))

  compile_filter_clause-Joins :
      (parsers : Parsers) (dimension : SemanticDimensionDefinition) (grain : GrainDefinition)
      (operator : Text) (values : List Text)
      → Gives Joins (compile_filter_clause parsers dimension grain operator values)
  unfolding compile_filter_clause
  compile_filter_clause-Joins parsers dimension grain operator values =
      Gives-refuse_if _ _ _ _ _ _ (λ _. Gives-refuse_if _ _ _ _ _ _ (λ _.
        Gives-bind _ _ _ _ (resolve_dimension_sql-Gives dimension grain)
          (λ resolved j. Gives-bind _ _ _ _ (Gives-anything _) (λ clause _. Gives-pure Joins _ j))))

  joins_of-cons :
      (o : Option Text) (os : List (Option Text))
      → JoinsIf o
      → All IsJoin (joins_of os)
      → All IsJoin (joins_of (o ∷ os))
  joins_of-cons none os j h = h
  joins_of-cons (some join_sql) os j h = (j, h)

  module _ (catalog : SemanticCatalog) (metric : SemanticMetricDefinition)
      (grain : GrainDefinition) where
    pub dimension_joins-AreJoins :
        (keys : List Text) (dimensions : List PlannedDimension)
        → AreGoverned catalog metric grain keys dimensions
        → All IsJoin (dimension_joins dimensions)
    dimension_joins-AreJoins [] [] _ = tt
    dimension_joins-AreJoins [] (planned ∷ rest) h = absurd h
    dimension_joins-AreJoins (key ∷ keys) [] h = absurd h
    dimension_joins-AreJoins (key ∷ keys) (planned ∷ rest) (_, _, r, _, h) =
        joins_of-cons planned.join_sql _
          (Gives-compiled Joins _ (planned.select_sql, planned.join_sql)
            (resolve_dimension_sql-Gives planned.definition grain) r)
          (dimension_joins-AreJoins keys rest h)

    pub filter_joins-AreJoins :
        (parsers : Parsers) (entries : List (Text × FilterValue)) (filters : List PlannedFilter)
        → AreGovernedFilters catalog metric grain parsers entries filters
        → All IsJoin (filter_joins filters)
    filter_joins-AreJoins parsers [] [] _ = tt
    filter_joins-AreJoins parsers [] (planned ∷ rest) h = absurd h
    filter_joins-AreJoins parsers (entry ∷ entries) [] h = absurd h
    filter_joins-AreJoins parsers ((key, value) ∷ entries) (planned ∷ rest)
          (_, _, _, _, _, _, c, h) =
        joins_of-cons planned.join_sql _
          (Gives-compiled Joins _ (planned.clause_sql, planned.join_sql)
            (compile_filter_clause-Joins parsers planned.definition grain planned.operator
              planned.values)
            c)
          (filter_joins-AreJoins parsers entries rest h)

  blank_join : {j : Text} → strip j ≡ j → is_empty j ≡ false → is_empty (strip j) ≡ true → ⊥
  blank_join s e f = ground (arith, sym (ap is_empty s))

  -- Deduplication keeps a stripped join as it is.
  kept :
      (joins result : List Text)
      → All IsJoin joins
      → All (λ j. (is_empty (strip j) ≡ true) ⊎ (elem (strip j) result ≡ true)) joins
      → All (λ j. elem j result ≡ true) joins
  kept [] result _ _ = tt
  kept (j ∷ joins) result ((s, e), h) (inl f, k) = absurd (blank_join s e f)
  kept (j ∷ joins) result ((s, e), h) (inr f, k) =
      (subst (λ t. elem t result ≡ true) s f, kept joins result h k)

  pub dedupe-AreJoins :
      (joins : List Text)
      → All IsJoin joins
      → IsDistinct (dedupe joins) × All (λ j. elem j (dedupe joins) ≡ true) joins
  dedupe-AreJoins joins h =
      let (distinct, all) = dedupe-kept joins in (distinct, kept joins (dedupe joins) h all)
