-- ===== src/Semantic/Linked/Tables.antt =====
-- The references of metrics, examples and templates, among other tables.
use Prim.Native.Nat.{ℕ}
use mathlib.Core.Path.{◌≡◌, refl, sym, subst, ◌∙◌}
use mathlib.Core.Bool.{true}
use mathlib.Core.Option.{some}
use mathlib.Core.List.{List, [], ◌∷◌, ◌++◌}
use drivee_tolmach.Common.{Text, Unicode, All, All-append, elem, same_list, same_ℕ}
use drivee_tolmach.Semantic.Catalog.{Row, MetricRow, DimensionRow, SemanticMetricDefinition}
use drivee_tolmach.Semantic.Validators.{
  Term, Example, Template, validate_example_definition, validate_approved_template_definition,
}
use drivee_tolmach.Semantic.Fragments.{ok}
use drivee_tolmach.Semantic.Store.{
  Store, with_metrics, with_dimensions, with_terms, with_examples, with_templates, get_row, put_row,
}
use drivee_tolmach.Semantic.Store.Rows.{
  All-weaken, active_keys-elem, elem-keys-append, get_row-key, put_row-keys, put_row-All,
}
use drivee_tolmach.Semantic.Admin.{metric_key, dimension_key, active_metrics, active_dimensions}
use drivee_tolmach.Semantic.Linked.{
  Known, IsLinkedMetric, IsLinkedExample, IsLinkedTemplate, all_metrics, all_dimensions, IsLinked,
}
use drivee_tolmach.Semantic.Linked.Reports.{example-IsLinked, template-IsLinked}

-- Among more keys the references stay known.
abbrev IsPart : List Text → List Text → Type 0
IsPart keys more = (k : Text) → elem k keys ≡ true → elem k more ≡ true

module _ (dimensions dimensions' : List Text) (d : IsPart dimensions dimensions') where
  Known-more : (xs : List Text) → Known dimensions xs → Known dimensions' xs
  Known-more xs = All-weaken _ _ xs d

  pub IsLinkedMetric-more :
      (m : SemanticMetricDefinition) → IsLinkedMetric dimensions m → IsLinkedMetric dimensions' m
  IsLinkedMetric-more m (x, y) = (Known-more m.allowed_dimensions x, Known-more m.allowed_filters y)

  module _ (metrics metrics' : List Text) (m : IsPart metrics metrics') where
    IsLinkedExample-more :
        (e : Example)
        → IsLinkedExample metrics dimensions e
        → IsLinkedExample metrics' dimensions' e
    IsLinkedExample-more e (k, x, y) =
        (m e.metric_key k, Known-more e.dimension_keys x, Known-more e.filter_keys y)

    IsLinkedTemplate-more :
        (t : Template)
        → IsLinkedTemplate metrics dimensions t
        → IsLinkedTemplate metrics' dimensions' t
    IsLinkedTemplate-more t (k, x, y) =
        (m t.metric_key k, Known-more t.dimension_keys x, Known-more t.filter_keys y)

-- The same tables among more keys
IsLinked-more :
    (s t : Store)
    → IsPart (all_metrics s) (all_metrics t)
    → IsPart (all_dimensions s) (all_dimensions t)
    → (All (λ row. IsLinkedMetric (all_dimensions t) row.definition) s.metrics
        → All (λ row. IsLinkedMetric (all_dimensions t) row.definition) t.metrics)
    → s.examples ≡ t.examples
    → s.templates ≡ t.templates
    → IsLinked s
    → IsLinked t
unfolding IsLinked
IsLinked-more s t m d metrics e f (x, y, z) = (
  metrics (
      All-weaken _ _ s.metrics
        (λ row. IsLinkedMetric-more (all_dimensions s) (all_dimensions t) d row.definition) x),
  subst
      (λ rows.
        All (λ row. IsLinkedExample (all_metrics t) (all_dimensions t) row.1.definition) rows)
      e
      (All-weaken _ _ s.examples
        (λ row.
          IsLinkedExample-more (all_dimensions s) (all_dimensions t) d (all_metrics s)
            (all_metrics t) m row.1.definition)
        y),
  subst
      (λ rows. All (λ row. IsLinkedTemplate (all_metrics t) (all_dimensions t) row.definition) rows)
      f
      (All-weaken _ _ s.templates
        (λ row.
          IsLinkedTemplate-more (all_dimensions s) (all_dimensions t) d (all_metrics s)
            (all_metrics t) m row.definition)
        z),
)

same_keys : {xs ys : List Text} → xs ≡ ys → IsPart xs ys
same_keys e k h = subst (λ keys. elem k keys ≡ true) e h

-- What a validator accepts refers to active rows.
module _ (s : Store) where
  pub active_is_known : IsPart (active_dimensions s) (all_dimensions s)
  active_is_known k h = active_keys-elem dimension_key k s.dimensions h

  active_metric_is_known : IsPart (active_metrics s) (all_metrics s)
  active_metric_is_known k h = active_keys-elem metric_key k s.metrics h

  pub known_example :
      ⦃u : Unicode⦄ (e : Example)
      → ok (validate_example_definition e (active_metrics s) (active_dimensions s)) ≡ true
      → IsLinkedExample (all_metrics s) (all_dimensions s) e
  known_example e h =
      IsLinkedExample-more _ _ active_is_known _ _ active_metric_is_known e
        (example-IsLinked (active_metrics s) (active_dimensions s) e h)

  pub known_template :
      (t : Template)
      → ok (validate_approved_template_definition t (active_metrics s) (active_dimensions s)) ≡ true
      → IsLinkedTemplate (all_metrics s) (all_dimensions s) t
  known_template t h =
      IsLinkedTemplate-more _ _ active_is_known _ _ active_metric_is_known t
        (template-IsLinked (active_metrics s) (active_dimensions s) t h)

-- The tables with a row more, a row replaced, or a row less
module _ (s : Store) (linked : IsLinked s) where
  pub added_metric :
      (row : MetricRow)
      → IsLinkedMetric (active_dimensions s) row.definition
      → IsLinked (with_metrics (s.metrics ++ row ∷ []) s)
  added_metric row h =
      IsLinked-more s _ (λ k. elem-keys-append metric_key k s.metrics (row ∷ [])) (λ k h. h)
        (λ rows.
          All-append _ s.metrics (row ∷ []) rows
            (IsLinkedMetric-more _ _ (active_is_known s) row.definition h, tt))
        refl refl linked

  pub put_metric :
      (key : Text) (new row : MetricRow)
      → get_row metric_key key s.metrics ≡ some row
      → new.definition.metric_key ≡ row.definition.metric_key
      → IsLinkedMetric (active_dimensions s) new.definition
      → IsLinked (with_metrics (put_row metric_key key new s.metrics) s)
  put_metric key new row found same h =
      IsLinked-more s _
        (same_keys (
          sym (
            put_row-keys metric_key key new s.metrics
              (same ∙ get_row-key metric_key key row s.metrics found))))
        (λ k h. h)
        (put_row-All metric_key _ key new s.metrics
          (IsLinkedMetric-more _ _ (active_is_known s) new.definition h))
        refl refl linked

  pub added_dimension :
      (row : DimensionRow) → IsLinked (with_dimensions (s.dimensions ++ row ∷ []) s)
  added_dimension row =
      IsLinked-more s _ (λ k h. h) (λ k. elem-keys-append dimension_key k s.dimensions (row ∷ []))
        (λ rows. rows) refl refl linked

  pub put_dimension :
      (key : Text) (new row : DimensionRow)
      → get_row dimension_key key s.dimensions ≡ some row
      → new.definition.dimension_key ≡ row.definition.dimension_key
      → IsLinked (with_dimensions (put_row dimension_key key new s.dimensions) s)
  put_dimension key new row found same =
      IsLinked-more s _ (λ k h. h)
        (same_keys (
          sym (
            put_row-keys dimension_key key new s.dimensions
              (same ∙ get_row-key dimension_key key row s.dimensions found))))
        (λ rows. rows) refl refl linked

  pub examples :
      All (λ row. IsLinkedExample (all_metrics s) (all_dimensions s) row.1.definition) s.examples
  unfolding IsLinked
  examples = linked.1

  pub templates :
      All (λ row. IsLinkedTemplate (all_metrics s) (all_dimensions s) row.definition) s.templates
  unfolding IsLinked
  templates = linked.2

  pub replaced_examples :
      (rows : List (ℕ × Row Example))
      → All (λ row. IsLinkedExample (all_metrics s) (all_dimensions s) row.1.definition) rows
      → IsLinked (with_examples rows s)
  unfolding IsLinked
  replaced_examples rows h = (linked.0, h, linked.2)

  pub replaced_templates :
      (rows : List (Row Template))
      → All (λ row. IsLinkedTemplate (all_metrics s) (all_dimensions s) row.definition) rows
      → IsLinked (with_templates rows s)
  unfolding IsLinked
  replaced_templates rows h = (linked.0, linked.1, h)

  pub replaced_terms : (rows : List (Row Term)) → IsLinked (with_terms rows s)
  unfolding IsLinked
  replaced_terms rows = linked
