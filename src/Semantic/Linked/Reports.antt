-- ===== src/Semantic/Linked/Reports.antt =====
-- A definition that its validator finds no error in refers to known keys only.
use Prim.Native.String.{String}
use mathlib.Core.Path.{◌≡◌, refl, sym, ◌∙◌}
use mathlib.Core.Bool.{Bool, true, not, ◌&&◌}
use mathlib.Core.List.{List, ◌++◌}
use native.Mathlib.Omega.{arith}
use drivee_tolmach.Common.{Text, Unicode, strip, all, elem, same_list, same_ℕ}
use drivee_tolmach.Guardrails.Statement.{Sqlglot}
use drivee_tolmach.Semantic.Catalog.{SemanticMetricDefinition}
use drivee_tolmach.Semantic.Fragments.{Report, ok, validate_key}
use drivee_tolmach.Semantic.Validators.{
  Example, Template, unknown_dimension_key, unknown_filter_key, reference_issues, sql_issues,
  chart_issues, validate_metric_definition, validate_example_definition,
  validate_approved_template_definition,
}
use drivee_tolmach.Semantic.Validators.Verdicts.{
  accepts, ok-append, ok-issue, ok-unknown_values, all→All,
}
use drivee_tolmach.Semantic.Validators.Accepted.{
  IsAcceptable, validate_metric_definition-IsAcceptable_iff,
}
use drivee_tolmach.Semantic.Linked.{Known, IsLinkedMetric, IsLinkedExample, IsLinkedTemplate}

references-ok :
    (kind : String) (key metric_key : Text)
    (dimension_keys filter_keys metrics dimensions : List Text)
    → ok (reference_issues kind key metric_key dimension_keys filter_keys metrics dimensions) ≡ (
        not (not (elem metric_key metrics))
        && (all (λ v. elem v dimensions) dimension_keys
            && all (λ v. elem v dimensions) filter_keys))
unfolding reference_issues
references-ok kind key metric_key dimension_keys filter_keys metrics dimensions =
    rw
      (
        ok-append,
        ok-append,
        ok-issue,
        ok-unknown_values (unknown_dimension_key kind key) dimensions dimension_keys (λ v. refl),
        ok-unknown_values (unknown_filter_key kind key) dimensions filter_keys (λ v. refl),
      )
      refl

three_true :
    (a b c : Bool) → (not (not a) && (b && c)) ≡ true → (a ≡ true) × (b ≡ true) × (c ≡ true)
three_true a b c h = ground arith

-- References without an issue are known.
references-Known :
    (kind : String) (key metric_key : Text)
    (dimension_keys filter_keys metrics dimensions : List Text)
    → ok (reference_issues kind key metric_key dimension_keys filter_keys metrics dimensions) ≡ true
    → (elem metric_key metrics ≡ true)
      × Known dimensions dimension_keys
      × Known dimensions filter_keys
references-Known kind key metric_key dimension_keys filter_keys metrics dimensions h =
    let (m, d, f) =
      three_true (elem metric_key metrics) (all (λ v. elem v dimensions) dimension_keys)
        (all (λ v. elem v dimensions) filter_keys)
        (sym (references-ok kind key metric_key dimension_keys filter_keys metrics dimensions)
          ∙ h) in
    (m, all→All _ dimension_keys d, all→All _ filter_keys f)

pub front : (a b : Report) → ok (a ++ b) ≡ true → ok a ≡ true
front a b h = ground (arith, ok-append a b)

pub behind : (a b : Report) → ok (a ++ b) ≡ true → ok b ≡ true
behind a b h = ground (arith, ok-append a b)

module _ (metrics dimensions : List Text) where
  pub example-IsLinked :
      ⦃u : Unicode⦄ (e : Example)
      → ok (validate_example_definition e metrics dimensions) ≡ true
      → IsLinkedExample metrics dimensions e
  unfolding validate_example_definition
  example-IsLinked e h =
      references-Known "example" e.title e.metric_key e.dimension_keys e.filter_keys metrics
        dimensions
        (front
          (reference_issues "example" e.title e.metric_key e.dimension_keys e.filter_keys metrics
            dimensions)
          (sql_issues e.title (strip e.sql_example)) h)

  pub template-IsLinked :
      (t : Template)
      → ok (validate_approved_template_definition t metrics dimensions) ≡ true
      → IsLinkedTemplate metrics dimensions t
  unfolding validate_approved_template_definition
  template-IsLinked t h =
      references-Known "approved_template" t.template_key t.metric_key t.dimension_keys
        t.filter_keys metrics dimensions
        (front
          (reference_issues "approved_template" t.template_key t.metric_key t.dimension_keys
            t.filter_keys metrics dimensions)
          (chart_issues t)
          (behind (validate_key "approved_template" t.template_key)
            (reference_issues "approved_template" t.template_key t.metric_key t.dimension_keys
                t.filter_keys metrics dimensions
              ++ chart_issues t)
            h))

pub metric-IsLinked :
    ⦃u : Unicode⦄ (sqlglot : Sqlglot) (dimensions grains : List Text) (m : SemanticMetricDefinition)
    → accepts (validate_metric_definition sqlglot m dimensions grains) ≡ true
    → IsLinkedMetric dimensions m
unfolding IsAcceptable
metric-IsLinked sqlglot dimensions grains m h =
    let (_, _, _, _, _, d, f) =
      (validate_metric_definition-IsAcceptable_iff sqlglot dimensions grains m).0 h in
    (d, f)
