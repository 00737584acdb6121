-- ===== src/Semantic/Validators/Accepted.antt =====
-- The metrics that validate_metric_definition finds no error in.
use mathlib.Core.Path.{◌≡◌, refl, sym, ◌∙◌}
use mathlib.Core.Logic.{◌↔◌}
use mathlib.Core.Bool.{Bool, true, false, not, ◌&&◌}
use mathlib.Core.List.{List}
use native.Mathlib.Omega.{arith}
use drivee_tolmach.Common.{Text, Unicode, strip, elem, is_empty, all, All, same_list, same_ℕ}
use drivee_tolmach.Guardrails.Statement.{Sqlglot}
use drivee_tolmach.Semantic.Catalog.{SemanticMetricDefinition}
use drivee_tolmach.Semantic.Fragments.{ok, is_safe_key, validate_key, validate_expression_fragment}
use drivee_tolmach.Semantic.Validators.{
  safe_chart_types, or_table_only, unknown_reference, validate_metric_definition,
}
use drivee_tolmach.Semantic.Validators.Verdicts.{
  accepts, ok-append, ok-issue, ok-unknown_values, all→All, All→all, accepts-bind,
}
use drivee_tolmach.Semantic.Validators.Fragment.{
  IsFragment, fragment→IsFragment, IsFragment→fragment,
}

-- The parts of the report on a metric, in any order
seven :
    (a b c d e f g : Bool)
    → (a && (b && (c && (d && (e && (f && g)))))) ≡ (e && (a && (b && (c && (d && (f && g))))))
seven true true true true e f g = refl
seven true true true false e f g = ground arith
seven true true false d e f g = ground arith
seven true false c d e f g = ground arith
seven false b c d e f g = ground arith

module _ ⦃u : Unicode⦄ (sqlglot : Sqlglot) (dimension_keys supported_grains : List Text) where
  -- What makes a metric acceptable
  unfoldable pub IsAcceptable : SemanticMetricDefinition → Type 0
  IsAcceptable m =
      (is_safe_key m.metric_key ≡ true)
      × (is_empty (strip m.description) ≡ false)
      × (elem m.grain supported_grains ≡ true)
      × (elem (or_table_only m.default_chart) safe_chart_types ≡ true)
      × IsFragment sqlglot m.sql_expression_template
      × All (λ key. elem key dimension_keys ≡ true) m.allowed_dimensions
      × All (λ key. elem key dimension_keys ≡ true) m.allowed_filters

  metric_tests : SemanticMetricDefinition → Bool
  metric_tests m =
      not (not (is_safe_key m.metric_key))
      && (not (is_empty (strip m.description))
          && (not (not (elem m.grain supported_grains))
              && (not (not (elem (or_table_only m.default_chart) safe_chart_types))
                  && (all (λ key. elem key dimension_keys) m.allowed_dimensions
                      && all (λ key. elem key dimension_keys) m.allowed_filters))))

  accepts_metric :
      (m : SemanticMetricDefinition)
      → accepts (validate_metric_definition sqlglot m dimension_keys supported_grains) ≡ (
          accepts
            (validate_expression_fragment sqlglot "metric" m.metric_key m.sql_expression_template)
          && metric_tests m)
  unfolding validate_metric_definition metric_tests validate_key
  accepts_metric m = accepts-bind _ _ (metric_tests m) (λ f.
      rw
        (
          ok-append,
          ok-append,
          ok-append,
          ok-append,
          ok-append,
          ok-append,
          ok-issue,
          ok-issue,
          ok-issue,
          ok-issue,
          ok-unknown_values
              (unknown_reference "unknown_allowed_dimension" "allowed_dimensions" m.metric_key)
              dimension_keys m.allowed_dimensions (λ v. refl),
          ok-unknown_values
              (unknown_reference "unknown_allowed_filter" "allowed_filters" m.metric_key)
              dimension_keys m.allowed_filters (λ v. refl),
        )
        (seven (not (not (is_safe_key m.metric_key))) (not (is_empty (strip m.description)))
          (not (not (elem m.grain supported_grains)))
          (not (not (elem (or_table_only m.default_chart) safe_chart_types))) (ok f)
          (all (λ key. elem key dimension_keys) m.allowed_dimensions)
          (all (λ key. elem key dimension_keys) m.allowed_filters)))

  parts_true :
      (a b c d e f g : Bool)
      → (e && (not (not a) && (not b && (not (not c) && (not (not d) && (f && g)))))) ≡ true
      → (a ≡ true) × (b ≡ false) × (c ≡ true) × (d ≡ true) × (e ≡ true) × (f ≡ true) × (g ≡ true)
  parts_true a b c d e f g h = ground arith

  parts_and :
      (a b c d e f g : Bool)
      → a ≡ true
      → b ≡ false
      → c ≡ true
      → d ≡ true
      → e ≡ true
      → f ≡ true
      → g ≡ true
      → (e && (not (not a) && (not b && (not (not c) && (not (not d) && (f && g)))))) ≡ true
  parts_and a b c d e f g ha hb hc hd he hf hg = rw (ha, hb, hc, hd, he, hf, hg) refl

  -- A metric is accepted without an error exactly if it is acceptable.
  pub validate_metric_definition-IsAcceptable_iff :
      (m : SemanticMetricDefinition)
      → (accepts (validate_metric_definition sqlglot m dimension_keys supported_grains) ≡ true)
        ↔ IsAcceptable m
  unfolding IsAcceptable metric_tests
  validate_metric_definition-IsAcceptable_iff m = (
    (λ h.
        let (a, b, c, d, e, f, g) = parts_true _ _ _ _ _ _ _ (sym (accepts_metric m) ∙ h) in
        (
          a,
          b,
          c,
          d,
          fragment→IsFragment sqlglot "metric" m.metric_key m.sql_expression_template e,
          all→All _ m.allowed_dimensions f,
          all→All _ m.allowed_filters g,
        )),
    (λ (a, b, c, d, e, f, g).
        accepts_metric m
        ∙ parts_and _ _ _ _ _ _ _ a b c d
            (IsFragment→fragment sqlglot "metric" m.metric_key m.sql_expression_template e)
            (All→all _ m.allowed_dimensions f) (All→all _ m.allowed_filters g)),
  )
