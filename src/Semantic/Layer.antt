-- ===== src/Semantic/Layer.antt =====
-- `validate_semantic_layer` of backend/app/semantic/service.py. The rows of a store stand in the order in
-- which the queries list them.
use mathlib.Core.Path.{◌≡◌}
use mathlib.Core.Bool.{true}
use mathlib.Core.List.{List, [], ◌∷◌, ◌++◌}
use drivee_tolmach.Common.{Unicode, All}
use drivee_tolmach.Settings.{allowed_analytics_tables}
use drivee_tolmach.Guardrails.Statement.{Sqlglot}
use drivee_tolmach.Semantic.Errors.{
  Compiled, compiled, refused, crashed, ◌>>=◌, pure, Gives, Gives-pure, Gives-bind, Gives-compiled,
}
use drivee_tolmach.Semantic.Fragments.{Report, ok}
use drivee_tolmach.Semantic.Validators.{
  validate_metric_definition, validate_dimension_definition, validate_term_definition,
  validate_example_definition, validate_approved_template_definition,
}
use drivee_tolmach.Semantic.Validators.Verdicts.{accepts}
use drivee_tolmach.Semantic.Store.{Store}
use drivee_tolmach.Semantic.Store.Rows.{All-weaken}
use drivee_tolmach.Semantic.Admin.{active_metrics, active_dimensions, supported_grains}
use drivee_tolmach.Semantic.Linked.{
  IsLinked, all_metrics, all_dimensions, IsLinkedExample, IsLinkedTemplate,
}
use drivee_tolmach.Semantic.Linked.Reports.{front, behind, metric-IsLinked}
use drivee_tolmach.Semantic.Linked.Tables.{
  IsLinkedMetric-more, active_is_known, known_example, known_template,
}

-- `for item in items: issues.extend(validate(item).issues)`, where the validator may raise
unfoldable pub extended {ℓ} : {A : Type ℓ} → (A → Compiled Report) → List A → Compiled Report
extended validate [] = pure []
extended validate (item ∷ items) =
    validate item >>= λ issues. extended validate items >>= λ rest. pure (issues ++ rest)

-- and where it does not
unfoldable pub collected {ℓ} : {A : Type ℓ} → (A → Report) → List A → Report
collected validate [] = []
collected validate (item ∷ items) = validate item ++ collected validate items

module _ ⦃u : Unicode⦄ where
  -- the issues of the tables whose validators do not raise
  unfoldable pub mapped_issues : Store → Report
  mapped_issues s =
      collected
        (λ row. validate_term_definition row.definition (active_metrics s) (active_dimensions s))
        s.terms
      ++ (collected
            (λ row.
              validate_example_definition row.1.definition (active_metrics s) (active_dimensions s))
            s.examples
          ++ collected
              (λ row.
                validate_approved_template_definition row.definition (active_metrics s)
                  (active_dimensions s))
              s.templates)

module _ ⦃u : Unicode⦄ (sqlglot : Sqlglot) where
  unfoldable pub validate_semantic_layer : Store → Compiled Report
  validate_semantic_layer s =
      extended
        (λ row.
          validate_metric_definition sqlglot row.definition (active_dimensions s) supported_grains)
        s.metrics
      >>= λ metrics.
          extended
            (λ row. validate_dimension_definition sqlglot row.definition allowed_analytics_tables)
            s.dimensions
          >>= λ dimensions. pure (metrics ++ (dimensions ++ mapped_issues s))

-- Where the issues of all items have no error, each item is accepted.
accepts-Gives : (m : Compiled Report) → Gives (λ issues. ok issues ≡ true → accepts m ≡ true) m
unfolding Gives
accepts-Gives (compiled issues) = λ h. h
accepts-Gives (refused reason) = tt
accepts-Gives (crashed class_name) = tt

extended-Gives {ℓ} :
    {A : Type ℓ} (validate : A → Compiled Report) (items : List A)
    → Gives
        (λ issues. ok issues ≡ true → All (λ item. accepts (validate item) ≡ true) items)
        (extended validate items)
unfolding extended
extended-Gives validate [] =
    Gives-pure (λ issues. ok issues ≡ true → All (λ item. accepts (validate item) ≡ true) []) []
      (λ h. tt)
extended-Gives validate (item ∷ items) =
    Gives-bind _ _ (validate item) _ (accepts-Gives (validate item)) λ issues first.
      Gives-bind _ _ (extended validate items) _ (extended-Gives validate items) λ rest later.
        Gives-pure _ (issues ++ rest)
          (λ h. (first (front issues rest h), later (behind issues rest h)))

collected-ok {ℓ} :
    {A : Type ℓ} (validate : A → Report) (items : List A)
    → ok (collected validate items) ≡ true
    → All (λ item. ok (validate item) ≡ true) items
unfolding collected
collected-ok validate [] h = tt
collected-ok validate (item ∷ items) h = (
  front (validate item) (collected validate items) h,
  collected-ok validate items (behind (validate item) (collected validate items) h),
)

module _ ⦃u : Unicode⦄ (s : Store) where
  mapped_issues-ok :
      ok (mapped_issues s) ≡ true
      → All (λ row. IsLinkedExample (all_metrics s) (all_dimensions s) row.1.definition) s.examples
        × All
            (λ row. IsLinkedTemplate (all_metrics s) (all_dimensions s) row.definition)
            s.templates
  unfolding mapped_issues
  mapped_issues-ok h =
      let later = behind (collected _ s.terms) _ h in
      (
        All-weaken _ _ s.examples (λ row. known_example s row.1.definition)
            (collected-ok _ s.examples
              (front (collected _ s.examples) (collected _ s.templates) later)),
        All-weaken _ _ s.templates (λ row. known_template s row.definition)
            (collected-ok _ s.templates
              (behind (collected _ s.examples) (collected _ s.templates) later)),
      )

module _ ⦃u : Unicode⦄ (sqlglot : Sqlglot) (s : Store) where
  -- What a layer without an error is
  abbrev pub IsValidLayer : Type 0
  IsValidLayer =
      All
        (λ row.
          accepts (
            validate_metric_definition sqlglot row.definition (active_dimensions s)
              supported_grains)
          ≡ true)
        s.metrics
      × All
          (λ row.
            accepts (validate_dimension_definition sqlglot row.definition allowed_analytics_tables)
            ≡ true)
          s.dimensions
      × IsLinked s

  layer-Gives :
      Gives (λ report. ok report ≡ true → IsValidLayer) (validate_semantic_layer sqlglot s)
  unfolding validate_semantic_layer IsLinked
  layer-Gives =
      Gives-bind _ _ (extended _ s.metrics) _ (extended-Gives _ s.metrics) λ metrics accepted.
        Gives-bind _ _ (extended _ s.dimensions) _ (extended-Gives _ s.dimensions)
          λ dimensions defined.
            Gives-pure (λ report. ok report ≡ true → IsValidLayer)
              (metrics ++ (dimensions ++ mapped_issues s))
              λ h.
                let later = behind metrics (dimensions ++ mapped_issues s) h in
                let rows = accepted (front metrics (dimensions ++ mapped_issues s) h) in
                let (examples, templates) =
                  mapped_issues-ok s (behind dimensions (mapped_issues s) later) in
                (
                  rows,
                  defined (front dimensions (mapped_issues s) later),
                  (
                    All-weaken _ _ s.metrics
                        (λ row ok. IsLinkedMetric-more _ _ (active_is_known s) row.definition (
                          metric-IsLinked sqlglot (active_dimensions s) supported_grains
                            row.definition ok))
                        rows,
                    examples,
                    templates,
                  ),
                )

  -- When the validation of the whole layer reports no error, every metric and every dimension passes its
  -- validator, every dimension and filter that a metric allows is that of a row, and so are the metric,
  -- the dimensions and the filters of every example and of every approved template.
  pub validate_semantic_layer-IsValidLayer :
      (report : Report)
      → validate_semantic_layer sqlglot s ≡ compiled report
      → ok report ≡ true
      → IsValidLayer
  validate_semantic_layer-IsValidLayer report e h =
      Gives-compiled (λ report. ok report ≡ true → IsValidLayer) _ report layer-Gives e h
