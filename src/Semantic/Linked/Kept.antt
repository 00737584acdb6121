-- ===== src/Semantic/Linked/Kept.antt =====
-- Every handler of backend/app/semantic/service.py keeps the references between the tables.
use Prim.Native.Nat.{ℕ}
use mathlib.Core.Path.{◌≡◌, refl}
use mathlib.Core.Bool.{Bool, true, false}
use mathlib.Core.List.{List}
use drivee_tolmach.Common.{Text, Unicode, All, All-append, nat_eq, same_list, same_ℕ}
use drivee_tolmach.Guardrails.Statement.{Sqlglot}
use drivee_tolmach.Semantic.Catalog.{Row, SemanticMetricDefinition, SemanticDimensionDefinition}
use drivee_tolmach.Semantic.Validators.{Term, Example, Template}
use drivee_tolmach.Semantic.Store.{Store, Reply, http_if, ◌>>=◌, ◌>>◌, drop_row}
use drivee_tolmach.Semantic.Store.Rows.{
  Leaves, Leaves-replied, Leaves-failed, Leaves-http_if, Leaves-valid, Leaves-validated,
  Leaves-or_missing, All-filter, All-replace, put_row-All,
}
use drivee_tolmach.Semantic.Admin.{
  MetricPatch, DimensionPatch, template_key, active_dimensions, supported_grains, patched_metric,
  create_metric, update_metric, delete_metric, create_dimension, update_dimension, delete_dimension,
  ensure_metric_can_be_deleted, ensure_dimension_can_be_deleted,
}
use drivee_tolmach.Semantic.Admin.Patches.{
  TermPatch, ExamplePatch, TemplatePatch, patched_example, patched_template,
}
use drivee_tolmach.Semantic.Admin.Handlers.{
  create_term, update_term, delete_term, create_example, update_example, delete_example,
  create_template, update_template, delete_template, put_example, drop_example, unless_taken,
}
use drivee_tolmach.Semantic.Linked.{IsLinked}
use drivee_tolmach.Semantic.Linked.Reports.{metric-IsLinked}
use drivee_tolmach.Semantic.Linked.Tables.{
  examples, templates, added_metric, put_metric, added_dimension, put_dimension, replaced_examples,
  replaced_templates, replaced_terms, known_example, known_template,
}
use drivee_tolmach.Semantic.Linked.Dropped.{dropped_metric, dropped_dimension}

module _ {ℓ κ} {A : Type ℓ} (P : A → Type κ) where
  pub Leaves-guards :
      (test : Bool) (status : ℕ) (detail : Text) (m : Reply (Unit {0})) (k : Reply A)
      → (test ≡ false → Leaves P (m >> k))
      → Leaves P ((http_if test status detail >> m) >> k)
  unfolding Leaves http_if ◌>>=◌
  Leaves-guards true status detail m k h = tt
  Leaves-guards false status detail m k h = h refl

pub Leaves-unless_taken :
    (P : Store → Type 0) (taken : Bool) (s : Store) → P s → Leaves P (unless_taken taken s)
unfolding unless_taken
Leaves-unless_taken P true s h = Leaves-failed P "IntegrityError"
Leaves-unless_taken P false s h = Leaves-replied P s h

put_example-All :
    (P : ℕ × Row Example → Type 0) (id : ℕ) (new : Row Example) (rows : List (ℕ × Row Example))
    → P (id, new)
    → All P rows
    → All P (put_example id new rows)
unfolding put_example
put_example-All P id new rows p h =
    All-replace P (λ row. nat_eq row.0 id) (λ _. (id, new)) rows (λ _. p) h

module _ ⦃u : Unicode⦄ (sqlglot : Sqlglot) (s : Store) (linked : IsLinked s) where
  pub create_metric-IsLinked :
      (m : SemanticMetricDefinition) (is_active : Bool) (user : ℕ)
      → Leaves IsLinked (create_metric sqlglot m is_active user s)
  unfolding create_metric
  create_metric-IsLinked m is_active user = Leaves-validated IsLinked _ _ λ ok.
      Leaves-http_if IsLinked _ _ _ _ λ new. Leaves-replied IsLinked _ (
        added_metric s linked _
          (metric-IsLinked sqlglot (active_dimensions s) supported_grains m ok))

  pub update_metric-IsLinked :
      (key : Text) (patch : MetricPatch) (user : ℕ)
      → Leaves IsLinked (update_metric sqlglot key patch user s)
  unfolding update_metric
  update_metric-IsLinked key patch user = Leaves-or_missing IsLinked _ _ _ λ row found.
      Leaves-validated IsLinked _ _ λ ok. Leaves-replied IsLinked _ (
        put_metric s linked key _ row found refl (
          metric-IsLinked sqlglot (active_dimensions s) supported_grains
            (patched_metric patch row.definition) ok))

  pub create_dimension-IsLinked :
      (d : SemanticDimensionDefinition) (is_active : Bool) (user : ℕ)
      → Leaves IsLinked (create_dimension sqlglot d is_active user s)
  unfolding create_dimension
  create_dimension-IsLinked d is_active user = Leaves-validated IsLinked _ _ λ ok.
      Leaves-http_if IsLinked _ _ _ _ λ new. Leaves-replied IsLinked _ (added_dimension s linked _)

  pub update_dimension-IsLinked :
      (key : Text) (patch : DimensionPatch) (user : ℕ)
      → Leaves IsLinked (update_dimension sqlglot key patch user s)
  unfolding update_dimension
  update_dimension-IsLinked key patch user = Leaves-or_missing IsLinked _ _ _ λ row found.
      Leaves-validated IsLinked _ _
        λ ok. Leaves-replied IsLinked _ (put_dimension s linked key _ row found refl)

module _ (s : Store) (linked : IsLinked s) where
  pub delete_metric-IsLinked : (key : Text) → Leaves IsLinked (delete_metric key s)
  unfolding delete_metric ensure_metric_can_be_deleted
  delete_metric-IsLinked key = Leaves-or_missing IsLinked _ _ _ λ row found.
      Leaves-guards IsLinked _ _ _ _ _ λ examples. Leaves-guards IsLinked _ _ _ _ _ λ templates.
        Leaves-http_if IsLinked _ _ _ _
          λ terms. Leaves-replied IsLinked _ (dropped_metric s linked key examples templates)

  pub delete_dimension-IsLinked : (key : Text) → Leaves IsLinked (delete_dimension key s)
  unfolding delete_dimension ensure_dimension_can_be_deleted
  delete_dimension-IsLinked key = Leaves-or_missing IsLinked _ _ _ λ row found.
      Leaves-guards IsLinked _ _ _ _ _ λ metrics. Leaves-guards IsLinked _ _ _ _ _ λ terms.
        Leaves-guards IsLinked _ _ _ _ _ λ examples. Leaves-http_if IsLinked _ _ _ _ λ templates.
          Leaves-replied IsLinked _ (dropped_dimension s linked key metrics examples templates)

module _ ⦃u : Unicode⦄ (s : Store) (linked : IsLinked s) where
  pub create_term-IsLinked :
      (t : Term) (is_active : Bool) (user : ℕ) → Leaves IsLinked (create_term t is_active user s)
  unfolding create_term
  create_term-IsLinked t is_active user = Leaves-valid IsLinked _ _ λ ok.
      Leaves-http_if IsLinked _ _ _ _ λ new. Leaves-replied IsLinked _ (replaced_terms s linked _)

  pub update_term-IsLinked :
      (term : Text) (patch : TermPatch) (user : ℕ) → Leaves IsLinked (update_term term patch user s)
  unfolding update_term
  update_term-IsLinked term patch user = Leaves-or_missing IsLinked _ _ _ λ row found.
      Leaves-valid IsLinked _ _ λ ok. Leaves-unless_taken IsLinked _ _ (replaced_terms s linked _)

  pub delete_term-IsLinked : (term : Text) → Leaves IsLinked (delete_term term s)
  unfolding delete_term
  delete_term-IsLinked term =
      Leaves-or_missing IsLinked _ _ _
        λ row found. Leaves-replied IsLinked _ (replaced_terms s linked _)

  pub create_example-IsLinked :
      (id : ℕ) (e : Example) (is_active : Bool) (user : ℕ)
      → Leaves IsLinked (create_example id e is_active user s)
  unfolding create_example
  create_example-IsLinked id e is_active user = Leaves-valid IsLinked _ _ λ ok.
      Leaves-replied IsLinked _ (
        replaced_examples s linked _
          (All-append _ s.examples _ (examples s linked) (known_example s e ok, tt)))

  pub update_example-IsLinked :
      (id : ℕ) (patch : ExamplePatch) (user : ℕ) → Leaves IsLinked (update_example id patch user s)
  unfolding update_example
  update_example-IsLinked id patch user = Leaves-or_missing IsLinked _ _ _ λ row found.
      Leaves-valid IsLinked _ _ λ ok. Leaves-replied IsLinked _ (
        replaced_examples s linked _ (
          put_example-All _ id _ s.examples
            (known_example s (patched_example patch row.definition) ok) (examples s linked)))

  pub delete_example-IsLinked : (id : ℕ) → Leaves IsLinked (delete_example id s)
  unfolding delete_example drop_example
  delete_example-IsLinked id = Leaves-or_missing IsLinked _ _ _ λ row found.
      Leaves-replied IsLinked _
        (replaced_examples s linked _ (All-filter _ _ s.examples (examples s linked)))

  pub create_template-IsLinked :
      (t : Template) (is_active : Bool) (user : ℕ)
      → Leaves IsLinked (create_template t is_active user s)
  unfolding create_template
  create_template-IsLinked t is_active user = Leaves-valid IsLinked _ _ λ ok.
      Leaves-http_if IsLinked _ _ _ _ λ new. Leaves-replied IsLinked _ (
        replaced_templates s linked _
          (All-append _ s.templates _ (templates s linked) (known_template s t ok, tt)))

  pub update_template-IsLinked :
      (key : Text) (patch : TemplatePatch) (user : ℕ)
      → Leaves IsLinked (update_template key patch user s)
  unfolding update_template
  update_template-IsLinked key patch user = Leaves-or_missing IsLinked _ _ _ λ row found.
      Leaves-valid IsLinked _ _ λ ok. Leaves-replied IsLinked _ (
        replaced_templates s linked _ (
          put_row-All template_key _ key _ s.templates
            (known_template s (patched_template patch row.definition) ok) (templates s linked)))

  pub delete_template-IsLinked : (key : Text) → Leaves IsLinked (delete_template key s)
  unfolding delete_template drop_row
  delete_template-IsLinked key = Leaves-or_missing IsLinked _ _ _ λ row found.
      Leaves-replied IsLinked _
        (replaced_templates s linked _ (All-filter _ _ s.templates (templates s linked)))
