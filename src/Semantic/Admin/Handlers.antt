-- ===== src/Semantic/Admin/Handlers.antt =====
-- The handlers of terms, examples and templates, and the operations together.
use Prim.Native.Nat.{ℕ}
use mathlib.Core.Bool.{Bool, not}
use mathlib.Core.Option.{Option, none, some}
use mathlib.Core.List.{List, [], ◌∷◌, ◌++◌, map}
use drivee_tolmach.Common.{
  Text, codes, Unicode, strip, lower, filter, nat_eq, same_list, same_ℕ, if◌then◌else◌,
}
use drivee_tolmach.Guardrails.Statement.{Sqlglot}
use drivee_tolmach.Semantic.Catalog.{Row, SemanticMetricDefinition, SemanticDimensionDefinition}
use drivee_tolmach.Semantic.Validators.{
  Term, Example, Template, validate_term_definition, validate_example_definition,
  validate_approved_template_definition,
}
use drivee_tolmach.Semantic.Store.{
  Store, Reply, replied, failed, ◌>>=◌, ◌>>◌, http_if, or_missing, valid, with_terms, with_examples,
  with_templates, get_row, exists_row, put_row, drop_row,
}
use drivee_tolmach.Semantic.Admin.Patches.{
  TermPatch, ExamplePatch, TemplatePatch, patched_term, patched_example, patched_template,
}
use drivee_tolmach.Semantic.Admin.{
  MetricPatch, DimensionPatch, or_kept, term_key, template_key, active_metrics, active_dimensions,
  create_metric, update_metric, delete_metric, create_dimension, update_dimension, delete_dimension,
}

-- A term that another row has breaks the constraint of the table.
unfoldable pub unless_taken : (taken : Bool) → Store → Reply Store
unless_taken taken s = if taken then failed "IntegrityError" else replied s

module _ ⦃u : Unicode⦄ where
  -- A term is stored stripped and in lower case.
  abbrev pub stored_term : Term → Term
  stored_term t = record {
    term = lower (strip t.term);
    aliases = t.aliases;
    mapped_entity_type = t.mapped_entity_type;
    mapped_entity_key = t.mapped_entity_key;
  }

  -- `get_semantic_term(db, term.strip().lower())`
  abbrev pub sought_term : Text → Text
  sought_term term = lower (lower (strip term))

  unfoldable pub create_term : Term → (is_active : Bool) → (user : ℕ) → Store → Reply Store
  create_term t is_active user s =
      valid (validate_term_definition t (active_metrics s) (active_dimensions s))
      >> (http_if (exists_row term_key (sought_term t.term) s.terms) 409
            (codes "Semantic term already exists.")
          >> replied (
              with_terms
                (s.terms
                  ++ record { definition = stored_term t; is_active = is_active; updated_by = user }
                    ∷ [])
                s))

  unfoldable pub update_term : Text → TermPatch → (user : ℕ) → Store → Reply Store
  update_term term patch user s =
      or_missing (get_row term_key (sought_term term) s.terms) (codes "Semantic term not found.")
      >>= λ row.
          let merged = patched_term patch row.definition in
          let new = stored_term merged in
          let taken = exists_row term_key new.term (drop_row term_key (sought_term term) s.terms) in
          valid (validate_term_definition merged (active_metrics s) (active_dimensions s))
          >> unless_taken taken (
              with_terms
                (put_row term_key (sought_term term)
                  (record {
                    definition = new;
                    is_active = or_kept patch.is_active row.is_active;
                    updated_by = user;
                  })
                  s.terms)
                s)

  unfoldable pub delete_term : Text → Store → Reply Store
  delete_term term s =
      or_missing (get_row term_key (sought_term term) s.terms) (codes "Semantic term not found.")
      >>= λ row. replied (with_terms (drop_row term_key (sought_term term) s.terms) s)

  -- A new example gets the id that the database draws.
  unfoldable pub create_example :
      (id : ℕ) → Example → (is_active : Bool) → (user : ℕ) → Store → Reply Store
  create_example id e is_active user s =
      valid (validate_example_definition e (active_metrics s) (active_dimensions s))
      >> replied (
          with_examples
            (s.examples
              ++ (id, record { definition = e; is_active = is_active; updated_by = user }) ∷ [])
            s)

unfoldable pub get_example : ℕ → List (ℕ × Row Example) → Option (Row Example)
get_example id [] = none
get_example id ((j, row) ∷ rows) = if nat_eq j id then some row else get_example id rows

unfoldable pub put_example : ℕ → Row Example → List (ℕ × Row Example) → List (ℕ × Row Example)
put_example id new rows = map (λ row. if nat_eq row.0 id then (id, new) else row) rows

unfoldable pub drop_example : ℕ → List (ℕ × Row Example) → List (ℕ × Row Example)
drop_example id rows = filter (λ row. not (nat_eq row.0 id)) rows

module _ ⦃u : Unicode⦄ where
  unfoldable pub update_example : ℕ → ExamplePatch → (user : ℕ) → Store → Reply Store
  update_example id patch user s =
      or_missing (get_example id s.examples) (codes "Semantic example not found.") >>= λ row.
      let merged = patched_example patch row.definition in
      valid (validate_example_definition merged (active_metrics s) (active_dimensions s))
      >> replied (
          with_examples
            (put_example id
              (record {
                definition = merged;
                is_active = or_kept patch.is_active row.is_active;
                updated_by = user;
              })
              s.examples)
            s)

unfoldable pub delete_example : ℕ → Store → Reply Store
delete_example id s =
    or_missing (get_example id s.examples) (codes "Semantic example not found.") >>= λ row.
    replied (with_examples (drop_example id s.examples) s)

unfoldable pub create_template : Template → (is_active : Bool) → (user : ℕ) → Store → Reply Store
create_template t is_active user s =
    valid (validate_approved_template_definition t (active_metrics s) (active_dimensions s))
    >> (http_if (exists_row template_key t.template_key s.templates) 409
          (codes "Approved template already exists.")
        >> replied (
            with_templates
              (s.templates
                ++ record { definition = t; is_active = is_active; updated_by = user } ∷ [])
              s))

unfoldable pub update_template : Text → TemplatePatch → (user : ℕ) → Store → Reply Store
update_template key patch user s =
    or_missing (get_row template_key key s.templates) (codes "Approved template not found.")
    >>= λ row.
        let merged = patched_template patch row.definition in
        valid
          (validate_approved_template_definition merged (active_metrics s) (active_dimensions s))
        >> replied (
            with_templates
              (put_row template_key key
                (record {
                  definition = merged;
                  is_active = or_kept patch.is_active row.is_active;
                  updated_by = user;
                })
                s.templates)
              s)

unfoldable pub delete_template : Text → Store → Reply Store
delete_template key s =
    or_missing (get_row template_key key s.templates) (codes "Approved template not found.")
    >>= λ row. replied (with_templates (drop_row template_key key s.templates) s)

-- The administration, one handler at a time
pub data Operation : Type 0 where
  creates_metric : SemanticMetricDefinition → Bool → ℕ → Operation
  updates_metric : Text → MetricPatch → ℕ → Operation
  deletes_metric : Text → Operation
  creates_dimension : SemanticDimensionDefinition → Bool → ℕ → Operation
  updates_dimension : Text → DimensionPatch → ℕ → Operation
  deletes_dimension : Text → Operation
  creates_term : Term → Bool → ℕ → Operation
  updates_term : Text → TermPatch → ℕ → Operation
  deletes_term : Text → Operation
  creates_example : ℕ → Example → Bool → ℕ → Operation
  updates_example : ℕ → ExamplePatch → ℕ → Operation
  deletes_example : ℕ → Operation
  creates_template : Template → Bool → ℕ → Operation
  updates_template : Text → TemplatePatch → ℕ → Operation
  deletes_template : Text → Operation

module _ ⦃u : Unicode⦄ (sqlglot : Sqlglot) where
  unfoldable pub handle : Operation → Store → Reply Store
  handle (creates_metric m is_active user) s = create_metric sqlglot m is_active user s
  handle (updates_metric key patch user) s = update_metric sqlglot key patch user s
  handle (deletes_metric key) s = delete_metric key s
  handle (creates_dimension d is_active user) s = create_dimension sqlglot d is_active user s
  handle (updates_dimension key patch user) s = update_dimension sqlglot key patch user s
  handle (deletes_dimension key) s = delete_dimension key s
  handle (creates_term t is_active user) s = create_term t is_active user s
  handle (updates_term term patch user) s = update_term term patch user s
  handle (deletes_term term) s = delete_term term s
  handle (creates_example id e is_active user) s = create_example id e is_active user s
  handle (updates_example id patch user) s = update_example id patch user s
  handle (deletes_example id) s = delete_example id s
  handle (creates_template t is_active user) s = create_template t is_active user s
  handle (updates_template key patch user) s = update_template key patch user s
  handle (deletes_template key) s = delete_template key s
