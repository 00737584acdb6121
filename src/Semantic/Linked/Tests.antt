-- ===== src/Semantic/Linked/Tests.antt =====
-- Runs of the handlers of the semantic layer, and the invariant at a store that meets its hypotheses.
use mathlib.Core.Path.{◌≡◌, refl}
use mathlib.Core.Bool.{true}
use mathlib.Core.List.{[], ◌∷◌}
use drivee_tolmach.Common.{
  Text, codes, Unicode, ascii_tables, is_space, strip, lower, elem, is_word, same_list, same_ℕ,
}
use drivee_tolmach.Json.{null}
use drivee_tolmach.Guardrails.Statement.{Sqlglot, returned}
use drivee_tolmach.Guardrails.Tests.{statement}
use drivee_tolmach.Semantic.Catalog.{SemanticMetricDefinition, SemanticDimensionDefinition}
use drivee_tolmach.Semantic.Fragments.{issue_if, ends_key, is_safe_key, validate_key}
use drivee_tolmach.Semantic.Validators.{
  Template, Term, unknown_values, reference_issues, chart_issues,
  validate_approved_template_definition,
}
use drivee_tolmach.Semantic.Store.{
  Store, replied, http_error, says, ◌>>=◌, http_if, or_missing, valid, get_row, exists_row,
  drop_row,
}
use drivee_tolmach.Semantic.Admin.{
  ensure_dimension_can_be_deleted, ensure_metric_can_be_deleted, delete_metric, delete_dimension,
}
use drivee_tolmach.Semantic.Admin.Handlers.{
  creates_template, deletes_metric, deletes_dimension, create_template, handle,
}
use drivee_tolmach.Semantic.Linked.{IsLinked, untouched, handled}
use drivee_tolmach.Semantic.Linked.Invariant.{Administered-IsLinked}
use drivee_tolmach.Semantic.Mapped.{metrics_of, IsMetricStep}
use drivee_tolmach.Semantic.Mapped.Refined.{handle-IsMetricStep}
use drivee_tolmach.Semantic.Errors as semantic
use drivee_tolmach.Semantic.Layer.{
  IsValidLayer, extended, collected, mapped_issues, validate_semantic_layer,
  validate_semantic_layer-IsValidLayer,
}
use drivee_tolmach.Semantic.Template.{format, scan, output, next_mode, emit, field}
use drivee_tolmach.Guardrails.Patterns.{
  search_word, word_here, match_word, boundary, ends_word, starts_word,
}
use drivee_tolmach.Semantic.Fragments.{
  starts_with, match_exact, search_exact, fragment_issues, parse_fragment,
  validate_expression_fragment, parse_join, validate_join_path,
}
use drivee_tolmach.Semantic.Validators.{
  dimension_issues, validate_metric_definition, validate_dimension_definition,
  validate_term_definition,
}
use drivee_tolmach.Common.{fold, lookup}

instance abbrev tables : Unicode
tables = ascii_tables

abbrev sqlglot : Sqlglot
sqlglot = record { parse = λ s. returned (statement ∷ []); parse_one = λ s. returned statement }

abbrev revenue : SemanticMetricDefinition
revenue = record {
  metric_key = codes "revenue";
  business_name = codes "Revenue";
  description = codes "Sum of prices";
  sql_expression_template = codes "SUM({base_alias}.price)";
  grain = codes "order";
  allowed_dimensions = codes "city" ∷ [];
  allowed_filters = codes "city" ∷ [];
  default_chart = codes "bar";
  safety_tags = [];
}

abbrev named : Text → SemanticDimensionDefinition
named key = record {
  dimension_key = key;
  business_name = key;
  table_name = codes "dim.cities";
  column_name = codes "name";
  join_path =
      codes "JOIN dim.cities {dimension_alias} ON {dimension_alias}.id = {base_alias}.city_id";
  data_type = codes "string";
}

abbrev by_city : Template
by_city = record {
  template_key = codes "revenue_by_city";
  title = codes "Revenue by city";
  description = [];
  natural_text = codes "revenue by city";
  metric_key = codes "revenue";
  dimension_keys = codes "city" ∷ [];
  filter_keys = [];
  canonical_intent_json = null;
  chart_type = codes "bar";
  category = codes "general";
}

-- A term for the filter by channel
abbrev channel_term : Term
channel_term = record {
  term = codes "channel";
  aliases = [];
  mapped_entity_type = codes "filter";
  mapped_entity_key = codes "channel";
}

abbrev before : Store
before = record {
  metrics = record { definition = revenue; is_active = true; updated_by = 1 } ∷ [];
  dimensions =
      record { definition = named (codes "city"); is_active = true; updated_by = 1 }
      ∷ record { definition = named (codes "channel"); is_active = true; updated_by = 1 }
      ∷ [];
  terms = record { definition = channel_term; is_active = true; updated_by = 1 } ∷ [];
  examples = [];
  templates = [];
}

abbrev with_template : Store
with_template = record {
  metrics = before.metrics;
  dimensions = before.dimensions;
  terms = before.terms;
  examples = [];
  templates = record { definition = by_city; is_active = true; updated_by = 2 } ∷ [];
}

opened : Unit {0}
unfolding is_space strip lower elem is_word issue_if ends_key is_safe_key validate_key
    unknown_values reference_issues chart_issues validate_approved_template_definition ◌>>=◌ http_if
    or_missing valid get_row exists_row drop_row ensure_dimension_can_be_deleted
    ensure_metric_can_be_deleted delete_metric delete_dimension create_template handle
opened = tt

created : handle sqlglot (creates_template by_city true 2) before ≡ replied with_template
unfolding opened
created = refl

-- What a template refers to is not deleted.
refused_deletions :
    (handle sqlglot (deletes_metric (codes "revenue")) with_template
      ≡ http_error 409 (says (codes "Metric is referenced by approved_templates.")))
    × (handle sqlglot (deletes_dimension (codes "city")) with_template
        ≡ http_error 409 (says (codes "Dimension is referenced by metric_catalog.")))
unfolding opened
refused_deletions = (refl, refl)

-- The dimension that a term of type "filter" maps to is deleted, and the term stays.
dangling_filter :
    handle sqlglot (deletes_dimension (codes "channel")) with_template
    ≡ replied (record {
      metrics = with_template.metrics;
      dimensions =
          record { definition = named (codes "city"); is_active = true; updated_by = 1 } ∷ [];
      terms = with_template.terms;
      examples = [];
      templates = with_template.templates;
    })
unfolding opened
dangling_filter = refl

before-IsLinked : IsLinked before
unfolding IsLinked elem
before-IsLinked = ((((refl, tt), (refl, tt)), tt), tt, tt)

Administered-IsLinked_example : IsLinked with_template
Administered-IsLinked_example =
    Administered-IsLinked sqlglot before with_template
      (handled (creates_template by_city true 2) untouched created) before-IsLinked

abbrev without_metric : Store
without_metric = record {
  metrics = [];
  dimensions = before.dimensions;
  terms = before.terms;
  examples = [];
  templates = [];
}

removed : handle sqlglot (deletes_metric (codes "revenue")) before ≡ replied without_metric
unfolding opened
removed = refl

handle-IsMetricStep_example :
    IsMetricStep (deletes_metric (codes "revenue")) (metrics_of before) (metrics_of without_metric)
handle-IsMetricStep_example =
    handle-IsMetricStep sqlglot (deletes_metric (codes "revenue")) before without_metric removed

read_over : Unit {0}
unfolding opened fold lookup format scan output next_mode emit field search_word word_here
    match_word boundary ends_word starts_word starts_with match_exact search_exact fragment_issues
    parse_fragment validate_expression_fragment parse_join validate_join_path dimension_issues
    validate_metric_definition validate_dimension_definition validate_term_definition extended
    collected mapped_issues validate_semantic_layer semantic.◌>>=◌
read_over = tt

flawless : validate_semantic_layer sqlglot with_template ≡ semantic.compiled []
unfolding read_over
flawless = refl

validate_semantic_layer-IsValidLayer_example : IsValidLayer sqlglot with_template
validate_semantic_layer-IsValidLayer_example =
    validate_semantic_layer-IsValidLayer sqlglot with_template [] flawless refl
