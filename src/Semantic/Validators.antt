-- ===== src/Semantic/Validators.antt =====
-- The validators of backend/app/semantic/validators.py. A payload is the definition that it describes; a
-- value that is None or absent is empty.
pub mod Verdicts
pub mod Fragment
pub mod Accepted
pub mod Filled
use Prim.Native.String.{String}
use mathlib.Core.Bool.{Bool, true, false, not, ◌&&◌, ◌||◌}
use mathlib.Core.List.{List, [], ◌∷◌, ◌++◌, map}
use drivee_tolmach.Common.{
  Text, codes, Unicode, strip, lower, elem, filter, is_empty, nat_eq, drop_end, ◌==◌, same_list,
  same_ℕ, if◌then◌else◌,
}
use drivee_tolmach.Json.{Json}
use drivee_tolmach.Guardrails.Statement.{Sqlglot}
use drivee_tolmach.Semantic.Errors.{Compiled, ◌>>=◌, pure}
use drivee_tolmach.Semantic.Catalog.{SemanticMetricDefinition, SemanticDimensionDefinition}
use drivee_tolmach.Semantic.Fragments.{
  Level, error, warning, Report, issue, issue_if, validate_key, validate_expression_fragment,
  validate_join_path,
}

abbrev pub safe_entity_types : List Text
safe_entity_types = codes "metric" ∷ codes "dimension" ∷ codes "filter" ∷ []

abbrev pub safe_data_types : List Text
safe_data_types =
    codes "string"
    ∷ codes "integer"
    ∷ codes "numeric"
    ∷ codes "date"
    ∷ codes "timestamp"
    ∷ codes "boolean"
    ∷ []

abbrev pub safe_chart_types : List Text
safe_chart_types =
    codes "table_only"
    ∷ codes "bar"
    ∷ codes "line"
    ∷ codes "grouped_bar"
    ∷ codes "area"
    ∷ codes "pie"
    ∷ []

-- `payload.get(...) or "table_only"`
abbrev pub or_table_only : Text → Text
or_table_only [] = codes "table_only"
or_table_only (c ∷ s) = c ∷ s

-- An issue for each value that is not among the known keys
unfoldable pub unknown_values : (Text → Report) → List Text → List Text → Report
unknown_values report known [] = []
unknown_values report known (value ∷ values) =
    issue_if (not (elem value known)) (report value) ++ unknown_values report known values

abbrev pub unknown_reference : String → String → Text → Text → Report
unknown_reference code field key value =
    issue code "metric" key
      (codes field ++ (codes " references unknown dimension/filter key " ++ (value ++ codes ".")))

module _ ⦃u : Unicode⦄ where
  unfoldable pub validate_metric_definition :
      Sqlglot → SemanticMetricDefinition → List Text → List Text → Compiled Report
  validate_metric_definition sqlglot payload dimension_keys supported_grains =
      let key = payload.metric_key in
      let chart = or_table_only payload.default_chart in
      validate_expression_fragment sqlglot "metric" key payload.sql_expression_template
      >>= λ fragment. pure (
          validate_key "metric" key
          ++ (issue_if (is_empty (strip payload.description))
                (issue "missing_description" "metric" key (codes "Description is required."))
              ++ (issue_if (not (elem payload.grain supported_grains)) (
                    issue "unsupported_grain" "metric" key
                      (codes "Unsupported grain: " ++ (payload.grain ++ codes ".")))
                  ++ (issue_if (not (elem chart safe_chart_types)) (
                        issue "unsupported_chart" "metric" key
                          (codes "Unsupported chart type: " ++ (chart ++ codes ".")))
                      ++ (fragment
                          ++ (unknown_values
                                (unknown_reference "unknown_allowed_dimension" "allowed_dimensions"
                                  key)
                                dimension_keys payload.allowed_dimensions
                              ++ unknown_values
                                  (unknown_reference "unknown_allowed_filter" "allowed_filters" key)
                                  dimension_keys payload.allowed_filters))))))

  -- The issues of a dimension that are not about its SQL
  unfoldable pub dimension_issues : SemanticDimensionDefinition → List Text → Report
  dimension_issues payload allowed_tables =
      let key = payload.dimension_key in
      let table_name = strip payload.table_name in
      let data_type = lower (strip payload.data_type) in
      validate_key "dimension" key
      ++ (issue_if (not (table_name == codes "__grain__") && not (elem table_name allowed_tables)) (
            issue "unknown_table" "dimension" key (
              codes "Dimension table_name must be one of allowed analytics tables or __grain__: "
              ++ table_name))
          ++ issue_if (not (elem data_type safe_data_types)) (
              issue "unsupported_data_type" "dimension" key
                (codes "Unsupported data_type: " ++ (data_type ++ codes "."))))

  unfoldable pub validate_dimension_definition :
      Sqlglot → SemanticDimensionDefinition → List Text → Compiled Report
  validate_dimension_definition sqlglot payload allowed_tables =
      let key = payload.dimension_key in
      validate_expression_fragment sqlglot "dimension" key payload.column_name >>= λ fragment.
      validate_join_path sqlglot "dimension" key payload.join_path >>= λ joined.
      pure (dimension_issues payload allowed_tables ++ (fragment ++ joined))

-- The columns of semantic_terms, semantic_examples and approved_templates
pub record Term : Type 0 where
  pub term : Text
  pub aliases : List Text
  pub mapped_entity_type : Text
  pub mapped_entity_key : Text

pub record Example : Type 0 where
  pub title : Text
  pub natural_text : Text
  pub metric_key : Text
  pub dimension_keys : List Text
  pub filter_keys : List Text
  pub canonical_intent_json : Json
  pub sql_example : Text
  pub domain_tag : Text

pub record Template : Type 0 where
  pub template_key : Text
  pub title : Text
  pub description : Text
  pub natural_text : Text
  pub metric_key : Text
  pub dimension_keys : List Text
  pub filter_keys : List Text
  pub canonical_intent_json : Json
  pub chart_type : Text
  pub category : Text

-- The issues of the references of an example or of a template
abbrev pub unknown_dimension_key : String → Text → Text → Report
unknown_dimension_key kind key value =
    issue "unknown_dimension" kind key (codes "Unknown dimension key " ++ (value ++ codes "."))

abbrev pub unknown_filter_key : String → Text → Text → Report
unknown_filter_key kind key value =
    issue "unknown_filter" kind key (codes "Unknown filter key " ++ (value ++ codes "."))

unfoldable pub reference_issues :
    String
    → Text
    → (metric_key : Text) → (dimension_keys filter_keys : List Text)
    → (metrics dimensions : List Text) → Report
reference_issues kind key metric_key dimension_keys filter_keys metrics dimensions =
    issue_if (not (elem metric_key metrics))
      (issue "unknown_metric" kind key (codes "Unknown metric_key " ++ (metric_key ++ codes ".")))
    ++ (unknown_values (unknown_dimension_key kind key) dimensions dimension_keys
        ++ unknown_values (unknown_filter_key kind key) dimensions filter_keys)

-- `a or b`
abbrev or_key : Text → Text → Text
or_key [] b = b
or_key (c ∷ s) b = c ∷ s

module _ ⦃u : Unicode⦄ where
  unfoldable pub validate_term_definition : Term → List Text → List Text → Report
  validate_term_definition payload metric_keys dimension_keys =
      let key = lower (strip payload.term) in
      let kind = lower (strip payload.mapped_entity_type) in
      let entity = strip payload.mapped_entity_key in
      let pool = if kind == codes "metric" then metric_keys else dimension_keys in
      issue_if (is_empty key) (issue "blank_term" "term" key (codes "Term must not be empty."))
      ++ (issue_if (not (elem kind safe_entity_types)) (
            issue "unsupported_entity_type" "term" (or_key key entity)
              (codes "Unsupported mapped_entity_type: " ++ (kind ++ codes ".")))
          ++ issue_if (elem kind safe_entity_types && not (elem entity pool)) (
              issue "unknown_mapped_entity" "term" (or_key key entity) (
                codes "mapped_entity_key "
                ++ (entity ++ (codes " does not exist for entity type " ++ (kind ++ codes "."))))))

  abbrev warn : String → Text → Text → Report
  warn code key message =
      record {
        level = warning;
        code = code;
        entity_type = "example";
        entity_key = key;
        message = message;
      }
      ∷ []

  -- What the SQL of an example is remarked on
  abbrev pub sql_issues : Text → Text → Report
  sql_issues key sql =
      if is_empty sql
      then issue "blank_sql_example" "example" key (codes "sql_example is required.")
      else if elem b';' (drop_end (λ c. nat_eq c b';') sql)
      then warn "semicolon_sql_example" key (codes "sql_example contains semicolons.")
      else []

  unfoldable pub validate_example_definition : Example → List Text → List Text → Report
  validate_example_definition payload metric_keys dimension_keys =
      reference_issues "example" payload.title payload.metric_key payload.dimension_keys
        payload.filter_keys metric_keys dimension_keys
      ++ sql_issues payload.title (strip payload.sql_example)

-- The issue of the chart of a template
unfoldable pub chart_issues : Template → Report
chart_issues payload =
    let chart = or_table_only payload.chart_type in
    issue_if (not (elem chart safe_chart_types)) (
      issue "unsupported_chart" "approved_template" payload.template_key
        (codes "Unsupported chart type " ++ (chart ++ codes ".")))

unfoldable pub validate_approved_template_definition : Template → List Text → List Text → Report
validate_approved_template_definition payload metric_keys dimension_keys =
    validate_key "approved_template" payload.template_key
    ++ (reference_issues "approved_template" payload.template_key payload.metric_key
          payload.dimension_keys payload.filter_keys metric_keys dimension_keys
        ++ chart_issues payload)
