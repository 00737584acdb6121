-- ===== src/Semantic/Admin.antt =====
-- The handlers of backend/app/semantic/service.py that create, update and delete the rows of the semantic
-- layer. A payload comes with the defaults of its schema; a field of a patch is none where it is not set.
pub mod Patches
pub mod Handlers
use Prim.Native.Nat.{ℕ}
use Prim.Native.String.{String}
use mathlib.Core.Bool.{Bool, true, false, not, ◌&&◌, ◌||◌}
use mathlib.Core.Option.{Option, none, some}
use mathlib.Core.List.{List, [], ◌∷◌, ◌++◌, map}
use drivee_tolmach.Common.{
  Text, codes, Unicode, strip, lower, any, elem, ◌==◌, same_list, same_ℕ, if◌then◌else◌,
}
use drivee_tolmach.Json.{Json}
use drivee_tolmach.Settings.{allowed_analytics_tables}
use drivee_tolmach.Guardrails.Statement.{Sqlglot}
use drivee_tolmach.Semantic.Catalog.{
  Row, SemanticMetricDefinition, SemanticDimensionDefinition, grain_registry,
}
use drivee_tolmach.Semantic.Validators.{
  Term, Example, Template, validate_metric_definition, validate_dimension_definition,
}
use drivee_tolmach.Semantic.Store.{
  Store, Reply, replied, ◌>>=◌, ◌>>◌, http_if, or_missing, validated, with_metrics, with_dimensions,
  active_keys, get_row, exists_row, put_row, drop_row,
}

-- `payload.get(name, instance.name)`
abbrev pub or_kept {ℓ} : {A : Type ℓ} → Option A → A → A
or_kept (some a) kept = a
or_kept none kept = kept

abbrev pub metric_key : SemanticMetricDefinition → Text
metric_key m = m.metric_key

abbrev pub dimension_key : SemanticDimensionDefinition → Text
dimension_key d = d.dimension_key

abbrev pub term_key : Term → Text
term_key t = t.term

abbrev pub template_key : Template → Text
template_key t = t.template_key

-- The keys that a definition may refer to
abbrev pub active_metrics : Store → List Text
active_metrics s = active_keys metric_key s.metrics

abbrev pub active_dimensions : Store → List Text
active_dimensions s = active_keys dimension_key s.dimensions

abbrev pub supported_grains : List Text
supported_grains = map (λ entry. entry.0) grain_registry

pub record MetricPatch : Type 0 where
  pub business_name : Option Text
  pub description : Option Text
  pub sql_expression_template : Option Text
  pub grain : Option Text
  pub allowed_dimensions : Option (List Text)
  pub allowed_filters : Option (List Text)
  pub default_chart : Option Text
  pub safety_tags : Option (List Text)
  pub is_active : Option Bool

abbrev pub patched_metric : MetricPatch → SemanticMetricDefinition → SemanticMetricDefinition
patched_metric patch m = record {
  metric_key = m.metric_key;
  business_name = or_kept patch.business_name m.business_name;
  description = or_kept patch.description m.description;
  sql_expression_template = or_kept patch.sql_expression_template m.sql_expression_template;
  grain = or_kept patch.grain m.grain;
  allowed_dimensions = or_kept patch.allowed_dimensions m.allowed_dimensions;
  allowed_filters = or_kept patch.allowed_filters m.allowed_filters;
  default_chart = or_kept patch.default_chart m.default_chart;
  safety_tags = or_kept patch.safety_tags m.safety_tags;
}

pub record DimensionPatch : Type 0 where
  pub business_name : Option Text
  pub table_name : Option Text
  pub column_name : Option Text
  pub join_path : Option Text
  pub data_type : Option Text
  pub is_active : Option Bool

abbrev pub patched_dimension :
    DimensionPatch → SemanticDimensionDefinition → SemanticDimensionDefinition
patched_dimension patch d = record {
  dimension_key = d.dimension_key;
  business_name = or_kept patch.business_name d.business_name;
  table_name = or_kept patch.table_name d.table_name;
  column_name = or_kept patch.column_name d.column_name;
  join_path = or_kept patch.join_path d.join_path;
  data_type = or_kept patch.data_type d.data_type;
}

-- `_ensure_metric_can_be_deleted`
unfoldable pub ensure_metric_can_be_deleted : Text → Store → Reply (Unit {0})
ensure_metric_can_be_deleted key s =
    http_if (any (λ row. row.1.definition.metric_key == key) s.examples) 409
      (codes "Metric is referenced by semantic_examples.")
    >> (http_if (any (λ row. row.definition.metric_key == key) s.templates) 409
          (codes "Metric is referenced by approved_templates.")
        >> http_if
            (any
              (λ row.
                (row.definition.mapped_entity_type == codes "metric")
                && (row.definition.mapped_entity_key == key))
              s.terms)
            409 (codes "Metric is referenced by semantic_terms."))

-- `key in (dimensions or []) or key in (filters or [])`
abbrev pub refers : Text → List Text → List Text → Bool
refers key dimensions filters = elem key dimensions || elem key filters

-- `_ensure_dimension_can_be_deleted`
unfoldable pub ensure_dimension_can_be_deleted : Text → Store → Reply (Unit {0})
ensure_dimension_can_be_deleted key s =
    http_if
      (any (λ row. refers key row.definition.allowed_dimensions row.definition.allowed_filters)
        s.metrics)
      409 (codes "Dimension is referenced by metric_catalog.")
    >> (http_if
          (any
            (λ row.
              (row.definition.mapped_entity_type == codes "dimension")
              && (row.definition.mapped_entity_key == key))
            s.terms)
          409 (codes "Dimension is referenced by semantic_terms.")
        >> (http_if
              (any (λ row. refers key row.1.definition.dimension_keys row.1.definition.filter_keys)
                s.examples)
              409 (codes "Dimension is referenced by semantic_examples.")
            >> http_if
                (any (λ row. refers key row.definition.dimension_keys row.definition.filter_keys)
                  s.templates)
                409 (codes "Dimension is referenced by approved_templates.")))

module _ ⦃u : Unicode⦄ (sqlglot : Sqlglot) where
  unfoldable pub create_metric :
      SemanticMetricDefinition → (is_active : Bool) → (user : ℕ) → Store → Reply Store
  create_metric m is_active user s =
      validated (validate_metric_definition sqlglot m (active_dimensions s) supported_grains)
      >> (http_if (exists_row metric_key m.metric_key s.metrics) 409
            (codes "Metric already exists.")
          >> replied (
              with_metrics
                (s.metrics
                  ++ record { definition = m; is_active = is_active; updated_by = user } ∷ [])
                s))

  unfoldable pub update_metric : Text → MetricPatch → (user : ℕ) → Store → Reply Store
  update_metric key patch user s =
      or_missing (get_row metric_key key s.metrics) (codes "Metric not found.") >>= λ row.
      let merged = patched_metric patch row.definition in
      validated (validate_metric_definition sqlglot merged (active_dimensions s) supported_grains)
      >> replied (
          with_metrics
            (put_row metric_key key
              (record {
                definition = merged;
                is_active = or_kept patch.is_active row.is_active;
                updated_by = user;
              })
              s.metrics)
            s)

  unfoldable pub create_dimension :
      SemanticDimensionDefinition → (is_active : Bool) → (user : ℕ) → Store → Reply Store
  create_dimension d is_active user s =
      validated (validate_dimension_definition sqlglot d allowed_analytics_tables)
      >> (http_if (exists_row dimension_key d.dimension_key s.dimensions) 409
            (codes "Dimension already exists.")
          >> replied (
              with_dimensions
                (s.dimensions
                  ++ record { definition = d; is_active = is_active; updated_by = user } ∷ [])
                s))

  unfoldable pub update_dimension : Text → DimensionPatch → (user : ℕ) → Store → Reply Store
  update_dimension key patch user s =
      or_missing (get_row dimension_key key s.dimensions) (codes "Dimension not found.") >>= λ row.
      let merged = patched_dimension patch row.definition in
      validated (validate_dimension_definition sqlglot merged allowed_analytics_tables)
      >> replied (
          with_dimensions
            (put_row dimension_key key
              (record {
                definition = merged;
                is_active = or_kept patch.is_active row.is_active;
                updated_by = user;
              })
              s.dimensions)
            s)

unfoldable pub delete_metric : Text → Store → Reply Store
delete_metric key s =
    or_missing (get_row metric_key key s.metrics) (codes "Metric not found.") >>= λ row.
    ensure_metric_can_be_deleted key s
    >> replied (with_metrics (drop_row metric_key key s.metrics) s)

unfoldable pub delete_dimension : Text → Store → Reply Store
delete_dimension key s =
    or_missing (get_row dimension_key key s.dimensions) (codes "Dimension not found.") >>= λ row.
    ensure_dimension_can_be_deleted key s
    >> replied (with_dimensions (drop_row dimension_key key s.dimensions) s)
