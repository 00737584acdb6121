-- ===== src/Semantic/Catalog.antt =====
-- The governed catalog of backend/app/semantic/service.py: grains, metrics and dimensions by key. A
-- dict is an association list.
use Prim.Native.Nat.{ℕ}
use mathlib.Core.Bool.{Bool}
use mathlib.Core.Option.{Option, none}
use mathlib.Core.List.{List, [], ◌∷◌}
use drivee_tolmach.Common.{Text, codes, lookup, insert, is_empty, same_list, same_ℕ, if◌then◌else◌}
use drivee_tolmach.Semantic.Template.{Context}

pub record GrainDefinition : Type 0 where
  pub grain_key : Text
  pub source_table : Text
  pub base_alias : Text
  pub time_column : Text
  pub time_dimension_column : Text

abbrev pub grain_registry : List (Text × GrainDefinition)
grain_registry =
    (
      codes "order",
      record {
        grain_key = codes "order";
        source_table = codes "fact.orders";
        base_alias = codes "fo";
        time_column = codes "order_timestamp";
        time_dimension_column = codes "order_day";
      },
    )
    ∷ (
      codes "tender",
      record {
        grain_key = codes "tender";
        source_table = codes "fact.tenders";
        base_alias = codes "ft";
        time_column = codes "tender_timestamp";
        time_dimension_column = codes "tender_day";
      },
    )
    ∷ []

pub record SemanticMetricDefinition : Type 0 where
  pub metric_key : Text
  pub business_name : Text
  pub description : Text
  pub sql_expression_template : Text
  pub grain : Text
  pub allowed_dimensions : List Text
  pub allowed_filters : List Text
  pub default_chart : Text
  pub safety_tags : List Text

pub record SemanticDimensionDefinition : Type 0 where
  pub dimension_key : Text
  pub business_name : Text
  pub table_name : Text
  pub column_name : Text
  pub join_path : Text
  pub data_type : Text

-- A row of a table of the semantic layer: what it defines, whether it is active, and who wrote it last.
-- A list or a text that is NULL is empty.
pub record Row {ℓ} (A : Type ℓ) : Type ℓ where
  pub definition : A
  pub is_active : Bool
  pub updated_by : ℕ

abbrev pub MetricRow : Type 0
MetricRow = Row SemanticMetricDefinition

abbrev pub DimensionRow : Type 0
DimensionRow = Row SemanticDimensionDefinition

pub record SemanticCatalog : Type 0 where
  pub metrics : List (Text × SemanticMetricDefinition)
  pub dimensions : List (Text × SemanticDimensionDefinition)
  pub filters : List (Text × SemanticDimensionDefinition)

-- A key that is None is the empty text.
unfoldable pub found {ℓ} : {A : Type ℓ} → List (Text × A) → Text → Option A
unfolding lookup
found table key = if is_empty key then none else lookup key table

-- SemanticCatalog.get_metric, get_dimension and get_filter
abbrev pub get_metric : SemanticCatalog → Text → Option SemanticMetricDefinition
get_metric catalog metric_key = found catalog.metrics metric_key

abbrev pub get_dimension : SemanticCatalog → Text → Option SemanticDimensionDefinition
get_dimension catalog dimension_key = found catalog.dimensions dimension_key

abbrev pub get_filter : SemanticCatalog → Text → Option SemanticDimensionDefinition
get_filter catalog filter_key = found catalog.filters filter_key

-- `{key(row): definition(row) for row in rows if row.is_active}`, onto a dict
pub active_by {ℓ} : {A : Type ℓ} → (A → Text) → List (Text × A) → List (Row A) → List (Text × A)
unfolding insert
active_by key table [] = table
active_by key table (row ∷ rows) =
    let next = if row.is_active then insert (key row.definition) row.definition table else table in
    active_by key next rows

unfoldable pub build_semantic_catalog : List MetricRow → List DimensionRow → SemanticCatalog
unfolding active_by
build_semantic_catalog metric_rows dimension_rows =
    let dimensions = active_by (λ d. d.dimension_key) [] dimension_rows in
    record {
      metrics = active_by (λ m. m.metric_key) [] metric_rows;
      dimensions = dimensions;
      filters = dimensions;
    }

-- `_render_template`'s context
abbrev pub grain_context : GrainDefinition → Text → Context
grain_context grain dimension_alias =
    (codes "base_alias", grain.base_alias)
    ∷ (codes "dimension_alias", dimension_alias)
    ∷ (codes "time_column", grain.time_column)
    ∷ (codes "time_dimension_column", grain.time_dimension_column)
    ∷ []
