-- ===== src/Semantic/Compiler.antt =====
-- backend/app/semantic/compiler.py: the SQL of a planned query. sqlglot's parser and printer are the
-- parameter of the guardrails.
pub mod Artifact
use Prim.Native.Nat.{ℕ}
use Prim.Native.String.{String}
use mathlib.Core.Bool.{Bool, true, false}
use mathlib.Core.Option.{none, some}
use mathlib.Core.List.{List, [], ◌∷◌, ◌++◌, map}
use drivee_tolmach.Common.{
  Text, codes, Unicode, strip, lower, join, show, is_empty, insert, distinct, drop_end, nat_eq,
  same_list, same_ℕ, if◌then◌else◌,
}
use drivee_tolmach.Json.{Json, str, object}
use drivee_tolmach.Settings.{Settings}
use drivee_tolmach.Guardrails.Decision.{sql_parse_error, ColumnReference}
use drivee_tolmach.Guardrails.Statement.{
  Outcome, returned, raised, Statement, Sqlglot, ColumnNode, serialize_ast, table_identifier,
}
use drivee_tolmach.Semantic.Errors.{
  Compiled, ClarificationReason, clarification_json, ◌>>=◌, pure, refuse,
}
use drivee_tolmach.Semantic.Catalog.{SemanticCatalog}
use drivee_tolmach.Semantic.Literals.{Parsers}
use drivee_tolmach.Semantic.Request.{Interpretation, RetrievalResult}
use drivee_tolmach.Semantic.Planner.{
  PlannedDimension, PlannedFilter, QueryPlannerResult, plan_sql_query,
}

-- `_render_sql`
abbrev pub render_sql : Statement → Text
render_sql s = elim s.postgres_sql [ some sql ↦ sql | none ↦ s.default_sql ]

abbrev newline : Text
newline = 10 ∷ []

-- A clause of its keyword and its items, or nothing without items.
abbrev clause : Text → Text → List Text → Text
clause keyword separator [] = []
clause keyword separator (item ∷ items) = keyword ++ join separator (item ∷ items)

abbrev order_clause : Text → Text
order_clause [] = []
order_clause (c ∷ s) = codes "ORDER BY " ++ (c ∷ s)

abbrev aliased : Text → Text → Text
aliased expression alias = expression ++ (codes " AS " ++ alias)

abbrev pub select_parts : QueryPlannerResult → List Text
select_parts plan =
    map (λ d. aliased d.select_sql d.definition.dimension_key) plan.dimensions
    ++ aliased plan.metric_expression_sql plan.metric.metric_key ∷ []

abbrev pub where_parts : QueryPlannerResult → List Text
where_parts plan = map (λ f. f.clause_sql) plan.filters ++ plan.period_clauses

abbrev pub group_parts : QueryPlannerResult → List Text
group_parts plan = map (λ d. d.group_by_sql) plan.dimensions

abbrev pub source_of : QueryPlannerResult → Text
source_of plan = plan.grain.source_table ++ (b' ' ∷ plan.grain.base_alias)

-- `_build_compiler_sql`
unfoldable pub build_compiler_sql : ⦃u : Unicode⦄ → QueryPlannerResult → Text
build_compiler_sql plan = strip (
    join newline (
      []
      ∷ codes "SELECT"
      ∷ (codes "  " ++ join (codes ", ") (select_parts plan))
      ∷ (codes "FROM " ++ source_of plan)
      ∷ join newline plan.joins
      ∷ clause (codes "WHERE ") (codes " AND ") (where_parts plan)
      ∷ clause (codes "GROUP BY ") (codes ", ") (group_parts plan)
      ∷ order_clause plan.order_by_sql
      ∷ (codes "LIMIT " ++ show plan.limit)
      ∷ []
      ∷ []))

-- SqlPlan of backend/app/ai/types.py
pub record SqlPlan : Type 0 where
  pub metric : Text
  pub metric_expression : Text
  pub source_table : Text
  pub dimensions : List Text
  pub joins : List Text
  pub filters : List Text
  pub group_by : List Text
  pub order_by : Text
  pub limit : ℕ
  pub chart_type : Text
  pub explanation : List Text
  pub metric_label : Text
  pub dimension_labels : List (Text × Text)
  pub ast_json : Json
  pub planner_notes : List Json
  pub clarification_reasons : List Json

pub record CompiledSemanticQuery : Type 0 where
  pub planner_result : QueryPlannerResult
  pub sql_plan : SqlPlan
  pub ast : Statement
  pub rendered_sql : Text
  pub source_tables : List Text
  pub column_references : List ColumnReference

unfoldable pub labels : List PlannedDimension → List (Text × Text) → List (Text × Text)
labels [] table = table
labels (d ∷ dimensions) table =
    labels dimensions (insert d.definition.dimension_key d.definition.business_name table)

abbrev pub sql_plan_of : QueryPlannerResult → Statement → SqlPlan
sql_plan_of plan ast = record {
  metric = plan.metric.metric_key;
  metric_label = plan.metric.business_name;
  metric_expression = plan.metric_expression_sql;
  source_table = source_of plan;
  dimensions = map (λ d. d.definition.dimension_key) plan.dimensions;
  dimension_labels = labels plan.dimensions [];
  joins = plan.joins;
  filters = where_parts plan;
  group_by = group_parts plan;
  order_by = plan.order_by_sql;
  limit = plan.limit;
  chart_type = plan.chart_type;
  explanation = plan.explanation;
  ast_json = serialize_ast ast;
  planner_notes = plan.planner_notes;
  clarification_reasons = map clarification_json plan.clarification_reasons;
}

module _ ⦃u : Unicode⦄ where
  abbrev pub column_reference : ColumnNode → ColumnReference
  column_reference column = record { table_alias = column.table; column_name = lower column.name }

  unfoldable pub compiled_query : QueryPlannerResult → Statement → CompiledSemanticQuery
  compiled_query plan ast = record {
    planner_result = plan;
    sql_plan = sql_plan_of plan ast;
    ast = ast;
    rendered_sql = drop_end (λ c. nat_eq c b';') (strip (render_sql ast));
    source_tables = distinct (map table_identifier ast.tables);
    column_references = map column_reference ast.columns;
  }

  abbrev pub parsed : Text → Outcome Statement → Compiled Statement
  parsed sql (returned ast) = pure ast
  parsed sql (raised exc) =
      refuse sql_parse_error (codes "Compiled SQL could not be parsed into AST: " ++ exc)
        (object (("sql", str sql) ∷ []))

  -- `compile_planned_query`
  unfoldable pub compile_planned_query :
      Sqlglot → QueryPlannerResult → Compiled CompiledSemanticQuery
  compile_planned_query sqlglot plan =
      let sql = build_compiler_sql plan in
      parsed sql (sqlglot.parse_one sql) >>= λ ast. pure (compiled_query plan ast)

  unfoldable pub compile_sql_query_artifact :
      Settings
      → Parsers
      → Sqlglot
      → Interpretation
      → RetrievalResult
      → SemanticCatalog
      → Compiled CompiledSemanticQuery
  compile_sql_query_artifact settings parsers sqlglot i retrieval catalog =
      plan_sql_query settings parsers i retrieval catalog >>= λ plan.
      compile_planned_query sqlglot plan

  -- compile_interpretation_to_sql
  unfoldable pub compile_interpretation_to_sql :
      Settings
      → Parsers
      → Sqlglot
      → Interpretation
      → RetrievalResult
      → SemanticCatalog
      → Compiled (SqlPlan × Text)
  compile_interpretation_to_sql settings parsers sqlglot i retrieval catalog =
      compile_sql_query_artifact settings parsers sqlglot i retrieval catalog >>= λ artifact.
      pure (artifact.sql_plan, artifact.rendered_sql)
