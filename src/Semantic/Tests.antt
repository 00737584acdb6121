-- ===== src/Semantic/Tests.antt =====
-- Runs of the semantic layer, and the theorems at inputs that meet their hypotheses.
use mathlib.Core.Path.{◌≡◌, refl}
use mathlib.Core.Logic.{◌↔◌}
use mathlib.Core.Bool.{Bool, true, false}
use mathlib.Core.Option.{none, some}
use mathlib.Core.List.{List, [], ◌∷◌, ◌++◌}
use drivee_tolmach.Common.{
  is_word, fold, Text, codes, Unicode, ascii_tables, is_space, is_digit, digit_value, strip, join,
  show, number, lower, elem, lookup, insert, distinct, parse_int, show_int, pos, same_list, same_ℕ,
}
use drivee_tolmach.Settings.{default_settings, allowed_analytics_tables}
use drivee_tolmach.Guardrails.Statement.{returned, Sqlglot, serialize_ast, table_identifier}
use drivee_tolmach.Guardrails.Tests.{statement}
use drivee_tolmach.Semantic.Errors.{Compiled, compiled, refused, crashed, ◌>>=◌, refuse_if, or_else}
use drivee_tolmach.Semantic.Template.{format, scan, output, next_mode, emit, field}
use drivee_tolmach.Semantic.Catalog.{
  SemanticMetricDefinition, SemanticDimensionDefinition, SemanticCatalog, found,
}
use drivee_tolmach.Semantic.Literals.{
  Parsers, or_refuse, escape, number_literal, parse_temporal_value, string_unless, sql_literal,
  allowed_operators,
}
use drivee_tolmach.Semantic.Literals.Quoted.{read_literal}
use drivee_tolmach.Semantic.Literals.Contained.{
  IsContained, sql_literal-IsContained, sql_literal-read,
}
use drivee_tolmach.Semantic.Request.{Interpretation, RetrievalResult}
use drivee_tolmach.Semantic.Clauses.{
  rolling, between_clause, render_template, normalize_limit, compile_period, resolve_dimension_sql,
  literals, clause_of, compile_filter_clause,
}
use drivee_tolmach.Semantic.Dedupe.{dedupe_after, dedupe}
use drivee_tolmach.Semantic.Planner.Clarifications.{build_clarification_reasons}
use drivee_tolmach.Semantic.Planner.{
  QueryPlannerResult, plan_dimension, plan_dimensions, plan_filter, plan_filters, assemble,
  plan_over, plan_sql_query,
}
use drivee_tolmach.Semantic.Planner.Sound.{IsSound, plan_sql_query-IsSound}
use drivee_tolmach.Guardrails.Patterns.{
  search_word, word_here, match_word, boundary, ends_word, starts_word,
}
use drivee_tolmach.Semantic.Fragments.{
  issue_if, ends_key, is_safe_key, validate_key, starts_with, match_exact, search_exact,
  fragment_issues, parse_fragment, validate_expression_fragment, parse_join, validate_join_path,
}
use drivee_tolmach.Semantic.Validators.{
  unknown_values, dimension_issues, validate_metric_definition, validate_dimension_definition,
}
use drivee_tolmach.Semantic.Validators.Verdicts.{accepts}
use drivee_tolmach.Semantic.Validators.Accepted.{
  IsAcceptable, validate_metric_definition-IsAcceptable_iff,
}
use drivee_tolmach.Semantic.Compiler.{
  CompiledSemanticQuery, build_compiler_sql, labels, compiled_query, compile_planned_query,
  compile_sql_query_artifact,
}

instance abbrev tables : Unicode
tables = ascii_tables

none_is_some : {t : Text} → none ≡ some t → ⊥
none_is_some h = cc

abbrev parsers : Parsers
parsers = record {
  float_text = λ s. none;
  strptime = λ f s. none;
  repr = λ s. s;
  float_plain = λ s t h. absurd (none_is_some h);
  strptime_plain = λ f s t h. absurd (none_is_some h);
}

abbrev revenue : SemanticMetricDefinition
revenue = record {
  metric_key = codes "revenue";
  business_name = codes "Revenue";
  description = codes "Sum of prices";
  sql_expression_template = codes "SUM({base_alias}.price)";
  grain = codes "order";
  allowed_dimensions = codes "city" ∷ codes "day" ∷ [];
  allowed_filters = codes "city" ∷ [];
  default_chart = codes "bar";
  safety_tags = [];
}

abbrev city : SemanticDimensionDefinition
city = record {
  dimension_key = codes "city";
  business_name = codes "City";
  table_name = codes "dim.cities";
  column_name = codes "name";
  join_path =
      codes "JOIN dim.cities {dimension_alias} ON {dimension_alias}.id = {base_alias}.city_id ";
  data_type = codes "string";
}

abbrev catalog : SemanticCatalog
catalog = record {
  metrics = (codes "revenue", revenue) ∷ [];
  dimensions = (codes "city", city) ∷ [];
  filters = (codes "city", city) ∷ [];
}

abbrev request : Interpretation
request = record {
  metric = codes "revenue";
  dimensions = codes "city" ∷ [];
  filters = (codes "city", record { operator = none; values = codes "O'Hara" ∷ [] }) ∷ [];
  date_range = record {
    kind = some (codes "rolling_days");
    days = some (pos 7);
    start = [];
    end = [];
    date = [];
  };
  sort_direction = none;
  limit = some (pos 5000);
  ambiguity_flags = [];
}

abbrev nothing : RetrievalResult
nothing = record { semantic_terms = []; planner_candidates = [] }

fragments : Unit {0}
unfolding is_word fold issue_if ends_key is_safe_key validate_key starts_with match_exact
    search_exact search_word word_here match_word boundary ends_word starts_word fragment_issues
    parse_fragment validate_expression_fragment parse_join validate_join_path unknown_values
    dimension_issues validate_metric_definition validate_dimension_definition
fragments = tt

opened : Unit {0}
unfolding is_space is_digit digit_value strip join show number lower elem lookup insert distinct
    parse_int show_int ◌>>=◌ refuse_if or_else format scan output next_mode emit found field
    or_refuse escape number_literal parse_temporal_value string_unless sql_literal allowed_operators
    render_template rolling normalize_limit compile_period between_clause resolve_dimension_sql
    literals clause_of compile_filter_clause dedupe_after dedupe plan_dimension plan_dimensions
    plan_filter plan_filters assemble plan_over labels compiled_query compile_planned_query
    serialize_ast table_identifier build_clarification_reasons plan_sql_query build_compiler_sql
    compile_sql_query_artifact
opened = tt

abbrev is_compiled : {A : Type 0} → Compiled A → Bool
is_compiled (compiled a) = true
is_compiled _ = false

planned : is_compiled (plan_sql_query default_settings parsers request nothing catalog) ≡ true
unfolding opened
planned = refl

extract : {A : Type 0} (m : Compiled A) → is_compiled m ≡ true → (a : A) × (m ≡ compiled a)
extract (compiled a) h = (a, refl)
extract (refused reason) h = absurd cc
extract (crashed class_name) h = absurd cc

abbrev plan :
    (plan : QueryPlannerResult) × (plan_sql_query default_settings parsers request nothing catalog
      ≡ compiled plan)
plan = extract _ planned

abbrev sqlglot : Sqlglot
sqlglot = record { parse = λ s. returned (statement ∷ []); parse_one = λ s. returned statement }

is_artifact :
    is_compiled
      (compile_sql_query_artifact default_settings parsers sqlglot request nothing catalog)
    ≡ true
unfolding opened
is_artifact = refl

assembled :
    build_compiler_sql plan.0
    ≡ codes "SELECT\n  dim_city.name AS city, SUM(fo.price) AS revenue\nFROM fact.orders fo\n"
      ++ codes "JOIN dim.cities dim_city ON dim_city.id = fo.city_id\n"
      ++ codes "WHERE dim_city.name = 'O''Hara' AND "
      ++ codes "fo.order_timestamp >= CURRENT_DATE - INTERVAL '7 days'\n"
      ++ codes "GROUP BY dim_city.name\nORDER BY revenue DESC\nLIMIT 1000"
unfolding opened extract
assembled = refl

plan_sql_query-IsSound_example : IsSound default_settings parsers request catalog plan.0
plan_sql_query-IsSound_example =
    plan_sql_query-IsSound default_settings parsers request nothing catalog plan.0 plan.1

abbrev artifact :
    (q : CompiledSemanticQuery) × (compile_sql_query_artifact default_settings parsers sqlglot
        request nothing catalog
      ≡ compiled q)
artifact = extract _ is_artifact

textual :
    elem
      (codes "string")
      (codes "integer" ∷ codes "numeric" ∷ codes "date" ∷ codes "timestamp" ∷ [])
    ≡ false
unfolding opened
textual = refl

numberless : elem (codes "string") (codes "integer" ∷ codes "numeric" ∷ []) ≡ false
unfolding opened
numberless = refl

sql_literal-read_example :
    (literal : Text) × (sql_literal parsers (codes "string") (codes "' OR '1'='1")
      ≡ compiled literal)
    × (read_literal (literal ++ codes " AND x") ≡ some (codes "' OR '1'='1", codes " AND x"))
sql_literal-read_example =
    sql_literal-read parsers (codes "string") (codes "' OR '1'='1") (codes " AND x") textual refl

literal_example :
    sql_literal parsers (codes "string") (codes "' OR '1'='1")
    ≡ compiled (codes "''' OR ''1''=''1'")
unfolding opened
literal_example = refl

sql_literal-IsContained_example : IsContained (codes "''' OR ''1''=''1'")
sql_literal-IsContained_example =
    sql_literal-IsContained parsers (codes "string") (codes "' OR '1'='1") _ numberless
      literal_example

abbrev day : SemanticDimensionDefinition
day = record {
  dimension_key = codes "day";
  business_name = codes "Day";
  table_name = codes "__grain__";
  column_name = codes "{time_dimension_column}";
  join_path = [];
  data_type = codes "date";
}

abbrev keys : List Text
keys = codes "city" ∷ codes "day" ∷ []

abbrev grains : List Text
grains = codes "order" ∷ codes "tender" ∷ []

accepted :
    (accepts (validate_metric_definition sqlglot revenue keys grains) ≡ true)
    × (accepts (validate_dimension_definition sqlglot city allowed_analytics_tables) ≡ true)
    × (accepts (validate_dimension_definition sqlglot day allowed_analytics_tables) ≡ true)
unfolding opened fragments
accepted = (refl, refl, refl)

validate_metric_definition-IsAcceptable_example :
    (accepts (validate_metric_definition sqlglot revenue keys grains) ≡ true)
    ↔ IsAcceptable sqlglot keys grains revenue
validate_metric_definition-IsAcceptable_example =
    validate_metric_definition-IsAcceptable_iff sqlglot keys grains revenue
