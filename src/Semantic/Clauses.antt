-- ===== src/Semantic/Clauses.antt =====
-- The parts of a planned query, backend/app/semantic/planner.py: limits, periods, the SQL of a dimension
-- and the clause of a filter.
use Prim.Native.Nat.{ℕ, zero, suc, min}
use Prim.Native.String.{String}
use mathlib.Core.Bool.{not, ◌||◌}
use mathlib.Core.Option.{Option, none, some}
use mathlib.Core.List.{List, [], ◌∷◌, ◌++◌, map}
use drivee_tolmach.Common.{
  Text, codes, Unicode, strip, show, join, elem, is_empty, ℤ, pos, ◌==◌, same_list, same_ℕ,
  if◌then◌else◌,
}
use drivee_tolmach.Json.{Json, str, array, object}
use drivee_tolmach.Settings.{Settings}
use drivee_tolmach.Guardrails.Decision.{
  invalid_limit, invalid_period, invalid_join_path, invalid_filter_operator, missing_filter_values,
}
use drivee_tolmach.Semantic.Errors.{Compiled, crashed, ◌>>=◌, ◌>>◌, pure, refuse, refuse_if}
use drivee_tolmach.Semantic.Template.{
  Formatted, formatted, key_error, index_error, value_error, format,
}
use drivee_tolmach.Semantic.Catalog.{GrainDefinition, SemanticDimensionDefinition, grain_context}
use drivee_tolmach.Semantic.Literals.{Parsers, sql_literal, allowed_operators}
use drivee_tolmach.Semantic.Request.{DateRange, int_json}

abbrev pub texts : List Text → Json
texts xs = array (map str xs)

-- An exception of `str.format` is not caught.
abbrev pub rendered : Formatted → Compiled Text
rendered (formatted t) = pure t
rendered (key_error name) = crashed "KeyError"
rendered index_error = crashed "IndexError"
rendered value_error = crashed "ValueError"

-- `_render_template`
unfoldable pub render_template : Text → GrainDefinition → Text → Compiled Text
render_template template grain dimension_alias =
    rendered (format (grain_context grain dimension_alias) template)

-- `int(limit or 20)`
abbrev pub requested_limit : Option ℤ → ℤ
requested_limit none = pos 20
requested_limit (some (pos zero)) = pos 20
requested_limit (some n) = n

abbrev limit_within : Settings → ℤ → Compiled ℕ
limit_within settings (pos (suc n)) = pure (min (suc n) settings.max_result_rows)
limit_within settings n =
    refuse invalid_limit (codes "Requested LIMIT must be greater than zero.")
      (object (("requested_limit", int_json n) ∷ []))

-- `_normalize_limit`
unfoldable pub normalize_limit : Settings → Option ℤ → Compiled ℕ
normalize_limit settings limit = limit_within settings (requested_limit limit)

abbrev unless_absent : String → Text → List (String × Json)
unless_absent key [] = []
unless_absent key (c ∷ s) = (key, str (c ∷ s)) ∷ []

-- The dict `date_range`, with the keys that have a value
abbrev date_range_json : DateRange → Json
date_range_json r = object (
    (elim r.kind [ some kind ↦ ("kind", str kind) ∷ [] | none ↦ [] ])
    ++ ((elim r.days [ some n ↦ ("days", int_json n) ∷ [] | none ↦ [] ])
        ++ (unless_absent "start" r.start
            ++ (unless_absent "end" r.end ++ unless_absent "date" r.date))))

abbrev refuse_period : {A : Type 0} → Text → DateRange → Compiled A
refuse_period message r =
    refuse invalid_period message (object (("date_range", date_range_json r) ∷ []))

-- `DATE '...'`
abbrev date_sql : Text → Text
date_sql t = codes "DATE '" ++ (t ++ codes "'")

abbrev since : Text → Text → Text
since field start = field ++ (codes " >= " ++ date_sql start)

abbrev until : Text → Text → Text
until field end = field ++ (codes " < " ++ (date_sql end ++ codes " + INTERVAL '1 day'"))

-- `[clause] if value else []`
abbrev unless_empty : Text → Text → List Text
unless_empty [] clause = []
unless_empty (c ∷ s) clause = clause ∷ []

unfoldable pub rolling : DateRange → Text → Option ℤ → Compiled (List Text)
rolling r field (some (pos (suc n))) =
    pure
      ((field ++ (codes " >= CURRENT_DATE - INTERVAL '" ++ (show (suc n) ++ codes " days'"))) ∷ [])
rolling r field days =
    refuse_period (codes "Rolling period must specify a positive number of days.") r

abbrev pub kind_of : DateRange → Text
kind_of r = elim r.kind [ some kind ↦ kind | none ↦ codes "missing" ]

module _ ⦃u : Unicode⦄ where
  -- `_compile_period`
  unfoldable pub compile_period : DateRange → Text → Text → Compiled (List Text)
  compile_period r time_column base_alias =
      let field = base_alias ++ (b'.' ∷ time_column) in
      let kind = kind_of r in
      let start = strip r.start in
      let end = strip r.end in
      let exact = strip r.date in
      if kind == codes "rolling_days"
      then rolling r field r.days
      else if kind == codes "since_date"
      then pure (unless_empty start (since field start))
      else if kind == codes "until_date"
      then pure (unless_empty end (until field end))
      else if kind == codes "exact_date"
      then pure (unless_empty exact (codes "DATE(" ++ (field ++ (codes ") = " ++ date_sql exact))))
      else if kind == codes "between_dates"
      then if is_empty start || is_empty end
        then refuse_period (codes "Between period must include start and end dates.") r
        else pure (since field start ∷ until field end ∷ [])
      else if kind == codes "missing"
      then pure []
      else refuse_period (codes "Unsupported period kind: " ++ (kind ++ codes ".")) r

  -- The expression of a dimension, and its join where it is not on the table of the grain.
  abbrev pub Resolved : Type 0
  Resolved = Text × Option Text

  abbrev alias_of : SemanticDimensionDefinition → Text
  alias_of dimension = codes "dim_" ++ dimension.dimension_key

  -- `_resolve_dimension_sql`
  unfoldable pub resolve_dimension_sql :
      SemanticDimensionDefinition → GrainDefinition → Compiled Resolved
  resolve_dimension_sql dimension grain =
      render_template dimension.column_name grain (alias_of dimension) >>= λ column.
      if dimension.table_name == codes "__grain__"
      then pure (grain.base_alias ++ (b'.' ∷ column), none)
      else (render_template dimension.join_path grain (alias_of dimension) >>= λ path.
          let join_sql = strip path in
          refuse_if (is_empty join_sql) invalid_join_path
            (codes "Dimension " ++ (dimension.dimension_key ++ codes " requires a join_path."))
            (object (("dimension_key", str dimension.dimension_key) ∷ []))
          >> pure (alias_of dimension ++ (b'.' ∷ column), some join_sql))

unfoldable pub refuse_operator :
    {A : Type 0} → SemanticDimensionDefinition → Text → List Text → Compiled A
refuse_operator dimension operator values =
    refuse invalid_filter_operator
      (codes "Operator "
        ++ (operator
            ++ (codes " is not supported for filter " ++ (dimension.dimension_key ++ codes "."))))
      (object (
        ("filter_key", str dimension.dimension_key)
        ∷ ("operator", str operator)
        ∷ ("values", texts values)
        ∷ []))

module _ ⦃u : Unicode⦄ (parsers : Parsers) where
  unfoldable pub literals : Text → List Text → Compiled (List Text)
  literals data_type [] = pure []
  literals data_type (value ∷ values) = sql_literal parsers data_type value >>= λ literal.
      literals data_type values >>= λ rest. pure (literal ∷ rest)

  -- The clause of `between`, which wants a second value
  unfoldable pub between_clause :
      SemanticDimensionDefinition → (operator expression : Text) → Text → List Text → Compiled Text
  between_clause dimension operator expression low [] =
      refuse_operator dimension operator (low ∷ [])
  between_clause dimension operator expression low (high ∷ more) =
      sql_literal parsers dimension.data_type low >>= λ from.
      sql_literal parsers dimension.data_type high >>= λ to.
      pure (expression ++ (codes " BETWEEN " ++ (from ++ (codes " AND " ++ to))))

  -- The clause of an operator, for the literals of at least one value
  unfoldable pub clause_of :
      SemanticDimensionDefinition → (operator expression : Text) → List Text → Compiled Text
  clause_of dimension operator expression [] = refuse_operator dimension operator []
  clause_of dimension operator expression (first ∷ rest) =
      if operator == codes "eq"
      then (sql_literal parsers dimension.data_type first >>= λ literal.
          pure (expression ++ (codes " = " ++ literal)))
      else if operator == codes "in"
      then (literals dimension.data_type (first ∷ rest) >>= λ joined.
          pure (expression ++ (codes " IN (" ++ (join (codes ", ") joined ++ codes ")"))))
      else if operator == codes "between"
      then between_clause dimension operator expression first rest
      else refuse_operator dimension operator (first ∷ rest)

  -- `_compile_filter_clause`
  unfoldable pub compile_filter_clause :
      SemanticDimensionDefinition → GrainDefinition → Text → List Text → Compiled Resolved
  compile_filter_clause dimension grain operator values =
      let allowed = allowed_operators dimension.data_type in
      refuse_if (not (elem operator allowed)) invalid_filter_operator
        (codes "Operator "
          ++ (operator
              ++ (codes " is not allowed for filter " ++ (dimension.dimension_key ++ codes "."))))
        (object (
          ("filter_key", str dimension.dimension_key)
          ∷ ("operator", str operator)
          ∷ ("allowed_operators", texts allowed)
          ∷ []))
      >> (refuse_if (is_empty values) missing_filter_values
            (codes "Filter " ++ (dimension.dimension_key ++ codes " does not include values."))
            (object (("filter_key", str dimension.dimension_key) ∷ []))
          >> (resolve_dimension_sql dimension grain >>= λ resolved.
              clause_of dimension operator resolved.0 values >>= λ clause.
              pure (clause, resolved.1)))
