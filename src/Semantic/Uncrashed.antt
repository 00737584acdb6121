-- ===== src/Semantic/Uncrashed.antt =====
-- The validators of backend/app/semantic/validators.py and its planner together: over accepted
-- definitions the planner raises nothing but its own error.
pub mod Steps
use Prim.Native.Nat.{ℕ, zero, suc}
use Prim.Native.String.{String}
use mathlib.Core.Path.{◌≡◌, refl, ◌∙◌}
use mathlib.Core.Logic.{inl, inr}
use mathlib.Core.Bool.{Bool, true, false, ◌||◌}
use mathlib.Core.Option.{Option, none}
use mathlib.Core.List.{List, ◌++◌}
use native.Mathlib.Omega.{arith}
use drivee_tolmach.Common.{
  Text, codes, Unicode, strip, All, elem, is_empty, ℤ, pos, negsuc, Same, same_list, same_ℕ,
  if◌then◌else◌,
}
use drivee_tolmach.Json.{Json}
use drivee_tolmach.Settings.{Settings, allowed_analytics_tables}
use drivee_tolmach.Guardrails.Decision.{SemanticErrorCode, BlockReason}
use drivee_tolmach.Guardrails.Statement.{Sqlglot}
use drivee_tolmach.Semantic.Errors.{
  Compiled, compiled, refused, crashed, ◌>>=◌, ◌>>◌, pure, refuse_if, or_else,
}
use drivee_tolmach.Semantic.Template.{
  Formatted, formatted, key_error, index_error, value_error, format,
}
use drivee_tolmach.Semantic.Template.Fields.{is_formatted, format-same}
use drivee_tolmach.Semantic.Catalog.{SemanticCatalog, grain_context}
use drivee_tolmach.Semantic.Literals.{or_refuse, number_literal, parse_temporal_value, sql_literal}
use drivee_tolmach.Semantic.Request.{DateRange}
use drivee_tolmach.Semantic.Clauses.{
  rendered, render_template, kind_of, rolling, refuse_operator, between_clause, normalize_limit,
  compile_period, resolve_dimension_sql, literals, clause_of, compile_filter_clause,
}
use drivee_tolmach.Semantic.Fragments.{placeholder_values}
use drivee_tolmach.Semantic.Validators.{validate_metric_definition, validate_dimension_definition}
use drivee_tolmach.Semantic.Validators.Verdicts.{accepts}

module _ ⦃u : Unicode⦄ (sqlglot : Sqlglot) (dimension_keys supported_grains : List Text) where
  -- Every definition of the catalog passed its validator.
  abbrev pub IsValidated : SemanticCatalog → Type 0
  IsValidated catalog =
      All
        (λ entry.
          accepts (validate_metric_definition sqlglot entry.1 dimension_keys supported_grains)
          ≡ true)
        catalog.metrics
      × All
          (λ entry.
            accepts (validate_dimension_definition sqlglot entry.1 allowed_analytics_tables) ≡ true)
          catalog.dimensions
      × All
          (λ entry.
            accepts (validate_dimension_definition sqlglot entry.1 allowed_analytics_tables) ≡ true)
          catalog.filters
