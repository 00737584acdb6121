-- ===== src/Guardrails/Validator/Passing.antt =====
-- What each check of validate_sql has established when it lets the query through.
use Prim.Native.Nat.{ℕ, ◌≤◌}
use mathlib.Core.Path.{◌≡◌, ap, sym, ◌∙◌}
use mathlib.Core.Logic.{inl, inr}
use mathlib.Core.Bool.{true, false}
use mathlib.Core.Option.{some}
use mathlib.Core.List.{List, [], ◌∷◌}
use native.Mathlib.Omega.{arith}
use drivee_tolmach.Common.{
  Text, Unicode, is_empty, is_empty-sorted, difference, elem, sorted, All, All-elem_of_difference,
  Option-cases, same_list, same_ℕ,
}
use drivee_tolmach.Json.{Json}
use drivee_tolmach.Settings.{Settings, allowed_analytics_tables}
use drivee_tolmach.Guardrails.Patterns.{is_forbidden, is_readonly, extract_limit}
use drivee_tolmach.Guardrails.Patterns.Replaced.{extract_limit-apply_limit}
use drivee_tolmach.Guardrails.Decision.{Log}
use drivee_tolmach.Guardrails.Statement.{Outcome, returned, raised, Statement, Sqlglot}
use drivee_tolmach.Guardrails.Check.{passed, continue}
use drivee_tolmach.Guardrails.Validator.{
  check_keywords, check_readonly, single, after_parse, check_parse, check_star, check_tables,
  check_policies, check_forbidden, check_unknown, limit_rows, check_reparse, check_explain, keys,
  min_row_limit,
}
use drivee_tolmach.Guardrails.Validator.Columns.{AccessPolicy}

module _ ⦃u : Unicode⦄ (before after : List Log) where
  pub check_keywords-passed :
      (sql : Text) → check_keywords sql before ≡ passed tt after → is_forbidden sql ≡ false
  unfolding check_keywords
  check_keywords-passed sql h = ground arith

  pub check_readonly-passed :
      (sql : Text) → check_readonly sql before ≡ passed tt after → is_readonly sql ≡ true
  unfolding check_readonly
  check_readonly-passed sql h = ground arith

  single-passed :
      (statements : List Statement) (parsed : Statement)
      → single statements before ≡ passed parsed after
      → statements ≡ parsed ∷ []
  unfolding single continue
  single-passed (s ∷ []) parsed h = ground arith
  single-passed _ parsed h = absurd (ground arith)

  after_parse-passed :
      (o : Outcome (List Statement)) (parsed : Statement)
      → after_parse o before ≡ passed parsed after
      → o ≡ returned (parsed ∷ [])
  unfolding after_parse
  after_parse-passed (raised exc) parsed h = absurd (ground arith)
  after_parse-passed (returned statements) parsed h =
      ap returned (single-passed statements parsed h)

  pub check_parse-passed :
      (sqlglot : Sqlglot) (sql : Text) (parsed : Statement)
      → check_parse sqlglot sql before ≡ passed parsed after
      → sqlglot.parse sql ≡ returned (parsed ∷ [])
  unfolding check_parse
  check_parse-passed sqlglot sql parsed h = after_parse-passed (sqlglot.parse sql) parsed h

  pub check_star-passed :
      (parsed : Statement) → check_star parsed before ≡ passed tt after → parsed.has_star ≡ false
  unfolding check_star
  check_star-passed parsed h = ground arith

  pub check_tables-passed :
      (tables : List Text)
      → check_tables tables before ≡ passed tt after
      → (is_empty tables ≡ false) × All (λ t. elem t allowed_analytics_tables ≡ true) tables
  unfolding check_tables
  check_tables-passed tables h =
      let illegal = difference tables allowed_analytics_tables in
      let nothing : is_empty (sorted illegal) ≡ true = ground arith in
      (ground arith, All-elem_of_difference tables _ (sym (is_empty-sorted illegal) ∙ nothing))

  pub check_policies-passed :
      (role : Text) (tables : List Text) (policies : List (Text × AccessPolicy))
      → check_policies role tables policies before ≡ passed tt after
      → All (λ t. elem t (keys policies) ≡ true) tables
  unfolding check_policies
  check_policies-passed role tables policies h =
      let missing = difference tables (keys policies) in
      let nothing : is_empty (sorted missing) ≡ true = ground arith in
      All-elem_of_difference tables _ (sym (is_empty-sorted missing) ∙ nothing)

  pub check_forbidden-passed :
      (columns : List Text)
      → check_forbidden columns before ≡ passed tt after
      → is_empty columns ≡ true
  unfolding check_forbidden
  check_forbidden-passed columns h = ground arith

  pub check_unknown-passed :
      (columns : List Json)
      → check_unknown columns before ≡ passed tt after
      → is_empty columns ≡ true
  unfolding check_unknown
  check_unknown-passed columns h = ground arith

  -- The SQL that goes on has a limit that the pattern reads, and it is within the row limit.
  pub limit_rows-passed :
      (row_limit : ℕ) (sql limited : Text) (n : ℕ)
      → limit_rows row_limit sql before ≡ passed (limited, n) after
      → (extract_limit limited ≡ some n) × (n ≤ row_limit)
  unfolding limit_rows continue
  limit_rows-passed row_limit sql limited n h = elim (Option-cases (extract_limit sql)) [
    | inl e ↦ ground (arith, extract_limit-apply_limit sql row_limit)
    | inr (requested, e) ↦ ground (arith, extract_limit-apply_limit sql row_limit)
  ]

  pub check_reparse-passed :
      (sqlglot : Sqlglot) (sql : Text) (reparsed : Statement)
      → check_reparse sqlglot sql before ≡ passed reparsed after
      → sqlglot.parse_one sql ≡ returned reparsed
  unfolding check_reparse continue
  check_reparse-passed sqlglot sql reparsed h = ground arith

  pub check_explain-passed :
      (settings : Settings) (explain_runner : Text → Outcome (Json × ℕ)) (sql : Text) (plan : Json)
      (cost : ℕ)
      → check_explain settings explain_runner sql before ≡ passed (plan, cost) after
      → (explain_runner sql ≡ returned (plan, cost)) × (cost ≤ settings.sql_explain_max_cost)
  unfolding check_explain continue
  check_explain-passed settings explain_runner sql plan cost h = ground arith

-- The least row limit is below each policy's.
pub min_row_limit-le :
    (default : ℕ) (policies : List (Text × AccessPolicy)) (n : ℕ)
    → n ≤ min_row_limit default policies
    → All (λ e. n ≤ e.1.row_limit) policies
unfolding min_row_limit
min_row_limit-le default [] n h = tt
min_row_limit-le default ((_, p) ∷ []) n h = (h, tt)
min_row_limit-le default ((_, p) ∷ q ∷ rest) n h =
    (omega arith, min_row_limit-le default (q ∷ rest) n (omega arith))
