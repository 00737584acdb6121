-- ===== src/Guardrails/Validator/Soundness.antt =====
-- What a query that validate_sql approves is known to be.
use Prim.Native.Nat.{ℕ, ◌≤◌}
use mathlib.Core.Path.{◌≡◌, refl, subst}
use mathlib.Core.Bool.{true, false}
use mathlib.Core.Option.{Option, some}
use mathlib.Core.List.{List, [], ◌∷◌, map}
use native.Mathlib.Omega.{arith}
use drivee_tolmach.Common.{Text, Unicode, elem, is_empty, All, same_list, same_ℕ}
use drivee_tolmach.Json.{Json}
use drivee_tolmach.Settings.{Settings, allowed_analytics_tables}
use drivee_tolmach.Guardrails.Patterns.{is_forbidden, is_readonly, extract_limit}
use drivee_tolmach.Guardrails.Decision.{Log, ColumnReference, ValidatedSql}
use drivee_tolmach.Guardrails.Statement.{
  Outcome, returned, Statement, Sqlglot, alias_map, output_aliases,
}
use drivee_tolmach.Guardrails.Check.{Step, blocked, passed, continue-elim}
use drivee_tolmach.Guardrails.Validator.{
  clean, table_names, keys, references, row_limit_of, accept, accepted, decide, check_sql,
  validate_sql,
}
use drivee_tolmach.Guardrails.Validator.Columns.{AccessPolicy, check_columns, column_json}
use drivee_tolmach.Guardrails.Validator.Columns.Approved.{IsApproved, check_columns-IsApproved}
use drivee_tolmach.Guardrails.Validator.Shape.{Reports, check_sql-Keeps}
use drivee_tolmach.Guardrails.Validator.Passing.{
  check_keywords-passed, check_readonly-passed, check_parse-passed, check_star-passed,
  check_tables-passed, check_policies-passed, check_forbidden-passed, check_unknown-passed,
  limit_rows-passed, check_reparse-passed, check_explain-passed, min_row_limit-le,
}

is_empty-map {ℓ κ} :
    {A : Type ℓ} {B : Type κ} (f : A → B) (xs : List A)
    → is_empty (map f xs) ≡ true
    → is_empty xs ≡ true
is_empty-map f [] h = refl
is_empty-map f (x ∷ xs) h = h

module _ ⦃u : Unicode⦄ (settings : Settings) (sqlglot : Sqlglot)
    (policy_loader : Text → List Text → List (Text × AccessPolicy))
    (explain_runner : Text → Outcome (Json × ℕ)) where
  -- The query `sql` of a user with the role, and the validated SQL that is to run in its place.
  pub record IsSafe (sql role : Text) (compiled : Option (List ColumnReference)) (v : ValidatedSql)
      : Type 0 where
    pub no_keyword : is_forbidden sql ≡ false
    pub readonly : is_readonly sql ≡ true
    pub parsed : Statement
    pub single : sqlglot.parse sql ≡ returned (parsed ∷ [])
    pub no_star : parsed.has_star ≡ false
    pub tables : v.tables ≡ table_names parsed
    pub some_table : is_empty v.tables ≡ false
    pub tables_allowed : All (λ t. elem t allowed_analytics_tables ≡ true) v.tables
    pub tables_granted : All (λ t. elem t (keys (policy_loader role v.tables)) ≡ true) v.tables
    pub columns_approved :
        All
          (IsApproved v.tables
            (policy_loader role v.tables)
            (alias_map parsed)
            (output_aliases parsed))
          (references compiled parsed)
    pub limit_read : extract_limit v.sql ≡ some v.row_limit
    pub limit_in_settings : v.row_limit ≤ settings.max_result_rows
    pub limit_in_policies : All (λ e. v.row_limit ≤ e.1.row_limit) (policy_loader role v.tables)
    pub reparsed : Statement
    pub valid_again : sqlglot.parse_one v.sql ≡ returned reparsed
    pub explained : explain_runner v.sql ≡ returned (v.explain_plan, v.explain_cost)
    pub cheap : v.explain_cost ≤ settings.sql_explain_max_cost

  row_limit_lem :
      (policies : List (Text × AccessPolicy)) (n : ℕ)
      → n ≤ row_limit_of settings sqlglot policy_loader explain_runner policies
      → (n ≤ settings.max_result_rows) × All (λ e. n ≤ e.1.row_limit) policies
  unfolding row_limit_of
  row_limit_lem policies n h =
      (omega arith, min_row_limit-le settings.max_result_rows policies n (omega arith))

  value_of_accept :
      (role : Text) (tables : List Text) (limited : Text) (n : ℕ) (plan : Json) (cost : ℕ)
      (reparsed : Statement) (logs final : List Log) (v : ValidatedSql)
      → accept role tables limited n plan cost reparsed logs ≡ passed v final
      → accepted role tables limited n plan cost reparsed logs ≡ v
  unfolding accept
  value_of_accept role tables limited n plan cost reparsed logs final v h = cc

  check_sql-IsSafe :
      (sql role : Text) (compiled : Option (List ColumnReference)) (v : ValidatedSql)
      (logs : List Log)
      → check_sql settings sqlglot policy_loader explain_runner sql role compiled [] ≡ passed v logs
      → IsSafe sql role compiled v
  unfolding check_sql accepted
  check_sql-IsSafe sql role compiled v logs h = continue-elim _ _ h λ _ l1 s1 h1.
      continue-elim _ _ h1 λ _ l2 s2 h2. continue-elim _ _ h2 λ _ l3 s3 h3.
        continue-elim _ _ h3 λ parsed l4 s4 h4. continue-elim _ _ h4 λ _ l5 s5 h5.
          continue-elim _ _ h5 λ _ l6 s6 h6. continue-elim _ _ h6 λ _ l7 s7 h7.
            continue-elim _ _ h7 λ _ l8 s8 h8. continue-elim _ _ h8 λ _ l9 s9 h9.
              continue-elim _ _ h9 λ limit l10 s10 h10.
                continue-elim _ _ h10 λ reparsed l11 s11 h11.
                  continue-elim _ _ h11 λ explained l12 s12 h12.
                    let columns =
                      check_columns (table_names parsed) (policy_loader role (table_names parsed))
                        (alias_map parsed) (output_aliases parsed) (references compiled parsed) in
                    let (limit_read, in_limit) =
                      limit_rows-passed l9 l10 _ sql limit.0 limit.1 s10 in
                    let (in_settings, in_policies) =
                      row_limit_lem (policy_loader role (table_names parsed)) limit.1 in_limit in
                    let (some_table, tables_allowed) =
                      check_tables-passed l5 l6 (table_names parsed) s6 in
                    let (explained_as, cheap) =
                      check_explain-passed l11 l12 settings explain_runner limit.0 explained.0
                        explained.1 s12 in
                    subst (IsSafe sql role compiled) (value_of_accept _ _ _ _ _ _ _ _ _ _ h12)
                      (record {
                        no_keyword = check_keywords-passed l1 l2 sql s2;
                        readonly = check_readonly-passed l2 l3 sql s3;
                        parsed = parsed;
                        single = check_parse-passed l3 l4 sqlglot sql parsed s4;
                        no_star = check_star-passed l4 l5 parsed s5;
                        tables = refl;
                        some_table = some_table;
                        tables_allowed = tables_allowed;
                        tables_granted = check_policies-passed l6 l7 role _ _ s7;
                        columns_approved =
                            check_columns-IsApproved _ _ _ _ _
                              (check_forbidden-passed l7 l8 columns.forbidden s8)
                              (is_empty-map column_json columns.unknown
                                (check_unknown-passed l8 l9 _ s9));
                        limit_read = limit_read;
                        limit_in_settings = in_settings;
                        limit_in_policies = in_policies;
                        reparsed = reparsed;
                        valid_again = check_reparse-passed l10 l11 sqlglot limit.0 reparsed s11;
                        explained = explained_as;
                        cheap = cheap;
                      })

  -- A query that validate_sql approves is safe: no denied keyword, one statement that reads only,
  -- no star, every table on the whitelist and granted to the role, every column reference approved,
  -- and the SQL to run has a limit, which the settings and every policy allow, parses, and has a plan
  -- that is cheap enough.
  pub validate_sql-IsSafe :
      (sql role : Text) (compiled : Option (List ColumnReference))
      → let d = validate_sql settings sqlglot policy_loader explain_runner sql role compiled in
        d.ok ≡ true
        → (v : ValidatedSql) × (d.validated_sql ≡ some v)
          × (d.sql ≡ v.sql)
          × IsSafe (clean sql) role compiled v
  unfolding validate_sql
  validate_sql-IsSafe sql role compiled =
      go (check_sql settings sqlglot policy_loader explain_runner (clean sql) role compiled [])
        ((check_sql-Keeps settings sqlglot policy_loader explain_runner (clean sql) role
            compiled).at
          [] tt)
        refl
    where
      go :
          (s : Step ValidatedSql)
          → Reports s
          → check_sql settings sqlglot policy_loader explain_runner (clean sql) role compiled [] ≡ s
          → (decide s).ok ≡ true
          → (v : ValidatedSql) × ((decide s).validated_sql ≡ some v)
            × ((decide s).sql ≡ v.sql)
            × IsSafe (clean sql) role compiled v
      go (blocked d) refusal e h = cc (refusal.not_ok)
      go (passed v logs) _ e h =
          (v, refl, refl, check_sql-IsSafe (clean sql) role compiled v logs e)
