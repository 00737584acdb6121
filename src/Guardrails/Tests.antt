-- ===== src/Guardrails/Tests.antt =====
-- Runs of the guardrails, and the theorems at inputs that meet their hypotheses.
use Prim.Native.Nat.{ℕ}
use mathlib.Core.Path.{◌≡◌, refl}
use mathlib.Core.Logic.{◌⊎◌, ◌↔◌}
use mathlib.Core.Bool.{true, false}
use mathlib.Core.Option.{none, some}
use mathlib.Core.List.{List, [], ◌∷◌, Memᴰ}
use native.Mathlib.Omega.{arith}
use drivee_tolmach.Common.{
  Text, codes, Unicode, ascii_tables, is_word, is_space, is_digit, fold, All, same_list, same_ℕ,
}
use drivee_tolmach.Json.{Json, null}
use drivee_tolmach.Settings.{default_settings}
use drivee_tolmach.Guardrails.Patterns.{
  is_forbidden, is_readonly, extract_limit, apply_limit, forbidden_keywords,
}
use drivee_tolmach.Guardrails.Patterns.Keywords.{Occurs, is_forbidden_iff}
use drivee_tolmach.Guardrails.Patterns.Replaced.{extract_limit-apply_limit}
use drivee_tolmach.Guardrails.Patterns.Nested.{nested}
use drivee_tolmach.Guardrails.Decision.{ColumnReference, ValidatedSql, Log}
use drivee_tolmach.Guardrails.Statement.{Outcome, returned, Statement, Sqlglot}
use drivee_tolmach.Guardrails.Check.{passed}
use drivee_tolmach.Guardrails.Validator.{clean, limit_rows, validate_sql, checks}
use drivee_tolmach.Guardrails.Validator.Columns.{AccessPolicy, load_policies}
use drivee_tolmach.Guardrails.Validator.Shape.{IsRefusal, NotFailed, validate_sql-IsRefusal}
use drivee_tolmach.Guardrails.Validator.Soundness.{IsSafe, validate_sql-IsSafe}
use drivee_tolmach.Guardrails.Validator.Loopholes.{limit_rows-nested}

instance abbrev tables : Unicode
tables = ascii_tables

characters : Unit {0}
unfolding is_word is_space is_digit fold
characters = tt

limits :
    (extract_limit (codes "select a from b LiMit  120 ") ≡ some 120)
    × (extract_limit (codes "select a from b limit all, unlimit 3") ≡ none)
    × (apply_limit (codes "select (x limit 5000) limit 7 unlimit 2") 12
        ≡ codes "select (x LIMIT 12) LIMIT 12 unlimit 2")
    × (apply_limit (codes "select x") 100 ≡ codes "select x\nLIMIT 100")
unfolding characters extract_limit apply_limit
limits = (refl, refl, refl, refl)

keywords :
    (is_forbidden (codes "select 1; DROP table x") ≡ true)
    × (is_forbidden (codes "select updated_at from x") ≡ false)
    × (is_readonly (codes "  WITH x as (select 1)") ≡ true)
    × (is_readonly (codes "selection") ≡ false)
unfolding characters is_forbidden is_readonly
keywords = (refl, refl, refl, refl)

abbrev pub statement : Statement
statement = record {
  tables =
      record {
        db = codes "fact";
        name = codes "Orders";
        alias_or_name = codes "o";
        alias_value = [];
      }
      ∷ [];
  columns = record { table = codes "o"; name = codes "Revenue" } ∷ [];
  has_star = false;
  select_aliases = [];
  dump = some null;
  dump_is_dict = false;
  postgres_sql = none;
  default_sql = [];
  repr = [];
}

abbrev pub sqlglot : Sqlglot
sqlglot = record { parse = λ _. returned (statement ∷ []); parse_one = λ _. returned statement }

abbrev pub policy : AccessPolicy
policy = record {
  role = codes "user";
  table_name = codes "fact.orders";
  allowed_columns_json = codes "revenue" ∷ [];
  row_limit = 500;
  is_active = true;
}

abbrev pub policies : Text → List Text → List (Text × AccessPolicy)
policies = load_policies (policy ∷ [])

abbrev pub explain : Text → Outcome (Json × ℕ)
explain sql = returned (null, 1250)

abbrev pub query : Text
query = codes " select o.revenue from fact.orders o; "

approves :
    (validate_sql default_settings sqlglot policies explain query (codes "user") none).ok ≡ true
unfolding characters checks validate_sql load_policies
approves = refl

result :
    (validate_sql default_settings sqlglot policies explain query (codes "user") none).sql
    ≡ codes "select o.revenue from fact.orders o\nLIMIT 500"
unfolding characters checks validate_sql load_policies
result = refl

refuses_role :
    (validate_sql default_settings sqlglot policies explain query (codes "guest") none).ok ≡ false
unfolding characters checks validate_sql load_policies
refuses_role = refl

validate_sql-IsSafe_example :
    (v : ValidatedSql) × ((validate_sql default_settings sqlglot policies explain query
        (codes "user")
        none).validated_sql
      ≡ some v)
    × ((validate_sql default_settings sqlglot policies explain query (codes "user") none).sql
        ≡ v.sql)
    × IsSafe default_settings sqlglot policies explain (clean query) (codes "user") none v
validate_sql-IsSafe_example =
    validate_sql-IsSafe default_settings sqlglot policies explain query (codes "user") none approves

validate_sql-IsRefusal_example :
    let d = validate_sql default_settings sqlglot policies explain query (codes "guest") none in
    IsRefusal d ⊎ ((d.ok ≡ true) × (d.block_reasons ≡ []) × All NotFailed d.logs)
validate_sql-IsRefusal_example =
    validate_sql-IsRefusal default_settings sqlglot policies explain query (codes "guest") none

is_forbidden_iff_example :
    (is_forbidden (codes "drop x") ≡ true)
    ↔ ((k : Text) × Memᴰ k forbidden_keywords × Occurs false k (codes "drop x"))
is_forbidden_iff_example = is_forbidden_iff (codes "drop x")

extract_limit-apply_limit_example :
    extract_limit (apply_limit (codes "select a limit 9000 offset 2") 40) ≡ some 40
extract_limit-apply_limit_example =
    extract_limit-apply_limit (codes "select a limit 9000 offset 2") 40

limit_rows-nested_example :
    (final : List Log) × (limit_rows 500 (nested 5 1000000) [] ≡ passed (nested 5 1000000, 5) final)
limit_rows-nested_example = limit_rows-nested 5 1000000 500 [] (omega arith)

abbrev secret : List ColumnReference
secret = record { table_alias = codes "c"; column_name = codes "password_hash" } ∷ []
