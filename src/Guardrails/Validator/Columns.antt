-- ===== src/Guardrails/Validator/Columns.antt =====
-- The loop of validate_sql over the column references, and the access policies that it reads.
pub mod Approved
use Prim.Native.Nat.{ℕ}
use Prim.Native.String.{String}
use mathlib.Core.Bool.{Bool, true, false, not, ◌&&◌, ◌||◌}
use mathlib.Core.Option
use mathlib.Core.Option.{Option, none, some}
use mathlib.Core.List.{List, [], ◌∷◌, ◌++◌, map}
use drivee_tolmach.Common.{
  Text, codes, Unicode, lower, elem, is_empty, filter, insert, lookup, length, nat_eq, ◌==◌,
  same_list, same_ℕ, if◌then◌else◌,
}
use drivee_tolmach.Json.{Json, str, object}
use drivee_tolmach.Settings.{forbidden_columns}
use drivee_tolmach.Guardrails.Decision.{ColumnReference}

-- models.AccessPolicy, the fields that the validator reads
pub record AccessPolicy : Type 0 where
  pub role : Text
  pub table_name : Text
  pub allowed_columns_json : List Text
  pub row_limit : ℕ
  pub is_active : Bool

-- An entry of `unknown_columns`; the table is not resolved, or resolved and does not allow it.
pub record UnknownColumn : Type 0 where
  pub table_alias : Text
  pub column_name : Text
  pub table_name : Option Text

pub record ColumnFindings : Type 0 where
  pub forbidden : List Text
  pub unknown : List UnknownColumn

abbrev pub column_json : UnknownColumn → Json
column_json c = elim c.table_name [
  | none ↦ object (("table_alias", str c.table_alias) ∷ ("column_name", str c.column_name) ∷ [])
  | some table ↦ object (
      ("table_alias", str c.table_alias)
      ∷ ("column_name", str c.column_name)
      ∷ ("table_name", str table)
      ∷ [])
]

-- The rows that the query of `_load_policies` selects.
abbrev pub is_selected : Text → List Text → AccessPolicy → Bool
is_selected role tables p = (p.role == role && elem p.table_name tables) && p.is_active

by_table : List (Text × AccessPolicy) → List AccessPolicy → List (Text × AccessPolicy)
unfolding insert
by_table found [] = found
by_table found (p ∷ ps) = by_table (insert p.table_name p found) ps

-- `_load_policies`: a dictionary by table, where a later row replaces an earlier one.
unfoldable pub load_policies : List AccessPolicy → Text → List Text → List (Text × AccessPolicy)
unfolding elem by_table
load_policies rows role tables = by_table [] (filter (is_selected role tables) rows)

-- What the loop does with one column.
pub data Verdict : Type 0 where
  skipped approved : Verdict
  is_forbidden_column : Text → Verdict
  is_unknown : UnknownColumn → Verdict

module _ ⦃u : Unicode⦄ where
  -- `{column.lower() for column in policy.allowed_columns_json}`, and the empty set for no policy
  pub allowed_columns : List (Text × AccessPolicy) → Text → List Text
  unfolding lookup lower
  allowed_columns policies table = elim (lookup table policies) [
    | none ↦ []
    | some policy ↦ map lower policy.allowed_columns_json
  ]

  module _ (tables : List Text) (policies : List (Text × AccessPolicy))
      (aliases : List (Text × Text)) (outputs : List Text) where
    -- `alias_map.get(table_alias, "")`
    resolved : Text → Text
    unfolding lookup
    resolved alias = Option.get_or (lookup alias aliases) []

    -- The only table of the query.
    only : List Text → Option Text
    only (table ∷ []) = some table
    only _ = none

    pub resolve : Text → Option Text
    unfolding resolved only
    resolve alias = let table = resolved alias in if is_empty table then only tables else some table

    against : Text → Text → Option Text → Verdict
    unfolding allowed_columns elem
    against alias name none =
        is_unknown (record { table_alias = alias; column_name = name; table_name = none })
    against alias name (some table) =
        let allowed = allowed_columns policies table in
        if is_empty allowed || elem name allowed
        then approved
        else is_unknown
            (record { table_alias = alias; column_name = name; table_name = some table })

    pub check_column : ColumnReference → Verdict
    unfolding lower elem resolve against
    check_column column =
        let name = lower column.column_name in
        let alias = lower column.table_alias in
        if is_empty name || elem name outputs
        then skipped
        else if elem name forbidden_columns
        then is_forbidden_column name
        else against alias name (resolve alias)

    add_verdict : Verdict → ColumnFindings → ColumnFindings
    add_verdict skipped cs = cs
    add_verdict approved cs = cs
    add_verdict (is_forbidden_column name) cs = record cs { forbidden = cs.forbidden ++ name ∷ [] }
    add_verdict (is_unknown column) cs = record cs { unknown = cs.unknown ++ column ∷ [] }

    pub columns_from : ColumnFindings → List ColumnReference → ColumnFindings
    unfolding check_column add_verdict
    columns_from cs [] = cs
    columns_from cs (column ∷ rest) = columns_from (add_verdict (check_column column) cs) rest

    unfoldable pub check_columns : List ColumnReference → ColumnFindings
    unfolding columns_from
    check_columns columns = columns_from (record { forbidden = []; unknown = [] }) columns
