-- ===== src/Guardrails/Statement.antt =====
-- What the validator reads of a statement that sqlglot parsed, with the helpers that read it. The
-- parser is a parameter: a function from the text to its statements, or to the message it raises.
use mathlib.Core.Bool.{Bool}
use mathlib.Core.Option.{Option, none, some}
use mathlib.Core.List.{List, [], ◌∷◌, ◌++◌, map}
use drivee_tolmach.Common.{
  Text, codes, Unicode, lower, strip, is_empty, insert, same_list, same_ℕ, if◌then◌else◌,
}
use drivee_tolmach.Json.{Json, str, object}
use drivee_tolmach.Guardrails.Decision.{ColumnReference}

-- A call of code that is not part of the program: its result, or the text of its exception.
pub data Outcome {ℓ} (A : Type ℓ) : Type ℓ where
  returned : A → Outcome A
  raised : Text → Outcome A

-- exp.Table; an attribute that is absent or None is the empty text
pub record TableNode : Type 0 where
  pub db : Text
  pub name : Text
  pub alias_or_name : Text
  pub alias_value : Text

-- exp.Column
pub record ColumnNode : Type 0 where
  pub table : Text
  pub name : Text

-- exp.Expression. `tables`, `columns` and `has_star` are what `find_all` yields, `select_aliases`
-- the alias of each item of `expressions` that is an exp.Alias.
pub record Statement : Type 0 where
  pub tables : List TableNode
  pub columns : List ColumnNode
  pub has_star : Bool
  pub select_aliases : List Text
  pub dump : Option Json
  pub dump_is_dict : Bool
  pub postgres_sql : Option Text
  pub default_sql : Text
  pub repr : Text

pub record Sqlglot : Type 0 where
  pub parse : Text → Outcome (List Statement)
  pub parse_one : Text → Outcome Statement

-- `_serialize_ast`; `postgres_sql` is none where `sql` takes no dialect.
unfoldable pub serialize_ast : Statement → Json
serialize_ast s = elim s.dump [
  | some dumped ↦ if s.dump_is_dict then dumped else object (("dump", dumped) ∷ [])
  | none ↦ elim s.postgres_sql [
    | some sql ↦ object (("sql", str sql) ∷ ("repr", str s.repr) ∷ [])
    | none ↦ object (("sql", str s.default_sql) ∷ ("repr", str s.repr) ∷ [])
  ]
]

module _ ⦃u : Unicode⦄ where
  unfoldable pub table_identifier : TableNode → Text
  unfolding lower strip
  table_identifier table =
      let schema = lower (strip table.db) in
      let name = lower (strip table.name) in
      if is_empty schema then name else schema ++ (codes "." ++ name)

  unfoldable pub table_alias_name : TableNode → Text
  unfolding lower strip
  table_alias_name table =
      if is_empty table.alias_or_name
      then (if is_empty table.alias_value
          then lower (strip table.name)
          else lower (strip table.alias_value))
      else lower (strip table.alias_or_name)

  -- `_output_aliases`, a set
  unfoldable pub output_aliases : Statement → List Text
  unfolding lower
  output_aliases s = map lower s.select_aliases

  -- the body of the loop of `_alias_map`
  add_table : List (Text × Text) → TableNode → List (Text × Text)
  unfolding table_identifier table_alias_name insert
  add_table mapping table =
      let id = table_identifier table in
      let alias = table_alias_name table in
      let named = if is_empty alias then mapping else insert alias id mapping in
      let name = lower (strip table.name) in if is_empty name then named else insert name id named

  alias_map_from : List (Text × Text) → List TableNode → List (Text × Text)
  unfolding add_table
  alias_map_from mapping [] = mapping
  alias_map_from mapping (table ∷ tables) = alias_map_from (add_table mapping table) tables

  unfoldable pub alias_map : Statement → List (Text × Text)
  unfolding alias_map_from
  alias_map s = alias_map_from [] s.tables

  -- `_collect_column_references`
  unfoldable pub collect_column_references : Statement → List ColumnReference
  unfolding lower strip
  collect_column_references s =
      map (λ c. record { table_alias = lower (strip c.table); column_name = lower c.name })
        s.columns
