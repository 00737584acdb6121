-- ===== src/Semantic/Fragments.antt =====
-- The checks of keys, expression templates and join paths of backend/app/semantic/validators.py, with the
-- issues and the report that they make. sqlglot's parser is a parameter.
use Prim.Native.Nat.{ℕ}
use Prim.Native.String.{String}
use mathlib.Core.Bool.{Bool, true, false, not, ◌&&◌, ◌||◌}
use mathlib.Core.Option.{Option, none, some}
use mathlib.Core.List.{List, [], ◌∷◌, ◌++◌}
use drivee_tolmach.Common.{
  Text, codes, Unicode, is_word, strip, lower, any, elem, is_empty, leb, nat_eq, same_list, same_ℕ,
  if◌then◌else◌,
}
use drivee_tolmach.Guardrails.Patterns.{boundary, ends_word, search_word}
use drivee_tolmach.Guardrails.Statement.{Outcome, returned, raised, Statement, Sqlglot}
use drivee_tolmach.Semantic.Errors.{Compiled, crashed, ◌>>=◌, pure}
use drivee_tolmach.Semantic.Template.{
  Context, Formatted, formatted, key_error, index_error, value_error, format,
}

pub data Level : Type 0 where
  error warning : Level

pub record SemanticValidationIssue : Type 0 where
  pub level : Level
  pub code : String
  pub entity_type : String
  pub entity_key : Text
  pub message : Text

-- SemanticValidationReport, by its issues
abbrev pub Report : Type 0
Report = List SemanticValidationIssue

abbrev pub is_error : SemanticValidationIssue → Bool
is_error issue = elim issue.level [ error ↦ true | warning ↦ false ]

-- SemanticValidationReport.ok
abbrev pub ok : Report → Bool
ok issues = not (any is_error issues)

-- `_issue("error", ...)`, in the list that it is appended to
abbrev pub issue : String → String → Text → Text → Report
issue code entity_type entity_key message =
    record {
      level = error;
      code = code;
      entity_type = entity_type;
      entity_key = entity_key;
      message = message;
    }
    ∷ []

-- `if test: issues.append(...)`
unfoldable pub issue_if : Bool → Report → Report
issue_if test issues = if test then issues else []

abbrev is_lower_letter : ℕ → Bool
is_lower_letter c = leb b'a' c && leb c b'z'

abbrev is_key_character : ℕ → Bool
is_key_character c = is_lower_letter c || ((leb b'0' c && leb c b'9') || nat_eq c b'_')

-- `[a-z0-9_]*$`, where `$` also holds before a line feed at the end
unfoldable pub ends_key : Text → Bool
ends_key [] = true
ends_key (c ∷ s) = (is_key_character c && ends_key s) || (nat_eq c 10 && is_empty s)

-- SAFE_KEY_RE.match
unfoldable pub is_safe_key : Text → Bool
is_safe_key [] = false
is_safe_key (c ∷ s) = is_lower_letter c && ends_key s

-- `_validate_key`
unfoldable pub validate_key : String → Text → Report
validate_key entity_type key =
    issue_if (not (is_safe_key key))
      (issue "invalid_key" entity_type key (codes "Key must match ^[a-z][a-z0-9_]*$."))

-- BLOCKED_SQL_RE's words
abbrev pub blocked_words : List Text
blocked_words =
    codes "select"
    ∷ codes "from"
    ∷ codes "insert"
    ∷ codes "update"
    ∷ codes "delete"
    ∷ codes "drop"
    ∷ codes "alter"
    ∷ codes "truncate"
    ∷ codes "create"
    ∷ codes "grant"
    ∷ codes "revoke"
    ∷ codes "copy"
    ∷ codes "merge"
    ∷ codes "call"
    ∷ codes "execute"
    ∷ []

-- The words that a join path may not have
abbrev pub blocked_join_words : List Text
blocked_join_words =
    codes "delete"
    ∷ codes "update"
    ∷ codes "insert"
    ∷ codes "drop"
    ∷ codes "alter"
    ∷ codes "truncate"
    ∷ codes "create"
    ∷ codes "merge"
    ∷ codes "call"
    ∷ codes "execute"
    ∷ []

abbrev pub placeholder_values : Context
placeholder_values =
    (codes "base_alias", codes "src")
    ∷ (codes "dimension_alias", codes "dim_alias")
    ∷ (codes "time_column", codes "order_timestamp")
    ∷ (codes "time_dimension_column", codes "order_day")
    ∷ []

-- `_render_template`, of which only a KeyError is turned into a SemanticValidationError
abbrev pub placed : Formatted → Compiled Text
placed (formatted t) = pure t
placed (key_error name) = crashed "SemanticValidationError"
placed index_error = crashed "IndexError"
placed value_error = crashed "ValueError"

abbrev pub parse_issue : Outcome Statement → (Text → Report) → Report
parse_issue (returned ast) failed = []
parse_issue (raised exc) failed = failed exc

-- `text.startswith(prefix)`
unfoldable pub starts_with : Text → Text → Bool
starts_with [] s = true
starts_with (k ∷ ks) [] = false
starts_with (k ∷ ks) (c ∷ s) = nat_eq c k && starts_with ks s

module _ ⦃u : Unicode⦄ where
  -- A literal with regard to case, as match_word is without
  unfoldable pub match_exact : Bool → Text → Text → Option (Bool × Text)
  match_exact last [] s = some (last, s)
  match_exact last (k ∷ ks) [] = none
  match_exact last (k ∷ ks) (c ∷ s) =
      let rest = match_exact (is_word c) ks s in if nat_eq c k then rest else none

  abbrev exact_here : Bool → Text → Text → Bool
  exact_here last s k = boundary last s && ends_word (match_exact last k s)

  unfoldable pub search_exact : Bool → List Text → Text → Bool
  search_exact last ks [] = any (exact_here last []) ks
  search_exact last ks (c ∷ s) = any (exact_here last (c ∷ s)) ks || search_exact (is_word c) ks s

  -- The issues of an expression that need no parser
  unfoldable pub fragment_issues : String → Text → Text → Report
  fragment_issues entity_type key expression =
      issue_if (elem b';' expression)
        (issue "semicolon" entity_type key (codes "SQL template must not contain semicolons."))
      ++ issue_if (search_word false blocked_words expression) (
          issue "forbidden_sql_keyword" entity_type key
            (codes "Expression templates must be fragments, not full SQL statements."))

  -- `SELECT ... AS semantic_value FROM fact.orders src` is parsed for an expression.
  unfoldable pub parse_fragment : Sqlglot → String → Text → Text → Compiled Report
  parse_fragment sqlglot entity_type key expression =
      placed (format placeholder_values expression) >>= λ rendered. pure (
        parse_issue
          (sqlglot.parse_one
            (codes "SELECT " ++ (rendered ++ codes " AS semantic_value FROM fact.orders src")))
          (λ exc.
            issue "invalid_sql_expression" entity_type key
              (codes "SQL template failed to parse: " ++ exc)))

  -- `_validate_expression_fragment`
  unfoldable pub validate_expression_fragment : Sqlglot → String → Text → Text → Compiled Report
  validate_expression_fragment sqlglot entity_type key expression =
      let issues = fragment_issues entity_type key expression in
      let parsed = parse_fragment sqlglot entity_type key expression in
      if is_empty (strip expression)
      then pure (issue "blank_expression" entity_type key (codes "SQL template must not be empty."))
      else if is_empty issues
      then parsed
      else pure issues

  unfoldable pub parse_join : Sqlglot → String → Text → Text → Compiled Report
  parse_join sqlglot entity_type key join_path =
      placed (format placeholder_values join_path) >>= λ rendered. pure (
        parse_issue (sqlglot.parse_one (codes "SELECT 1 FROM fact.orders src " ++ rendered)) (λ exc.
          issue "invalid_join_path" entity_type key (codes "Join path failed to parse: " ++ exc)))

  -- `_validate_join_path`
  unfoldable pub validate_join_path : Sqlglot → String → Text → Text → Compiled Report
  validate_join_path sqlglot entity_type key join_path =
      let lowered = lower (strip join_path) in
      let parsed = parse_join sqlglot entity_type key join_path in
      if is_empty (strip join_path)
      then pure []
      else if elem b';' join_path
      then pure (issue "semicolon" entity_type key (codes "Join path must not contain semicolons."))
      else if not (starts_with (codes "join ") lowered || starts_with (codes "left join ") lowered)
      then pure (
          issue "join_prefix" entity_type key
            (codes "Join path must start with JOIN or LEFT JOIN."))
      else if search_exact false blocked_join_words lowered
      then pure (
          issue "forbidden_join_keyword" entity_type key
            (codes "Join path contains forbidden SQL."))
      else parsed
