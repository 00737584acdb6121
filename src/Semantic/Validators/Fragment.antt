-- ===== src/Semantic/Validators/Fragment.antt =====
-- The expressions that `_validate_expression_fragment` finds no error in.
use Prim.Native.String.{String}
use mathlib.Core.Path.{◌≡◌, refl}
use mathlib.Core.Bool.{Bool, true, false}
use mathlib.Core.List.{[], ◌∷◌, ◌++◌}
use native.Mathlib.Omega.{arith}
use drivee_tolmach.Common.{
  Text, codes, Unicode, strip, elem, is_empty, same_list, same_ℕ, if◌then◌else◌,
}
use drivee_tolmach.Guardrails.Patterns.{search_word}
use drivee_tolmach.Guardrails.Statement.{Outcome, returned, raised, Statement, Sqlglot}
use drivee_tolmach.Semantic.Errors.{Compiled, ◌>>=◌, pure}
use drivee_tolmach.Semantic.Template.{
  Formatted, formatted, key_error, index_error, value_error, format,
}
use drivee_tolmach.Semantic.Fragments.{
  Report, SemanticValidationIssue, is_error, ok, issue_if, placeholder_values, placed, parse_issue,
  blocked_words, fragment_issues, parse_fragment, validate_expression_fragment,
}
use drivee_tolmach.Semantic.Validators.Verdicts.{accepts}

module _ ⦃u : Unicode⦄ (sqlglot : Sqlglot) where
  -- A fragment that is not blank, has no semicolon and no word of a statement, can be filled in, and is
  -- parsed behind SELECT.
  abbrev pub IsFragment : Text → Type 0
  IsFragment expression =
      (is_empty (strip expression) ≡ false)
      × (elem b';' expression ≡ false)
      × (search_word false blocked_words expression ≡ false)
      × ((rendered : Text) × (format placeholder_values expression ≡ formatted rendered)
          × ((ast : Statement) × (sqlglot.parse_one
                  (codes "SELECT " ++ (rendered ++ codes " AS semantic_value FROM fact.orders src"))
                ≡ returned ast)))

returned_if :
    (o : Outcome Statement) (failed : Text → Report)
    → ((exc : Text) → ok (failed exc) ≡ false)
    → ok (parse_issue o failed) ≡ true
    → (ast : Statement) × (o ≡ returned ast)
returned_if (returned ast) failed h k = (ast, refl)
returned_if (raised exc) failed h k = absurd (ground (arith, h exc))

parsed_if :
    (f : Formatted) (o : Text → Outcome Statement) (failed : Text → Report)
    → ((exc : Text) → ok (failed exc) ≡ false)
    → accepts (placed f >>= λ rendered. pure (parse_issue (o rendered) failed)) ≡ true
    → (rendered : Text) × (f ≡ formatted rendered)
      × ((ast : Statement) × (o rendered ≡ returned ast))
unfolding ◌>>=◌
parsed_if (formatted t) o failed h k = (t, refl, returned_if (o t) failed h k)
parsed_if (key_error name) o failed h k = cc
parsed_if index_error o failed h k = cc
parsed_if value_error o failed h k = cc

-- The three tests of a fragment, each with its issue, in front of the parser.
abbrev tested :
    Bool → Bool → Bool → (x y z : SemanticValidationIssue) → Compiled Report → Compiled Report
tested b c d x y z parsed =
    if b
    then pure (x ∷ [])
    else if is_empty (issue_if c (y ∷ []) ++ issue_if d (z ∷ []))
    then parsed
    else pure (issue_if c (y ∷ []) ++ issue_if d (z ∷ []))

tested-accepts :
    (b c d : Bool) (x y z : SemanticValidationIssue) (parsed : Compiled Report)
    → is_error x ≡ true
    → is_error y ≡ true
    → is_error z ≡ true
    → accepts (tested b c d x y z parsed) ≡ true
    → (b ≡ false) × (c ≡ false) × (d ≡ false) × (accepts parsed ≡ true)
unfolding issue_if
tested-accepts true c d x y z parsed ex ey ez h = absurd (ground arith)
tested-accepts false true d x y z parsed ex ey ez h = absurd (ground arith)
tested-accepts false false true x y z parsed ex ey ez h = absurd (ground arith)
tested-accepts false false false x y z parsed ex ey ez h = (refl, refl, refl, h)

module _ ⦃u : Unicode⦄ (sqlglot : Sqlglot) (entity_type : String) (key : Text) where
  parse_fragment→parsed :
      (expression : Text)
      → accepts (parse_fragment sqlglot entity_type key expression) ≡ true
      → (rendered : Text) × (format placeholder_values expression ≡ formatted rendered)
        × ((ast : Statement) × (sqlglot.parse_one
                (codes "SELECT " ++ (rendered ++ codes " AS semantic_value FROM fact.orders src"))
              ≡ returned ast))
  unfolding parse_fragment
  parse_fragment→parsed expression h = parsed_if _ _ _ (λ exc. refl) h

  parsed→parse_fragment :
      (expression rendered : Text) (ast : Statement)
      → format placeholder_values expression ≡ formatted rendered
      → sqlglot.parse_one
          (codes "SELECT " ++ (rendered ++ codes " AS semantic_value FROM fact.orders src"))
        ≡ returned ast
      → accepts (parse_fragment sqlglot entity_type key expression) ≡ true
  unfolding parse_fragment ◌>>=◌
  parsed→parse_fragment expression rendered ast e r = rw (e, r) refl

  pub fragment→IsFragment :
      (expression : Text)
      → accepts (validate_expression_fragment sqlglot entity_type key expression) ≡ true
      → IsFragment sqlglot expression
  unfolding validate_expression_fragment fragment_issues
  fragment→IsFragment expression h =
      let (blank, semicolon, word, parsed) =
        tested-accepts (is_empty (strip expression)) (elem b';' expression)
          (search_word false blocked_words expression) _ _ _
          (parse_fragment sqlglot entity_type key expression) refl refl refl h in
      (blank, semicolon, word, parse_fragment→parsed expression parsed)

  pub IsFragment→fragment :
      (expression : Text)
      → IsFragment sqlglot expression
      → accepts (validate_expression_fragment sqlglot entity_type key expression) ≡ true
  unfolding validate_expression_fragment fragment_issues issue_if parse_fragment
  IsFragment→fragment expression (blank, semicolon, word, (rendered, f, (ast, r))) =
      rw (blank, semicolon, word) (parsed→parse_fragment expression rendered ast f r)
