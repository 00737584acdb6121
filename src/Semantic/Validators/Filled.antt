-- ===== src/Semantic/Validators/Filled.antt =====
-- The templates of accepted metrics and dimensions can be filled in.
use Prim.Native.Nat.{ℕ}
use Prim.Native.String.{String}
use mathlib.Core.Path.{◌≡◌, refl, ap, ◌∙◌}
use mathlib.Core.Logic.{◌⊎◌, inl, inr}
use mathlib.Core.Bool.{Bool, true, false, not, ◌||◌}
use mathlib.Core.List.{List, [], ◌∷◌, ◌++◌}
use native.Mathlib.Omega.{arith}
use drivee_tolmach.Common.{
  Text, codes, Unicode, is_space, strip, lower, elem, is_empty, All, same_list, same_ℕ, nat_eq,
  if◌then◌else◌,
}
use drivee_tolmach.Common.Texts.Stripped.{strip_empty}
use drivee_tolmach.Guardrails.Statement.{Sqlglot}
use drivee_tolmach.Semantic.Errors.{Compiled, compiled, refused, crashed, ◌>>=◌, pure}
use drivee_tolmach.Semantic.Template.{
  Context, Formatted, formatted, key_error, index_error, value_error, format, scan, plain, output,
  next_mode,
}
use drivee_tolmach.Semantic.Template.Fields.{is_formatted, emit_lem}
use drivee_tolmach.Semantic.Catalog.{SemanticMetricDefinition, SemanticDimensionDefinition}
use drivee_tolmach.Semantic.Fragments.{
  Report, issue, ok, placeholder_values, placed, parse_join, starts_with, search_exact,
  blocked_join_words, validate_expression_fragment, validate_join_path,
}
use drivee_tolmach.Semantic.Validators.{
  validate_metric_definition, dimension_issues, validate_dimension_definition,
}
use drivee_tolmach.Semantic.Validators.Verdicts.{accepts, ok-append}
use drivee_tolmach.Semantic.Validators.Fragment.{fragment→IsFragment}
use drivee_tolmach.Semantic.Validators.Accepted.{
  IsAcceptable, validate_metric_definition-IsAcceptable_iff,
}

abbrev pub CanFill : Text → Type 0
CanFill template = is_formatted (format placeholder_values template) ≡ true

space_lem :
    ⦃u : Unicode⦄ (c : ℕ) → is_space c ≡ true → (nat_eq c b'{' ≡ false) × (nat_eq c b'}' ≡ false)
unfolding is_space
space_lem c h = ground arith

-- White space alone has no field.
blank-formatted :
    ⦃u : Unicode⦄ (context : Context) (s : Text)
    → All (λ c. is_space c ≡ true) s
    → is_formatted (scan context plain s) ≡ true
unfolding scan next_mode output
blank-formatted context [] _ = refl
blank-formatted context (c ∷ s) (e, h) =
    let (open_brace, close_brace) = space_lem c e in
    rw (open_brace, close_brace)
      (emit_lem (c ∷ []) (scan context plain s) ∙ blank-formatted context s h)

blank_template : ⦃u : Unicode⦄ (s : Text) → All (λ c. is_space c ≡ true) s → CanFill s
unfolding format
blank_template s h = blank-formatted placeholder_values s h

accepts-both :
    (m : Compiled Report) (g : Report → Compiled Report)
    → accepts (m >>= g) ≡ true
    → (f : Report) × (m ≡ compiled f) × (accepts (g f) ≡ true)
unfolding ◌>>=◌
accepts-both (compiled f) g h = (f, refl, h)
accepts-both (refused reason) g h = cc
accepts-both (crashed class_name) g h = cc

accepts-placed :
    (f : Formatted) (g : Text → Compiled Report)
    → accepts (placed f >>= g) ≡ true
    → is_formatted f ≡ true
unfolding ◌>>=◌
accepts-placed (formatted t) g h = refl
accepts-placed (key_error name) g h = cc
accepts-placed index_error g h = cc
accepts-placed value_error g h = cc

accepts-tests :
    (b c d e : Bool) (kind : String) (key : Text) (cx cy cz : String) (mx my mz : Text)
    (parsed : Compiled Report)
    → accepts (
        if b
        then pure []
        else if c
        then pure (issue cx kind key mx)
        else if d
        then pure (issue cy kind key my)
        else if e
        then pure (issue cz kind key mz)
        else parsed)
      ≡ true
    → (b ≡ true) ⊎ (accepts parsed ≡ true)
accepts-tests true c d e kind key cx cy cz mx my mz parsed h = inl refl
accepts-tests false true d e kind key cx cy cz mx my mz parsed h = cc
accepts-tests false false true e kind key cx cy cz mx my mz parsed h = cc
accepts-tests false false false true kind key cx cy cz mx my mz parsed h = cc
accepts-tests false false false false kind key cx cy cz mx my mz parsed h = inr h

module _ ⦃u : Unicode⦄ (sqlglot : Sqlglot) (entity_type : String) (key : Text) where
  fragment-CanFill :
      (expression : Text)
      → accepts (validate_expression_fragment sqlglot entity_type key expression) ≡ true
      → CanFill expression
  fragment-CanFill expression h =
      let (_, _, _, (rendered, f, _)) = fragment→IsFragment sqlglot entity_type key expression h in
      ap is_formatted f

  parse_join-CanFill :
      (join_path : Text)
      → accepts (parse_join sqlglot entity_type key join_path) ≡ true
      → CanFill join_path
  unfolding parse_join
  parse_join-CanFill join_path h = accepts-placed (format placeholder_values join_path) _ h

  -- The tests in front of the parser
  join-CanFill :
      (join_path : Text)
      → accepts (validate_join_path sqlglot entity_type key join_path) ≡ true
      → CanFill join_path
  unfolding validate_join_path
  join-CanFill join_path h =
      elim (accepts-tests (is_empty (strip join_path)) (elem b';' join_path)
        (not (
          starts_with (codes "join ") (lower (strip join_path))
          || starts_with (codes "left join ") (lower (strip join_path))))
        (search_exact false blocked_join_words (lower (strip join_path))) entity_type key _ _ _ _ _
        _ (parse_join sqlglot entity_type key join_path) h) [
          | inl blank ↦ blank_template join_path (strip_empty join_path blank)
          | inr parsed ↦ parse_join-CanFill join_path parsed
        ]

both_true : (a b c : Report) → ok (a ++ (b ++ c)) ≡ true → (ok b ≡ true) × (ok c ≡ true)
both_true a b c h = ground (arith, ok-append a (b ++ c), ok-append b c)

module _ ⦃u : Unicode⦄ (sqlglot : Sqlglot) where
  -- The template of an accepted metric
  pub metric-CanFill :
      (m : SemanticMetricDefinition) (dimension_keys supported_grains : List Text)
      → accepts (validate_metric_definition sqlglot m dimension_keys supported_grains) ≡ true
      → CanFill m.sql_expression_template
  unfolding IsAcceptable
  metric-CanFill m dimension_keys supported_grains h =
      let (_, _, _, _, (_, _, _, (rendered, f, _)), _, _) =
        (validate_metric_definition-IsAcceptable_iff sqlglot dimension_keys supported_grains m).0
          h in
      ap is_formatted f

  -- The templates of an accepted dimension
  pub dimension-CanFill :
      (d : SemanticDimensionDefinition) (allowed_tables : List Text)
      → accepts (validate_dimension_definition sqlglot d allowed_tables) ≡ true
      → CanFill d.column_name × CanFill d.join_path
  unfolding validate_dimension_definition
  dimension-CanFill d allowed_tables h =
      let (fragment, f, h') = accepts-both _ _ h in
      let (joined, j, h'') = accepts-both _ _ h' in
      let (good, fine) = both_true (dimension_issues d allowed_tables) fragment joined h'' in
      (
        fragment-CanFill sqlglot "dimension" d.dimension_key d.column_name (ap accepts f ∙ good),
        join-CanFill sqlglot "dimension" d.dimension_key d.join_path (ap accepts j ∙ fine),
      )
