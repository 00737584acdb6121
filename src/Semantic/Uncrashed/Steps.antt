-- ===== src/Semantic/Uncrashed/Steps.antt =====
-- The calls of backend/app/semantic/planner.py that raise nothing but a SemanticCompilationError.
use Prim.Native.Nat.{zero, suc}
use mathlib.Core.Path.{◌≡◌, refl, ◌∙◌}
use mathlib.Core.Bool.{Bool, true, false, ◌||◌}
use mathlib.Core.Option.{Option, none, some}
use mathlib.Core.List.{List, [], ◌∷◌}
use drivee_tolmach.Common.{
  Text, codes, Unicode, strip, elem, is_empty, ℤ, pos, negsuc, ◌==◌, same_list, same_ℕ, if-cases,
}
use drivee_tolmach.Json.{Json}
use drivee_tolmach.Settings.{Settings}
use drivee_tolmach.Guardrails.Decision.{SemanticErrorCode, BlockReason}
use drivee_tolmach.Semantic.Errors.{
  Compiled, compiled, refused, crashed, ◌>>=◌, ◌>>◌, pure, refuse_if, or_else,
}
use drivee_tolmach.Semantic.Template.{Formatted, formatted, key_error, index_error, value_error}
use drivee_tolmach.Semantic.Template.Fields.{is_formatted, format-same}
use drivee_tolmach.Semantic.Catalog.{GrainDefinition, SemanticDimensionDefinition, grain_context}
use drivee_tolmach.Semantic.Literals.{
  Parsers, or_refuse, number_literal, parse_temporal_value, sql_literal,
}
use drivee_tolmach.Semantic.Request.{DateRange}
use drivee_tolmach.Semantic.Clauses.{
  rendered, render_template, kind_of, rolling, refuse_operator, between_clause, normalize_limit,
  compile_period, resolve_dimension_sql, literals, clause_of, compile_filter_clause,
}
use drivee_tolmach.Semantic.Fragments.{placeholder_values}
use drivee_tolmach.Semantic.Validators.Filled.{CanFill}

-- A result or a SemanticCompilationError
unfoldable pub NotCrashed {ℓ} : {A : Type ℓ} → Compiled A → Type 0
NotCrashed (compiled a) = Unit
NotCrashed (refused reason) = Unit
NotCrashed (crashed class_name) = ⊥

pub NotCrashed-bind {ℓ κ} :
    {A : Type ℓ} {B : Type κ} (m : Compiled A) (f : A → Compiled B)
    → NotCrashed m
    → ((a : A) → m ≡ compiled a → NotCrashed (f a))
    → NotCrashed (m >>= f)
unfolding NotCrashed ◌>>=◌
NotCrashed-bind (compiled a) f h k = k a refl
NotCrashed-bind (refused reason) f h k = tt
NotCrashed-bind (crashed class_name) f h k = h

pub NotCrashed-pure {ℓ} : {A : Type ℓ} (a : A) → NotCrashed (pure a)
unfolding NotCrashed
NotCrashed-pure a = tt

NotCrashed-refused {ℓ} : (A : Type ℓ) (reason : BlockReason) → NotCrashed {A = A} (refused reason)
unfolding NotCrashed
NotCrashed-refused A reason = tt

pub NotCrashed-refuse_if {ℓ} :
    {A : Type ℓ} (test : Bool) (code : SemanticErrorCode) (message : Text) (details : Json)
    (k : Compiled A)
    → NotCrashed k
    → NotCrashed (refuse_if test code message details >> k)
unfolding NotCrashed refuse_if ◌>>=◌
NotCrashed-refuse_if true code message details k h = tt
NotCrashed-refuse_if false code message details k h = h

pub NotCrashed-or_else {ℓ} :
    {A : Type ℓ} (o : Option A) (code : SemanticErrorCode) (message : Text) (details : Json)
    → NotCrashed (or_else o code message details)
unfolding NotCrashed or_else
NotCrashed-or_else (some a) code message details = tt
NotCrashed-or_else none code message details = tt

pub or_else-some {ℓ} :
    {A : Type ℓ} (o : Option A) (code : SemanticErrorCode) (message : Text) (details : Json) (a : A)
    → or_else o code message details ≡ compiled a
    → o ≡ some a
unfolding or_else
or_else-some (some b) code message details a h = cc
or_else-some none code message details a h = cc

NotCrashed-or_refuse :
    (o : Option Text) (message : Text) (details : Json) → NotCrashed (or_refuse o message details)
unfolding NotCrashed or_refuse
NotCrashed-or_refuse (some t) message details = tt
NotCrashed-or_refuse none message details = tt

NotCrashed-rendered : (f : Formatted) → is_formatted f ≡ true → NotCrashed (rendered f)
unfolding NotCrashed
NotCrashed-rendered (formatted t) h = tt
NotCrashed-rendered (key_error name) h = cc
NotCrashed-rendered index_error h = cc
NotCrashed-rendered value_error h = cc

-- A template that the validators can fill in is filled in for every grain.
pub NotCrashed-render_template :
    (template : Text) (grain : GrainDefinition) (dimension_alias : Text)
    → CanFill template
    → NotCrashed (render_template template grain dimension_alias)
unfolding render_template
NotCrashed-render_template template grain dimension_alias h =
    NotCrashed-rendered _
      (format-same (grain_context grain dimension_alias) placeholder_values refl template ∙ h)

NotCrashed-rolling :
    (r : DateRange) (field : Text) (days : Option ℤ) → NotCrashed (rolling r field days)
unfolding rolling NotCrashed
NotCrashed-rolling r field none = tt
NotCrashed-rolling r field (some (pos zero)) = tt
NotCrashed-rolling r field (some (pos (suc n))) = tt
NotCrashed-rolling r field (some (negsuc n)) = tt

pub NotCrashed-normalize_limit :
    (settings : Settings) (limit : Option ℤ) → NotCrashed (normalize_limit settings limit)
unfolding normalize_limit NotCrashed
NotCrashed-normalize_limit settings none = tt
NotCrashed-normalize_limit settings (some (pos zero)) = tt
NotCrashed-normalize_limit settings (some (pos (suc n))) = tt
NotCrashed-normalize_limit settings (some (negsuc n)) = tt

module _ ⦃u : Unicode⦄ where
  pub NotCrashed-compile_period :
      (r : DateRange) (time_column base_alias : Text)
      → NotCrashed (compile_period r time_column base_alias)
  unfolding compile_period
  NotCrashed-compile_period r time_column base_alias =
      if-cases NotCrashed (kind_of r == codes "rolling_days") _ _
        (λ _. NotCrashed-rolling r _ r.days)
        (λ _.
          if-cases NotCrashed (kind_of r == codes "since_date") _ _ (λ _. NotCrashed-pure _)
            (λ _.
              if-cases NotCrashed (kind_of r == codes "until_date") _ _ (λ _. NotCrashed-pure _)
                (λ _.
                  if-cases NotCrashed (kind_of r == codes "exact_date") _ _ (λ _. NotCrashed-pure _)
                    (λ _.
                      if-cases NotCrashed (kind_of r == codes "between_dates") _ _
                        (λ _.
                          if-cases NotCrashed (is_empty (strip r.start) || is_empty (strip r.end)) _
                            _ (λ _. NotCrashed-refused _ _) (λ _. NotCrashed-pure _))
                        (λ _.
                          if-cases NotCrashed (kind_of r == codes "missing") _ _
                            (λ _. NotCrashed-pure _) (λ _. NotCrashed-refused _ _))))))

  pub NotCrashed-resolve :
      (d : SemanticDimensionDefinition) (grain : GrainDefinition)
      → CanFill d.column_name × CanFill d.join_path
      → NotCrashed (resolve_dimension_sql d grain)
  unfolding resolve_dimension_sql
  NotCrashed-resolve d grain (column, path) =
      NotCrashed-bind _ _ (NotCrashed-render_template d.column_name grain _ column) (λ c _.
        if-cases NotCrashed (d.table_name == codes "__grain__") _ _ (λ _. NotCrashed-pure _)
          (λ _.
            NotCrashed-bind _ _ (NotCrashed-render_template d.join_path grain _ path)
              (λ p _. NotCrashed-refuse_if _ _ _ _ _ (NotCrashed-pure _))))

  module _ (parsers : Parsers) where
    NotCrashed-parse_temporal_value :
        (data_type value : Text) → NotCrashed (parse_temporal_value parsers data_type value)
    unfolding parse_temporal_value
    NotCrashed-parse_temporal_value data_type value =
        if-cases NotCrashed (data_type == codes "date") _ _
          (λ _. NotCrashed-bind _ _ (NotCrashed-or_refuse _ _ _) (λ _ _. NotCrashed-pure _))
          (λ _.
            if-cases NotCrashed (data_type == codes "timestamp") _ _
              (λ _. NotCrashed-bind _ _ (NotCrashed-or_refuse _ _ _) (λ _ _. NotCrashed-pure _))
              (λ _. NotCrashed-pure _))

    NotCrashed-number_literal :
        (data_type value : Text) → NotCrashed (number_literal parsers data_type value)
    unfolding number_literal
    NotCrashed-number_literal data_type value = NotCrashed-or_refuse _ _ _

    NotCrashed-sql_literal :
        (data_type value : Text) → NotCrashed (sql_literal parsers data_type value)
    unfolding sql_literal
    NotCrashed-sql_literal data_type value =
        if-cases NotCrashed (elem data_type (codes "integer" ∷ codes "numeric" ∷ [])) _ _
          (λ _. NotCrashed-number_literal data_type value)
          (λ _.
            NotCrashed-bind _ _ (NotCrashed-parse_temporal_value data_type value)
              (λ _ _. NotCrashed-pure _))

    NotCrashed-literals :
        (data_type : Text) (values : List Text) → NotCrashed (literals parsers data_type values)
    unfolding literals
    NotCrashed-literals data_type [] = NotCrashed-pure _
    NotCrashed-literals data_type (value ∷ values) =
        NotCrashed-bind _ _ (NotCrashed-sql_literal data_type value) (λ _ _.
          NotCrashed-bind _ _ (NotCrashed-literals data_type values) (λ _ _. NotCrashed-pure _))

    NotCrashed-between_clause :
        (d : SemanticDimensionDefinition) (operator expression low : Text) (rest : List Text)
        → NotCrashed (between_clause parsers d operator expression low rest)
    unfolding between_clause refuse_operator
    NotCrashed-between_clause d operator expression low [] = NotCrashed-refused _ _
    NotCrashed-between_clause d operator expression low (high ∷ more) =
        NotCrashed-bind _ _ (NotCrashed-sql_literal d.data_type low) (λ _ _.
          NotCrashed-bind _ _ (NotCrashed-sql_literal d.data_type high) (λ _ _. NotCrashed-pure _))

    NotCrashed-clause_of :
        (d : SemanticDimensionDefinition) (operator expression : Text) (values : List Text)
        → NotCrashed (clause_of parsers d operator expression values)
    unfolding clause_of refuse_operator
    NotCrashed-clause_of d operator expression [] = NotCrashed-refused _ _
    NotCrashed-clause_of d operator expression (first ∷ rest) =
        if-cases NotCrashed (operator == codes "eq") _ _
          (λ _.
            NotCrashed-bind _ _ (NotCrashed-sql_literal d.data_type first)
              (λ _ _. NotCrashed-pure _))
          (λ _.
            if-cases NotCrashed (operator == codes "in") _ _
              (λ _.
                NotCrashed-bind _ _ (NotCrashed-literals d.data_type (first ∷ rest))
                  (λ _ _. NotCrashed-pure _))
              (λ _.
                if-cases NotCrashed (operator == codes "between") _ _
                  (λ _. NotCrashed-between_clause d operator expression first rest)
                  (λ _. NotCrashed-refused _ _)))

    pub NotCrashed-compile_filter_clause :
        (d : SemanticDimensionDefinition) (grain : GrainDefinition) (operator : Text)
        (values : List Text)
        → CanFill d.column_name × CanFill d.join_path
        → NotCrashed (compile_filter_clause parsers d grain operator values)
    unfolding compile_filter_clause
    NotCrashed-compile_filter_clause d grain operator values h = NotCrashed-refuse_if _ _ _ _ _ (
        NotCrashed-refuse_if _ _ _ _ _ (
          NotCrashed-bind _ _ (NotCrashed-resolve d grain h) (λ resolved _.
            NotCrashed-bind _ _ (NotCrashed-clause_of d operator resolved.0 values)
              (λ _ _. NotCrashed-pure _))))

-- What holds of all values of a dict holds of the value that is found.
