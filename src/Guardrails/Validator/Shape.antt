-- ===== src/Guardrails/Validator/Shape.antt =====
-- How validate_sql reports: the log and the block reason of a query that it turns down.
use Prim.Native.Nat.{ℕ}
use Prim.Native.String.{String}
use mathlib.Core.Path.{◌≡◌, refl}
use mathlib.Core.Logic.{◌⊎◌, inl, inr}
use mathlib.Core.Bool.{Bool, true, false}
use mathlib.Core.Option.{Option, none, some}
use mathlib.Core.List.{List, [], ◌∷◌, ◌++◌}
use drivee_tolmach.Common.{Text, Unicode, All, All-append, ◌==◌, same_string, if◌then◌else◌}
use drivee_tolmach.Json.{Json}
use drivee_tolmach.Settings.{Settings}
use drivee_tolmach.Guardrails.Patterns.{extract_limit}
use drivee_tolmach.Guardrails.Decision.{
  SemanticErrorCode, Log, BlockReason, ColumnReference, ValidatedSql, GuardrailDecision, fail,
  build_block_reason,
}
use drivee_tolmach.Guardrails.Statement.{Outcome, returned, raised, Statement, Sqlglot}
use drivee_tolmach.Guardrails.Check.{
  Step, Check, blocked, passed, continue, ◌>>=◌, ◌>>◌, pure, note, block,
}
use drivee_tolmach.Guardrails.Validator.{
  check_non_empty, check_keywords, check_readonly, single, after_parse, limit_by, after_reparse,
  after_explain, check_parse, check_star, check_tables, check_policies, check_forbidden,
  check_unknown, limit_rows, check_reparse, check_explain, accept, decide, clean, check_sql,
  validate_sql,
}
use drivee_tolmach.Guardrails.Validator.Columns.{AccessPolicy}

abbrev pub NotFailed : Log → Type 0
NotFailed entry = (entry.status == "failed") ≡ false

-- A decision that turns a query down: no SQL, one block reason, and a log whose last entry, and no
-- other, reports a failure, with the code, the message and the details of the reason.
pub record IsRefusal (d : GuardrailDecision) : Type 0 where
  pub not_ok : d.ok ≡ false
  pub no_sql : d.sql ≡ []
  pub no_query : d.validated_sql ≡ none
  pub reason : BlockReason
  pub only_reason : d.block_reasons ≡ reason ∷ []
  pub message : d.message ≡ reason.message
  pub earlier : List Log
  pub last : Log
  pub split : d.logs ≡ earlier ++ last ∷ []
  pub failed : last.status ≡ "failed"
  pub same_code : last.code ≡ reason.code
  pub same_message : last.message ≡ reason.message
  pub same_details : last.details ≡ reason.details
  pub earlier_passed : All NotFailed earlier

abbrev pub Reports {ℓ} : {A : Type ℓ} → Step A → Type 0
Reports (blocked d) = IsRefusal d
Reports (passed a logs) = All NotFailed logs

pub record Keeps {ℓ} {A : Type ℓ} (m : Check A) : Type 0 where
  pub at : (logs : List Log) → All NotFailed logs → Reports (m logs)

module _ {ℓ} {A : Type ℓ} where
  Keeps-block :
      (check_name : String) (code : SemanticErrorCode) (message : Text) (details : Json)
      → Keeps {A = A} (block check_name code message details)
  unfolding fail
  Keeps-block check_name code message details = record {
    at = λ logs h. record {
      not_ok = refl;
      no_sql = refl;
      no_query = refl;
      reason = build_block_reason code message details;
      only_reason = refl;
      message = refl;
      earlier = logs;
      last = _;
      split = refl;
      failed = refl;
      same_code = refl;
      same_message = refl;
      same_details = refl;
      earlier_passed = h;
    };
  }

  Keeps-pure : (a : A) → Keeps (pure a)
  Keeps-pure a = record { at = λ logs h. h }

  Keeps-if : {m n : Check A} (b : Bool) → Keeps m → Keeps n → Keeps (if b then m else n)
  Keeps-if true m n = m
  Keeps-if false m n = n

Keeps-note : (entry : Log) → NotFailed entry → Keeps (note entry)
Keeps-note entry ok = record { at = λ logs h. All-append NotFailed logs (entry ∷ []) h (ok, tt) }

module _ {ℓ κ} {A : Type ℓ} {B : Type κ} where
  continue-Reports :
      (s : Step A) {f : A → Check B} → Reports s → ((a : A) → Keeps (f a)) → Reports (continue s f)
  unfolding continue
  continue-Reports (blocked d) h k = h
  continue-Reports (passed a logs) h k = (k a).at logs h

  Keeps-bind : {m : Check A} {f : A → Check B} → Keeps m → ((a : A) → Keeps (f a)) → Keeps (m >>= f)
  Keeps-bind {m} {f} km kf = record { at = λ logs h. continue-Reports (m logs) (km.at logs h) kf }

Keeps-then {ℓ} :
    {B : Type ℓ} {m : Check (Unit {0})} {n : Check B} → Keeps m → Keeps n → Keeps (m >> n)
Keeps-then km kn = Keeps-bind km (λ _. kn)

module _ ⦃u : Unicode⦄ where
  single-Keeps : (statements : List Statement) → Keeps (single statements)
  unfolding single
  single-Keeps (s ∷ []) = Keeps-then (Keeps-note _ refl) (Keeps-pure s)
  single-Keeps _ = Keeps-block _ _ _ _

  after_parse-Keeps : (o : Outcome (List Statement)) → Keeps (after_parse o)
  unfolding after_parse
  after_parse-Keeps (raised exc) = Keeps-block _ _ _ _
  after_parse-Keeps (returned statements) = single-Keeps statements

  limit_by-Keeps : (n : ℕ) (sql : Text) (o : Option ℕ) → Keeps (limit_by n sql o)
  unfolding limit_by
  limit_by-Keeps n sql none = Keeps-then (Keeps-note _ refl) (Keeps-pure _)
  limit_by-Keeps n sql (some requested) =
      Keeps-if _ (Keeps-then (Keeps-note _ refl) (Keeps-pure _))
        (Keeps-then (Keeps-note _ refl) (Keeps-pure _))

  after_reparse-Keeps : (sql : Text) (o : Outcome Statement) → Keeps (after_reparse sql o)
  unfolding after_reparse
  after_reparse-Keeps sql (raised exc) = Keeps-block _ _ _ _
  after_reparse-Keeps sql (returned reparsed) = Keeps-then (Keeps-note _ refl) (Keeps-pure _)

  after_explain-Keeps :
      (settings : Settings) (o : Outcome (Json × ℕ)) → Keeps (after_explain settings o)
  unfolding after_explain
  after_explain-Keeps settings (raised exc) = Keeps-block _ _ _ _
  after_explain-Keeps settings (returned (plan, cost)) =
      Keeps-if _ (Keeps-block _ _ _ _) (Keeps-then (Keeps-note _ refl) (Keeps-pure _))

  check_tables-Keeps : (tables : List Text) → Keeps (check_tables tables)
  unfolding check_tables
  check_tables-Keeps tables =
      Keeps-if _ (Keeps-block _ _ _ _) (Keeps-if _ (Keeps-note _ refl) (Keeps-block _ _ _ _))

  limit_rows-Keeps : (n : ℕ) (sql : Text) → Keeps (limit_rows n sql)
  unfolding limit_rows
  limit_rows-Keeps n sql = limit_by-Keeps n sql (extract_limit sql)

  check_explain-Keeps :
      (settings : Settings) (explain_runner : Text → Outcome (Json × ℕ)) (sql : Text)
      → Keeps (check_explain settings explain_runner sql)
  unfolding check_explain
  check_explain-Keeps settings explain_runner sql =
      after_explain-Keeps settings (explain_runner sql)

  module _ (settings : Settings) (sqlglot : Sqlglot)
      (policy_loader : Text → List Text → List (Text × AccessPolicy))
      (explain_runner : Text → Outcome (Json × ℕ)) where
    pub check_sql-Keeps :
        (sql role : Text) (compiled : Option (List ColumnReference))
        → Keeps (check_sql settings sqlglot policy_loader explain_runner sql role compiled)
    unfolding check_sql check_non_empty check_keywords check_readonly check_parse check_star
        check_policies check_forbidden check_unknown check_reparse accept
    check_sql-Keeps sql role compiled =
        Keeps-then (Keeps-if _ (Keeps-block _ _ _ _) (Keeps-note _ refl)) (
          Keeps-then (Keeps-if _ (Keeps-block _ _ _ _) (Keeps-note _ refl)) (
            Keeps-then (Keeps-if _ (Keeps-note _ refl) (Keeps-block _ _ _ _)) (
              Keeps-bind (after_parse-Keeps (sqlglot.parse sql)) λ parsed.
                Keeps-then (Keeps-if _ (Keeps-block _ _ _ _) (Keeps-note _ refl)) (
                  Keeps-then (check_tables-Keeps _) (
                    Keeps-then (Keeps-if _ (Keeps-note _ refl) (Keeps-block _ _ _ _)) (
                      Keeps-then (Keeps-if _ (Keeps-note _ refl) (Keeps-block _ _ _ _)) (
                        Keeps-then (Keeps-if _ (Keeps-note _ refl) (Keeps-block _ _ _ _)) (
                          Keeps-bind (limit_rows-Keeps _ sql) λ limit.
                            Keeps-bind (after_reparse-Keeps limit.0 _) λ reparsed.
                              Keeps-bind (check_explain-Keeps settings explain_runner limit.0)
                                λ explained. record { at = λ logs h. h }))))))))

    -- A query that validate_sql turns down is refused with one reason, which the last log entry
    -- reports as failed; every check before it is logged, and none of those as failed. A query that
    -- it approves has no block reason and no failed entry.
    pub validate_sql-IsRefusal :
        (sql role : Text) (compiled : Option (List ColumnReference))
        → let d = validate_sql settings sqlglot policy_loader explain_runner sql role compiled in
          IsRefusal d ⊎ ((d.ok ≡ true) × (d.block_reasons ≡ []) × All NotFailed d.logs)
    unfolding validate_sql
    validate_sql-IsRefusal sql role compiled =
        go (check_sql settings sqlglot policy_loader explain_runner (clean sql) role compiled [])
          ((check_sql-Keeps (clean sql) role compiled).at [] tt)
      where
        go :
            (s : Step ValidatedSql)
            → Reports s
            → IsRefusal (decide s)
              ⊎ (((decide s).ok ≡ true)
                  × ((decide s).block_reasons ≡ [])
                  × All NotFailed (decide s).logs)
        go (blocked d) r = inl r
        go (passed v logs) r = inr (refl, refl, r)
