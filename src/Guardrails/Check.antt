-- ===== src/Guardrails/Check.antt =====
-- The shape of validate_sql: checks in a row over one list of log entries, and the first failing
-- check ends the run with its decision.
use Prim.Native.String.{String}
use mathlib.Core.Path.{◌≡◌, refl}
use mathlib.Core.List.{List, [], ◌∷◌, ◌++◌}
use drivee_tolmach.Common.{Text, codes}
use drivee_tolmach.Json.{Json, object}
use drivee_tolmach.Guardrails.Decision.{SemanticErrorCode, Log, log, GuardrailDecision, fail, value}

pub data Step {ℓ} (A : Type ℓ) : Type ℓ where
  blocked : GuardrailDecision → Step A
  passed : A → List Log → Step A

abbrev pub Check {ℓ} : Type ℓ → Type ℓ
Check A = List Log → Step A

unfoldable pub continue {ℓ κ} : {A : Type ℓ} {B : Type κ} → Step A → (A → Check B) → Step B
continue (blocked d) f = blocked d
continue (passed a logs) f = f a logs

infixl 5 ◌>>=◌ ◌>>◌
abbrev pub ◌>>=◌ {ℓ κ} : {A : Type ℓ} {B : Type κ} → Check A → (A → Check B) → Check B
◌>>=◌ m f logs = continue (m logs) f

abbrev pub ◌>>◌ {ℓ} : {B : Type ℓ} → Check (Unit {0}) → Check B → Check B
m >> k = m >>= λ _. k

abbrev pub pure {ℓ} : {A : Type ℓ} → A → Check A
pure a logs = passed a logs

-- `logs.append(_log(...))`
abbrev pub note : Log → Check (Unit {0})
note entry logs = passed tt (logs ++ entry ∷ [])

-- `return _fail(logs, ...)`
abbrev pub block {ℓ} : {A : Type ℓ} → String → SemanticErrorCode → Text → Json → Check A
block check_name code message details logs = blocked (fail logs check_name code message details)

abbrev pub no_details : Json
no_details = object []

abbrev pub passes : String → String → Json → Log
passes check_name message details = log check_name "passed" "info" "" (codes message) details

abbrev pub warns : String → SemanticErrorCode → String → Json → Log
warns check_name code message details =
    log check_name "warning" "warning" (value code) (codes message) details

-- A passed sequence of checks, taken apart: the first check passed, and the rest behind it.
pub continue-elim {ℓ κ μ} :
    {A : Type ℓ} {B : Type κ} {C : Type μ} (s : Step A) (f : A → Check B) {b : B} {final : List Log}
    → continue s f ≡ passed b final
    → ((a : A) (middle : List Log) → s ≡ passed a middle → f a middle ≡ passed b final → C)
    → C
unfolding continue
continue-elim (blocked d) f h k = cc
continue-elim (passed a middle) f h k = k a middle refl h
