-- ===== src/Semantic/Errors.antt =====
-- backend/app/semantic/errors.py: the clarification reasons, and the calls of the semantic layer that
-- may raise, as a monad.
use Prim.Native.String.{String}
use mathlib.Core.Path.{◌≡◌, refl, subst}
use mathlib.Core.Bool.{Bool, true, false}
use mathlib.Core.Option.{Option, none, some}
use mathlib.Core.List.{[], ◌∷◌}
use drivee_tolmach.Common.{Text, codes, if◌then◌else◌}
use drivee_tolmach.Json.{Json, str, object}
use drivee_tolmach.Guardrails.Decision.{SemanticErrorCode, BlockReason, build_block_reason}

pub data ClarificationCode : Type 0 where
  ambiguous_request metric_is_required metric_not_in_catalog : ClarificationCode
  dimension_not_in_catalog filter_not_in_catalog period_required : ClarificationCode

abbrev pub clarification_value : ClarificationCode → String
clarification_value ambiguous_request = "ambiguous_request"
clarification_value metric_is_required = "metric_required"
clarification_value metric_not_in_catalog = "metric_not_in_catalog"
clarification_value dimension_not_in_catalog = "dimension_not_in_catalog"
clarification_value filter_not_in_catalog = "filter_not_in_catalog"
clarification_value period_required = "period_required"

pub record ClarificationReason : Type 0 where
  pub code : String
  pub message : Text
  pub details : Json

abbrev pub build_clarification_reason : ClarificationCode → Text → Json → ClarificationReason
build_clarification_reason code message details = record {
  code = clarification_value code;
  message = message;
  details = details;
}

-- StructuredReason.as_dict
abbrev pub clarification_json : ClarificationReason → Json
clarification_json reason = object (
    ("code", str (codes reason.code))
    ∷ ("message", str reason.message)
    ∷ ("details", reason.details)
    ∷ [])

-- What a call gives: its result, the reason of a SemanticCompilationError, or the class of another
-- exception.
pub data Compiled {ℓ} (A : Type ℓ) : Type ℓ where
  compiled : A → Compiled A
  refused : BlockReason → Compiled A
  crashed : String → Compiled A

infixl 5 ◌>>=◌ ◌>>◌
unfoldable pub ◌>>=◌ {ℓ κ} : {A : Type ℓ} {B : Type κ} → Compiled A → (A → Compiled B) → Compiled B
compiled a >>= f = f a
refused reason >>= f = refused reason
crashed class_name >>= f = crashed class_name

abbrev pub ◌>>◌ {ℓ} : {B : Type ℓ} → Compiled (Unit {0}) → Compiled B → Compiled B
m >> k = m >>= λ _. k

abbrev pub pure {ℓ} : {A : Type ℓ} → A → Compiled A
pure a = compiled a

-- `raise SemanticCompilationError(build_block_reason(...))`
abbrev pub refuse {ℓ} : {A : Type ℓ} → SemanticErrorCode → Text → Json → Compiled A
refuse code message details = refused (build_block_reason code message details)

-- `if test: raise ...`
unfoldable pub refuse_if : Bool → SemanticErrorCode → Text → Json → Compiled (Unit {0})
refuse_if test code message details = if test then refuse code message details else pure tt

-- `if not value: raise ...`
unfoldable pub or_else {ℓ} : {A : Type ℓ} → Option A → SemanticErrorCode → Text → Json → Compiled A
or_else (some a) code message details = pure a
or_else none code message details = refuse code message details

-- What holds of the result of a call, if it has one.
unfoldable pub Gives {ℓ κ} : {A : Type ℓ} → (A → Type κ) → Compiled A → Type κ
Gives P (compiled a) = P a
Gives P (refused reason) = Unit
Gives P (crashed class_name) = Unit

pub Gives-pure {ℓ κ} : {A : Type ℓ} (P : A → Type κ) (a : A) → P a → Gives P (pure a)
unfolding Gives
Gives-pure P a h = h

pub Gives-refuse {ℓ κ} :
    {A : Type ℓ} (P : A → Type κ) (code : SemanticErrorCode) (message : Text) (details : Json)
    → Gives P (refuse code message details)
unfolding Gives
Gives-refuse P code message details = tt

pub Gives-bind {ℓ κ μ ν} :
    {A : Type ℓ} {B : Type κ} (P : A → Type μ) (Q : B → Type ν) (m : Compiled A)
    (f : A → Compiled B)
    → Gives P m
    → ((a : A) → P a → Gives Q (f a))
    → Gives Q (m >>= f)
unfolding ◌>>=◌ Gives
Gives-bind P Q (compiled a) f h k = k a h
Gives-bind P Q (refused reason) f h k = tt
Gives-bind P Q (crashed class_name) f h k = tt

-- Behind a test that refuses, the test is false.
pub Gives-refuse_if {ℓ κ} :
    {A : Type ℓ} (P : A → Type κ) (test : Bool) (code : SemanticErrorCode) (message : Text)
    (details : Json) (k : Compiled A)
    → (test ≡ false → Gives P k)
    → Gives P (refuse_if test code message details >> k)
unfolding refuse_if ◌>>=◌ Gives
Gives-refuse_if P true code message details k h = tt
Gives-refuse_if P false code message details k h = h refl

pub Gives-compiled {ℓ κ} :
    {A : Type ℓ} (P : A → Type κ) (m : Compiled A) (a : A) → Gives P m → m ≡ compiled a → P a
unfolding Gives
Gives-compiled P m a h e = subst (λ r. Gives P r) e h

pub Gives-or_else {ℓ} :
    {A : Type ℓ} (o : Option A) (code : SemanticErrorCode) (message : Text) (details : Json)
    → Gives (λ a. o ≡ some a) (or_else o code message details)
unfolding or_else Gives
Gives-or_else (some a) code message details = refl
Gives-or_else none code message details = tt

-- What follows a call may use nothing of its result.
pub Gives-anything {ℓ} : {A : Type ℓ} (m : Compiled A) → Gives (λ _. Unit {0}) m
unfolding Gives
Gives-anything (compiled a) = tt
Gives-anything (refused reason) = tt
Gives-anything (crashed class_name) = tt

pub Gives-itself {ℓ} : {A : Type ℓ} (m : Compiled A) → Gives (λ a. m ≡ compiled a) m
unfolding Gives
Gives-itself (compiled a) = refl
Gives-itself (refused reason) = tt
Gives-itself (crashed class_name) = tt

pub Gives-weaken {ℓ κ μ} :
    {A : Type ℓ} (P : A → Type κ) (Q : A → Type μ) (m : Compiled A)
    → Gives P m
    → ((a : A) → P a → Q a)
    → Gives Q m
unfolding Gives
Gives-weaken P Q (compiled a) h k = k a h
Gives-weaken P Q (refused reason) h k = tt
Gives-weaken P Q (crashed class_name) h k = tt
