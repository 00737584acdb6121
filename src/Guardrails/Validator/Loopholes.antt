-- ===== src/Guardrails/Validator/Loopholes.antt =====
-- Queries that validate_sql lets through although a rule of its own names what they ask for.
use Prim.Native.Nat.{ℕ, ◌≤◌}
use mathlib.Core.Path.{◌≡◌}
use mathlib.Core.List.{List, [], ◌∷◌, ◌++◌}
use native.Mathlib.Omega.{arith}
use drivee_tolmach.Common.{Unicode, same_list, same_ℕ}
use drivee_tolmach.Json.{num, object}
use drivee_tolmach.Guardrails.Patterns.Nested.{nested, extract_limit-nested}
use drivee_tolmach.Guardrails.Decision.{Log}
use drivee_tolmach.Guardrails.Check.{passed, passes, continue}
use drivee_tolmach.Guardrails.Validator.{limit_rows}

module _ ⦃u : Unicode⦄ where
  -- The outer limit m of a query is neither read nor capped if a subquery has a limit n that is
  -- within the row limit: the text goes on as it is, whatever m is, with n as its row limit.
  pub limit_rows-nested :
      (n m row_limit : ℕ) (logs : List Log)
      → n ≤ row_limit
      → (final : List Log) × (limit_rows row_limit (nested n m) logs ≡ passed (nested n m, n) final)
  unfolding limit_rows continue
  limit_rows-nested n m row_limit logs h = (
    logs
        ++ passes "limit_present" "LIMIT is present and within policy."
            (object (("limit", num n) ∷ []))
          ∷ [],
    rw (extract_limit-nested n m) (ground arith),
  )
