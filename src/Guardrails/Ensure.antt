-- ===== src/Guardrails/Ensure.antt =====
-- ensure_safe_sql of backend/app/semantic/sql_validator.py; the exception carries its message.
use Prim.Native.Nat.{ℕ}
use mathlib.Core.Option.{Option, none, some}
use mathlib.Core.List.{List, [], ◌∷◌, ◌++◌}
use drivee_tolmach.Common.{Text, codes, Unicode, show, is_empty, if◌then◌else◌}
use drivee_tolmach.Settings.{Settings}
use drivee_tolmach.Guardrails.Patterns.{is_forbidden, is_readonly, extract_limit, apply_limit}
use drivee_tolmach.Guardrails.Statement.{Outcome, returned, raised}
use drivee_tolmach.Guardrails.Validator.{clean}

module _ ⦃u : Unicode⦄ where
  with_limit : ℕ → Text → Option ℕ → Text × List Text
  with_limit n sql none =
      (apply_limit sql n, (codes "Automatically added LIMIT " ++ (show n ++ codes ".")) ∷ [])
  with_limit n sql (some _) = (sql, [])

  unfoldable pub ensure_safe_sql : Settings → Text → Outcome (Text × List Text)
  unfolding with_limit
  ensure_safe_sql settings sql =
      let cleaned = clean sql in
      if is_empty cleaned
      then raised (codes "SQL is empty.")
      else if is_forbidden cleaned
      then raised (codes "Request blocked: only safe read-only SELECT queries are allowed.")
      else if is_readonly cleaned
      then returned (with_limit settings.max_result_rows cleaned (extract_limit cleaned))
      else raised (codes "Request blocked: only read-only SELECT queries are allowed.")
