-- ===== src/Reports/Execute/Guarded.antt =====
-- Runs of reports with the guardrails of backend/app/semantic/sql_validator.py, as execute_report_run of
-- backend/app/reports/scheduler.py calls them.
use mathlib.Core.Path.{◌≡◌}
use mathlib.Core.Logic.{◌⊎◌}
use mathlib.Core.Bool.{Bool}
use mathlib.Core.Option.{Option, none}
use mathlib.Core.List.{List}
use drivee_tolmach.Common.{Text, Unicode}
use drivee_tolmach.Json.{Json}
use Prim.Native.Nat.{ℕ}
use drivee_tolmach.Settings.{Settings}
use drivee_tolmach.Guardrails.Decision.{ValidatedSql}
use drivee_tolmach.Guardrails.Statement.{Outcome, Sqlglot}
use drivee_tolmach.Guardrails.Validator.{clean, validate_sql}
use drivee_tolmach.Guardrails.Validator.Columns.{AccessPolicy}
use drivee_tolmach.Guardrails.Validator.Soundness.{IsSafe}
use drivee_tolmach.Reports.Records.{done}
use drivee_tolmach.Reports.Session.{Services, Session}

module _ ⦃u : Unicode⦄ (settings : Settings) (services : Services)
    (Safe : ValidatedSql → Type 0) where
  -- The run is over with a query that is safe, or it is queued again or failed.
  abbrev IsRunOf : Session → Type 0
  IsRunOf s =
      ((v : ValidatedSql) × Safe v × (s.run.final_sql ≡ v.sql))
      ⊎ ((s.run.status ≡ "queued") ⊎ (s.run.status ≡ "failed"))

module _ ⦃u : Unicode⦄ (settings : Settings) (services : Services) (sqlglot : Sqlglot)
    (policy_loader : Text → List Text → List (Text × AccessPolicy))
    (explain_runner : Text → Outcome (Json × ℕ)) where
  -- The services with the guardrails of the program.
  abbrev pub guarded : Services
  guarded = record services {
    validate_sql =
        λ sql role. done (validate_sql settings sqlglot policy_loader explain_runner sql role none);
  }

  abbrev IsSafeFor : Text → Text → ValidatedSql → Type 0
  IsSafeFor sql role v =
      IsSafe settings sqlglot policy_loader explain_runner (clean sql) role none v
