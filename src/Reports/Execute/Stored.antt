-- ===== src/Reports/Execute/Stored.antt =====
-- Runs of reports with the execution of queries of backend/app/query_execution/service.py, as
-- execute_report_run of backend/app/reports/scheduler.py calls it.
use mathlib.Core.Bool.{Bool, true}
use mathlib.Core.Option.{Option}
use mathlib.Core.List.{List}
use drivee_tolmach.Common.{Text, Unicode}
use drivee_tolmach.Settings.{Settings}
use drivee_tolmach.Guardrails.Statement.{Outcome, returned, raised}
use drivee_tolmach.Execution.Service.{Cell, QueryExecutionResult, Readings, execute_safe_query}
use drivee_tolmach.Reports.Records.{Try, done, thrown, other_error}
use drivee_tolmach.Reports.Session.{Services, Session}

-- An exception of the execution, with the name of its class.
abbrev as_try : (Text → Text) → Outcome QueryExecutionResult → Try QueryExecutionResult
as_try class_name (returned result) = done result
as_try class_name (raised exc) = thrown (other_error exc (class_name exc))

module _ ⦃u : Unicode⦄ (settings : Settings) (services : Services) (class_name sha256 : Text → Text)
    (run : Text → Outcome (List (List (Text × Cell)))) (t : Readings) where
  -- The services with the execution of queries of the program.
  abbrev pub cached : Services
  cached = record services {
    execute_validated_query = λ v role query_id store.
        let (o, after) =
          execute_safe_query sha256 settings run t
            (record { validated_sql = v; role = role; query_id = query_id; use_cache = true })
            store in
        (as_try class_name o, after);
  }
