-- ===== src/Reports/GuardedTests.antt =====
-- A run of a report with the guardrails, backend/app/reports/scheduler.py.
use mathlib.Core.Path.{◌≡◌, refl}
use drivee_tolmach.Common.{
  codes, Unicode, ascii_tables, is_word, is_space, is_digit, fold, lower, strip, elem,
}
use drivee_tolmach.Settings.{default_settings}
use drivee_tolmach.Guardrails.Validator.{validate_sql, checks}
use drivee_tolmach.Guardrails.Validator.Columns.{load_policies}
use drivee_tolmach.Guardrails.Tests.{sqlglot, policies, explain, query}
use drivee_tolmach.Reports.Delivery.{
  get_delivery_adapter, destination_of, is_target, deliver_to_targets,
}
use drivee_tolmach.Reports.Session.{Session, append_attempt, report_summary_from_rows, retry_delay}
use drivee_tolmach.Reports.Execute.{execute_report_run}
use drivee_tolmach.Reports.Execute.Guarded.{guarded}
use drivee_tolmach.Reports.Tests.{session, works}
use mathlib.Core.List.{List, [], ◌∷◌}
use drivee_tolmach.Common.{Text}
use drivee_tolmach.Json.{null}
use drivee_tolmach.Guardrails.Statement.{Outcome, returned}
use drivee_tolmach.Execution.Service.{Cell, plain, Readings}

instance abbrev tables : Unicode
tables = ascii_tables

abbrev asking : Session
asking = record session { run = record session.run { final_sql = query } }

opened : Unit {0}
unfolding is_word is_space is_digit fold checks validate_sql load_policies lower strip elem
    append_attempt report_summary_from_rows retry_delay execute_report_run get_delivery_adapter
    destination_of is_target deliver_to_targets
opened = tt

approves :
    (execute_report_run default_settings
      (guarded default_settings works sqlglot policies explain)
      asking).run.final_sql
    ≡ codes "select o.revenue from fact.orders o\nLIMIT 500"
unfolding opened
approves = refl

abbrev same_text : Text → Text
same_text s = s

abbrev one_row : Text → Outcome (List (List (Text × Cell)))
one_row sql = returned (((codes "revenue", plain null) ∷ []) ∷ [])

abbrev clock : Readings
clock = record {
  prune_at = 1;
  lookup_at = 1;
  touch_at = 1;
  started = 1;
  finished = 2;
  store_at = 2;
}
