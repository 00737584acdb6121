-- ===== src/Reports/Heartbeat/Fresh.antt =====
-- How long a heartbeat of backend/app/reports/worker_runtime.py counts.
use mathlib.Core.List.{List}
use drivee_tolmach.Common.{same_ℕ}
use drivee_tolmach.Settings.{Settings}
