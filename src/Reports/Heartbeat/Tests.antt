-- ===== src/Reports/Heartbeat/Tests.antt =====
-- The heartbeat of backend/app/reports/worker_runtime.py at concrete inputs.
use mathlib.Core.Path.{◌≡◌, refl}
use mathlib.Core.Bool.{false}
use mathlib.Core.Option.{none, some}
use mathlib.Core.List.{List, [], ◌∷◌}
use drivee_tolmach.Common.{Text, codes, Unicode, ascii_tables, lower}
use drivee_tolmach.Json.{null}
use drivee_tolmach.Settings.{default_settings}
use drivee_tolmach.Reports.Heartbeat.{
  WorkerHeartbeat, row, raises, get_worker_heartbeat, heartbeat_is_fresh,
}

instance abbrev tables : Unicode
tables = ascii_tables

abbrev beat : Text → WorkerHeartbeat
beat name = record {
  worker_name = name;
  worker_type = codes "scheduler";
  status = codes "running";
  hostname = [];
  process_id = 1;
  last_seen_at = 5;
  metadata_json = null;
}

abbrev workers : List WorkerHeartbeat
workers = beat (codes "b") ∷ []

errors :
    (get_worker_heartbeat
        (some (codes "relation app.WORKER_HEARTBEATS does not exist"))
        (codes "a")
        workers
      ≡ row none)
    × (get_worker_heartbeat (some (codes "deadlock")) (codes "a") workers
        ≡ raises (codes "deadlock"))
    × (heartbeat_is_fresh default_settings 60000006 (some 5) ≡ false)
unfolding get_worker_heartbeat heartbeat_is_fresh lower
errors = (refl, refl, refl)
