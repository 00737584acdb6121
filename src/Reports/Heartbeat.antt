-- ===== src/Reports/Heartbeat.antt =====
-- The heartbeat of a worker, backend/app/reports/worker_runtime.py. The error that a query of the table
-- may raise, the host and the process are parameters; times count microseconds.
pub mod Fresh
mod Tests
use Prim.Native.Nat.{ℕ, ◌+◌, ◌-◌, ◌*◌}
use mathlib.Core.Bool.{Bool, true, false, ◌&&◌, ◌||◌}
use mathlib.Core.Option.{Option, none, some}
use mathlib.Core.List.{List, [], ◌∷◌}
use drivee_tolmach.Common.{
  Text, codes, Unicode, lower, leb, nat_eq, ◌==◌, same_list, same_ℕ, if◌then◌else◌,
}
use drivee_tolmach.Json.{Json}
use drivee_tolmach.Settings.{Settings, scheduler_worker_stale_after_seconds}

pub record WorkerHeartbeat : Type 0 where
  pub worker_name : Text
  pub worker_type : Text
  pub status : Text
  pub hostname : Text
  pub process_id : ℕ
  pub last_seen_at : ℕ
  pub metadata_json : Json

-- A call that gives a row or none, or raises the error of the database again.
pub data Lookup : Type 0 where
  row : Option WorkerHeartbeat → Lookup
  raises : Text → Lookup

starts_with : Text → Text → Bool
starts_with [] s = true
starts_with (c ∷ p) [] = false
starts_with (c ∷ p) (d ∷ s) = nat_eq c d && starts_with p s

-- `part in s`
contains : Text → Text → Bool
unfolding starts_with
contains part [] = starts_with part []
contains part (c ∷ s) = starts_with part (c ∷ s) || contains part s

pub missing_worker_heartbeat_table : ⦃u : Unicode⦄ → Text → Bool
unfolding contains lower
missing_worker_heartbeat_table message =
    contains (codes "worker_heartbeats") (lower message)
    && (contains (codes "does not exist") (lower message)
        || contains (codes "undefinedtableerror") (lower message))

unfoldable pub find_heartbeat : Text → List WorkerHeartbeat → Option WorkerHeartbeat
find_heartbeat name [] = none
find_heartbeat name (h ∷ hs) = if h.worker_name == name then some h else find_heartbeat name hs

-- The row of the worker is written anew, or added.
pub write_heartbeat : WorkerHeartbeat → List WorkerHeartbeat → List WorkerHeartbeat
write_heartbeat new [] = new ∷ []
write_heartbeat new (h ∷ hs) =
    if h.worker_name == new.worker_name then new ∷ hs else h ∷ write_heartbeat new hs

module _ ⦃u : Unicode⦄ where
  -- get_worker_heartbeat; `error` is what the query of the table raises.
  unfoldable pub get_worker_heartbeat : Option Text → Text → List WorkerHeartbeat → Lookup
  unfolding missing_worker_heartbeat_table find_heartbeat
  get_worker_heartbeat none name table = row (find_heartbeat name table)
  get_worker_heartbeat (some error) name table =
      if missing_worker_heartbeat_table error then row none else raises error

  -- record_worker_heartbeat, which writes the row that it is given.
  unfoldable pub record_worker_heartbeat :
      Option Text → WorkerHeartbeat → List WorkerHeartbeat → Lookup × List WorkerHeartbeat
  unfolding missing_worker_heartbeat_table write_heartbeat
  record_worker_heartbeat none new table = (row (some new), write_heartbeat new table)
  record_worker_heartbeat (some error) new table =
      (if missing_worker_heartbeat_table error then row none else raises error, table)

-- heartbeat_is_fresh; a worker that was seen in the future has a negative age.
unfoldable pub heartbeat_is_fresh : Settings → ℕ → Option ℕ → Bool
heartbeat_is_fresh settings now none = false
heartbeat_is_fresh settings now (some seen) =
    leb (now - seen) (scheduler_worker_stale_after_seconds settings * 1000000)
