-- ===== src/Reports/Claim.antt =====
-- claim_runnable_runs of backend/app/reports/scheduler.py. One scheduler works on the tables.
pub mod Claimed
use Prim.Native.Nat.{ℕ, ◌+◌, min, max}
use Prim.Native.String.{String}
use mathlib.Core.Bool.{Bool, true, false, ◌&&◌}
use mathlib.Core.Option.{Option, none, some}
use mathlib.Core.List.{List, [], ◌∷◌, map}
use drivee_tolmach.Common.{leb, take, filter, elem, ◌==◌, same_string, same_ℕ, if◌then◌else◌}
use drivee_tolmach.Settings.{Settings}
use drivee_tolmach.Reports.Records.{ScheduleRun}
use drivee_tolmach.Reports.Queue.{Queue, order_by, or_number}

abbrev pub retry_due : ℕ → Option ℕ → Bool
retry_due now none = true
retry_due now (some at) = leb at now

pub is_runnable : ℕ → ScheduleRun → Bool
is_runnable now run = run.status == "queued" && retry_due now run.next_retry_at

abbrev pub batch_size : Settings → Option ℕ → ℕ
batch_size settings limit = max 1 (
    min (or_number limit settings.scheduler_max_concurrent_runs)
      settings.scheduler_max_concurrent_runs)

-- ORDER BY queued_at, ran_at
unfoldable pub runnable_runs : Settings → ℕ → Option ℕ → List ScheduleRun → List ScheduleRun
unfolding is_runnable order_by
runnable_runs settings now limit runs =
    take (batch_size settings limit) (
      order_by (λ run. run.queued_at)
        (order_by (λ run. run.ran_at) (filter (is_runnable now) runs)))

unfoldable pub claimed : ℕ → List ℕ → ScheduleRun → ScheduleRun
unfolding elem
claimed now ids run =
    if elem run.id ids then record run { status = "running"; started_at = some now } else run

unfoldable pub claim_runnable_runs : Settings → ℕ → Option ℕ → Queue → List ℕ × Queue
unfolding runnable_runs claimed
claim_runnable_runs settings now limit q =
    let ids = map (λ run. run.id) (runnable_runs settings now limit q.runs) in
    (ids, record q { runs = map (claimed now ids) q.runs })
