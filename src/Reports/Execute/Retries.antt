-- ===== src/Reports/Execute/Retries.antt =====
-- Retries of a run, backend/app/reports/scheduler.py: a run that the scheduler starts again as long as
-- it is queued comes to an end.
use Prim.Native.Nat.{ℕ, ◌+◌, ◌-◌, ◌≤◌, ◌<◌}
use Prim.Native.String.{String}
use mathlib.Core.Path.{◌≡◌, refl}
use mathlib.Core.Logic.{◌⊎◌, inl, inr}
use mathlib.Core.Bool.{true, false}
use mathlib.Core.List.{List, [], ◌∷◌}
use native.Mathlib.Omega.{arith}
use drivee_tolmach.Common.{Unicode, length, elem, ◌==◌, same_string, if◌then◌else◌}
use drivee_tolmach.Settings.{Settings}
use drivee_tolmach.Reports.Records.{ScheduleRun}
use drivee_tolmach.Reports.Session.{Services, Session}
use drivee_tolmach.Reports.Execute.{execute_report_run}
use drivee_tolmach.Reports.Execute.Outcomes.{
  IsSuccess, IsRetry, IsFailure, IsOutcome, execute_report_run-IsOutcome,
}

abbrev pub terminal_run_statuses : List String
terminal_run_statuses = "succeeded" ∷ "failed" ∷ "delivery_failed" ∷ []

-- A run that can still be retried, or one that is over.
ended-cases :
    (now : ℕ) (before after : ScheduleRun)
    → IsOutcome now before after
    → (after.max_retries ≡ before.max_retries)
      × (((after.status ≡ "queued")
            × (after.retry_count ≡ before.retry_count + 1)
            × (after.retry_count ≤ before.max_retries))
          ⊎ (((after.status == "queued") ≡ false)
              × (elem after.status terminal_run_statuses ≡ true)))
unfolding IsOutcome IsSuccess IsRetry IsFailure elem
ended-cases now before after (same, inl (inl e, _, _, _)) = (same, inr (rw e refl, rw e refl))
ended-cases now before after (same, inl (inr e, _, _, _)) = (same, inr (rw e refl, rw e refl))
ended-cases now before after (same, inr (inl (e, _, n, m, _, _))) = (same, inl (e, n, m))
ended-cases now before after (same, inr (inr (e, _, _, _))) = (same, inr (rw e refl, rw e refl))

module _ ⦃u : Unicode⦄ (settings : Settings) where
  -- The run is executed as long as it is queued, each time with what the services do then.
  unfoldable pub rerun : List Services → Session → Session
  rerun [] s = s
  rerun (now ∷ more) s =
      let rest = rerun more (execute_report_run settings now s) in
      if s.run.status == "queued" then rest else s

  rerun-settled :
      (rounds : List Services) (s : Session)
      → (s.run.status == "queued") ≡ false
      → rerun rounds s ≡ s
  unfolding rerun
  rerun-settled [] s h = refl
  rerun-settled (now ∷ more) s h = rw h refl

  -- A queued run with enough rounds for the retries that are left and one more ends in a terminal
  -- status, whatever the services do in each round.
  pub rerun-terminal :
      (rounds : List Services) (s : Session)
      → s.run.status ≡ "queued"
      → s.run.retry_count ≤ s.run.max_retries
      → s.run.max_retries - s.run.retry_count < length rounds
      → elem (rerun rounds s).run.status terminal_run_statuses ≡ true
  unfolding rerun
  rerun-terminal [] s queued few long = absurd (omega arith)
  rerun-terminal (now ∷ more) s queued few long =
      let next = execute_report_run settings now s in
      let (same, outcome) =
        ended-cases now.now s.run next.run (execute_report_run-IsOutcome settings now s) in
      let goes : (s.run.status == "queued") ≡ true = rw queued refl in
      rw goes (elim outcome [
        | inl (again, count, limit) ↦ rerun-terminal more next again (omega arith) (omega arith)
        | inr (over, terminal) ↦ rw (rerun-settled more next over) terminal
      ])
