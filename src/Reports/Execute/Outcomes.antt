-- ===== src/Reports/Execute/Outcomes.antt =====
-- The outcomes of a run, execute_report_run of backend/app/reports/scheduler.py: what becomes of its
-- status, its attempts and its retries.
use Prim.Native.Nat.{ℕ, ◌+◌, ◌-◌, ◌*◌, ◌^◌, ◌≤◌, ◌<◌, max}
use Prim.Native.String.{String}
use mathlib.Core.Path.{◌≡◌, refl, ap}
use mathlib.Core.Logic.{◌⊎◌, inl, inr}
use mathlib.Core.Option.{Option, none, some}
use mathlib.Core.List.{List, [], ◌∷◌, ◌++◌}
use native.Mathlib.Omega.{arith}
use native.Mathlib.Nat.{pow-le-pow_right}
use drivee_tolmach.Common.{Text, Unicode, length, if-cases, same_string}
use drivee_tolmach.Settings.{Settings}
use drivee_tolmach.Guardrails.Decision.{ValidatedSql, GuardrailDecision}
use drivee_tolmach.Execution.Cache.{second}
use drivee_tolmach.Execution.Service.{QueryExecutionResult}
use drivee_tolmach.Reports.Records.{
  Exception, Try, done, thrown, structured_error, RunAttempt, BuiltArtifact, ScheduleRun,
}
use drivee_tolmach.Reports.Session.{Services, Session, append_attempt, retry_delay}
use drivee_tolmach.Reports.Execute.{
  start, should_retry, retried, with_error, handled_run, handle, refusal, refused, succeeded_run,
  succeed, after_decision, delivery_failed, conclude, deliver, after_artifacts, after_execution,
  approved, after_validation, execute_report_run,
}

-- One attempt more, with the next number.
unfoldable pub IsAttempt : ScheduleRun → ScheduleRun → String → Type 0
IsAttempt before after status =
    (a : RunAttempt) × (after.attempts_json ≡ before.attempts_json ++ a ∷ [])
    × (a.attempt_number ≡ length before.attempts_json + 1)
    × (a.status ≡ status)

unfoldable pub IsSuccess : ℕ → ScheduleRun → ScheduleRun → Type 0
IsSuccess now before after =
    ((after.status ≡ "succeeded") ⊎ (after.status ≡ "delivery_failed"))
    × IsAttempt before after "succeeded"
    × (after.retry_count ≡ before.retry_count)
    × (after.finished_at ≡ some now)

-- A retry waits for the backoff of at least half a minute, which doubles with each retry.
unfoldable pub IsRetry : ℕ → ScheduleRun → ScheduleRun → Type 0
IsRetry now before after =
    (after.status ≡ "queued")
    × IsAttempt before after "failed"
    × (after.retry_count ≡ before.retry_count + 1)
    × (after.retry_count ≤ before.max_retries)
    × (after.next_retry_at
        ≡ some (now + (max 30 before.retry_backoff_seconds * 2 ^ before.retry_count) * second))
    × (after.finished_at ≡ none)

unfoldable pub IsFailure : ℕ → ScheduleRun → ScheduleRun → Type 0
IsFailure now before after =
    (after.status ≡ "failed")
    × IsAttempt before after "failed"
    × (after.retry_count ≡ before.retry_count)
    × (after.finished_at ≡ some now)

unfoldable pub IsOutcome : ℕ → ScheduleRun → ScheduleRun → Type 0
IsOutcome now before after =
    (after.max_retries ≡ before.max_retries)
    × (IsSuccess now before after ⊎ (IsRetry now before after ⊎ IsFailure now before after))

power-positive : (k : ℕ) → 1 ≤ 2 ^ k
power-positive k =
    let grown : 2 ^ 0 ≤ 2 ^ k = pow-le-pow_right (omega arith) {i = 0} (omega arith) in omega arith

retry_delay-counted :
    (run : ScheduleRun) (n : ℕ)
    → run.retry_count ≡ n + 1
    → retry_delay run ≡ max 30 run.retry_backoff_seconds * 2 ^ n
unfolding retry_delay
retry_delay-counted run n h =
    let count : run.retry_count - 1 ≡ n = omega arith in
    let least : max 1 (2 ^ n) ≡ 2 ^ n = omega (arith, power-positive n) in rw (count, least) refl

module _ ⦃u : Unicode⦄ (settings : Settings) (services : Services) where
  handled_run-IsOutcome :
      (run : ScheduleRun) (exc : Exception)
      → IsOutcome services.now run (handled_run settings services run exc)
  unfolding IsOutcome IsRetry IsFailure IsAttempt handled_run with_error should_retry retried
      append_attempt
  handled_run-IsOutcome run exc =
      if-cases (IsOutcome services.now run)
        (should_retry settings services (with_error settings services run exc)
          (structured_error exc))
        _ _
        (λ e.
          let more : run.retry_count < run.max_retries = ground arith in
          (
            refl,
            inr (
                inl (
                  refl,
                  (_, refl, refl, refl),
                  refl,
                  omega arith,
                  ap (λ n. some (services.now + n * second))
                      (retry_delay-counted _ run.retry_count refl),
                  refl,
                )),
          ))
        (λ _. (refl, inr (inr (refl, (_, refl, refl, refl), refl, refl))))

  abbrev Ends : ScheduleRun → Session → Type 0
  Ends before s = IsOutcome services.now before s.run

  handle-Ends : (s : Session) (exc : Exception) → Ends s.run (handle settings services s exc)
  unfolding handle
  handle-Ends s exc = handled_run-IsOutcome s.run exc

  deliver-Ends :
      (s : Session) (v : ValidatedSql) (execution : QueryExecutionResult)
      (built : List BuiltArtifact) (summary : Text)
      → Ends s.run
          (deliver settings services (succeed settings services s v execution built) built summary)
  unfolding deliver conclude delivery_failed succeed succeeded_run append_attempt IsOutcome
      IsSuccess IsAttempt
  deliver-Ends s v execution built summary =
      if-cases (Ends s.run) _ _ _ (λ _. (refl, inl (inr refl, (_, refl, refl, refl), refl, refl)))
        (λ _. (refl, inl (inl refl, (_, refl, refl, refl), refl, refl)))

  after_artifacts-Ends :
      (s : Session) (v : ValidatedSql) (execution : QueryExecutionResult)
      (o : Try (List BuiltArtifact))
      → Ends s.run (after_artifacts settings services s v execution o)
  unfolding after_artifacts
  after_artifacts-Ends s v execution (thrown exc) = handle-Ends s exc
  after_artifacts-Ends s v execution (done built) = deliver-Ends s v execution built _

  after_execution-Ends :
      (s : Session) (v : ValidatedSql) (o : Try QueryExecutionResult)
      → Ends s.run (after_execution settings services s v o)
  unfolding after_execution
  after_execution-Ends s v (thrown exc) = handle-Ends s exc
  after_execution-Ends s v (done execution) = after_artifacts-Ends s v execution _

  approved-Ends : (s : Session) (v : ValidatedSql) → Ends s.run (approved settings services s v)
  unfolding approved
  approved-Ends s v = after_execution-Ends (record s { store = _ }) v _

  refused-Ends :
      (s : Session) (decision : GuardrailDecision)
      → Ends s.run (refused settings services s decision)
  unfolding refused
  refused-Ends s decision = handle-Ends s (refusal decision)

  after_decision-Ends :
      (s : Session) (decision : GuardrailDecision) (o : Option ValidatedSql)
      → Ends s.run (after_decision settings services s decision o)
  unfolding after_decision
  after_decision-Ends s decision none = refused-Ends s decision
  after_decision-Ends s decision (some v) =
      if-cases (Ends s.run) decision.ok _ _ (λ _. approved-Ends s v) (λ _. refused-Ends s decision)

  after_validation-Ends :
      (s : Session) (o : Try GuardrailDecision)
      → Ends s.run (after_validation settings services s o)
  unfolding after_validation
  after_validation-Ends s (thrown exc) = handle-Ends s exc
  after_validation-Ends s (done decision) = after_decision-Ends s decision _

  -- Whatever the guardrails, the query, the artifacts and the deliveries do, a run ends as succeeded
  -- or delivery_failed, or is queued again with one retry more, not beyond the limit and not before
  -- the doubling backoff has passed, or ends as failed; each time one numbered attempt is added.
  pub execute_report_run-IsOutcome :
      (s : Session) → IsOutcome services.now s.run (execute_report_run settings services s).run
  unfolding execute_report_run start IsOutcome IsSuccess IsRetry IsFailure IsAttempt
  execute_report_run-IsOutcome s = after_validation-Ends (start settings services s) _
