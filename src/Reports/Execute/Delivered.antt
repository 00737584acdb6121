-- ===== src/Reports/Execute/Delivered.antt =====
-- The deliveries of a run, execute_report_run of backend/app/reports/scheduler.py: whom it sends to,
-- and what its status says of them.
use Prim.Native.Nat.{ℕ}
use mathlib.Core.Path.{◌≡◌, refl, sym}
use mathlib.Core.Logic.{◌⊎◌, inl, inr}
use mathlib.Core.Bool.{Bool, true, false}
use mathlib.Core.Option.{Option, none, some}
use mathlib.Core.List.{List, [], ◌∷◌, ◌++◌, map}
use native.Mathlib.Omega.{arith}
use drivee_tolmach.Common.{Text, Unicode, All, any, filter, if-cases, ◌==◌, same_string}
use drivee_tolmach.Settings.{Settings}
use drivee_tolmach.Guardrails.Decision.{ValidatedSql, GuardrailDecision}
use drivee_tolmach.Execution.Service.{QueryExecutionResult}
use drivee_tolmach.Reports.Records.{
  Exception, Try, done, thrown, BuiltArtifact, ReportRecipient, ReportDelivery,
}
use drivee_tolmach.Reports.Delivery.{destination_of, is_target}
use drivee_tolmach.Reports.Delivery.Targets.{IsNoted, failed, deliver_to_targets-IsDelivered}
use drivee_tolmach.Reports.Session.{Services, Session, append_attempt}
use drivee_tolmach.Reports.Execute.{
  start, handled_run, handle, refusal, refused, succeed, succeeded_run, delivery_failed, conclude,
  deliver, after_artifacts, after_execution, approved, after_decision, after_validation,
  execute_report_run,
}

All-sent :
    (now : ℕ) (ds : List ReportDelivery)
    → All (IsNoted now) ds
    → any failed ds ≡ false
    → All (λ d. d.status ≡ "sent") ds
unfolding IsNoted failed
All-sent now [] _ _ = tt
All-sent now (d ∷ ds) (inl (sent, _), rest) h = (sent, All-sent now ds rest (ground arith))
All-sent now (d ∷ ds) (inr (bad, _), rest) h =
    let this : (d.status == "failed") ≡ true = rw bad refl in absurd (ground arith)

module _ ⦃u : Unicode⦄ where
  -- The deliveries to the targets among the recipients.
  pub IsDeliveredTo : List ReportRecipient → List ReportDelivery → Type 0
  IsDeliveredTo rs ds =
      (map (λ d. d.destination) ds ≡ map destination_of (filter is_target rs))
      × (map (λ d. d.recipient_id) ds ≡ map (λ r. r.id) (filter is_target rs))

  -- The status of a run and the deliveries that it made; the report notes the same status.
  pub IsReported : Session → Session → Type 0
  IsReported before after =
      (after.report.last_run_status ≡ after.run.status)
      × (((ds : List ReportDelivery) × (after.deliveries ≡ before.deliveries ++ ds)
            × IsDeliveredTo before.recipients ds
            × (((after.run.status ≡ "succeeded") × All (λ d. d.status ≡ "sent") ds)
                ⊎ ((after.run.status ≡ "delivery_failed") × (any failed ds ≡ true))))
          ⊎ (((after.run.status ≡ "queued") ⊎ (after.run.status ≡ "failed"))
              × (after.deliveries ≡ before.deliveries)
              × (after.recipients ≡ before.recipients)))

module _ ⦃u : Unicode⦄ (settings : Settings) (services : Services) where
  handle-IsReported :
      (s : Session) (exc : Exception) → IsReported s (handle settings services s exc)
  unfolding IsReported handle handled_run
  handle-IsReported s exc =
      if-cases
        (λ run. IsReported s (record (handle settings services s exc) {
          run = run;
          report = record s.report {
            last_run_at = some services.now;
            last_run_status = run.status;
          };
        }))
        _ _ _ (λ _. (refl, inr (inl refl, refl, refl))) (λ _. (refl, inr (inr refl, refl, refl)))

  conclude-IsReported :
      (before s : Session) (failure : Bool) (ds : List ReportDelivery)
      → s.deliveries ≡ before.deliveries ++ ds
      → IsDeliveredTo before.recipients ds
      → All (IsNoted services.now) ds
      → failure ≡ any failed ds
      → s.run.status ≡ "succeeded"
      → s.report.last_run_status ≡ "succeeded"
      → IsReported before (conclude settings services failure s)
  unfolding IsReported conclude delivery_failed
  conclude-IsReported before s true ds more to noted flag _ _ =
      (refl, inl (ds, more, to, inr (refl, sym flag)))
  conclude-IsReported before s false ds more to noted flag status told = (
    rw (status, told) refl,
    inl (ds, more, to, inl (status, All-sent services.now ds noted (sym flag))),
  )

  deliver-IsReported :
      (s : Session) (v : ValidatedSql) (execution : QueryExecutionResult)
      (built : List BuiltArtifact) (summary : Text)
      → IsReported s
          (deliver settings services (succeed settings services s v execution built) built summary)
  unfolding IsDeliveredTo deliver succeed succeeded_run append_attempt
  deliver-IsReported s v execution built summary =
      let told = succeed settings services s v execution built in
      let (places, recipients, noted, flag, _) =
        deliver_to_targets-IsDelivered services.send services.stack_trace services.now told.report
          told.run built summary told.next_delivery_id told.recipients in
      conclude-IsReported s _ _ _ refl (places, recipients) noted flag refl refl

  after_artifacts-IsReported :
      (s : Session) (v : ValidatedSql) (execution : QueryExecutionResult)
      (o : Try (List BuiltArtifact))
      → IsReported s (after_artifacts settings services s v execution o)
  unfolding after_artifacts
  after_artifacts-IsReported s v execution (thrown exc) = handle-IsReported s exc
  after_artifacts-IsReported s v execution (done built) = deliver-IsReported s v execution built _

  after_execution-IsReported :
      (s : Session) (v : ValidatedSql) (o : Try QueryExecutionResult)
      → IsReported s (after_execution settings services s v o)
  unfolding after_execution
  after_execution-IsReported s v (thrown exc) = handle-IsReported s exc
  after_execution-IsReported s v (done execution) = after_artifacts-IsReported s v execution _

  after_decision-IsReported :
      (s : Session) (decision : GuardrailDecision) (o : Option ValidatedSql)
      → IsReported s (after_decision settings services s decision o)
  unfolding after_decision approved refused IsReported
  after_decision-IsReported s decision none = handle-IsReported s (refusal decision)
  after_decision-IsReported s decision (some v) =
      if-cases (IsReported s) decision.ok _ _
        (λ _. after_execution-IsReported (record s { store = _ }) v _)
        (λ _. handle-IsReported s (refusal decision))

  after_validation-IsReported :
      (s : Session) (o : Try GuardrailDecision)
      → IsReported s (after_validation settings services s o)
  unfolding after_validation
  after_validation-IsReported s (thrown exc) = handle-IsReported s exc
  after_validation-IsReported s (done decision) = after_decision-IsReported s decision _

  -- A run ends as succeeded if each delivery was sent, and as delivery_failed if one failed; then it
  -- made one delivery, in order, to each active recipient with an address. A run that ends as queued or
  -- failed made none and left the recipients alone. The report notes the status of the run.
  pub execute_report_run-IsReported :
      (s : Session) → IsReported s (execute_report_run settings services s)
  unfolding execute_report_run start IsReported
  execute_report_run-IsReported s = after_validation-IsReported (start settings services s) _
