-- ===== src/Reports/Delivery/Targets.antt =====
-- Whom _deliver_to_targets of backend/app/reports/scheduler.py sends a report to, and what it notes.
use Prim.Native.Nat.{ℕ, suc}
use mathlib.Core.Path.{◌≡◌, refl, ap}
use mathlib.Core.Logic.{◌⊎◌, inl, inr}
use mathlib.Core.Bool.{Bool, true, false}
use mathlib.Core.Option.{none, some}
use mathlib.Core.List.{List, [], ◌∷◌, map}
use drivee_tolmach.Common.{
  Text, Unicode, All, any, filter, filter-in, filter-out, Bool-cases, ◌==◌, same_string,
}
use drivee_tolmach.Reports.Records.{
  Exception, Try, done, thrown, BuiltArtifact, ScheduleRun, Report, ReportRecipient, ReportDelivery,
}
use drivee_tolmach.Reports.Delivery.{
  Adapter, DeliveryPayload, DeliveryResult, destination_of, is_target, running_delivery,
  failed_delivery, sent_delivery, after_send, after_adapter, deliver_to, deliver_to_targets,
}

-- A delivery is sent, and the recipient notes the time, or failed, and the recipient is as before.
pub IsDelivery : ℕ → ReportRecipient → ReportDelivery × ReportRecipient × Bool → Type 0
IsDelivery now r (d, r', failure) =
    ((failure ≡ false)
      × (d.status ≡ "sent")
      × (d.sent_at ≡ some now)
      × (r'.last_sent_at ≡ some now))
    ⊎ ((failure ≡ true) × (d.status ≡ "failed") × (d.sent_at ≡ none) × (r' ≡ r))

-- What a delivery says of itself.
unfoldable pub IsNoted : ℕ → ReportDelivery → Type 0
IsNoted now d =
    ((d.status ≡ "sent") × (d.sent_at ≡ some now)) ⊎ ((d.status ≡ "failed") × (d.sent_at ≡ none))

unfoldable pub failed : ReportDelivery → Bool
failed d = d.status == "failed"

IsNoted-of_delivery :
    (now : ℕ) (r : ReportRecipient) (p : ReportDelivery × ReportRecipient × Bool)
    → IsDelivery now r p
    → IsNoted now p.0 × (p.2 ≡ failed p.0)
unfolding IsDelivery IsNoted failed
IsNoted-of_delivery now r (d, r', failure) (inl (f, e, at, _)) = (inl (e, at), rw (f, e) refl)
IsNoted-of_delivery now r (d, r', failure) (inr (f, e, at, _)) = (inr (e, at), rw (f, e) refl)

module _ ⦃u : Unicode⦄ (send : Adapter → DeliveryPayload → Try DeliveryResult)
    (stack_trace : Exception → Text) (now : ℕ) where
  abbrev Sends : ReportDelivery → ReportRecipient → ReportDelivery × ReportRecipient × Bool → Type 0
  Sends d r p =
      IsDelivery now r p
      × (p.0.destination ≡ d.destination)
      × (p.0.recipient_id ≡ d.recipient_id)
      × (p.1.id ≡ r.id)

  after_send-Sends :
      (d : ReportDelivery) (r : ReportRecipient) (adapter : Adapter) (o : Try DeliveryResult)
      → d.sent_at ≡ none
      → Sends d r (after_send send stack_trace now d r adapter o)
  unfolding IsDelivery after_send sent_delivery failed_delivery
  after_send-Sends d r adapter (done result) h = (inl (refl, refl, refl, refl), refl, refl, refl)
  after_send-Sends d r adapter (thrown exc) h = (inr (refl, refl, h, refl), refl, refl, refl)

  after_adapter-Sends :
      (d : ReportDelivery) (r : ReportRecipient) (payload : DeliveryPayload) (o : Try Adapter)
      → d.sent_at ≡ none
      → Sends d r (after_adapter send stack_trace now d r payload o)
  unfolding IsDelivery after_adapter failed_delivery
  after_adapter-Sends d r payload (done adapter) h = after_send-Sends d r adapter _ h
  after_adapter-Sends d r payload (thrown exc) h = (inr (refl, refl, h, refl), refl, refl, refl)

  module _ (report : Report) (run : ScheduleRun) (artifacts : List BuiltArtifact)
      (summary : Text) where
    deliver_to-Sends :
        (id : ℕ) (r : ReportRecipient)
        → Sends
            (running_delivery send stack_trace now id report run r)
            r
            (deliver_to send stack_trace now report run artifacts summary id r)
    unfolding deliver_to running_delivery
    deliver_to-Sends id r =
        after_adapter-Sends (running_delivery send stack_trace now id report run r) r _ _ refl

    -- The deliveries go to the targets, in order; each is sent now or failed, the flag tells whether one
    -- failed, and the recipients stay the same rows.
    abbrev pub IsDelivered :
        List ReportRecipient → List ReportDelivery × List ReportRecipient × Bool → Type 0
    IsDelivered rs (ds, rs', failure) =
        (map (λ d. d.destination) ds ≡ map destination_of (filter is_target rs))
        × (map (λ d. d.recipient_id) ds ≡ map (λ r. r.id) (filter is_target rs))
        × All (IsNoted now) ds
        × (failure ≡ any failed ds)
        × (map (λ r. r.id) rs' ≡ map (λ r. r.id) rs)

    pub deliver_to_targets-IsDelivered :
        (first : ℕ) (rs : List ReportRecipient)
        → IsDelivered rs
            (deliver_to_targets send stack_trace now report run artifacts summary first rs)
    unfolding deliver_to_targets running_delivery
    deliver_to_targets-IsDelivered first [] = (refl, refl, tt, refl, refl)
    deliver_to_targets-IsDelivered first (r ∷ rs) =
        let (delivery, place, recipient, key) = deliver_to-Sends first r in
        elim (Bool-cases (is_target r)) [
          | inl e ↦
              let (places, recipients, fine, flag, keys) =
                deliver_to_targets-IsDelivered (suc first) rs in
              let (noted, sent) =
                IsNoted-of_delivery now r
                  (deliver_to send stack_trace now report run artifacts summary first r) delivery in
              rw (filter-in is_target r rs e, e)
                (
                  rw (place, places) refl,
                  rw (recipient, recipients) refl,
                  (noted, fine),
                  rw (sent, flag) refl,
                  rw (key, keys) refl,
                )
          | inr e ↦
              let (places, recipients, fine, flag, keys) =
                deliver_to_targets-IsDelivered first rs in
              rw (filter-out is_target r rs e, e)
                (places, recipients, fine, flag, ap (λ k. r.id ∷ k) keys)
        ]
