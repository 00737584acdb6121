-- ===== src/Reports/Delivery.antt =====
-- Sending a report to its recipients: get_delivery_adapter of backend/app/reports/delivery.py and
-- _deliver_to_targets of backend/app/reports/scheduler.py. SMTP and the web hook are a parameter,
-- `send`, and so is the text of a stack trace. All readings of the clock in one call are one number.
pub mod Targets
use Prim.Native.Nat.{ℕ, suc}
use Prim.Native.String.{String}
use mathlib.Core.Bool.{Bool, true, false, ◌||◌}
use mathlib.Core.Option.{Option, none, some}
use mathlib.Core.List.{List, [], ◌∷◌, ◌++◌}
use drivee_tolmach.Common.{
  Text, codes, Unicode, lower, strip, is_empty, ◌==◌, same_list, same_ℕ, if◌then◌else◌,
}
use drivee_tolmach.Json.{Json, object}
use drivee_tolmach.Reports.Records.{
  Exception, Try, done, thrown, delivery_configuration_error, structured_error, or_text,
  DeliverySummary, BuiltArtifact, ScheduleRun, Report, ReportRecipient, ReportDelivery,
}

pub data Adapter : Type 0 where
  smtp_email slack_webhook : Adapter

abbrev pub adapter_key : Adapter → Text
adapter_key smtp_email = codes "smtp_email"
adapter_key slack_webhook = codes "slack_webhook"

pub record DeliveryPayload : Type 0 where
  pub report_title : Text
  pub destination : Text
  pub channel : Text
  pub run_status : String
  pub rows_returned : ℕ
  pub execution_ms : ℕ
  pub artifacts : List BuiltArtifact
  pub summary_text : Text

pub record DeliveryResult : Type 0 where
  pub adapter_key : Text
  pub external_message_id : Text
  pub details : Json

abbrev email_of : Option Text → Text
email_of none = []
email_of (some email) = email

module _ ⦃u : Unicode⦄ where
  unfoldable pub get_delivery_adapter : Text → Try Adapter
  unfolding lower strip
  get_delivery_adapter channel =
      if lower (strip channel) == codes "email"
      then done smtp_email
      else if lower (strip channel) == codes "slack"
      then done slack_webhook
      else thrown (
          delivery_configuration_error (codes "Unsupported delivery channel: " ++ channel)
            (object []))

  unfoldable pub destination_of : ReportRecipient → Text
  unfolding strip
  destination_of r = strip (or_text r.destination (email_of r.email))

  -- Whether the loop goes on to a delivery.
  unfoldable pub is_target : ReportRecipient → Bool
  unfolding destination_of
  is_target r = if is_empty (destination_of r) then false else r.is_active

module _ ⦃u : Unicode⦄ (send : Adapter → DeliveryPayload → Try DeliveryResult)
    (stack_trace : Exception → Text) (now : ℕ) where
  payload_for : Report → ScheduleRun → List BuiltArtifact → Text → ReportRecipient → DeliveryPayload
  unfolding destination_of
  payload_for report run artifacts summary r = record {
    report_title = report.title;
    destination = destination_of r;
    channel = r.channel;
    run_status = run.status;
    rows_returned = run.rows_returned;
    execution_ms = run.execution_ms;
    artifacts = artifacts;
    summary_text = summary;
  }

  -- The row that is added before the message is sent.
  running_delivery : ℕ → Report → ScheduleRun → ReportRecipient → ReportDelivery
  unfolding destination_of
  running_delivery id report run r = record {
    id = id;
    report_id = report.id;
    run_id = run.id;
    recipient_id = r.id;
    channel = r.channel;
    destination = destination_of r;
    adapter_key = [];
    status = "running";
    attempt_count = 1;
    external_message_id = [];
    error_message = [];
    structured_error_json = none;
    stack_trace = [];
    details_json = object [];
    sent_at = none;
  }

  failed_delivery : ReportDelivery → Text → Exception → ReportDelivery
  failed_delivery d key exc = record d {
    adapter_key = key;
    status = "failed";
    error_message = (structured_error exc).message;
    structured_error_json = some (structured_error exc);
    stack_trace = stack_trace exc;
    details_json = (structured_error exc).details;
  }

  sent_delivery : ReportDelivery → DeliveryResult → ReportDelivery
  sent_delivery d result = record d {
    adapter_key = result.adapter_key;
    external_message_id = result.external_message_id;
    details_json = result.details;
    status = "sent";
    sent_at = some now;
  }

  after_send :
      ReportDelivery
      → ReportRecipient
      → Adapter
      → Try DeliveryResult
      → ReportDelivery × ReportRecipient × Bool
  unfolding sent_delivery failed_delivery
  after_send d r adapter (done result) =
      (sent_delivery d result, record r { last_sent_at = some now }, false)
  after_send d r adapter (thrown exc) = (failed_delivery d (adapter_key adapter) exc, r, true)

  after_adapter :
      ReportDelivery
      → ReportRecipient
      → DeliveryPayload
      → Try Adapter
      → ReportDelivery × ReportRecipient × Bool
  unfolding after_send failed_delivery
  after_adapter d r payload (done adapter) = after_send d r adapter (send adapter payload)
  after_adapter d r payload (thrown exc) = (failed_delivery d r.channel exc, r, true)

  -- The body of the loop for one recipient that is a target.
  deliver_to :
      Report
      → ScheduleRun
      → List BuiltArtifact
      → Text
      → ℕ
      → ReportRecipient
      → ReportDelivery × ReportRecipient × Bool
  unfolding after_adapter get_delivery_adapter payload_for running_delivery
  deliver_to report run artifacts summary id r =
      after_adapter (running_delivery id report run r) r
        (payload_for report run artifacts summary r) (get_delivery_adapter r.channel)

  -- The loop of `_deliver_to_targets`, from a first key for the rows it adds: the deliveries, the
  -- recipients as they are then, and whether one failed.
  unfoldable pub deliver_to_targets :
      Report
      → ScheduleRun
      → List BuiltArtifact
      → Text
      → ℕ
      → List ReportRecipient
      → List ReportDelivery × List ReportRecipient × Bool
  unfolding deliver_to is_target
  deliver_to_targets report run artifacts summary id [] = ([], [], false)
  deliver_to_targets report run artifacts summary id (r ∷ rs) =
      let next = if is_target r then suc id else id in
      let (ds, rs', failure) = deliver_to_targets report run artifacts summary next rs in
      let (d, r', failed) = deliver_to report run artifacts summary id r in
      if is_target r then (d ∷ ds, r' ∷ rs', failed || failure) else (ds, r ∷ rs', failure)

abbrev pub delivery_summary : ReportDelivery → DeliverySummary
delivery_summary d = record {
  id = d.id;
  channel = d.channel;
  destination = d.destination;
  status = d.status;
  attempt_count = d.attempt_count;
  error_message = d.error_message;
}
