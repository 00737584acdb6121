-- ===== src/Reports/Recipients.antt =====
-- The recipients of a report: normalize_delivery_targets, replace_report_recipients and
-- append_report_recipients of backend/app/reports/service.py. A target that is asked for is a dict whose
-- values are texts, where they are present.
pub mod Keys
use Prim.Native.Nat.{ℕ, suc}
use mathlib.Core.Bool.{Bool, true, false, not}
use mathlib.Core.Option.{Option, none, some}
use mathlib.Core.List.{List, [], ◌∷◌, ◌++◌, map}
use drivee_tolmach.Common.{
  Text, codes, Unicode, lower, strip, is_empty, elem, filter, nat_eq, ◌==◌, same_list, same_pair,
  same_ℕ, if◌then◌else◌,
}
use drivee_tolmach.Json.{Json, object}
use drivee_tolmach.Reports.Records.{or_text, or_json, ReportRecipient}

pub record RequestedTarget : Type 0 where
  pub channel : Option Text
  pub destination : Option Text
  pub config_json : Json
  pub is_active : Option Bool

pub record Target : Type 0 where
  pub channel : Text
  pub destination : Text
  pub config_json : Json
  pub is_active : Bool

-- `item.get(key, default)`
abbrev get_or {ℓ} : {A : Type ℓ} → Option A → A → A
get_or none x = x
get_or (some y) x = y

-- The variables of the loops: `normalized` and `seen`.
pub record Progress : Type 0 where
  pub normalized : List Target
  pub seen : List (Text × Text)

pub add_target : Text × Text → Target → Progress → Progress
unfolding elem
add_target key target p =
    if elem key p.seen
    then p
    else record { normalized = p.normalized ++ target ∷ []; seen = p.seen ++ key ∷ [] }

module _ ⦃u : Unicode⦄ where
  email_value : Text → Text
  unfolding lower strip
  email_value email = lower (strip email)

  email_target : Text → Target
  email_target value = record {
    channel = codes "email";
    destination = value;
    config_json = object [];
    is_active = true;
  }

  -- The body of the loop over `recipients`.
  add_email : Progress → Text → Progress
  unfolding email_value email_target add_target
  add_email p email =
      if is_empty (email_value email)
      then p
      else add_target (codes "email", email_value email) (email_target (email_value email)) p

  channel_of : RequestedTarget → Text
  unfolding lower strip
  channel_of item = or_text (lower (strip (get_or item.channel (codes "email")))) (codes "email")

  requested_destination : RequestedTarget → Text
  unfolding strip
  requested_destination item = strip (get_or item.destination [])

  requested_target : RequestedTarget → Target
  unfolding channel_of requested_destination
  requested_target item = record {
    channel = channel_of item;
    destination = requested_destination item;
    config_json = or_json item.config_json (object []);
    is_active = get_or item.is_active true;
  }

  -- The body of the loop over `delivery_targets`.
  add_requested : Progress → RequestedTarget → Progress
  unfolding requested_target add_target lower
  add_requested p item =
      if is_empty (requested_destination item)
      then p
      else add_target (channel_of item, lower (requested_destination item)) (requested_target item)
          p

  add_emails : Progress → List Text → Progress
  unfolding add_email
  add_emails p [] = p
  add_emails p (email ∷ emails) = add_emails (add_email p email) emails

  add_all : Progress → List RequestedTarget → Progress
  unfolding add_requested
  add_all p [] = p
  add_all p (item ∷ rest) = add_all (add_requested p item) rest

  unfoldable pub normalize_delivery_targets : List Text → List RequestedTarget → List Target
  unfolding add_emails add_all
  normalize_delivery_targets recipients delivery_targets =
      (add_all (add_emails (record { normalized = []; seen = [] }) recipients)
        delivery_targets).normalized

  -- `(item["channel"], item["destination"].lower())`
  unfoldable pub key_of : Target → Text × Text
  unfolding lower
  key_of target = (target.channel, lower target.destination)

  row_destination : ReportRecipient → Text
  row_destination row = or_text row.destination (get_or row.email [])

  unfoldable pub existing_key : ReportRecipient → Text × Text
  unfolding lower strip row_destination
  existing_key row = (lower (strip row.channel), lower (strip (row_destination row)))

  recipient_row : ℕ → ℕ → Target → ReportRecipient
  recipient_row id report_id target = record {
    id = id;
    report_id = report_id;
    email = if target.channel == codes "email" then some target.destination else none;
    channel = target.channel;
    destination = target.destination;
    config_json = target.config_json;
    is_active = target.is_active;
    last_sent_at = none;
  }

  pub rows_from : ℕ → ℕ → List Target → List ReportRecipient
  unfolding recipient_row
  rows_from id report_id [] = []
  rows_from id report_id (target ∷ targets) =
      recipient_row id report_id target ∷ rows_from (suc id) report_id targets

  pub of_report : ℕ → List ReportRecipient → List ReportRecipient
  of_report report_id rows = filter (λ row. nat_eq row.report_id report_id) rows

  -- The targets that append_report_recipients adds to the rows of the report.
  unfoldable pub missing_targets : List (Text × Text) → List Target → List Target
  unfolding key_of elem
  missing_targets keys targets = filter (λ target. not (elem (key_of target) keys)) targets

  -- The table behind append_report_recipients, with new keys from an id on.
  unfoldable pub append_report_recipients :
      ℕ → ℕ → List Text → List RequestedTarget → List ReportRecipient → List ReportRecipient
  unfolding rows_from normalize_delivery_targets missing_targets existing_key of_report
  append_report_recipients id report_id recipients delivery_targets rows =
      rows
      ++ rows_from id report_id (
          missing_targets (map existing_key (of_report report_id rows))
            (normalize_delivery_targets recipients delivery_targets))

  unfoldable pub replace_report_recipients :
      ℕ → ℕ → List Text → List RequestedTarget → List ReportRecipient → List ReportRecipient
  unfolding rows_from normalize_delivery_targets
  replace_report_recipients id report_id recipients delivery_targets rows =
      filter (λ row. not (nat_eq row.report_id report_id)) rows
      ++ rows_from id report_id (normalize_delivery_targets recipients delivery_targets)
