-- ===== src/Reports/RecipientTests.antt =====
-- The recipients of a report, backend/app/reports/service.py, at concrete inputs.
use mathlib.Core.Path.{◌≡◌, refl}
use mathlib.Core.Bool.{true, false}
use mathlib.Core.Option.{none, some}
use mathlib.Core.List.{List, [], ◌∷◌, map}
use drivee_tolmach.Common.{
  codes, Unicode, ascii_tables, elem, All, is_empty, same_list, same_pair, same_string, same_ℕ,
}
use drivee_tolmach.Json.{null}
use drivee_tolmach.Reports.Recipients.{
  RequestedTarget, Target, key_of, existing_key, normalize_delivery_targets, missing_targets,
  append_report_recipients, replace_report_recipients, rows_from, of_report,
}
use drivee_tolmach.Reports.Recipients.Keys.{
  IsDistinct, normalize_delivery_targets-IsDistinct, append_report_recipients-IsDistinct,
}
use drivee_tolmach.Reports.Tests.{recipient, opened}

instance abbrev tables : Unicode
tables = ascii_tables

abbrev asked : List RequestedTarget
asked =
    record {
      channel = none;
      destination = some (codes "A@b");
      config_json = null;
      is_active = none;
    }
    ∷ record {
      channel = some (codes "Slack ");
      destination = some (codes "#ops");
      config_json = null;
      is_active = some true;
    }
    ∷ []

recipients_opened : Unit {0}
unfolding opened key_of existing_key normalize_delivery_targets missing_targets
    append_report_recipients replace_report_recipients
recipients_opened = tt

recipients :
    (map key_of (normalize_delivery_targets (codes " a@B" ∷ codes " " ∷ []) asked)
      ≡ (codes "email", codes "a@b") ∷ (codes "slack", codes "#ops") ∷ [])
    × (map
          (λ r. r.destination)
          (append_report_recipients 5 3 [] asked (recipient 1 (codes "email") ∷ []))
        ≡ codes " a@b " ∷ codes "#ops" ∷ [])
unfolding recipients_opened
recipients = (refl, refl)

normalize_delivery_targets-IsDistinct_example :
    IsDistinct (map key_of (normalize_delivery_targets (codes " a@B" ∷ []) asked))
    × All
        (λ target. is_empty target.destination ≡ false)
        (normalize_delivery_targets (codes " a@B" ∷ []) asked)
normalize_delivery_targets-IsDistinct_example =
    normalize_delivery_targets-IsDistinct (codes " a@B" ∷ []) asked

append_report_recipients-IsDistinct_example :
    (targets : List Target) × (append_report_recipients 5 3 [] asked
        (recipient 1 (codes "email") ∷ [])
      ≡ recipient 1 (codes "email") ∷ rows_from 5 3 targets)
    × IsDistinct (map key_of targets)
    × All
        (λ target.
          elem (key_of target) (map existing_key (of_report 3 (recipient 1 (codes "email") ∷ [])))
          ≡ false)
        targets
append_report_recipients-IsDistinct_example =
    append_report_recipients-IsDistinct 5 3 [] asked (recipient 1 (codes "email") ∷ [])
