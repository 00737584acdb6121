-- ===== src/Confidence/Tests.antt =====
-- Runs of the score, and the theorems at concrete inputs.
use Prim.Native.Nat.{◌≤◌}
use mathlib.Core.Path.{◌≡◌, refl}
use mathlib.Core.Bool.{false}
use mathlib.Core.List.{List, [], ◌∷◌}
use native.Mathlib.Omega.{arith}
use drivee_tolmach.Common.{Text, codes}
use drivee_tolmach.Confidence.{Interpretation, RetrievalResult, high, medium, score_confidence}
use drivee_tolmach.Confidence.Bounds.{
  IsBanded, score_confidence-IsBanded, score_confidence-antitone,
}

abbrev clear : Interpretation
clear = record {
  dangerous = false;
  provider_points = 40;
  metric = codes "revenue";
  dimensions = codes "city" ∷ [];
  date_kind = codes "relative";
  date_label = codes "last week";
  ambiguity_flags = [];
  top = 0;
  limit = 100;
  source = "llm_structured";
  fallback_used = false;
  reasoning = [];
}

abbrev found : RetrievalResult
found = record { semantic_terms = 1; examples = 0 }

abbrev flags : List Text
flags = codes "metric" ∷ codes "period" ∷ codes "city" ∷ []

scores :
    ((score_confidence clear found).score ≡ 100)
    × ((score_confidence clear found).band ≡ high)
    × ((score_confidence (record clear { ambiguity_flags = flags }) found).score ≡ 66)
    × ((score_confidence (record clear { ambiguity_flags = flags }) found).band ≡ medium)
unfolding score_confidence
scores = (refl, refl, refl, refl)

score_confidence-IsBanded_example : IsBanded (score_confidence clear found)
score_confidence-IsBanded_example = score_confidence-IsBanded clear found

score_confidence-antitone_example :
    (score_confidence (record clear { ambiguity_flags = flags }) found).score
    ≤ (score_confidence clear found).score
score_confidence-antitone_example = score_confidence-antitone clear found flags (omega arith)
