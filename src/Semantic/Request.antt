-- ===== src/Semantic/Request.antt =====
-- What the planner reads of an Interpretation and a RetrievalResult, backend/app/ai/types.py. A value
-- that is None or absent is an empty text; the values of a filter are the texts that `str` makes of
-- them.
use mathlib.Core.Option.{Option}
use mathlib.Core.List.{List}
use drivee_tolmach.Common.{Text, ℤ}
use drivee_tolmach.Json.{Json, num, negative}

-- The dict `date_range`: `kind` is none where the key is absent, and `days` where it is absent or None.
pub record DateRange : Type 0 where
  pub kind : Option Text
  pub days : Option ℤ
  pub start : Text
  pub end : Text
  pub date : Text

-- A value of the dict `filters`
pub record FilterValue : Type 0 where
  pub operator : Option Text
  pub values : List Text

pub record Interpretation : Type 0 where
  pub metric : Text
  pub dimensions : List Text
  pub filters : List (Text × FilterValue)
  pub date_range : DateRange
  pub sort_direction : Option Text
  pub limit : Option ℤ
  pub ambiguity_flags : List Text

-- The field `term` of each semantic term, and `entity_key` of each planner candidate
pub record RetrievalResult : Type 0 where
  pub semantic_terms : List Text
  pub planner_candidates : List Text

abbrev pub int_json : ℤ → Json
int_json (ℤ.pos n) = num n
int_json (ℤ.negsuc n) = negative n
