-- ===== src/Confidence.antt =====
-- score_confidence of backend/app/ai/confidence.py. The share of the provider's confidence, a product of
-- floats that is rounded, is a parameter: the field provider_points. A text or a list that is absent is
-- empty, and numbers are not negative.
pub mod Bounds
mod Tests
use Prim.Native.Nat.{ℕ, ◌+◌, ◌-◌, ◌*◌, min, max}
use Prim.Native.String.{String}
use mathlib.Core.Bool.{Bool, true, false, ◌&&◌, ◌||◌, not}
use mathlib.Core.List.{List, [], ◌∷◌, ◌++◌}
use drivee_tolmach.Common.{
  Text, codes, show, leb, nat_eq, length, is_empty, join, ◌==◌, same_string, same_list, same_ℕ,
  if◌then◌else◌,
}

pub record Interpretation : Type 0 where
  pub dangerous : Bool
  pub provider_points : ℕ
  pub metric : Text
  pub dimensions : List Text
  pub date_kind : Text
  pub date_label : Text
  pub ambiguity_flags : List Text
  pub top : ℕ
  pub limit : ℕ
  pub source : String
  pub fallback_used : Bool
  pub reasoning : Text

-- The numbers of terms and of examples that were found.
pub record RetrievalResult : Type 0 where
  pub semantic_terms : ℕ
  pub examples : ℕ

pub data Band : Type 0 where
  low medium high : Band

pub record ConfidenceResult : Type 0 where
  pub score : ℕ
  pub band : Band
  pub reasons : List Text
  pub ambiguities : List Text

-- A reason counts points and says why; one that does not hold counts nothing.
abbrev pub Reason : Type 0
Reason = ℕ × List Text

abbrev pub reason : Bool → ℕ → Text → Reason
reason holds points text = if holds then (points, text ∷ []) else (0, [])

abbrev pub dated : Interpretation → Bool
dated i = not (i.date_kind == codes "missing")

abbrev dimension_reason : Interpretation → Reason
dimension_reason i =
    if is_empty i.dimensions
    then reason (not (is_empty i.metric)) 15 (codes "Распознан общий итог без разреза.")
    else (10, (codes "Разрез распознан: " ++ (join (codes ", ") i.dimensions ++ codes ".")) ∷ [])

abbrev pub is_consistent : Interpretation → Bool
is_consistent i =
    not (is_empty i.metric)
    && ((not (is_empty i.dimensions) || nat_eq i.limit 1)
        && (dated i && is_empty i.ambiguity_flags))

-- The reasons in their order.
reasons_of : Interpretation → RetrievalResult → List Reason
unfolding join show
reasons_of i r =
    reason (not (is_empty i.metric)) 18 (codes "Метрика распознана: " ++ (i.metric ++ codes "."))
    ∷ dimension_reason i
    ∷ reason (dated i || (i.metric == codes "active_drivers")) 15
        (codes "Период распознан: " ++ (i.date_label ++ codes "."))
    ∷ reason (leb 1 r.semantic_terms) (min 12 (r.semantic_terms * 3))
        (codes "Найдены совпадения в semantic layer.")
    ∷ reason (leb 1 r.examples) (min 8 (r.examples * 2))
        (codes "Найдены few-shot примеры похожих запросов.")
    ∷ reason (leb 1 i.top) 5 (codes "Лимит top-" ++ (show i.top ++ codes " распознан явно."))
    ∷ reason (is_consistent i) 12
        (codes "Метрика, разрез/итог и период согласованы без неоднозначностей.")
    ∷ reason (i.source == "llm_structured") 0
        (codes "Основной pipeline использовал structured LLM intent parsing.")
    ∷ []

pub points_of : List Reason → ℕ
points_of [] = 0
points_of (r ∷ rest) = r.0 + points_of rest

pub texts_of : List Reason → List Text
texts_of [] = []
texts_of (r ∷ rest) = r.1 ++ texts_of rest

pub total : Interpretation → RetrievalResult → ℕ
unfolding reasons_of points_of
total i r = max 25 (i.provider_points + 15) + points_of (reasons_of i r)

-- What is taken off; the total is at least 25, so the first part does not pass below zero.
pub score_of : Interpretation → RetrievalResult → ℕ
unfolding total
score_of i r =
    let without = total i r - (if i.fallback_used then 10 else 0) in
    min 100 (without - min 35 (length i.ambiguity_flags * 12))

pub band_of : ℕ → List Text → Band
band_of score ambiguities =
    if leb 85 score && is_empty ambiguities then high else if leb 55 score then medium else low

fallback_reasons : Interpretation → List Text
fallback_reasons i =
    (if i.fallback_used then codes "Использован fallback path: confidence снижена." ∷ [] else [])
    ++ (if is_empty i.reasoning then [] else (codes "AI reasoning: " ++ i.reasoning) ∷ [])

abbrev or_unknown : List Text → List Text
or_unknown [] = codes "Недостаточно совпадений с бизнес-словарём." ∷ []
or_unknown (x ∷ xs) = x ∷ xs

unfoldable pub score_confidence : Interpretation → RetrievalResult → ConfidenceResult
unfolding score_of band_of reasons_of texts_of fallback_reasons
score_confidence i r =
    if i.dangerous
    then record {
      score = 0;
      band = low;
      reasons = codes "Запрос содержит write/DDL операцию и не может быть выполнен." ∷ [];
      ambiguities = [];
    }
    else record {
      score = score_of i r;
      band = band_of (score_of i r) i.ambiguity_flags;
      reasons = or_unknown (texts_of (reasons_of i r) ++ fallback_reasons i);
      ambiguities = i.ambiguity_flags;
    }
