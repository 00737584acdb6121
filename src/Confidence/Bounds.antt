-- ===== src/Confidence/Bounds.antt =====
-- The score of backend/app/ai/confidence.py: its bounds, its bands and what ambiguities do to it.
use Prim.Native.Nat.{ℕ, ◌≤◌, ◌<◌}
use mathlib.Core.Path.{◌≡◌, refl}
use mathlib.Core.Logic.{◌⊎◌, inl, inr}
use mathlib.Core.Bool.{Bool, true, false, ◌&&◌, ◌||◌, not}
use mathlib.Core.List.{List, [], ◌∷◌}
use native.Mathlib.Omega.{arith}
use drivee_tolmach.Common.{Text, codes, leb, leb→le, length, nat_eq, is_empty, Bool-cases, if-cases}
use drivee_tolmach.Confidence.{
  Interpretation, RetrievalResult, low, medium, high, ConfidenceResult, reason, dated,
  is_consistent, reasons_of, points_of, total, score_of, band_of, score_confidence,
}

-- The band says what the score and the ambiguities are.
pub IsBanded : ConfidenceResult → Type 0
IsBanded c =
    (c.score ≤ 100)
    × (((c.band ≡ high) × (85 ≤ c.score) × (is_empty c.ambiguities ≡ true))
        ⊎ (((c.band ≡ medium)
              × (55 ≤ c.score)
              × ((c.score < 85) ⊎ (is_empty c.ambiguities ≡ false)))
            ⊎ ((c.band ≡ low) × (c.score < 55))))

score_of-bound : (i : Interpretation) (r : RetrievalResult) → score_of i r ≤ 100
unfolding score_of
score_of-bound i r = omega arith

banded :
    (n : ℕ) (flags : List Text)
    → ((band_of n flags ≡ high) × (85 ≤ n) × (is_empty flags ≡ true))
      ⊎ (((band_of n flags ≡ medium) × (55 ≤ n) × ((n < 85) ⊎ (is_empty flags ≡ false)))
          ⊎ ((band_of n flags ≡ low) × (n < 55)))
unfolding band_of
banded n flags = elim (Bool-cases (leb 85 n)) [
  | inl e ↦ elim (Bool-cases (is_empty flags)) [
    | inl f ↦ inl (rw (e, f) refl, leb→le 85 n e, f)
    | inr f ↦
        let more : leb 55 n ≡ true = ground arith in
        inr (inl (rw (e, f, more) refl, leb→le 55 n more, inr f))
  ]
  | inr e ↦ elim (Bool-cases (leb 55 n)) [
    | inl f ↦ inr (inl (rw (e, f) refl, leb→le 55 n f, inl (ground arith)))
    | inr f ↦ inr (inr (rw (e, f) refl, ground arith))
  ]
]

-- The score is at most 100; the band is high from 85 on without ambiguities, else medium from 55 on,
-- else low.
pub score_confidence-IsBanded :
    (i : Interpretation) (r : RetrievalResult) → IsBanded (score_confidence i r)
unfolding score_confidence IsBanded
score_confidence-IsBanded i r =
    if-cases IsBanded i.dangerous _ _ (λ _. (omega arith, inr (inr (refl, omega arith))))
      (λ _. (score_of-bound i r, banded (score_of i r) i.ambiguity_flags))

abbrev with_flags : Interpretation → List Text → Interpretation
with_flags i flags = record i { ambiguity_flags = flags }

fewer_empty :
    (xs ys : List Text) → length xs ≤ length ys → (is_empty ys ≡ false) ⊎ (is_empty xs ≡ true)
fewer_empty xs (y ∷ ys) _ = inl refl
fewer_empty [] [] _ = inr refl
fewer_empty (x ∷ xs) [] h = absurd (omega arith)

weaker :
    (m d k e' e : Bool) (n : ℕ) (text : Text)
    → (e' ≡ false) ⊎ (e ≡ true)
    → (reason (m && (d && (k && e'))) n text).0 ≤ (reason (m && (d && (k && e))) n text).0
weaker true true true true true n text _ = omega arith
weaker true true true true false n text (inl h) = absurd (ground arith)
weaker true true true true false n text (inr h) = absurd (ground arith)
weaker true true true false true n text _ = omega arith
weaker true true true false false n text _ = omega arith
weaker true true false e' e n text _ = omega arith
weaker true false k e' e n text _ = omega arith
weaker false d k e' e n text _ = omega arith

bonus :
    (i : Interpretation) (flags : List Text) (text : Text)
    → length i.ambiguity_flags ≤ length flags
    → (reason (is_consistent (with_flags i flags)) 12 text).0 ≤ (reason (is_consistent i) 12 text).0
bonus i flags text more =
    weaker (not (is_empty i.metric)) (not (is_empty i.dimensions) || nat_eq i.limit 1) (dated i)
      (is_empty flags) (is_empty i.ambiguity_flags) 12 text
      (fewer_empty i.ambiguity_flags flags more)

total-antitone :
    (i : Interpretation) (r : RetrievalResult) (flags : List Text)
    → length i.ambiguity_flags ≤ length flags
    → total (with_flags i flags) r ≤ total i r
unfolding total reasons_of points_of
total-antitone i r flags more = omega (
  arith,
  bonus i flags (codes "Метрика, разрез/итог и период согласованы без неоднозначностей.") more,
)

score_of-antitone :
    (i : Interpretation) (r : RetrievalResult) (flags : List Text)
    → length i.ambiguity_flags ≤ length flags
    → score_of (with_flags i flags) r ≤ score_of i r
unfolding score_of
score_of-antitone i r flags more = omega (arith, total-antitone i r flags more)

-- With other ambiguities, as many or more, the same interpretation scores no higher.
pub score_confidence-antitone :
    (i : Interpretation) (r : RetrievalResult) (flags : List Text)
    → length i.ambiguity_flags ≤ length flags
    → (score_confidence (record i { ambiguity_flags = flags }) r).score
      ≤ (score_confidence i r).score
unfolding score_confidence
score_confidence-antitone i r flags more = elim (Bool-cases i.dangerous) [
  | inl e ↦ rw e (omega arith)
  | inr e ↦ rw e (score_of-antitone i r flags more)
]
