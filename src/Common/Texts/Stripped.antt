-- ===== src/Common/Texts/Stripped.antt =====
-- A text that is stripped already stays as it is.
use mathlib.Core.Path.{◌≡◌, refl, ap, subst, ◌∙◌, sym}
use mathlib.Core.Logic.{inl, inr}
use mathlib.Core.Bool.{Bool, true, false}
use mathlib.Core.List.{List, [], ◌∷◌, reverse, reverse-cons, reverse-append, reverse-reverse}
use native.Mathlib.Omega.{arith}
use drivee_tolmach.Common.Tests.{Bool-cases}
use drivee_tolmach.Common.Lists.{All, is_empty}
use drivee_tolmach.Common.Texts.{drop_while, drop_end, strip, drop_while-append}
use drivee_tolmach.Common.Texts.Chars.{Text, Unicode, is_space}

module _ {ℓ} {A : Type ℓ} (p : A → Bool) where
  -- Nothing is dropped at the front.
  Starts : List A → Type 0
  Starts [] = Unit
  Starts (x ∷ xs) = p x ≡ false

  dropped : (x : A) (s : List A) → p x ≡ true → drop_while p (x ∷ s) ≡ drop_while p s
  dropped x s e = ground arith

  kept : (x : A) (s : List A) → p x ≡ false → drop_while p (x ∷ s) ≡ x ∷ s
  kept x s e = ground arith

  drop_while-Starts : (s : List A) → Starts (drop_while p s)
  unfolding Starts
  drop_while-Starts [] = tt
  drop_while-Starts (x ∷ s) = elim (Bool-cases (p x)) [
    | inl e ↦ subst Starts (sym (dropped x s e)) (drop_while-Starts s)
    | inr e ↦ subst Starts (sym (kept x s e)) e
  ]

  drop_while-stays : (s : List A) → Starts s → drop_while p s ≡ s
  unfolding Starts
  drop_while-stays [] _ = refl
  drop_while-stays (x ∷ s) e = kept x s e

  -- The first element stays, if it is one that is kept.
  drop_end-cons :
      (x : A) (s : List A)
      → p x ≡ false
      → drop_end p (x ∷ s) ≡ x ∷ reverse (drop_while p (reverse s))
  drop_end-cons x s e =
      ap (λ t. reverse (drop_while p t)) (reverse-cons x s)
      ∙ ap reverse (drop_while-append p (reverse s) x [] e)
      ∙ reverse-append (drop_while p (reverse s)) (x ∷ [])

  drop_end-Starts : (s : List A) → Starts s → Starts (drop_end p s)
  unfolding Starts
  drop_end-Starts [] _ = tt
  drop_end-Starts (x ∷ s) e = subst Starts (sym (drop_end-cons x s e)) e

  drop_end-again : (s : List A) → drop_end p (drop_end p s) ≡ drop_end p s
  drop_end-again s =
      ap (λ t. reverse (drop_while p t)) (reverse-reverse (drop_while p (reverse s)))
      ∙ ap reverse (drop_while-stays _ (drop_while-Starts (reverse s)))

pub strip-strip : ⦃u : Unicode⦄ (s : Text) → strip (strip s) ≡ strip s
unfolding strip
strip-strip s =
    ap (λ t. drop_end is_space t)
      (drop_while-stays is_space _
        (drop_end-Starts is_space (drop_while is_space s) (drop_while-Starts is_space s)))
    ∙ drop_end-again is_space (drop_while is_space s)

module _ {ℓ} {A : Type ℓ} (p : A → Bool) where
  drop_while_empty : (s : List A) → drop_while p s ≡ [] → All (λ c. p c ≡ true) s
  drop_while_empty [] h = tt
  drop_while_empty (x ∷ s) h = elim (Bool-cases (p x)) [
    | inl e ↦ (e, drop_while_empty s (sym (dropped p x s e) ∙ h))
    | inr e ↦ absurd (cons_is_nil (sym (kept p x s e) ∙ h))
  ]
    where
      cons_is_nil : {x : A} {s : List A} → x ∷ s ≡ [] → ⊥
      cons_is_nil h = cc

  drop_end_empty : (s : List A) → Starts p s → drop_end p s ≡ [] → s ≡ []
  unfolding Starts
  drop_end_empty [] _ h = refl
  drop_end_empty (x ∷ s) e h = absurd (cons_is_nil (sym (drop_end-cons p x s e) ∙ h))
    where
      cons_is_nil : {x : A} {s : List A} → x ∷ s ≡ [] → ⊥
      cons_is_nil h = cc

-- What is stripped to nothing is white space.
pub strip_empty :
    ⦃u : Unicode⦄ (s : Text) → is_empty (strip s) ≡ true → All (λ c. is_space c ≡ true) s
unfolding strip
strip_empty s h = drop_while_empty is_space s (
    drop_end_empty is_space (drop_while is_space s) (drop_while-Starts is_space s)
      (empty_is_nil (strip s) h))
  where
    empty_is_nil : (t : Text) → is_empty t ≡ true → t ≡ []
    empty_is_nil [] h = refl
    empty_is_nil (c ∷ t) h = cc
