-- ===== src/Common/Texts/Decimal.antt =====
-- Decimal numerals: `f"{n}"` and `int(s)`.
use Prim.Native.Nat.{ℕ, zero, suc, ◌+◌, ◌*◌, ◌/◌, ◌%◌, ◌<◌}
use mathlib.Core.Path.{◌≡◌, refl, ap, ◌∙◌}
use mathlib.Core.Logic.{inl, inr}
use mathlib.Core.Bool.{true}
use mathlib.Core.List.{[], ◌∷◌}
use native.Mathlib.Omega.{arith}
use drivee_tolmach.Common.Tests.{ltb, ltb→lt, Bool-cases, if◌then◌else◌}
use drivee_tolmach.Common.Lists.{All}
use drivee_tolmach.Common.Texts.Chars.{Text, Unicode, is_digit, digit_value}

show_from : ℕ → ℕ → Text → Text
show_from zero n acc = acc
show_from (suc f) n acc =
    let rest = show_from f (n / 10) ((48 + n % 10) ∷ acc) in
    if ltb n 10 then (48 + n) ∷ acc else rest

unfoldable pub show : ℕ → Text
unfolding show_from
show n = show_from (suc n) n []

module _ ⦃u : Unicode⦄ where
  number_from : ℕ → Text → ℕ
  number_from acc [] = acc
  number_from acc (c ∷ s) = number_from (acc * 10 + digit_value c) s

  -- `int(s)` for a text of digits
  unfoldable pub number : Text → ℕ
  unfolding number_from digit_value
  number s = number_from 0 s

  digit_value_lem : (d : ℕ) → d < 10 → digit_value (48 + d) ≡ d
  unfolding digit_value
  digit_value_lem d h = ground arith

  number_from-show_from :
      (f n : ℕ) (acc : Text) → n < f → number_from 0 (show_from f n acc) ≡ number_from n acc
  unfolding show_from number_from
  number_from-show_from zero n acc h = elim h [ ]
  number_from-show_from (suc f) n acc h = elim (Bool-cases (ltb n 10)) [
    | inl small ↦
        rw small (ap (λ k. number_from k acc) (omega (arith, ltb→lt n 10 small, digit_value_lem n)))
    | inr large ↦ rw large (
        number_from-show_from f (n / 10) ((48 + n % 10) ∷ acc) (ground arith)
        ∙ ap (λ k. number_from k acc) (omega (arith, digit_value_lem (n % 10))))
  ]

  -- `int` reads back what `str` of a number prints.
  pub number-show : (n : ℕ) → number (show n) ≡ n
  unfolding number show
  number-show n = number_from-show_from (suc n) n [] (omega arith)

  abbrev pub IsDigits : Text → Type 0
  IsDigits s = All (λ c. is_digit c ≡ true) s

  digit_lem : (d : ℕ) → d < 10 → is_digit (48 + d) ≡ true
  unfolding is_digit
  digit_lem d h = ground arith

  show_from-IsDigits : (f n : ℕ) (acc : Text) → IsDigits acc → IsDigits (show_from f n acc)
  unfolding show_from
  show_from-IsDigits zero n acc h = h
  show_from-IsDigits (suc f) n acc h = elim (Bool-cases (ltb n 10)) [
    | inl small ↦ rw small (digit_lem n (ltb→lt n 10 small), h)
    | inr large ↦ rw large (show_from-IsDigits f (n / 10) _ (digit_lem (n % 10) (omega arith), h))
  ]

  show_from-cons :
      (f n : ℕ) (c : ℕ) (acc : Text) → (d : ℕ) × (s : Text) × (show_from f n (c ∷ acc) ≡ d ∷ s)
  unfolding show_from
  show_from-cons zero n c acc = (c, acc, refl)
  show_from-cons (suc f) n c acc = elim (Bool-cases (ltb n 10)) [
    | inl small ↦ (48 + n, c ∷ acc, rw small)
    | inr large ↦ rw large (show_from-cons f (n / 10) (48 + n % 10) (c ∷ acc))
  ]

  -- What is printed is digits only, and at least one.
  pub show-IsDigits : (n : ℕ) → IsDigits (show n) × ((d : ℕ) × (s : Text) × (show n ≡ d ∷ s))
  unfolding show
  show-IsDigits n = (
    show_from-IsDigits (suc n) n [] tt,
    elim (Bool-cases (ltb n 10)) [
      | inl small ↦ (48 + n, [], rw small)
      | inr large ↦ rw large (show_from-cons n (n / 10) (48 + n % 10) [])
    ],
  )
