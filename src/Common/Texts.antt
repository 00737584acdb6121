-- ===== src/Common/Texts.antt =====
-- Python's `str`, as a list of code points, with the operations that the program uses.
pub mod Chars
pub mod Decimal
pub mod Sorting
pub mod Stripped
pub use Chars.{
  lower-lower, Text, codes, ascii_lower, is_ascii_digit, Unicode, ascii_tables, is_digit-is_word,
  is_space-is_word, fold_of_not_word, fold_of_digit,
}
unfoldable pub use Chars.{is_word, is_space, is_digit, digit_value, fold, lower}
pub use Decimal.{number-show, show-IsDigits}
unfoldable pub use Decimal.{show, number}
unfoldable pub use Sorting.{sorted}
pub use Sorting.{is_empty-sorted}
use mathlib.Core.Path.{◌≡◌, refl}
use mathlib.Core.Bool.{Bool, true, false}
use native.Mathlib.Omega.{arith}
use mathlib.Core.Logic.{◌⊎◌, inl, inr}
use drivee_tolmach.Common.Tests.{Bool-cases}
use drivee_tolmach.Common.Lists.{All}
use mathlib.Core.List.{List, [], ◌∷◌, ◌++◌, reverse}

abbrev pub drop_while {ℓ} : {A : Type ℓ} → (A → Bool) → List A → List A
drop_while p [] = []
drop_while p (x ∷ xs) = let rest = drop_while p xs in elim (p x) [ true ↦ rest | false ↦ x ∷ xs ]

abbrev pub take_while {ℓ} : {A : Type ℓ} → (A → Bool) → List A → List A
take_while p [] = []
take_while p (x ∷ xs) = let rest = take_while p xs in elim (p x) [ true ↦ x ∷ rest | false ↦ [] ]

-- `s.rstrip(chars)`
abbrev pub drop_end {ℓ} : {A : Type ℓ} → (A → Bool) → List A → List A
drop_end p s = reverse (drop_while p (reverse s))

module _ {ℓ} {A : Type ℓ} (p : A → Bool) where
  -- Dropping stops at the latest where the second part starts, if that part starts with a stop.
  pub drop_while-append :
      (s : List A) (x : A) (t : List A)
      → p x ≡ false
      → drop_while p (s ++ x ∷ t) ≡ drop_while p s ++ x ∷ t
  drop_while-append [] x t h = ground arith
  drop_while-append (y ∷ s) x t h = ground (arith, drop_while-append s x t h)

  pub drop_while-cases :
      (s t : List A)
      → (drop_while p s ≡ []) × (drop_while p (s ++ t) ≡ drop_while p t)
        ⊎ ((x : A) × (r : List A) × (drop_while p s ≡ x ∷ r) × (drop_while p (s ++ t) ≡ x ∷ r ++ t))
  drop_while-cases [] t = inl (refl, refl)
  drop_while-cases (y ∷ s) t = elim (Bool-cases (p y)) [
    | inl e ↦
        let here : drop_while p (y ∷ s) ≡ drop_while p s = ground arith in
        let there : drop_while p (y ∷ s ++ t) ≡ drop_while p (s ++ t) = ground arith in
        rw (here, there) (drop_while-cases s t)
    | inr e ↦ inr (y, s, ground arith, ground arith)
  ]

  pub take_while-append :
      (s : List A) (x : A) (t : List A)
      → All (λ c. p c ≡ true) s
      → p x ≡ false
      → take_while p (s ++ x ∷ t) ≡ s
  take_while-append [] x t _ h = ground arith
  take_while-append (y ∷ s) x t (q, k) h = ground (arith, take_while-append s x t k h)

  pub take_while-All : (s : List A) → All (λ c. p c ≡ true) s → take_while p s ≡ s
  take_while-All [] _ = refl
  take_while-All (y ∷ s) (q, k) = ground (arith, take_while-All s k)

  pub drop_while-All : (s : List A) → All (λ c. p c ≡ true) s → drop_while p s ≡ []
  drop_while-All [] _ = refl
  drop_while-All (y ∷ s) (q, k) = ground (arith, drop_while-All s k)

-- `s.strip()`
unfoldable pub strip : ⦃u : Unicode⦄ → Text → Text
unfolding is_space
strip s = drop_end is_space (drop_while is_space s)

-- `sep.join(items)`
unfoldable pub join : Text → List Text → Text
join sep [] = []
join sep (x ∷ []) = x
join sep (x ∷ y ∷ rest) = x ++ (sep ++ join sep (y ∷ rest))
