-- ===== src/Common/Classes.antt =====
-- Equality tests by instances: Python's `==` on numbers, texts, tuples and lists.
use Prim.Native.Nat.{ℕ}
use Prim.Native.String.{String}
use mathlib.Core.Path.{◌≡◌}
use mathlib.Core.Logic.{◌↔◌}
use mathlib.Core.Bool.{Bool, true, false, ◌&&◌, ◌||◌}
use mathlib.Core.List.{List, [], ◌∷◌}
use native.Mathlib.Omega.{arith}
use text.Mathlib.Text.{◌==◌ as str_eq}
use text.Mathlib.TextEquality.{eq_iff}
use drivee_tolmach.Common.Tests.{nat_eq, nat_eq_iff}

pub record Same {ℓ} (A : Type ℓ) : Type ℓ where
  pub same : A → A → Bool
  pub same_iff : (a b : A) → (same a b ≡ true) ↔ (a ≡ b)

-- Python's `a == b`.
infix 50 ◌==◌
abbrev pub ◌==◌ {ℓ} : {A : Type ℓ} ⦃e : Same A⦄ (a b : A) → Bool
◌==◌ ⦃e⦄ a b = e.same a b

module _ {ℓ} {A : Type ℓ} ⦃e : Same A⦄ where
  abbrev pub list_eq : List A → List A → Bool
  list_eq [] [] = true
  list_eq (x ∷ xs) (y ∷ ys) = e.same x y && list_eq xs ys
  list_eq _ _ = false

  pub list_eq_iff : (xs ys : List A) → (list_eq xs ys ≡ true) ↔ (xs ≡ ys)
  list_eq_iff [] [] = ground arith
  list_eq_iff [] (y ∷ ys) = ground arith
  list_eq_iff (x ∷ xs) [] = ground arith
  list_eq_iff (x ∷ xs) (y ∷ ys) = ground (arith, list_eq_iff xs ys, e.same_iff x y)

instance abbrev pub same_list {ℓ} : {A : Type ℓ} ⦃e : Same A⦄ → Same (List A)
same_list = record { same = list_eq; same_iff = list_eq_iff }

module _ {ℓ κ} {A : Type ℓ} {B : Type κ} ⦃e : Same A⦄ ⦃f : Same B⦄ where
  abbrev pub pair_eq : A × B → A × B → Bool
  pair_eq (a, b) (c, d) = e.same a c && f.same b d

  pub pair_eq_iff : (p q : A × B) → (pair_eq p q ≡ true) ↔ (p ≡ q)
  pair_eq_iff (a, b) (c, d) = ground (arith, e.same_iff a c, f.same_iff b d)

instance abbrev pub same_pair {ℓ κ} :
    {A : Type ℓ} {B : Type κ} ⦃e : Same A⦄ ⦃f : Same B⦄ → Same (A × B)
same_pair = record { same = pair_eq; same_iff = pair_eq_iff }

instance abbrev pub same_string : Same String
same_string = record { same_iff = eq_iff; same = str_eq }

instance abbrev pub same_ℕ : Same ℕ
same_ℕ = record { same_iff = nat_eq_iff; same = nat_eq }

module _ {ℓ} {A : Type ℓ} ⦃e : Same A⦄ where
  -- `x in xs`
  unfoldable pub elem : A → List A → Bool
  elem x [] = false
  elem x (y ∷ ys) = x == y || elem x ys

  -- `xs - ys` of sets, as lists
  unfoldable pub difference : List A → List A → List A
  unfolding elem
  difference [] ys = []
  difference (x ∷ xs) ys =
      let rest = difference xs ys in elim (elem x ys) [ true ↦ rest | false ↦ x ∷ rest ]

  -- `set(xs)`: each element once, in the order of the first occurrence
  unfoldable pub distinct : List A → List A
  unfolding elem
  distinct [] = []
  distinct (x ∷ xs) = x ∷ difference (distinct xs) (x ∷ [])
