-- ===== src/Semantic/Dedupe/Kept.antt =====
-- What `_dedupe` keeps: every item that is not blank, stripped, and none twice.
use mathlib.Core.Path.{◌≡◌, refl, sym, subst}
use mathlib.Core.Logic.{◌⊎◌, inl, inr}
use mathlib.Core.Bool.{Bool, true, false, ◌||◌}
use mathlib.Core.List.{List, [], ◌∷◌}
use native.Mathlib.Omega.{arith}
use drivee_tolmach.Common.{
  Text, Unicode, strip, elem, is_empty, All, Bool-cases, ◌==◌, Same, same_list, same_ℕ,
}
use drivee_tolmach.Semantic.Dedupe.{dedupe_after, dedupe}

module _ {ℓ} {A : Type ℓ} ⦃e : Same A⦄ where
  -- No element occurs twice.
  abbrev pub IsDistinct : List A → Type 0
  IsDistinct [] = Unit
  IsDistinct (x ∷ xs) = (elem x xs ≡ false) × IsDistinct xs

  different : (x y : A) → (x == y) ≡ false → (y == x) ≡ false
  different x y h = ground (arith, e.same_iff x y, e.same_iff y x)

  elem-first : (x : A) (xs : List A) → elem x (x ∷ xs) ≡ true
  unfolding elem
  elem-first x xs = ground (arith, e.same_iff x x)

  -- An element that none of the list is equal to is not in it.
  absent : (x : A) (seen xs : List A) → All (λ y. elem y (x ∷ seen) ≡ false) xs → elem x xs ≡ false
  unfolding elem
  absent x seen [] _ = refl
  absent x seen (y ∷ ys) (h, k) = ground (arith, different y x, absent x seen ys k)

  older :
      (x : A) (seen xs : List A)
      → All (λ y. elem y (x ∷ seen) ≡ false) xs
      → All (λ y. elem y seen ≡ false) xs
  unfolding elem
  older x seen [] _ = tt
  older x seen (y ∷ ys) (h, k) = (ground arith, older x seen ys k)

module _ ⦃u : Unicode⦄ where
  abbrev skips : List Text → Text → Bool
  skips seen item = is_empty (strip item) || elem (strip item) seen

  dedupe_after-nil : (seen : List Text) → dedupe_after seen [] ≡ []
  unfolding dedupe_after
  dedupe_after-nil seen = refl

  dedupe_after-skip :
      (seen : List Text) (item : Text) (items : List Text)
      → skips seen item ≡ true
      → dedupe_after seen (item ∷ items) ≡ dedupe_after seen items
  unfolding dedupe_after
  dedupe_after-skip seen item items h = rw h refl

  dedupe_after-keep :
      (seen : List Text) (item : Text) (items : List Text)
      → skips seen item ≡ false
      → dedupe_after seen (item ∷ items) ≡ strip item ∷ dedupe_after (strip item ∷ seen) items
  unfolding dedupe_after
  dedupe_after-keep seen item items h = rw h refl

  dedupe_after-fresh :
      (seen items : List Text) → All (λ x. elem x seen ≡ false) (dedupe_after seen items)
  dedupe_after-fresh seen [] = rw (dedupe_after-nil seen) tt
  dedupe_after-fresh seen (item ∷ items) = elim (Bool-cases (skips seen item)) [
    | inl h ↦ rw (dedupe_after-skip seen item items h) (dedupe_after-fresh seen items)
    | inr h ↦
        rw (dedupe_after-keep seen item items h)
          (ground arith, older (strip item) seen _ (dedupe_after-fresh (strip item ∷ seen) items))
  ]

  dedupe_after-IsDistinct : (seen items : List Text) → IsDistinct (dedupe_after seen items)
  dedupe_after-IsDistinct seen [] = rw (dedupe_after-nil seen) tt
  dedupe_after-IsDistinct seen (item ∷ items) = elim (Bool-cases (skips seen item)) [
    | inl h ↦ rw (dedupe_after-skip seen item items h) (dedupe_after-IsDistinct seen items)
    | inr h ↦ rw (dedupe_after-keep seen item items h) (
      absent (strip item) seen _ (dedupe_after-fresh (strip item ∷ seen) items),
      dedupe_after-IsDistinct (strip item ∷ seen) items,
    )
  ]

  -- An item is blank, or one of the two lists has it.
  abbrev IsIn : List Text → List Text → Text → Type 0
  IsIn seen result item =
      (is_empty (strip item) ≡ true)
      ⊎ (elem (strip item) seen ≡ true)
      ⊎ (elem (strip item) result ≡ true)

  IsIn-later :
      (x : Text) (seen result items : List Text)
      → All (IsIn (x ∷ seen) result) items
      → All (IsIn seen (x ∷ result)) items
  unfolding elem
  IsIn-later x seen result [] _ = tt
  IsIn-later x seen result (item ∷ items) (h, k) = (
    ground (arith, different x (strip item), different (strip item) x),
    IsIn-later x seen result items k,
  )

  dedupe_after-IsIn : (seen items : List Text) → All (IsIn seen (dedupe_after seen items)) items
  dedupe_after-IsIn seen [] = tt
  dedupe_after-IsIn seen (item ∷ items) = elim (Bool-cases (skips seen item)) [
    | inl h ↦
        subst (λ r. All (IsIn seen r) (item ∷ items)) (sym (dedupe_after-skip seen item items h))
          (ground arith, dedupe_after-IsIn seen items)
    | inr h ↦
        subst (λ r. All (IsIn seen r) (item ∷ items)) (sym (dedupe_after-keep seen item items h))
          (
            inr (inr (elem-first (strip item) _)),
            IsIn-later (strip item) seen _ items (dedupe_after-IsIn (strip item ∷ seen) items),
          )
  ]

  -- Nothing was seen before the first item.
  IsIn-nil :
      (result : List Text) (item : Text)
      → IsIn [] result item
      → (is_empty (strip item) ≡ true) ⊎ (elem (strip item) result ≡ true)
  unfolding elem
  IsIn-nil result item (inl e) = inl e
  IsIn-nil result item (inr (inl e)) = absurd cc
  IsIn-nil result item (inr (inr e)) = inr e

  -- No item is kept twice, and every item that is not blank is kept, stripped.
  pub dedupe-kept :
      (items : List Text)
      → IsDistinct (dedupe items)
        × All
            (λ item. (is_empty (strip item) ≡ true) ⊎ (elem (strip item) (dedupe items) ≡ true))
            items
  unfolding dedupe
  dedupe-kept items = (
    dedupe_after-IsDistinct [] items,
    without (dedupe_after [] items) items (dedupe_after-IsIn [] items),
  )
    where
      without :
          (result items : List Text)
          → All (IsIn [] result) items
          → All (λ item. (is_empty (strip item) ≡ true) ⊎ (elem (strip item) result ≡ true)) items
      without result [] _ = tt
      without result (item ∷ items) (h, k) = (IsIn-nil result item h, without result items k)
