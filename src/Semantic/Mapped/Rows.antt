-- ===== src/Semantic/Mapped/Rows.antt =====
-- The queries of backend/app/semantic/repository.py on a table that grows, changes or shrinks by a row
use mathlib.Core.Path.{◌≡◌, refl, subst}
use mathlib.Core.Logic.{inl, inr}
use mathlib.Core.Bool.{true, false}
use mathlib.Core.Option.{Option, none, some}
use mathlib.Core.List.{List, [], ◌∷◌, ◌++◌}
use native.Mathlib.Omega.{arith}
use drivee_tolmach.Common.{Text, Bool-cases, if-cases, ◌==◌, list_eq_iff, same_list, same_ℕ}
use drivee_tolmach.Semantic.Catalog.{Row}
use drivee_tolmach.Semantic.Store.{row_key, has_key, get_row, exists_row, put_row, drop_row}
use drivee_tolmach.Semantic.Mapped.{insert_at, remove_at}

from_none {ℓ} :
    {A : Type ℓ} (o : Option A) → elim o [ some a ↦ true | none ↦ false ] ≡ false → o ≡ none
from_none (some a) h = absurd cc
from_none none h = refl

module _ {A : Type 0} (key_of : A → Text) where
  get_row-here :
      (k : Text) (row : Row A) (rows : List (Row A))
      → has_key key_of k row ≡ true
      → get_row key_of k (row ∷ rows) ≡ some row
  unfolding get_row
  get_row-here k row rows h = rw h refl

  get_row-later :
      (k : Text) (row : Row A) (rows : List (Row A))
      → has_key key_of k row ≡ false
      → get_row key_of k (row ∷ rows) ≡ get_row key_of k rows
  unfolding get_row
  get_row-later k row rows h = rw h refl

  pub exists_row-none :
      (key : Text) (rows : List (Row A))
      → exists_row key_of key rows ≡ false
      → get_row key_of key rows ≡ none
  unfolding exists_row
  exists_row-none key rows h = from_none (get_row key_of key rows) h

  pub get_row-append :
      (k : Text) (row : Row A) (rows : List (Row A))
      → get_row key_of (row_key key_of row) rows ≡ none
      → get_row key_of k (rows ++ row ∷ [])
        ≡ insert_at (row_key key_of row) row (λ k. get_row key_of k rows) k
  unfolding get_row
  get_row-append k row [] h = refl
  get_row-append k row (r ∷ rows) h = ground (
    arith,
    get_row-append k row rows,
    list_eq_iff (row_key key_of row) k,
    list_eq_iff (row_key key_of r) k,
    list_eq_iff (row_key key_of r) (row_key key_of row),
  )

  put_row-others :
      (key k : Text) (new : Row A) (rows : List (Row A))
      → row_key key_of new ≡ key
      → (key == k) ≡ false
      → get_row key_of k (put_row key_of key new rows) ≡ get_row key_of k rows
  unfolding get_row put_row
  put_row-others key k new [] e d = refl
  put_row-others key k new (r ∷ rows) e d = elim (Bool-cases (has_key key_of key r)) [
    | inl f ↦ rw f (
        ground (
          arith,
          put_row-others key k new rows e d,
          list_eq_iff (row_key key_of r) k,
          list_eq_iff (row_key key_of r) key,
          list_eq_iff (row_key key_of new) k,
          list_eq_iff key k,
        ))
    | inr f ↦ rw f (ground (arith, put_row-others key k new rows e d))
  ]

  put_row-there :
      (key : Text) (new row : Row A) (rows : List (Row A))
      → row_key key_of new ≡ key
      → get_row key_of key rows ≡ some row
      → get_row key_of key (put_row key_of key new rows) ≡ some new
  unfolding get_row put_row
  put_row-there key new row [] e h = absurd cc
  put_row-there key new row (r ∷ rows) e h = elim (Bool-cases (has_key key_of key r)) [
    | inl f ↦ rw f (ground (arith, list_eq_iff (row_key key_of new) key))
    | inr f ↦ rw f (ground (arith, h, put_row-there key new row rows e))
  ]

  pub get_row-put :
      (key k : Text) (new row : Row A) (rows : List (Row A))
      → row_key key_of new ≡ key
      → get_row key_of key rows ≡ some row
      → get_row key_of k (put_row key_of key new rows)
        ≡ insert_at key new (λ k. get_row key_of k rows) k
  get_row-put key k new row rows e h =
      if-cases (λ o. get_row key_of k (put_row key_of key new rows) ≡ o) (key == k) (some new)
        (get_row key_of k rows)
        (λ f.
          subst (λ k. get_row key_of k (put_row key_of key new rows) ≡ some new)
            ((list_eq_iff key k).0 f) (put_row-there key new row rows e h))
        (λ f. put_row-others key k new rows e f)

  pub get_row-drop :
      (key k : Text) (rows : List (Row A))
      → get_row key_of k (drop_row key_of key rows) ≡ remove_at key (λ k. get_row key_of k rows) k
  unfolding get_row drop_row
  get_row-drop key k [] = if-cases (λ o. none ≡ o) (key == k) none none (λ _. refl) (λ _. refl)
  get_row-drop key k (r ∷ rows) = ground (
    arith,
    get_row-drop key k rows,
    list_eq_iff key k,
    list_eq_iff (row_key key_of r) k,
    list_eq_iff (row_key key_of r) key,
  )
