-- ===== src/Guardrails/Validator/Columns/Approved.antt =====
-- The column loop of validate_sql: when it reports nothing, every reference is approved.
use mathlib.Core.Path.{◌≡◌, refl}
use mathlib.Core.Logic.{◌⊎◌, inl, inr}
use mathlib.Core.Bool.{true, false, ◌||◌}
use mathlib.Core.Option.{Option, none, some}
use mathlib.Core.List.{List, [], ◌∷◌, ◌++◌}
use drivee_tolmach.Common.{
  Text, Unicode, lower, elem, is_empty, All, Bool-cases, same_list, same_ℕ, if◌then◌else◌,
}
use drivee_tolmach.Settings.{forbidden_columns}
use drivee_tolmach.Guardrails.Decision.{ColumnReference}
use drivee_tolmach.Guardrails.Validator.Columns.{
  AccessPolicy, ColumnFindings, Verdict, skipped, approved, is_forbidden_column, is_unknown,
  allowed_columns, resolve, against, check_column, add_verdict, columns_from, check_columns,
}

abbrev IsFine : Verdict → Type 0
IsFine (is_forbidden_column name) = ⊥
IsFine (is_unknown column) = ⊥
IsFine _ = Unit

module _ ⦃u : Unicode⦄ (tables : List Text) (policies : List (Text × AccessPolicy))
    (aliases : List (Text × Text)) (outputs : List Text) where
  -- A reference that the access policies approve: its table is known, its name is not sensitive, and
  -- the table's policy lists it or lists no column at all. The code exempts a reference without a
  -- name and one spelled like an output alias.
  abbrev pub IsExempt : ColumnReference → Type 0
  IsExempt c = (is_empty (lower c.column_name) ≡ true) ⊎ (elem (lower c.column_name) outputs ≡ true)

  abbrev pub IsAllowed : ColumnReference → Type 0
  IsAllowed c =
      (elem (lower c.column_name) forbidden_columns ≡ false)
      × ((table : Text) × (resolve tables policies aliases outputs (lower c.table_alias)
            ≡ some table)
          × ((allowed_columns policies table ≡ [])
              ⊎ (elem (lower c.column_name) (allowed_columns policies table) ≡ true)))

  abbrev pub IsApproved : ColumnReference → Type 0
  IsApproved c = IsExempt c ⊎ IsAllowed c

  against-allowed :
      (alias name : Text) (o : Option Text)
      → IsFine (against tables policies aliases outputs alias name o)
      → (table : Text) × (o ≡ some table)
        × ((allowed_columns policies table ≡ [])
            ⊎ (elem name (allowed_columns policies table) ≡ true))
  unfolding against
  against-allowed alias name none h = absurd h
  against-allowed alias name (some table) h =
      (table, refl, split (allowed_columns policies table) h)
    where
      split :
          (allowed : List Text)
          → IsFine (
              if is_empty allowed || elem name allowed
              then approved
              else is_unknown
                  (record { table_alias = alias; column_name = name; table_name = some table }))
          → (allowed ≡ []) ⊎ (elem name allowed ≡ true)
      split [] h = inl refl
      split (x ∷ xs) h = elim (Bool-cases (elem name (x ∷ xs))) [
        | inl e ↦ inr e
        | inr e ↦ absurd (rw e at h)
      ]

  check_column-IsApproved :
      (c : ColumnReference) → IsFine (check_column tables policies aliases outputs c) → IsApproved c
  unfolding check_column
  check_column-IsApproved c h = elim (Bool-cases (is_empty (lower c.column_name))) [
    | inl e ↦ inl (inl e)
    | inr named ↦ elim (Bool-cases (elem (lower c.column_name) outputs)) [
      | inl e ↦ inl (inr e)
      | inr e ↦ elim (Bool-cases (elem (lower c.column_name) forbidden_columns)) [
        | inl bad ↦ absurd (rw (named, e, bad) at h)
        | inr good ↦ inr (good, against-allowed _ _ _ (rw (named, e, good) at h))
      ]
    ]
  ]

  columns_from-IsFine :
      (found : ColumnFindings) (cs : List ColumnReference)
      → is_empty (columns_from tables policies aliases outputs found cs).forbidden ≡ true
      → is_empty (columns_from tables policies aliases outputs found cs).unknown ≡ true
      → (is_empty found.forbidden ≡ true)
        × (is_empty found.unknown ≡ true)
        × All (λ c. IsFine (check_column tables policies aliases outputs c)) cs
  unfolding columns_from
  columns_from-IsFine found [] h k = (h, k, tt)
  columns_from-IsFine found (c ∷ cs) h k =
      let (nf, nu, rest) =
        columns_from-IsFine
          (add_verdict tables policies aliases outputs
            (check_column tables policies aliases outputs c) found)
          cs h k in
      let (f, u, fine) = undo (check_column tables policies aliases outputs c) found nf nu in
      (f, u, (fine, rest))
    where
      append-nonempty : {A : Type 0} (xs : List A) (x : A) → is_empty (xs ++ x ∷ []) ≡ false
      append-nonempty [] x = refl
      append-nonempty (y ∷ xs) x = refl

      undo :
          (v : Verdict) (found : ColumnFindings)
          → is_empty (add_verdict tables policies aliases outputs v found).forbidden ≡ true
          → is_empty (add_verdict tables policies aliases outputs v found).unknown ≡ true
          → (is_empty found.forbidden ≡ true) × (is_empty found.unknown ≡ true) × IsFine v
      undo skipped found h k = (h, k, tt)
      undo approved found h k = (h, k, tt)
      undo (is_forbidden_column name) found h k = cc (append-nonempty found.forbidden name)
      undo (is_unknown column) found h k = cc (append-nonempty found.unknown column)

  All-IsApproved :
      (cs : List ColumnReference)
      → All (λ c. IsFine (check_column tables policies aliases outputs c)) cs
      → All IsApproved cs
  All-IsApproved [] h = tt
  All-IsApproved (c ∷ cs) (f, h) = (check_column-IsApproved c f, All-IsApproved cs h)

  pub check_columns-IsApproved :
      (cs : List ColumnReference)
      → is_empty (check_columns tables policies aliases outputs cs).forbidden ≡ true
      → is_empty (check_columns tables policies aliases outputs cs).unknown ≡ true
      → All IsApproved cs
  unfolding check_columns
  check_columns-IsApproved cs h k = All-IsApproved cs (columns_from-IsFine _ cs h k).2
