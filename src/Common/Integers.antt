-- ===== src/Common/Integers.antt =====
-- Python's `int`: the integers over the native numbers, and what `str` and `int` make of them.
use Prim.Native.Nat.{ℕ, zero, suc}
use mathlib.Core.Bool.{Bool, true, ◌||◌, not}
use mathlib.Core.Option.{Option, none, some}
use mathlib.Core.List.{[], ◌∷◌}
use drivee_tolmach.Common.Tests.{nat_eq, if◌then◌else◌}
use drivee_tolmach.Common.Texts.{Text, Unicode, is_digit, show, number, strip}

-- `negsuc n` is -(n + 1).
pub data ℤ : Type 0 where
  pos : ℕ → ℤ
  negsuc : ℕ → ℤ

abbrev pub negated : ℕ → ℤ
negated zero = pos 0
negated (suc n) = negsuc n

-- `str(n)`
unfoldable pub show_int : ℤ → Text
unfolding show
show_int (pos n) = show n
show_int (negsuc n) = b'-' ∷ show (suc n)

module _ ⦃u : Unicode⦄ where
  -- The digits of a numeral, in which an underscore may stand between two digits.
  digits_after : Bool → Text → Option Text
  unfolding is_digit
  digits_after expects_digit [] = if expects_digit then none else some []
  digits_after expects_digit (c ∷ s) =
      let rest = digits_after (not (is_digit c)) s in
      if is_digit c
      then (elim rest [ some ds ↦ some (c ∷ ds) | none ↦ none ])
      else if expects_digit || not (nat_eq c b'_')
      then none
      else rest

  unsigned : Text → Option ℕ
  unfolding digits_after number
  unsigned s = elim (digits_after true s) [ some ds ↦ some (number ds) | none ↦ none ]

  signed : Text → Option ℤ
  unfolding unsigned
  signed [] = none
  signed (c ∷ s) =
      if nat_eq c b'-'
      then (elim (unsigned s) [ some n ↦ some (negated n) | none ↦ none ])
      else elim (unsigned (if nat_eq c b'+' then s else c ∷ s)) [
        | some n ↦ some (pos n)
        | none ↦ none
      ]

  -- `int(s)`; none stands for its ValueError.
  unfoldable pub parse_int : Text → Option ℤ
  unfolding signed strip
  parse_int s = signed (strip s)
