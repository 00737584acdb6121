-- ===== src/Semantic/Literals/Quoted.antt =====
-- A string literal, read back by the rule of SQL: a doubled quote stands for one.
use Prim.Native.Nat.{ℕ}
use mathlib.Core.Path.{◌≡◌, refl}
use mathlib.Core.Logic.{inl, inr}
use mathlib.Core.Bool.{Bool, false, ◌&&◌, not}
use mathlib.Core.Option.{Option, none, some}
use mathlib.Core.List.{[], ◌∷◌, ◌++◌, append_assoc}
use drivee_tolmach.Common.{Text, nat_eq_iff, Bool-cases, if◌then◌else◌}
use drivee_tolmach.Semantic.Literals.{is_quote, quote, escape, quoted}

abbrev prepend : ℕ → Option (Text × Text) → Option (Text × Text)
prepend c (some (body, rest)) = some (c ∷ body, rest)
prepend c none = none

-- The value behind an opening quote, and the text behind the closing one; a quote that was read may
-- yet be the first of two.
pub read_body : (pending : Bool) → Text → Option (Text × Text)
read_body pending [] = if pending then some ([], []) else none
read_body pending (c ∷ s) =
    let rest = read_body (is_quote c && not pending) s in
    if pending
    then if is_quote c then prepend quote rest else some ([], c ∷ s)
    else if is_quote c
    then rest
    else prepend c rest

unfoldable pub read_literal : Text → Option (Text × Text)
unfolding read_body
read_literal [] = none
read_literal (c ∷ s) = if is_quote c then read_body false s else none

abbrev pub starts_quoted : Text → Bool
starts_quoted [] = false
starts_quoted (c ∷ s) = is_quote c

read_body-end :
    (rest : Text) → starts_quoted rest ≡ false → read_body false (quote ∷ rest) ≡ some ([], rest)
unfolding read_body
read_body-end [] h = refl
read_body-end (d ∷ s) h = rw h refl

-- A character other than a quote is read as it stands.
read_body-other :
    (c : ℕ) (s : Text)
    → is_quote c ≡ false
    → read_body false (c ∷ s) ≡ prepend c (read_body false s)
unfolding read_body
read_body-other c s h = rw h refl

read_body-doubled :
    (s : Text) → read_body false (quote ∷ quote ∷ s) ≡ prepend quote (read_body false s)
unfolding read_body
read_body-doubled s = refl

read_body-escape :
    (v rest : Text)
    → starts_quoted rest ≡ false
    → read_body false (escape v ++ quote ∷ rest) ≡ some (v, rest)
unfolding escape
read_body-escape [] rest h = read_body-end rest h
read_body-escape (c ∷ v) rest h = elim (Bool-cases (is_quote c)) [
  | inl e ↦
      let c_is_quote : c ≡ quote = (nat_eq_iff c quote).0 e in
      rw (e, read_body-doubled, read_body-escape v rest h, c_is_quote) refl
  | inr e ↦ rw (e, read_body-other c (escape v ++ quote ∷ rest) e, read_body-escape v rest h) refl
]

-- What is quoted and escaped is read back as it was, and the text behind it is left.
pub read_literal-quoted :
    (v rest : Text)
    → starts_quoted rest ≡ false
    → read_literal (quoted (escape v) ++ rest) ≡ some (v, rest)
unfolding read_literal
read_literal-quoted v rest h =
    rw (append_assoc (escape v) (quote ∷ []) rest) (read_body-escape v rest h)
