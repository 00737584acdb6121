-- ===== src/Common/Texts/Sorting.antt =====
-- `sorted` on texts: insertion by code points.
use mathlib.Core.Bool.{Bool, true, false, ◌&&◌, ◌||◌}
use mathlib.Core.Path.{◌≡◌}
use mathlib.Core.List.{List, [], ◌∷◌}
use native.Mathlib.Omega.{arith}
use drivee_tolmach.Common.Lists.{is_empty}
use drivee_tolmach.Common.Tests.{ltb, nat_eq, if◌then◌else◌}
use drivee_tolmach.Common.Texts.Chars.{Text}

text_leb : Text → Text → Bool
text_leb [] t = true
text_leb (c ∷ s) [] = false
text_leb (c ∷ s) (d ∷ t) = ltb c d || (nat_eq c d && text_leb s t)

insert_sorted : Text → List Text → List Text
insert_sorted x [] = x ∷ []
insert_sorted x (y ∷ ys) = if text_leb x y then x ∷ y ∷ ys else y ∷ insert_sorted x ys

unfoldable pub sorted : List Text → List Text
unfolding text_leb insert_sorted
sorted [] = []
sorted (x ∷ xs) = insert_sorted x (sorted xs)

insert_sorted-nonempty : (x : Text) (ys : List Text) → is_empty (insert_sorted x ys) ≡ false
unfolding insert_sorted
insert_sorted-nonempty x [] = ground arith
insert_sorted-nonempty x (y ∷ ys) = ground arith

-- Nothing is sorted away.
pub is_empty-sorted : (xs : List Text) → is_empty (sorted xs) ≡ is_empty xs
unfolding sorted
is_empty-sorted [] = ground arith
is_empty-sorted (x ∷ xs) = insert_sorted-nonempty x (sorted xs)
