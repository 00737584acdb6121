-- ===== src/Semantic/Validators/Verdicts.antt =====
-- Whether the report of a validator has an error, part by part.
use Prim.Native.String.{String}
use mathlib.Core.Path.{◌≡◌, refl}
use mathlib.Core.Bool.{Bool, true, false, not, ◌&&◌, ◌||◌}
use mathlib.Core.List.{List, [], ◌∷◌, ◌++◌}
use native.Mathlib.Omega.{arith}
use drivee_tolmach.Common.{Text, elem, any, all, All, same_list, same_ℕ}
use drivee_tolmach.Semantic.Errors.{Compiled, compiled, refused, crashed, ◌>>=◌, pure}
use drivee_tolmach.Semantic.Fragments.{Report, is_error, ok, issue, issue_if}
use drivee_tolmach.Semantic.Validators.{unknown_values}

-- The report is made and has no error.
abbrev pub accepts : Compiled Report → Bool
accepts (compiled report) = ok report
accepts (refused reason) = false
accepts (crashed class_name) = false

pub any-append : (xs ys : Report) → any is_error (xs ++ ys) ≡ (any is_error xs || any is_error ys)
any-append [] ys = refl
any-append (x ∷ xs) ys = ground (arith, any-append xs ys)

pub ok-append : (xs ys : Report) → ok (xs ++ ys) ≡ (ok xs && ok ys)
ok-append xs ys = ground (arith, any-append xs ys)

pub ok-issue_if : (b : Bool) (r : Report) → ok r ≡ false → ok (issue_if b r) ≡ not b
unfolding issue_if
ok-issue_if true r h = h
ok-issue_if false r h = refl

pub ok-issue :
    (b : Bool) (code entity_type : String) (key message : Text)
    → ok (issue_if b (issue code entity_type key message)) ≡ not b
unfolding issue_if
ok-issue true code entity_type key message = refl
ok-issue false code entity_type key message = refl

pub ok-unknown_values :
    (report : Text → Report) (known values : List Text)
    → ((v : Text) → ok (report v) ≡ false)
    → ok (unknown_values report known values) ≡ all (λ v. elem v known) values
unfolding unknown_values
ok-unknown_values report known [] h = refl
ok-unknown_values report known (v ∷ values) h =
    rw
      (
        ok-append (issue_if (not (elem v known)) (report v)) (unknown_values report known values),
        ok-issue_if (not (elem v known)) (report v) (h v),
        ok-unknown_values report known values h,
      )
      (double_not (elem v known) _)
  where
    double_not : (b c : Bool) → (not (not b) && c) ≡ (b && c)
    double_not true c = refl
    double_not false c = refl

pub all→All : (p : Text → Bool) (xs : List Text) → all p xs ≡ true → All (λ x. p x ≡ true) xs
all→All p [] h = tt
all→All p (x ∷ xs) h = (ground arith, all→All p xs (ground arith))

pub All→all : (p : Text → Bool) (xs : List Text) → All (λ x. p x ≡ true) xs → all p xs ≡ true
All→all p [] h = refl
All→all p (x ∷ xs) (e, h) = ground (arith, All→all p xs h)

-- What follows a report, put together with it.
pub accepts-bind :
    (m : Compiled Report) (k : Report → Report) (b : Bool)
    → ((f : Report) → ok (k f) ≡ (ok f && b))
    → accepts (m >>= λ f. pure (k f)) ≡ (accepts m && b)
unfolding ◌>>=◌
accepts-bind (compiled report) k b h = h report
accepts-bind (refused reason) k b h = refl
accepts-bind (crashed class_name) k b h = refl
