-- ===== src/Guardrails/Patterns/Nested.antt =====
-- _extract_limit reads the first limit of a text, which may be that of a subquery.
use Prim.Native.Nat.{ℕ}
use mathlib.Core.Path.{◌≡◌, refl, ◌∙◌}
use mathlib.Core.Bool.{false}
use mathlib.Core.Option.{some}
use mathlib.Core.List.{◌++◌}
use drivee_tolmach.Common.{Text, codes, Unicode, is_word, fold, show}
use drivee_tolmach.Guardrails.Patterns.{
  search_limit, limit_here, match_word, after_word, boundary, starts_word, extract_limit,
}
use drivee_tolmach.Guardrails.Patterns.Applied.{search_limit-line}

-- A subquery with the limit n, under an outer limit m.
abbrev pub nested : ℕ → ℕ → Text
nested n m =
    codes "select a from (select a from t "
    ++ (codes "LIMIT " ++ (show n ++ (codes ") x LIMIT " ++ show m)))

module _ ⦃u : Unicode⦄ where
  skip_prefix :
      (t : Text)
      → search_limit false (codes "select a from (select a from t " ++ t) ≡ search_limit false t
  unfolding search_limit limit_here match_word after_word boundary is_word fold
  skip_prefix t = refl

  closes_word : (t : Text) → starts_word (codes ") x" ++ t) ≡ false
  unfolding starts_word is_word
  closes_word t = refl

  pub extract_limit-nested : (n m : ℕ) → extract_limit (nested n m) ≡ some n
  unfolding extract_limit
  extract_limit-nested n m =
      skip_prefix _
      ∙ search_limit-line n (codes ") x LIMIT " ++ show m) (closes_word (codes " LIMIT " ++ show m))
