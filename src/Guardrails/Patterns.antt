-- ===== src/Guardrails/Patterns.antt =====
-- The regular expressions of backend/app/semantic/sql_validator.py, each as the search that `re`
-- makes. A position in the text is the rest of the text, with the test `last` on whether the
-- character before it is a word character; `\b` holds where that test changes.
pub mod Limits
pub mod Keywords
pub mod Applied
pub mod Replaced
pub mod Nested
use Prim.Native.Nat.{ℕ, zero, suc, ◌+◌, ◌-◌}
use Prim.Native.String.{String}
use mathlib.Core.Bool.{Bool, true, false, ◌&&◌, ◌||◌, xor, cond}
use mathlib.Core.Option.{Option, none, some}
use mathlib.Core.List.{List, [], ◌∷◌, ◌++◌}
use drivee_tolmach.Common.{
  Text, codes, Unicode, is_word, is_space, is_digit, fold, drop_while, take_while, show, number,
  length, any, nat_eq, if◌then◌else◌,
}

abbrev pub forbidden_keywords : List Text
forbidden_keywords =
    codes "drop"
    ∷ codes "delete"
    ∷ codes "update"
    ∷ codes "insert"
    ∷ codes "alter"
    ∷ codes "truncate"
    ∷ codes "create"
    ∷ codes "grant"
    ∷ codes "revoke"
    ∷ codes "copy"
    ∷ codes "merge"
    ∷ codes "call"
    ∷ codes "execute"
    ∷ []

abbrev pub limit_word : Text
limit_word = codes "limit"

module _ ⦃u : Unicode⦄ where
  unfoldable pub starts_word : Text → Bool
  starts_word [] = false
  starts_word (c ∷ s) = is_word c

  -- `\b`
  unfoldable pub boundary : Bool → Text → Bool
  unfolding starts_word xor
  boundary last s = xor last (starts_word s)

  -- A literal under IGNORECASE: what is left behind it, and the test on its last character.
  unfoldable pub match_word : Bool → Text → Text → Option (Bool × Text)
  match_word last [] s = some (last, s)
  match_word last (k ∷ ks) [] = none
  match_word last (k ∷ ks) (c ∷ s) = if nat_eq (fold c) k then match_word (is_word c) ks s else none

  unfoldable pub ends_word : Option (Bool × Text) → Bool
  ends_word none = false
  ends_word (some (last, rest)) = boundary last rest

  -- `\bkeyword\b` at this position
  unfoldable pub word_here : Bool → Text → Text → Bool
  unfolding boundary match_word ends_word
  word_here last s k = boundary last s && ends_word (match_word last k s)

  unfoldable pub search_word : Bool → List Text → Text → Bool
  unfolding word_here
  search_word last ks [] = any (word_here last []) ks
  search_word last ks (c ∷ s) = any (word_here last (c ∷ s)) ks || search_word (is_word c) ks s

  -- FORBIDDEN_SQL.search(sql)
  unfoldable pub is_forbidden : Text → Bool
  unfolding search_word
  is_forbidden sql = search_word false forbidden_keywords sql

  -- re.match(r"^\s*(select|with)\b", sql, re.IGNORECASE)
  unfoldable pub is_readonly : Text → Bool
  unfolding match_word ends_word boundary
  is_readonly sql =
      let rest = drop_while is_space sql in
      ends_word (match_word false (codes "select") rest)
      || ends_word (match_word false (codes "with") rest)

  pub starts : (ℕ → Bool) → Text → Bool
  starts p [] = false
  starts p (c ∷ s) = p c

  -- `\s+(\d+)\b` behind the word, where `\s+` and `\d+` take all that they can: no shorter run is
  -- followed by what the pattern wants next. The digits, and what is left.
  pub digits_here : Text → Option (Text × Text)
  unfolding starts boundary
  digits_here r =
      let d = drop_while is_space r in
      let rest = drop_while is_digit d in
      if starts is_space r && (starts is_digit d && boundary true rest)
      then some (take_while is_digit d, rest)
      else none

  pub after_word : Option (Bool × Text) → Option (Text × Text)
  unfolding digits_here
  after_word none = none
  after_word (some (last, r)) = digits_here r

  -- `\blimit\s+(\d+)\b` at this position
  pub limit_here : Bool → Text → Option (Text × Text)
  unfolding boundary match_word after_word
  limit_here last s = if boundary last s then after_word (match_word last limit_word s) else none

  pub search_limit : Bool → Text → Option ℕ
  unfolding limit_here number
  search_limit last [] = none
  search_limit last (c ∷ s) = elim (limit_here last (c ∷ s)) [
    | none ↦ search_limit (is_word c) s
    | some (digits, rest) ↦ some (number digits)
  ]

  -- _extract_limit
  unfoldable pub extract_limit : Text → Option ℕ
  unfolding search_limit
  extract_limit sql = search_limit false sql

  -- re.sub: `skip` characters are left of the match at hand, and the scan goes on behind it.
  pub sub_limit : ℕ → Bool → ℕ → Text → Text
  unfolding limit_here show
  sub_limit n last skip [] = []
  sub_limit n last (suc skip) (c ∷ s) = sub_limit n (is_word c) skip s
  sub_limit n last zero (c ∷ s) = elim (limit_here last (c ∷ s)) [
    | none ↦ c ∷ sub_limit n (is_word c) 0 s
    | some (digits, rest) ↦
        codes "LIMIT " ++ (show n ++ sub_limit n (is_word c) (length s - length rest) s)
  ]

  -- _apply_limit
  unfoldable pub apply_limit : Text → ℕ → Text
  unfolding extract_limit sub_limit
  apply_limit sql n = elim (extract_limit sql) [
    | none ↦ sql ++ (codes "\nLIMIT " ++ show n)
    | some _ ↦ sub_limit n false 0 sql
  ]
