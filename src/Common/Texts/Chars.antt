-- ===== src/Common/Texts/Chars.antt =====
-- Characters and texts of Python's `str`: code points, with the classes that `re` and `str` test.
use Prim.Native.Nat.{ℕ, ◌+◌, ◌-◌}
use Prim.Native.Char.{code}
use Prim.Native.String.{String}
use mathlib.Core.Path.{◌≡◌, refl, sym}
use mathlib.Core.Bool.{Bool, true, false, ◌&&◌, ◌||◌}
use mathlib.Core.List.{append_assoc, List, [], ◌∷◌, ◌++◌}
use native.Mathlib.Omega.{arith}
use drivee_tolmach.Common.Tests.{ltb, leb, nat_eq, if-cases, if◌then◌else◌}

abbrev pub Text : Type 0
Text = List ℕ

-- A text literal.
abbrev pub codes : String → Text
codes (String.◌∷◌ letter rest) = code letter ∷ codes rest
codes String.[] = []

abbrev pub is_ascii_digit : ℕ → Bool
is_ascii_digit c = leb b'0' c && leb c b'9'

abbrev pub ascii_lower : ℕ → ℕ
ascii_lower c = if leb b'A' c && leb c b'Z' then c + 32 else c

abbrev pub is_ascii_word : ℕ → Bool
is_ascii_word c =
    is_ascii_digit c || (leb b'a' (ascii_lower c) && leb (ascii_lower c) b'z') || nat_eq c b'_'

abbrev pub is_ascii_space : ℕ → Bool
is_ascii_space c = (leb 9 c && leb c 13) || (leb 28 c && leb c 32)

-- `str.lower`, by a table for the code points from 128 on.
abbrev pub lower_by : (ℕ → Text) → Text → Text
lower_by table [] = []
lower_by table (c ∷ s) = (if ltb c 128 then ascii_lower c ∷ [] else table c) ++ lower_by table s

-- The interpreter's Unicode tables, read for code points from 128 on only: `\w`, `\s` and
-- `str.isspace`, `\d` and the value
-- of a digit, `str.lower`, and the ASCII letter that `re.IGNORECASE` takes a character for.
pub record Unicode : Type 0 where
  pub word : ℕ → Bool
  pub space : ℕ → Bool
  pub digit : ℕ → Bool
  pub digit_value : ℕ → ℕ
  pub lower : ℕ → Text
  pub fold : ℕ → ℕ
  -- a digit is alphanumeric, white space is not, only a letter folds to an ASCII letter, and a text in
  -- lower case stays as it is
  pub digit_word : (c : ℕ) → digit c ≡ true → word c ≡ true
  pub space_word : (c : ℕ) → space c ≡ true → word c ≡ false
  pub fold_word : (c : ℕ) → word c ≡ false → fold c ≡ c
  pub fold_digit : (c : ℕ) → digit c ≡ true → fold c ≡ c
  pub lower_again : (c : ℕ) → ltb c 128 ≡ false → lower_by lower (lower c) ≡ lower c

-- Tables that know no letter outside ASCII, for tests.
abbrev pub ascii_tables : Unicode
ascii_tables = record {
  word = λ _. false;
  space = λ _. false;
  digit = λ _. false;
  digit_value = λ _. 0;
  lower = λ c. c ∷ [];
  fold = λ c. c;
  digit_word = λ c h. h;
  space_word = λ c h. refl;
  fold_word = λ c h. refl;
  fold_digit = λ c h. refl;
  lower_again = λ c h. rw h refl;
}

module _ ⦃u : Unicode⦄ where
  unfoldable pub is_word : ℕ → Bool
  is_word c = if ltb c 128 then is_ascii_word c else u.word c

  unfoldable pub is_space : ℕ → Bool
  is_space c = if ltb c 128 then is_ascii_space c else u.space c

  unfoldable pub is_digit : ℕ → Bool
  is_digit c = if ltb c 128 then is_ascii_digit c else u.digit c

  -- the value that `int` reads a digit as
  unfoldable pub digit_value : ℕ → ℕ
  digit_value c = if ltb c 128 then c - b'0' else u.digit_value c

  unfoldable pub fold : ℕ → ℕ
  fold c = if ltb c 128 then ascii_lower c else u.fold c

  unfoldable pub lower : Text → Text
  lower s = lower_by u.lower s

  pub is_digit-is_word : (c : ℕ) → is_digit c ≡ true → is_word c ≡ true
  unfolding is_digit is_word
  is_digit-is_word c h = ground (arith, u.digit_word c)

  pub is_space-is_word : (c : ℕ) → is_space c ≡ true → is_word c ≡ false
  unfolding is_space is_word
  is_space-is_word c h = ground (arith, u.space_word c)

  -- What is no word character folds to no ASCII letter.
  pub fold_of_not_word : (c : ℕ) → is_word c ≡ false → fold c ≡ c
  unfolding fold is_word
  fold_of_not_word c h = ground (arith, u.fold_word c)

  pub fold_of_digit : (c : ℕ) → is_digit c ≡ true → fold c ≡ c
  unfolding fold is_digit
  fold_of_digit c h = ground (arith, u.fold_digit c)

lower_by-append :
    (table : ℕ → Text) (s t : Text) → lower_by table (s ++ t) ≡ lower_by table s ++ lower_by table t
lower_by-append table [] t = refl
lower_by-append table (c ∷ s) t = rw (lower_by-append table s t) (
    sym (
      append_assoc (if ltb c 128 then ascii_lower c ∷ [] else table c) (lower_by table s)
        (lower_by table t)))

module _ ⦃u : Unicode⦄ where
  lower_char-again :
      (c : ℕ)
      → let d = (if ltb c 128 then ascii_lower c ∷ [] else u.lower c) in lower_by u.lower d ≡ d
  lower_char-again c =
      if-cases (λ d. lower_by u.lower d ≡ d) (ltb c 128) _ _ (λ e. ground arith)
        (λ e. u.lower_again c e)

  pub lower-lower : (s : Text) → lower (lower s) ≡ lower s
  unfolding lower
  lower-lower [] = refl
  lower-lower (c ∷ s) =
      rw
        (
          lower_by-append u.lower (if ltb c 128 then ascii_lower c ∷ [] else u.lower c) (lower s),
          lower_char-again c,
          lower-lower s,
        )
        refl
