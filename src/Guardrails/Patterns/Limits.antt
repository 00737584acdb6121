-- ===== src/Guardrails/Patterns/Limits.antt =====
-- What _apply_limit leaves for _extract_limit to read.
use Prim.Native.Nat.{ℕ}
use mathlib.Core.Path.{◌≡◌, refl, sym, ◌∙◌}
use mathlib.Core.Logic.{◌≢◌, ◌⊎◌, inl, inr}
use mathlib.Core.Bool.{Bool, true, false, ◌&&◌}
use mathlib.Core.Option.{none, some}
use mathlib.Core.List.{[], ◌∷◌, ◌++◌}
use native.Mathlib.Omega.{arith}
use drivee_tolmach.Common.{
  Text, codes, Unicode, is_word, is_space, is_digit, is_space-is_word, fold, fold_of_not_word,
  fold_of_digit, drop_while, show, nat_eq, nat_eq_iff, Bool-cases, drop_while-append,
  drop_while-cases, All,
}
use drivee_tolmach.Guardrails.Patterns.{
  boundary, match_word, starts, digits_here, after_word, limit_word, limit_here,
}
use drivee_tolmach.Guardrails.Patterns.Keywords.{last_word}

-- The line that is added behind a text without a limit starts with this character.
abbrev pub newline : ℕ
newline = 10

unfoldable pub added_line : ℕ → Text
added_line n = codes "\nLIMIT " ++ show n

module _ ⦃u : Unicode⦄ where
  -- A character that is neither white space nor a digit.
  record IsStop (c : ℕ) : Type 0 where
    no_space : is_space c ≡ false
    no_digit : is_digit c ≡ false

  IsStop-word : (c : ℕ) → is_word c ≡ true → is_digit c ≡ false → IsStop c
  IsStop-word c w d = record { no_space = ground (arith, is_space-is_word c); no_digit = d }

  -- The test that `digits_here` makes.
  abbrev gate : Text → Bool
  gate r =
      let d = drop_while is_space r in
      starts is_space r && (starts is_digit d && boundary true (drop_while is_digit d))

  gate_of_none : (r : Text) → digits_here r ≡ none → gate r ≡ false
  unfolding digits_here
  gate_of_none r h = ground arith

  none_of_gate : (r : Text) → gate r ≡ false → digits_here r ≡ none
  unfolding digits_here
  none_of_gate r h = rw h

  starts-alike :
      (q : ℕ → Bool) (p : Text) (c d : ℕ) (x y : Text)
      → q c ≡ q d
      → starts q (p ++ c ∷ x) ≡ starts q (p ++ d ∷ y)
  unfolding starts
  starts-alike q [] c d x y h = h
  starts-alike q (b ∷ p) c d x y h = refl

  boundary-alike :
      (last : Bool) (p : Text) (c d : ℕ) (x y : Text)
      → is_word c ≡ is_word d
      → boundary last (p ++ c ∷ x) ≡ boundary last (p ++ d ∷ y)
  unfolding boundary
  boundary-alike last [] c d x y h = rw h
  boundary-alike last (b ∷ p) c d x y h = refl

  -- Digits and white space before a stop are read alike, whatever the stop is and what follows it.
  digits_here-alike :
      (p : Text) (c d : ℕ) (x y : Text)
      → IsStop c
      → IsStop d
      → is_word c ≡ is_word d
      → digits_here (p ++ c ∷ x) ≡ none
      → digits_here (p ++ d ∷ y) ≡ none
  digits_here-alike p c d x y hc hd same h = none_of_gate _ (sym gates ∙ gate_of_none _ h)
    where
      rest : Text
      rest = drop_while is_space p

      spaces : gate (p ++ c ∷ x) ≡ gate (p ++ d ∷ y)
      spaces =
          rw
            (
              drop_while-append is_space p c x hc.no_space,
              drop_while-append is_space p d y hd.no_space,
            )
            (rw (
              drop_while-append is_digit rest c x hc.no_digit,
              drop_while-append is_digit rest d y hd.no_digit,
              starts-alike is_space p c d x y (hc.no_space ∙ sym hd.no_space),
              starts-alike is_digit rest c d x y (hc.no_digit ∙ sym hd.no_digit),
              boundary-alike true (drop_while is_digit rest) c d x y same,
            ))

      gates : gate (p ++ c ∷ x) ≡ gate (p ++ d ∷ y)
      gates = spaces

  -- The letters of the keyword: word characters, none of them white space or a digit.
  abbrev pub IsKeyLetter : ℕ → Type 0
  IsKeyLetter k = (is_word k ≡ true) × (is_digit k ≡ false)

  pub IsKeyLetter-fold : (c k : ℕ) → IsKeyLetter k → fold c ≡ k → IsKeyLetter c
  IsKeyLetter-fold c k (w, d) e = elim (Bool-cases (is_word c)) [
    | inl word ↦ elim (Bool-cases (is_digit c)) [
      | inl digit ↦ absurd (ground (arith, fold_of_digit c digit))
      | inr other ↦ (word, other)
    ]
    | inr not_word ↦ absurd (ground (arith, fold_of_not_word c not_word))
  ]

  -- Before a stop, the keyword is matched within `p` or not at all, if `p` ends in no word character.
  match_word-alike :
      (last : Bool) (ks p x y : Text)
      → All IsKeyLetter ks
      → last_word last p ≡ false
      → (b : ℕ) × (q : Text) × (p ≡ b ∷ q)
      → (match_word last ks (p ++ x) ≡ none) × (match_word last ks (p ++ y) ≡ none)
        ⊎ ((l : Bool) × (r : Text) × (match_word last ks (p ++ x) ≡ some (l, r ++ x))
            × (match_word last ks (p ++ y) ≡ some (l, r ++ y)))
  unfolding match_word
  match_word-alike last [] p x y _ _ _ = inr (last, p, refl, refl)
  match_word-alike last (k ∷ ks) [] x y _ _ (b, q, e) = cc
  match_word-alike last (k ∷ ks) (c ∷ []) x y (hk, _) ends _ =
      let differs : nat_eq (fold c) k ≡ false =
        ground (arith, nat_eq_iff (fold c) k, fold_of_not_word c ends) in
      inl (rw differs, rw differs)
  match_word-alike last (k ∷ ks) (c ∷ d ∷ p) x y (_, hks) ends _ =
      elim (Bool-cases (nat_eq (fold c) k)) [
        | inl same ↦ rw same (match_word-alike (is_word c) ks (d ∷ p) x y hks ends (d, p, refl))
        | inr differs ↦ inl (rw differs, rw differs)
      ]

  pub limit_word_letters : All IsKeyLetter limit_word
  unfolding is_word is_digit
  limit_word_letters = ground arith

  -- No limit starts before a word of letters that stands behind no word character, and none does
  -- after that word is replaced.
  pub limit_here-alike :
      (last : Bool) (b : ℕ) (q : Text) (c d : ℕ) (x y : Text)
      → IsKeyLetter c
      → IsKeyLetter d
      → last_word (is_word b) q ≡ false
      → limit_here last (b ∷ q ++ c ∷ x) ≡ none
      → limit_here last (b ∷ q ++ d ∷ y) ≡ none
  unfolding limit_here after_word boundary
  limit_here-alike last b q c d x y hc hd ends h =
      elim (match_word-alike last limit_word (b ∷ q) (c ∷ x) (d ∷ y) limit_word_letters ends
        (b, q, refl)) [
          | inl (nx, ny) ↦ ground arith
          | inr (l, r, nx, ny) ↦ ground (
            arith,
            digits_here-alike r c d x y (IsStop-word c hc.0 hc.1) (IsStop-word d hd.0 hd.1)
                (hc.0 ∙ sym hd.0),
          )
        ]

  -- The same for the end of the text against the line that is added behind it.
  pub match_word-append :
      (last : Bool) (ks s : Text) (t : Text)
      → All (λ k. fold newline ≢ k) ks
      → (match_word last ks s ≡ none) × (match_word last ks (s ++ newline ∷ t) ≡ none)
        ⊎ ((l : Bool) × (r : Text) × (match_word last ks s ≡ some (l, r))
            × (match_word last ks (s ++ newline ∷ t) ≡ some (l, r ++ newline ∷ t)))
  unfolding match_word
  match_word-append last [] s t _ = inr (last, s, refl, refl)
  match_word-append last (k ∷ ks) [] t (ne, _) =
      inl (refl, ground (arith, nat_eq_iff (fold newline) k))
  match_word-append last (k ∷ ks) (c ∷ s) t (_, h) = elim (Bool-cases (nat_eq (fold c) k)) [
    | inl same ↦ rw same (match_word-append (is_word c) ks s t h)
    | inr differs ↦ inl (rw differs, rw differs)
  ]

  pub newline_lem : (is_word newline ≡ false) × (is_digit newline ≡ false)
  unfolding is_word is_digit
  newline_lem = (refl, refl)

  pub boundary-newline :
      (last : Bool) (s t : Text) → boundary last (s ++ newline ∷ t) ≡ boundary last s
  unfolding boundary
  boundary-newline last [] t = rw (newline_lem.0)
  boundary-newline last (c ∷ s) t = refl

  drop_line : (n : ℕ) → (s : Text) × (drop_while is_space (added_line n) ≡ b'L' ∷ s)
  unfolding added_line is_space
  drop_line n = (codes "IMIT " ++ show n, refl)

  letter_l : is_digit b'L' ≡ false
  unfolding is_digit
  letter_l = refl

  gate-append : (r : Text) (n : ℕ) → gate r ≡ false → gate (r ++ added_line n) ≡ false
  unfolding starts
  gate-append [] n h = let (s, line) = drop_line n in rw (line, letter_l) (ground arith)
  gate-append (c ∷ r) n h = elim (drop_while-cases is_space (c ∷ r) (added_line n)) [
    | inl (_, all) ↦ let (s, line) = drop_line n in rw (all, line, letter_l) (ground arith)
    | inr (x, rest, some_left, left) ↦
        let line : added_line n ≡ newline ∷ (codes "LIMIT " ++ show n) =
          unfold added_line in refl in
        let digits =
          drop_while-append is_digit (x ∷ rest) newline (codes "LIMIT " ++ show n) newline_lem.1 in
        rw left (
          rw line (
            rw (digits, boundary-newline true (drop_while is_digit (x ∷ rest)))
              (rw some_left at h)))
  ]

  pub digits_here-append :
      (r : Text) (n : ℕ) → digits_here r ≡ none → digits_here (r ++ added_line n) ≡ none
  digits_here-append r n h = none_of_gate _ (gate-append r n (gate_of_none r h))
