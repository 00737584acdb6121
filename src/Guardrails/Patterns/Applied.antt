-- ===== src/Guardrails/Patterns/Applied.antt =====
-- _extract_limit reads from what _apply_limit returns the limit that was applied.
use Prim.Native.Nat.{ℕ}
use mathlib.Core.Path.{◌≡◌, refl, ap, sym, ◌∙◌}
use mathlib.Core.Logic.{◌≢◌, inl, inr}
use mathlib.Core.Bool.{Bool, true, false}
use mathlib.Core.Option.{none, some}
use mathlib.Core.List.{[], ◌∷◌, ◌++◌, append-nil}
use native.Mathlib.Omega.{arith}
use drivee_tolmach.Common.{
  Text, codes, Unicode, is_word, is_space, is_digit, is_digit-is_word, is_space-is_word, fold,
  drop_while, take_while, show, number, number-show, show-IsDigits, Option-cases, drop_while-append,
  take_while-append, take_while-All, drop_while-All, All,
}
use drivee_tolmach.Guardrails.Patterns.{
  starts_word, boundary, match_word, starts, digits_here, after_word, limit_word, limit_here,
  search_limit,
}
use drivee_tolmach.Guardrails.Patterns.Limits.{
  newline, added_line, newline_lem, boundary-newline, match_word-append, digits_here-append,
}

module _ ⦃u : Unicode⦄ where
  newline_letters : All (λ k. fold newline ≢ k) limit_word
  unfolding fold
  newline_letters = ground arith

  limit_here-append :
      (last : Bool) (s : Text) (n : ℕ)
      → limit_here last s ≡ none
      → limit_here last (s ++ added_line n) ≡ none
  unfolding limit_here after_word added_line
  limit_here-append last s n h =
      elim (match_word-append last limit_word s (codes "LIMIT " ++ show n) newline_letters) [
        | inl (_, longer) ↦ ground arith
        | inr (l, r, shorter, longer) ↦
            ground
              (arith, digits_here-append r n, boundary-newline last s (codes "LIMIT " ++ show n))
      ]

  not_digit_of_not_word : (c : ℕ) → is_word c ≡ false → is_digit c ≡ false
  not_digit_of_not_word c h = ground (arith, is_digit-is_word c)

  not_space_of_digit : (c : ℕ) → is_digit c ≡ true → is_space c ≡ false
  not_space_of_digit c h = ground (arith, is_digit-is_word c, is_space-is_word c)

  digits_end :
      (s t : Text)
      → All (λ c. is_digit c ≡ true) s
      → starts_word t ≡ false
      → (drop_while is_digit (s ++ t) ≡ t) × (take_while is_digit (s ++ t) ≡ s)
  unfolding starts_word
  digits_end s [] h _ = rw append-nil (drop_while-All is_digit s h, take_while-All is_digit s h)
  digits_end s (c ∷ t) h end =
      let stop = not_digit_of_not_word c end in
      (
        rw (drop_while-append is_digit s c t stop) (rw (drop_while-All is_digit s h)),
        take_while-append is_digit s c t h stop,
      )

  space_lem : is_space b' ' ≡ true
  unfolding is_space
  space_lem = refl

  after_space :
      (s t : Text) (d : ℕ) (r : Text)
      → s ≡ d ∷ r
      → is_digit d ≡ true
      → (drop_while is_space (b' ' ∷ s ++ t) ≡ s ++ t) × (starts is_digit (s ++ t) ≡ true)
  unfolding starts
  after_space s t d r e h = rw e (ground (arith, space_lem, not_space_of_digit d h), h)

  head_digit :
      (s : Text) (d : ℕ) (r : Text) → s ≡ d ∷ r → All (λ c. is_digit c ≡ true) s → is_digit d ≡ true
  head_digit [] d r e h = cc
  head_digit (c ∷ s) d r e h = ground (arith, h.0)

  -- The line "LIMIT n" is read as n, if no word character follows it.
  digits_here-show :
      (n : ℕ) (t : Text)
      → starts_word t ≡ false
      → digits_here (b' ' ∷ show n ++ t) ≡ some (show n, t)
  unfolding digits_here boundary starts
  digits_here-show n t h =
      let (digits, (d, r, e)) = show-IsDigits n in
      let (spaces, first) = after_space (show n) t d r e (head_digit (show n) d r e digits) in
      let (left, taken) = digits_end (show n) t digits h in
      rw spaces (rw (first, left, taken) (rw (space_lem, h)))

  match_limit : (t : Text) → match_word false limit_word (codes "LIMIT" ++ t) ≡ some (true, t)
  unfolding match_word fold is_word
  match_limit t = refl

  opens_limit : (t : Text) → boundary false (codes "LIMIT" ++ t) ≡ true
  unfolding boundary is_word
  opens_limit t = refl

  limit_here-line :
      (n : ℕ) (t : Text)
      → starts_word t ≡ false
      → limit_here false (codes "LIMIT " ++ (show n ++ t)) ≡ some (show n, t)
  unfolding limit_here after_word
  limit_here-line n t h =
      rw (match_limit (b' ' ∷ show n ++ t), opens_limit (b' ' ∷ show n ++ t))
        (digits_here-show n t h)

  pub search_limit-line :
      (n : ℕ) (t : Text)
      → starts_word t ≡ false
      → search_limit false (codes "LIMIT " ++ (show n ++ t)) ≡ some n
  unfolding search_limit
  search_limit-line n t h = rw (limit_here-line n t h, search_limit) (ap some (number-show n))

  pub search_limit-miss :
      (last : Bool) (c : ℕ) (s : Text)
      → limit_here last (c ∷ s) ≡ none
      → search_limit last (c ∷ s) ≡ search_limit (is_word c) s
  unfolding search_limit
  search_limit-miss last c s h = rw (h, search_limit)

  pub search_limit-hit :
      (last : Bool) (c : ℕ) (s : Text) {d r : Text}
      → limit_here last (c ∷ s) ≡ some (d, r)
      → search_limit last (c ∷ s) ≡ some (number d)
  unfolding search_limit
  search_limit-hit last c s h = rw (h, search_limit)

  limit_here-newline : (last : Bool) (t : Text) → limit_here last (newline ∷ t) ≡ none
  unfolding limit_here match_word fold after_word
  limit_here-newline last t = ground arith

  search_limit-added_line : (last : Bool) (n : ℕ) → search_limit last (added_line n) ≡ some n
  unfolding added_line
  search_limit-added_line last n =
      search_limit-miss last newline (codes "LIMIT " ++ show n) (limit_here-newline last _)
      ∙ (rw (newline_lem.0)
          (rw (← append-nil (show n)) (search_limit-line n [] (unfold starts_word in refl))))

  -- Behind a text without a limit, the line that is added is the first limit.
  pub search_limit-append :
      (last : Bool) (s : Text) (n : ℕ)
      → search_limit last s ≡ none
      → search_limit last (s ++ added_line n) ≡ some n
  search_limit-append last [] n h = search_limit-added_line last n
  search_limit-append last (c ∷ s) n h = elim (Option-cases (limit_here last (c ∷ s))) [
    | inl e ↦
        search_limit-miss last c (s ++ added_line n) (limit_here-append last (c ∷ s) n e)
        ∙ search_limit-append (is_word c) s n (sym (search_limit-miss last c s e) ∙ h)
    | inr ((d, r), e) ↦ cc (search_limit-hit last c s e)
  ]
