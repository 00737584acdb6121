-- ===== src/Guardrails/Patterns/Replaced.antt =====
-- What the substitution of _apply_limit leaves: the limit that was applied, wherever one stood.
use Prim.Native.Nat.{ℕ, ◌-◌}
use mathlib.Core.Path.{◌≡◌, refl, ap, sym, ◌∙◌}
use mathlib.Core.Logic.{inl, inr}
use mathlib.Core.Bool.{Bool, true, false}
use mathlib.Core.Option.{none, some}
use mathlib.Core.List.{List, [], ◌∷◌, ◌++◌, append_assoc, map}
use native.Mathlib.Omega.{arith}
use drivee_tolmach.Common.{
  Text, codes, Unicode, is_word, is_space, is_digit, fold, fold_of_not_word, drop_while, show,
  length, length-append, nat_eq, nat_eq_iff, Bool-cases, Option-cases,
}
use drivee_tolmach.Guardrails.Patterns.{
  starts_word, boundary, match_word, digits_here, after_word, limit_word, limit_here, search_limit,
  extract_limit, sub_limit, apply_limit,
}
use drivee_tolmach.Guardrails.Patterns.Keywords.{last_word, match_word_sound}
use drivee_tolmach.Guardrails.Patterns.Limits.{
  IsKeyLetter, IsKeyLetter-fold, limit_here-alike, added_line,
}
use drivee_tolmach.Guardrails.Patterns.Applied.{
  search_limit-miss, search_limit-append, search_limit-line,
}

drop_while-suffix {ℓ} :
    {A : Type ℓ} (p : A → Bool) (s : List A) → (q : List A) × (s ≡ q ++ drop_while p s)
drop_while-suffix p [] = ([], refl)
drop_while-suffix p (x ∷ s) = elim (Bool-cases (p x)) [
  | inl e ↦
      let (q, split) = drop_while-suffix p s in
      let here : drop_while p (x ∷ s) ≡ drop_while p s = ground arith in
      (x ∷ q, rw here (ap (λ t. x ∷ t) split))
  | inr e ↦ ([], ground arith)
]

module _ ⦃u : Unicode⦄ where
  digits_here-split :
      (s d r : Text)
      → digits_here s ≡ some (d, r)
      → (p : Text) × (s ≡ p ++ r) × (starts_word r ≡ false)
  unfolding digits_here boundary
  digits_here-split s d r h =
      let (p, spaces) = drop_while-suffix is_space s in
      let (q, digits) = drop_while-suffix is_digit (drop_while is_space s) in
      let left : drop_while is_digit (drop_while is_space s) ≡ r = ground arith in
      (p ++ q, rw append_assoc (rw (← left) (rw (← digits) spaces)), ground arith)

  -- What a match of the limit consists of, in front of what is left of the text.
  limit_here-split :
      (last : Bool) (c : ℕ) (s d r : Text)
      → limit_here last (c ∷ s) ≡ some (d, r)
      → (p : Text) × (s ≡ p ++ r)
        × (starts_word r ≡ false)
        × (fold c ≡ b'l')
        × (boundary last (c ∷ s) ≡ true)
  unfolding limit_here after_word
  limit_here-split last c s d r h = elim (Option-cases (match_word last limit_word (c ∷ s))) [
    | inl e ↦ absurd (ground arith)
    | inr ((l, t), e) ↦
        let (w, split, folds, _) = match_word_sound last limit_word (c ∷ s) l t e in
        let (q, rest, ends) = digits_here-split t d r (ground arith) in
        let (w', tail, first) = word_head c s w t split folds in
        (
          w' ++ q,
          tail ∙ ap (λ z. w' ++ z) rest ∙ sym (append_assoc w' q r),
          ends,
          first,
          ground arith,
        )
  ]
    where
      word_head :
          (c : ℕ) (s w t : Text)
          → c ∷ s ≡ w ++ t
          → map fold w ≡ limit_word
          → (w' : Text) × (s ≡ w' ++ t) × (fold c ≡ b'l')
      word_head c s [] t split folds = cc
      word_head c s (b ∷ w) t split folds = (w, cc split, ground (arith, folds, split))

  sub_limit-miss :
      (n : ℕ) (last : Bool) (c : ℕ) (s : Text)
      → limit_here last (c ∷ s) ≡ none
      → sub_limit n last 0 (c ∷ s) ≡ c ∷ sub_limit n (is_word c) 0 s
  unfolding sub_limit
  sub_limit-miss n last c s h = rw (h, sub_limit)

  sub_limit-hit :
      (n : ℕ) (last : Bool) (c : ℕ) (s d r : Text)
      → limit_here last (c ∷ s) ≡ some (d, r)
      → sub_limit n last 0 (c ∷ s)
        ≡ codes "LIMIT " ++ (show n ++ sub_limit n (is_word c) (length s - length r) s)
  unfolding sub_limit
  sub_limit-hit n last c s d r h = rw (h, sub_limit)

  sub_limit-skip :
      (n : ℕ) (last : Bool) (p r : Text)
      → sub_limit n last (length p) (p ++ r) ≡ sub_limit n (last_word last p) 0 r
  unfolding sub_limit
  sub_limit-skip n last [] r = refl
  sub_limit-skip n last (c ∷ p) r = sub_limit-skip n (is_word c) p r

  key_l : IsKeyLetter b'l' × IsKeyLetter b'L'
  unfolding is_word is_digit
  key_l = ((refl, refl), (refl, refl))

  not_letter_l : (c : ℕ) → is_word c ≡ false → nat_eq (fold c) b'l' ≡ false
  not_letter_l c h = ground (arith, fold_of_not_word c h, nat_eq_iff (fold c) b'l', key_l.0.0)

  search_limit-nil : (last : Bool) {m : ℕ} → ¬ (search_limit last [] ≡ some m)
  unfolding search_limit
  search_limit-nil last h = cc

  limit_here_of_not_word :
      (last : Bool) (c : ℕ) (s : Text) → is_word c ≡ false → limit_here last (c ∷ s) ≡ none
  unfolding limit_here match_word after_word
  limit_here_of_not_word last c s h = ground (arith, not_letter_l c h)

  starts_word-sub_limit :
      (n : ℕ) (last : Bool) (r : Text)
      → starts_word r ≡ false
      → starts_word (sub_limit n last 0 r) ≡ false
  unfolding starts_word
  starts_word-sub_limit n last [] h = unfold sub_limit in refl
  starts_word-sub_limit n last (c ∷ r) h =
      rw (sub_limit-miss n last c r (limit_here_of_not_word last c r h)) h

  -- Two texts agree up to a word in each, which stands behind no word character.
  record Diverge (last : Bool) (s s' : Text) : Type 0 where
    q : Text
    c : ℕ
    d : ℕ
    x : Text
    y : Text
    left : s ≡ q ++ c ∷ x
    right : s' ≡ q ++ d ∷ y
    left_letter : IsKeyLetter c
    right_letter : IsKeyLetter d
    ends : last_word last q ≡ false

  last_of_boundary :
      (last : Bool) (c : ℕ) (s : Text)
      → boundary last (c ∷ s) ≡ true
      → is_word c ≡ true
      → last ≡ false
  unfolding boundary
  last_of_boundary last c s h w = ground arith

  sub_limit-first :
      (n : ℕ) (last : Bool) (c : ℕ) (s d r : Text)
      → limit_here last (c ∷ s) ≡ some (d, r)
      → (search_limit last (sub_limit n last 0 (c ∷ s)) ≡ some n)
        × Diverge last (c ∷ s) (sub_limit n last 0 (c ∷ s))
  sub_limit-first n last c s d r h =
      let (p, split, ends, first, opens) = limit_here-split last c s d r h in
      let letter = IsKeyLetter-fold c b'l' key_l.0 first in
      let start = last_of_boundary last c s opens letter.0 in
      let skip : length s - length r ≡ length p =
        omega (arith, ap length split, length-append p r) in
      let tail : sub_limit n (is_word c) (length s - length r) s
          ≡ sub_limit n (last_word (is_word c) p) 0 r =
        rw skip (rw split (sub_limit-skip n (is_word c) p r)) in
      let whole = sub_limit-hit n last c s d r h in
      (
        rw (whole, tail, start) (search_limit-line n _ (starts_word-sub_limit n _ r ends)),
        record {
          q = [];
          c = c;
          d = b'L';
          x = s;
          y = _;
          left = refl;
          right = whole;
          left_letter = letter;
          right_letter = key_l.1;
          ends = start;
        },
      )

  sub_limit-reads :
      (n : ℕ) (last : Bool) (s : Text) {m : ℕ}
      → search_limit last s ≡ some m
      → (search_limit last (sub_limit n last 0 s) ≡ some n) × Diverge last s (sub_limit n last 0 s)
  sub_limit-reads n last [] h = absurd (search_limit-nil last h)
  sub_limit-reads n last (c ∷ s) h = elim (Option-cases (limit_here last (c ∷ s))) [
    | inl e ↦
        let (ih, v) = sub_limit-reads n (is_word c) s (sym (search_limit-miss last c s e) ∙ h) in
        let tail : limit_here last (c ∷ v.q ++ v.c ∷ v.x) ≡ none = rw v.left at e in
        let missed =
          limit_here-alike last c v.q v.c v.d v.x v.y v.left_letter v.right_letter v.ends tail in
        let missed' : limit_here last (c ∷ sub_limit n (is_word c) 0 s) ≡ none =
          rw v.right missed in
        let step = sub_limit-miss n last c s e in
        (
          rw step (search_limit-miss last c _ missed' ∙ ih),
          record {
            q = c ∷ v.q;
            c = v.c;
            d = v.d;
            x = v.x;
            y = v.y;
            left = ap (λ t. c ∷ t) v.left;
            right = step ∙ ap (λ t. c ∷ t) v.right;
            left_letter = v.left_letter;
            right_letter = v.right_letter;
            ends = v.ends;
          },
        )
    | inr ((d, r), e) ↦ sub_limit-first n last c s d r e
  ]

  -- Whatever the text, the first limit of what _apply_limit returns is the limit applied.
  pub extract_limit-apply_limit : (sql : Text) (n : ℕ) → extract_limit (apply_limit sql n) ≡ some n
  unfolding extract_limit apply_limit
  extract_limit-apply_limit sql n = elim (Option-cases (search_limit false sql)) [
    | inl e ↦ rw (e, apply_limit) (unfold added_line in search_limit-append false sql n e)
    | inr (m, e) ↦ rw (e, apply_limit) (sub_limit-reads n false sql e).0
  ]
