-- ===== src/Guardrails/Patterns/Keywords.antt =====
-- What FORBIDDEN_SQL finds: the search against a description of an occurrence.
use Prim.Native.Nat.{ℕ}
use mathlib.Core.Path.{◌≡◌, refl, ap}
use mathlib.Core.Logic.{inl, inr, ◌↔◌}
use mathlib.Core.Bool.{Bool, true, false}
use mathlib.Core.Option.{some}
use mathlib.Core.List.{List, [], ◌∷◌, ◌++◌, map, Memᴰ}
use native.Mathlib.Omega.{arith}
use drivee_tolmach.Common.{
  Text, Unicode, is_word, fold, any, nat_eq, nat_eq_iff, Bool-cases, Option-cases,
}
use drivee_tolmach.Guardrails.Patterns.{
  boundary, match_word, word_here, search_word, forbidden_keywords, is_forbidden,
}

module _ {ℓ} {A : Type ℓ} where
  any→Memᴰ : (p : A → Bool) (xs : List A) → any p xs ≡ true → (x : A) × Memᴰ x xs × (p x ≡ true)
  any→Memᴰ p [] h = cc
  any→Memᴰ p (x ∷ xs) h = elim (Bool-cases (p x)) [
    | inl e ↦ (x, Memᴰ.head refl, e)
    | inr e ↦ let (y, m, q) = any→Memᴰ p xs (ground arith) in (y, Memᴰ.tail m, q)
  ]

  Memᴰ→any : (p : A → Bool) (x : A) (xs : List A) → Memᴰ x xs → p x ≡ true → any p xs ≡ true
  Memᴰ→any p x [] m h = elim m [ ]
  Memᴰ→any p x (y ∷ xs) (Memᴰ.head e) h = rw (← e, h)
  Memᴰ→any p x (y ∷ xs) (Memᴰ.tail m) h = ground (arith, Memᴰ→any p x xs m h)

module _ ⦃u : Unicode⦄ where
  -- The test on the last character of a text that follows a character with test `last`.
  abbrev pub last_word : Bool → Text → Bool
  last_word last [] = last
  last_word last (c ∷ s) = last_word (is_word c) s

  -- The keyword stands in the text, in letters of either case, between two word boundaries.
  pub record Occurs (last : Bool) (k : Text) (sql : Text) : Type 0 where
    pub before : Text
    pub word : Text
    pub after : Text
    pub split : sql ≡ before ++ (word ++ after)
    pub folds : map fold word ≡ k
    pub opens : boundary (last_word last before) (word ++ after) ≡ true
    pub closes : boundary (last_word (last_word last before) word) after ≡ true

  pub match_word_sound :
      (last : Bool) (k s : Text) (l : Bool) (r : Text)
      → match_word last k s ≡ some (l, r)
      → (w : Text) × (s ≡ w ++ r) × (map fold w ≡ k) × (l ≡ last_word last w)
  unfolding match_word
  match_word_sound last [] s l r h = ([], ground arith, refl, ground arith)
  match_word_sound last (k ∷ ks) [] l r h = cc
  match_word_sound last (k ∷ ks) (c ∷ s) l r h = elim (Bool-cases (nat_eq (fold c) k)) [
    | inl e ↦
        let (w, split, folds, same) = match_word_sound (is_word c) ks s l r (ground arith) in
        (c ∷ w, ap (λ t. c ∷ t) split, ground (arith, folds, nat_eq_iff (fold c) k), same)
    | inr e ↦ absurd (ground arith)
  ]

  match_word_complete :
      (last : Bool) (w r : Text)
      → match_word last (map fold w) (w ++ r) ≡ some (last_word last w, r)
  unfolding match_word
  match_word_complete last [] r = refl
  match_word_complete last (c ∷ w) r =
      rw ((nat_eq_iff (fold c) (fold c)).1 refl) (match_word_complete (is_word c) w r)

  word_here_sound : (last : Bool) (s k : Text) → word_here last s k ≡ true → Occurs last k s
  unfolding word_here
  word_here_sound last s k h = elim (Option-cases (match_word last k s)) [
    | inl e ↦ absurd (ground arith)
    | inr ((l, r), e) ↦
        let (w, split, folds, same) = match_word_sound last k s l r e in
        record {
          before = [];
          word = w;
          after = r;
          split = split;
          folds = folds;
          opens = rw (← split) (ground arith);
          closes = rw (← same) (ground arith);
        }
  ]

  Occurs-cons :
      (last : Bool) (k : Text) (c : ℕ) (s : Text) → Occurs (is_word c) k s → Occurs last k (c ∷ s)
  Occurs-cons last k c s o = record {
    before = c ∷ o.before;
    word = o.word;
    after = o.after;
    split = ap (λ t. c ∷ t) o.split;
    folds = o.folds;
    opens = o.opens;
    closes = o.closes;
  }

  search_word_sound :
      (last : Bool) (ks : List Text) (s : Text)
      → search_word last ks s ≡ true
      → (k : Text) × Memᴰ k ks × Occurs last k s
  unfolding search_word
  search_word_sound last ks [] h =
      let (k, m, e) = any→Memᴰ (word_here last []) ks h in (k, m, word_here_sound last [] k e)
  search_word_sound last ks (c ∷ s) h = elim (Bool-cases (any (word_here last (c ∷ s)) ks)) [
    | inl now ↦
        let (k, m, e) = any→Memᴰ (word_here last (c ∷ s)) ks now in
        (k, m, word_here_sound last (c ∷ s) k e)
    | inr later ↦
        let (k, m, o) = search_word_sound (is_word c) ks s (ground arith) in
        (k, m, Occurs-cons last k c s o)
  ]

  word_here_complete :
      (last : Bool) (w r : Text)
      → boundary last (w ++ r) ≡ true
      → boundary (last_word last w) r ≡ true
      → word_here last (w ++ r) (map fold w) ≡ true
  unfolding word_here
  word_here_complete last w r opens closes = rw (opens, match_word_complete last w r) closes

  search_word_now :
      (last : Bool) (ks : List Text) (s : Text)
      → any (word_here last s) ks ≡ true
      → search_word last ks s ≡ true
  unfolding search_word
  search_word_now last ks [] h = h
  search_word_now last ks (c ∷ s) h = rw h

  search_word_complete :
      (last : Bool) (ks : List Text) (before w r : Text)
      → Memᴰ (map fold w) ks
      → boundary (last_word last before) (w ++ r) ≡ true
      → boundary (last_word (last_word last before) w) r ≡ true
      → search_word last ks (before ++ (w ++ r)) ≡ true
  unfolding search_word
  search_word_complete last ks [] w r m opens closes =
      search_word_now last ks (w ++ r)
        (Memᴰ→any (word_here last (w ++ r)) _ ks m (word_here_complete last w r opens closes))
  search_word_complete last ks (c ∷ before) w r m opens closes =
      ground (arith, search_word_complete (is_word c) ks before w r m opens closes)

  -- The denylist finds a text exactly when one of its keywords occurs in it as a whole word.
  pub is_forbidden_iff :
      (sql : Text)
      → (is_forbidden sql ≡ true) ↔ ((k : Text) × Memᴰ k forbidden_keywords × Occurs false k sql)
  unfolding is_forbidden
  is_forbidden_iff sql = (
    search_word_sound false forbidden_keywords sql,
    λ h.
        let (k, m, o) = h in
        rw o.split (
          search_word_complete false forbidden_keywords o.before o.word o.after (rw o.folds m)
            o.opens o.closes),
  )
