-- ===== src/Execution/Fingerprint/Folding.antt =====
-- What the fingerprint of backend/app/query_execution/fingerprint.py forgets: the case of letters.
use Prim.Native.Nat.{ℕ}
use mathlib.Core.Path.{◌≡◌, refl, ap}
use mathlib.Core.Logic.{inl, inr}
use mathlib.Core.Bool.{Bool, true, false}
use mathlib.Core.List.{[], ◌∷◌, map, reverse, reverse_aux}
use native.Mathlib.Omega.{arith}
use drivee_tolmach.Common.{
  Text, Unicode, ascii_lower, is_space, lower, strip, drop_while, drop_end, nat_eq, Bool-cases,
}
use drivee_tolmach.Settings.{Settings}
use drivee_tolmach.Execution.Fingerprint.{
  squeeze, normalize_sql_for_fingerprint, build_query_fingerprint,
}

reverse_aux-map :
    (f : ℕ → ℕ) (s r : Text) → reverse_aux (map f s) (map f r) ≡ map f (reverse_aux s r)
reverse_aux-map f [] r = refl
reverse_aux-map f (c ∷ s) r = reverse_aux-map f s (c ∷ r)

reverse-map : (f : ℕ → ℕ) (s : Text) → reverse (map f s) ≡ map f (reverse s)
reverse-map f s = reverse_aux-map f s []

module _ (p : ℕ → Bool) (f : ℕ → ℕ) (blind : (c : ℕ) → p (f c) ≡ p c) where
  drop_while-map : (s : Text) → drop_while p (map f s) ≡ map f (drop_while p s)
  drop_while-map [] = refl
  drop_while-map (c ∷ s) = elim (Bool-cases (p c)) [
    | inl e ↦ let same : p (f c) ≡ true = rw (blind c) e in ground (arith, drop_while-map s)
    | inr e ↦ let same : p (f c) ≡ false = rw (blind c) e in ground arith
  ]

  drop_end-map : (s : Text) → drop_end p (map f s) ≡ map f (drop_end p s)
  drop_end-map s =
      rw (reverse-map f s, drop_while-map (reverse s), reverse-map f (drop_while p (reverse s)))
        refl

module _ ⦃u : Unicode⦄ where
  space_blind : (c : ℕ) → is_space (ascii_lower c) ≡ is_space c
  unfolding is_space
  space_blind c = ground arith

  semicolon_blind : (c : ℕ) → nat_eq (ascii_lower c) b';' ≡ nat_eq c b';'
  semicolon_blind c = ground arith

  squeeze-map :
      (run : Bool) (s : Text) → squeeze run (map ascii_lower s) ≡ map ascii_lower (squeeze run s)
  unfolding squeeze
  squeeze-map run [] = refl
  squeeze-map run (c ∷ s) = elim (Bool-cases (is_space c)) [
    | inl e ↦
        let same : is_space (ascii_lower c) ≡ true = rw (space_blind c) e in
        rw (same, e) (ground (arith, squeeze-map true s))
    | inr e ↦
        let same : is_space (ascii_lower c) ≡ false = rw (space_blind c) e in
        rw (same, e) (ap (λ r. ascii_lower c ∷ r) (squeeze-map false s))
  ]

  lower-map : (s : Text) → lower (map ascii_lower s) ≡ lower s
  unfolding lower
  lower-map [] = refl
  lower-map (c ∷ s) = ground (arith, lower-map s)

  strip-map : (s : Text) → strip (map ascii_lower s) ≡ map ascii_lower (strip s)
  unfolding strip
  strip-map s =
      rw (drop_while-map is_space ascii_lower space_blind s)
        (drop_end-map is_space ascii_lower space_blind (drop_while is_space s))

  normalize-map :
      (s : Text)
      → normalize_sql_for_fingerprint (map ascii_lower s) ≡ normalize_sql_for_fingerprint s
  unfolding normalize_sql_for_fingerprint
  normalize-map s =
      rw
        (
          strip-map s,
          drop_end-map (λ c. nat_eq c b';') ascii_lower semicolon_blind (strip s),
          squeeze-map false _,
          lower-map _,
        )
        refl

  -- Texts that differ in the case of ASCII letters only, inside quotes too, have one fingerprint.
  pub build_query_fingerprint-case :
      (sha256 : Text → Text) (settings : Settings) (sql sql' role : Text)
      → map ascii_lower sql ≡ map ascii_lower sql'
      → build_query_fingerprint sha256 settings sql role
        ≡ build_query_fingerprint sha256 settings sql' role
  unfolding build_query_fingerprint
  build_query_fingerprint-case sha256 settings sql sql' role h =
      let same : normalize_sql_for_fingerprint sql ≡ normalize_sql_for_fingerprint sql' =
        rw (← normalize-map sql, ← normalize-map sql', h) refl in
      rw same refl
