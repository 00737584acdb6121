-- ===== src/Execution/Fingerprint.antt =====
-- backend/app/query_execution/fingerprint.py. The hash is a parameter.
pub mod Folding
use Prim.Native.Nat.{ℕ}
use mathlib.Core.Path.{◌≡◌, refl, ap}
use mathlib.Core.Bool.{Bool, true, false}
use mathlib.Core.List.{List, [], ◌∷◌, ◌++◌}
use native.Mathlib.Omega.{arith}
use drivee_tolmach.Common.{
  Text, codes, Unicode, is_space, lower, strip, drop_end, nat_eq, if◌then◌else◌,
}
use drivee_tolmach.Settings.{Settings}

module _ ⦃u : Unicode⦄ where
  -- re.sub(r"\s+", " ", s); `run` tells that the character before was white space.
  squeeze : Bool → Text → Text
  squeeze run [] = []
  squeeze run (c ∷ s) =
      let rest = squeeze (is_space c) s in
      if is_space c then (if run then rest else b' ' ∷ rest) else c ∷ rest

  unfoldable pub normalize_sql_for_fingerprint : Text → Text
  unfolding squeeze lower strip
  normalize_sql_for_fingerprint sql =
      lower (squeeze false (drop_end (λ c. nat_eq c b';') (strip sql)))

  unfoldable pub build_query_fingerprint : (Text → Text) → Settings → Text → Text → Text
  unfolding normalize_sql_for_fingerprint
  build_query_fingerprint sha256 settings sql role = sha256 (
      settings.query_cache_namespace
      ++ (codes "|" ++ (lower (strip role) ++ (codes "|" ++ normalize_sql_for_fingerprint sql))))
