-- ===== src/Semantic/Dedupe.antt =====
-- `_dedupe` of backend/app/semantic/planner.py.
pub mod Kept
use mathlib.Core.Bool.{Bool, true, false, ◌||◌}
use mathlib.Core.List.{List, [], ◌∷◌}
use drivee_tolmach.Common.{Text, Unicode, strip, elem, is_empty, same_list, same_ℕ, if◌then◌else◌}

-- The loop of `_dedupe`, behind the items it has seen
unfoldable pub dedupe_after : ⦃u : Unicode⦄ → List Text → List Text → List Text
dedupe_after seen [] = []
dedupe_after seen (item ∷ items) =
    let normalized = strip item in
    let skip = is_empty normalized || elem normalized seen in
    let rest = dedupe_after (if skip then seen else normalized ∷ seen) items in
    if skip then rest else normalized ∷ rest

-- `_dedupe`
unfoldable pub dedupe : ⦃u : Unicode⦄ → List Text → List Text
dedupe items = dedupe_after [] items
