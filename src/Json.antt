-- ===== src/Json.antt =====
-- The JSON values that the program passes between its parts: `dict[str, Any]` and what it holds. The
-- number `negative n` is -(n + 1).
use Prim.Native.Nat.{ℕ}
use Prim.Native.String.{String}
use mathlib.Core.Bool.{Bool}
use mathlib.Core.List.{List, [], ◌∷◌}
use drivee_tolmach.Common.{Text}

mutual
  pub data Json : Type 0 where
    null : Json
    bool : Bool → Json
    num : ℕ → Json
    negative : ℕ → Json
    str : Text → Json
    arr : Items → Json
    obj : Fields → Json

  pub data Items : Type 0 where
    nil : Items
    cons : Json → Items → Items

  pub data Fields : Type 0 where
    end : Fields
    field : String → Json → Fields → Fields

abbrev pub items : List Json → Items
items [] = nil
items (x ∷ xs) = cons x (items xs)

abbrev pub fields : List (String × Json) → Fields
fields [] = end
fields ((k, v) ∷ rest) = field k v (fields rest)

-- `{k: v, ...}` and `[x, ...]`
abbrev pub object : List (String × Json) → Json
object kvs = obj (fields kvs)

abbrev pub array : List Json → Json
array xs = arr (items xs)
