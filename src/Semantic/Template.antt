-- ===== src/Semantic/Template.antt =====
-- `str.format` with named values, as the templates of the catalog use it. A field is a plain name:
-- attributes, items, conversions and format specs count as a name that is unknown.
pub mod Fields
use Prim.Native.Nat.{ℕ}
use Prim.Native.String.{String}
use mathlib.Core.Bool.{Bool, true, false, ◌||◌}
use mathlib.Core.Option.{Option, none, some}
use mathlib.Core.List.{List, [], ◌∷◌, ◌++◌}
use drivee_tolmach.Common.{
  Text, all, is_ascii_digit, lookup, nat_eq, same_list, same_ℕ, if◌then◌else◌,
}

abbrev pub Context : Type 0
Context = List (Text × Text)

-- The text, or the class of the exception with the name of an unknown field.
pub data Formatted : Type 0 where
  formatted : Text → Formatted
  key_error : Text → Formatted
  index_error : Formatted
  value_error : Formatted

-- Where the reader stands: in text, behind one brace, or in the name of a field.
pub data Mode : Type 0 where
  plain opened closed : Mode
  inside : Text → Mode

unfoldable pub emit : Text → Formatted → Formatted
emit s (formatted t) = formatted (s ++ t)
emit s (key_error name) = key_error name
emit s index_error = index_error
emit s value_error = value_error

-- The value of a field in front of the rest; a number or no name asks for a positional value.
unfoldable pub field : Text → Option Text → Formatted → Formatted
unfolding emit
field name (some v) rest = emit v rest
field name none rest = if all is_ascii_digit name then index_error else key_error name

unfoldable pub next_mode : Mode → ℕ → Mode
next_mode plain c = if nat_eq c b'{' then opened else if nat_eq c b'}' then closed else plain
next_mode opened c = if nat_eq c b'{' || nat_eq c b'}' then plain else inside (c ∷ [])
next_mode closed c = plain
next_mode (inside name) c = if nat_eq c b'}' then plain else inside (name ++ c ∷ [])

-- What a character adds to the rest, and where the reader stops with an error.
unfoldable pub output : Context → Mode → ℕ → Formatted → Formatted
unfolding emit field lookup
output context plain c rest = if nat_eq c b'{' || nat_eq c b'}' then rest else emit (c ∷ []) rest
output context opened c rest =
    if nat_eq c b'{' then emit (c ∷ []) rest else if nat_eq c b'}' then index_error else rest
output context closed c rest = if nat_eq c b'}' then emit (c ∷ []) rest else value_error
output context (inside name) c rest =
    if nat_eq c b'}'
    then field name (lookup name context) rest
    else if nat_eq c b'{'
    then value_error
    else rest

unfoldable pub scan : Context → Mode → Text → Formatted
unfolding next_mode output
scan context plain [] = formatted []
scan context opened [] = value_error
scan context closed [] = value_error
scan context (inside name) [] = value_error
scan context mode (c ∷ s) =
    let rest = scan context (next_mode mode c) s in output context mode c rest

-- `template.format(**context)`
unfoldable pub format : Context → Text → Formatted
unfolding scan
format context template = scan context plain template
