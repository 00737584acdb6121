-- ===== src/Semantic/Literals.antt =====
-- `_sql_literal` and `_allowed_operators` of backend/app/semantic/planner.py. The interpreter's floats,
-- `strptime` and `repr` are parameters.
pub mod Quoted
pub mod Contained
use Prim.Native.Nat.{ℕ}
use mathlib.Core.Path.{◌≡◌}
use mathlib.Core.Bool.{Bool, true, false, ◌||◌}
use mathlib.Core.Option.{Option, none, some}
use mathlib.Core.List.{List, [], ◌∷◌, ◌++◌}
use drivee_tolmach.Common.{
  Text, codes, Unicode, strip, parse_int, show_int, elem, nat_eq, All, ◌==◌, same_list, same_ℕ,
  if◌then◌else◌,
}
use drivee_tolmach.Json.{Json, str, object}
use drivee_tolmach.Guardrails.Decision.{invalid_filter_value}
use drivee_tolmach.Semantic.Errors.{Compiled, ◌>>=◌, pure, refuse}

-- The code point of the single quote
abbrev pub quote : ℕ
quote = 39

abbrev pub is_quote : ℕ → Bool
is_quote c = nat_eq c 39

abbrev pub Quoteless : Text → Type 0
Quoteless s = All (λ c. is_quote c ≡ false) s

-- `"%Y-%m-%d"`, `"%Y-%m-%d %H:%M:%S"` and `"%Y-%m-%dT%H:%M:%S"`
pub data DateFormat : Type 0 where
  day seconds iso_seconds : DateFormat

-- `str(float(s))`, and `strptime(s, format)` printed by `"%Y-%m-%d %H:%M:%S"`; none stands for the
-- ValueError. Neither a numeral nor a date has a quote in it.
pub record Parsers : Type 0 where
  pub float_text : Text → Option Text
  pub strptime : DateFormat → Text → Option Text
  pub repr : Text → Text
  pub float_plain : (s t : Text) → float_text s ≡ some t → Quoteless t
  pub strptime_plain :
      (f : DateFormat) (s t : Text) → strptime f s ≡ some t → Quoteless s × Quoteless t

-- The first of the formats that reads the text
abbrev pub first_read : Option Text → Option Text → Option Text
first_read (some t) o = some t
first_read none o = o

unfoldable pub or_refuse : Option Text → Text → Json → Compiled Text
or_refuse (some t) message details = pure t
or_refuse none message details = refuse invalid_filter_value message details

-- `value.replace("'", "''")`
unfoldable pub escape : Text → Text
escape [] = []
escape (c ∷ s) = let rest = escape s in if is_quote c then quote ∷ quote ∷ rest else c ∷ rest

abbrev pub quoted : Text → Text
quoted s = quote ∷ (s ++ quote ∷ [])

-- The text of the number that a text is read as
abbrev integer_text : ⦃u : Unicode⦄ → Text → Option Text
integer_text text = elim (parse_int text) [ some n ↦ some (show_int n) | none ↦ none ]

-- The literal that was found, or that of a string
unfoldable pub string_unless : Text → Text → Text
string_unless value [] = quoted (escape value)
string_unless value (c ∷ s) = c ∷ s

module _ ⦃u : Unicode⦄ (parsers : Parsers) where
  unfoldable pub number_literal : Text → Text → Compiled Text
  number_literal data_type value =
      or_refuse
        (if data_type == codes "integer"
          then integer_text (strip value)
          else parsers.float_text (strip value))
        (codes "Filter value "
          ++ (parsers.repr value ++ (codes " is not valid for " ++ (data_type ++ codes "."))))
        (object (("value", str value) ∷ ("data_type", str data_type) ∷ []))

  -- `_parse_temporal_value`; the text of another type is empty.
  unfoldable pub parse_temporal_value : Text → Text → Compiled Text
  parse_temporal_value data_type value =
      let text = strip value in
      let details = object (("value", str text) ∷ ("data_type", str data_type) ∷ []) in
      if data_type == codes "date"
      then (or_refuse (parsers.strptime day text)
            (codes "Date filter value must use YYYY-MM-DD format.") details
          >>= λ _. pure (codes "DATE " ++ quoted text))
      else if data_type == codes "timestamp"
      then (or_refuse
            (first_read (parsers.strptime seconds text)
              (first_read (parsers.strptime iso_seconds text) (parsers.strptime day text)))
            (codes "Timestamp filter value must use ISO-like datetime format.") details
          >>= λ normalized. pure (codes "TIMESTAMP " ++ quoted normalized))
      else pure []

  unfoldable pub sql_literal : Text → Text → Compiled Text
  sql_literal data_type value =
      if elem data_type (codes "integer" ∷ codes "numeric" ∷ [])
      then number_literal data_type value
      else parse_temporal_value data_type value >>= λ literal. pure (string_unless value literal)

-- `_allowed_operators`
unfoldable pub allowed_operators : Text → List Text
allowed_operators data_type =
    if elem data_type (codes "date" ∷ codes "timestamp" ∷ codes "integer" ∷ codes "numeric" ∷ [])
    then codes "eq" ∷ codes "in" ∷ codes "between" ∷ []
    else codes "eq" ∷ codes "in" ∷ []
