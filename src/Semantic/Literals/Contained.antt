-- ===== src/Semantic/Literals/Contained.antt =====
-- What of a value gets outside the quotes of its literal, and what is read back from it.
use Prim.Native.Nat.{ℕ}
use mathlib.Core.Path.{◌≡◌, refl, ap, ◌∙◌}
use mathlib.Core.Logic.{◌⊎◌, inl, inr}
use mathlib.Core.Bool.{Bool, true, false, ◌||◌, not}
use mathlib.Core.Option.{Option, none, some}
use mathlib.Core.List.{[], ◌∷◌, ◌++◌}
use native.Mathlib.Omega.{arith}
use drivee_tolmach.Common.{
  Text, codes, Unicode, strip, elem, Bool-cases, if-cases, ◌==◌, same_list, same_ℕ, if◌then◌else◌,
}
use drivee_tolmach.Json.{Json}
use drivee_tolmach.Semantic.Errors.{
  compiled, ◌>>=◌, pure, Gives, Gives-pure, Gives-bind, Gives-compiled,
}
use drivee_tolmach.Semantic.Literals.{
  is_quote, quote, Quoteless, Parsers, DateFormat, day, seconds, iso_seconds, or_refuse, escape,
  quoted, parse_temporal_value, string_unless, sql_literal, first_read,
}
use drivee_tolmach.Semantic.Literals.Quoted.{read_literal, starts_quoted, read_literal-quoted}

-- The characters that are not between quotes, and whether the text ends between quotes; a quote
-- starts or ends a quotation, so that a doubled quote ends one and starts the next.
pub outside : Bool → Text → Text
outside within [] = []
outside within (c ∷ s) =
    let next = if is_quote c then not within else within in
    let rest = outside next s in if is_quote c || within then rest else c ∷ rest

pub ends_within : Bool → Text → Bool
ends_within within [] = within
ends_within within (c ∷ s) = ends_within (if is_quote c then not within else within) s

-- How a quote, and a character that is none, move the reader who stands between quotes.
within-other :
    (c : ℕ) (s : Text)
    → is_quote c ≡ false
    → (outside true (c ∷ s) ≡ outside true s) × (ends_within true (c ∷ s) ≡ ends_within true s)
unfolding outside ends_within
within-other c s e =
    let stays : (if is_quote c then not true else true) ≡ true = rw e refl in
    (
      if-cases (λ t. t ≡ outside true s) (is_quote c || true) _ _ (λ _. ap (λ b. outside b s) stays)
          (λ f. absurd (ground arith)),
      ap (λ b. ends_within b s) stays,
    )

within-doubled :
    (s : Text)
    → (outside true (quote ∷ quote ∷ s) ≡ outside true s)
      × (ends_within true (quote ∷ quote ∷ s) ≡ ends_within true s)
unfolding outside ends_within
within-doubled s = (refl, refl)

outside-escape :
    (v t : Text)
    → (outside true (escape v ++ t) ≡ outside true t)
      × (ends_within true (escape v ++ t) ≡ ends_within true t)
unfolding escape
outside-escape [] t = (refl, refl)
outside-escape (c ∷ v) t =
    let (o, w) = outside-escape v t in
    elim (Bool-cases (is_quote c)) [
      | inl e ↦ rw e (let (o', w') = within-doubled (escape v ++ t) in (o' ∙ o, w' ∙ w))
      | inr e ↦ let (o', w') = within-other c (escape v ++ t) e in rw e (o' ∙ o, w' ∙ w)
    ]

outside-plain :
    (v t : Text)
    → Quoteless v
    → (outside true (v ++ t) ≡ outside true t) × (ends_within true (v ++ t) ≡ ends_within true t)
outside-plain [] t _ = (refl, refl)
outside-plain (c ∷ v) t (e, h) =
    let (o, w) = outside-plain v t h in let (o', w') = within-other c (v ++ t) e in (o' ∙ o, w' ∙ w)

-- The literal is closed, and only the name of a type stands outside its quotes.
unfoldable pub IsContained : Text → Type 0
unfolding outside ends_within
IsContained literal =
    (ends_within false literal ≡ false)
    × ((outside false literal ≡ [])
        ⊎ (outside false literal ≡ codes "DATE ")
        ⊎ (outside false literal ≡ codes "TIMESTAMP "))

escape-IsContained : (v : Text) → IsContained (quoted (escape v))
unfolding IsContained outside ends_within
escape-IsContained v = let (o, w) = outside-escape v (quote ∷ []) in (w, inl o)

date-IsContained : (v : Text) → Quoteless v → IsContained (codes "DATE " ++ quoted v)
unfolding IsContained outside ends_within
date-IsContained v h =
    let (o, w) = outside-plain v (quote ∷ []) h in (w, inr (inl (ap (λ t. codes "DATE " ++ t) o)))

timestamp-IsContained : (v : Text) → Quoteless v → IsContained (codes "TIMESTAMP " ++ quoted v)
unfolding IsContained outside ends_within
timestamp-IsContained v h =
    let (o, w) = outside-plain v (quote ∷ []) h in
    (w, inr (inr (ap (λ t. codes "TIMESTAMP " ++ t) o)))

four_false :
    (a b c d : Bool)
    → (a || (b || (c || (d || false)))) ≡ false
    → (a ≡ false) × (b ≡ false) × (c ≡ false) × (d ≡ false)
four_false a b c d h = ground arith

or_refuse-Gives :
    (o : Option Text) (message : Text) (details : Json)
    → Gives (λ t. o ≡ some t) (or_refuse o message details)
unfolding Gives or_refuse
or_refuse-Gives (some t) message details = refl
or_refuse-Gives none message details = tt

first_read-Quoteless :
    (o p : Option Text) (t : Text)
    → (o ≡ some t → Quoteless t)
    → (p ≡ some t → Quoteless t)
    → first_read o p ≡ some t
    → Quoteless t
first_read-Quoteless (some u) p t f g h = f h
first_read-Quoteless none p t f g h = g h

IsTemporal : Text → Type 0
IsTemporal t = (t ≡ []) ⊎ IsContained t

string_unless-IsContained : (value t : Text) → IsTemporal t → IsContained (string_unless value t)
unfolding string_unless IsTemporal
string_unless-IsContained value [] h = escape-IsContained value
string_unless-IsContained value (c ∷ s) (inl e) = absurd cc
string_unless-IsContained value (c ∷ s) (inr h) = h

module _ ⦃u : Unicode⦄ (parsers : Parsers) where
  strptime-Quoteless : (f : DateFormat) (s t : Text) → parsers.strptime f s ≡ some t → Quoteless t
  strptime-Quoteless f s t e = (parsers.strptime_plain f s t e).1

  timestamp-Gives :
      (o : Option Text) (message : Text) (details : Json)
      → ((s : Text) → o ≡ some s → Quoteless s)
      → Gives IsTemporal
          (or_refuse o message details >>= λ s. pure (codes "TIMESTAMP " ++ quoted s))
  unfolding IsTemporal
  timestamp-Gives o message details h =
      Gives-bind _ IsTemporal _ _ (or_refuse-Gives o message details)
        (λ s e. Gives-pure IsTemporal _ (inr (timestamp-IsContained s (h s e))))

  parse_temporal_value-Gives :
      (data_type value : Text) → Gives IsTemporal (parse_temporal_value parsers data_type value)
  unfolding parse_temporal_value IsTemporal
  parse_temporal_value-Gives data_type value =
      if-cases (Gives IsTemporal) (data_type == codes "date") _ _
        (λ _.
          Gives-bind _ IsTemporal _ _ (or_refuse-Gives (parsers.strptime day (strip value)) _ _)
            (λ s e.
              Gives-pure IsTemporal _
                (inr (date-IsContained (strip value) ((parsers.strptime_plain day _ s e).0)))))
        (λ _.
          if-cases (Gives IsTemporal) (data_type == codes "timestamp") _ _
            (λ _. timestamp-Gives _ _ _ (λ s.
              first_read-Quoteless _ _ s (strptime-Quoteless seconds (strip value) s) (
                first_read-Quoteless _ _ s (strptime-Quoteless iso_seconds (strip value) s)
                  (strptime-Quoteless day (strip value) s))))
            (λ _. Gives-pure IsTemporal [] (inl refl)))

  -- Only the name of a type gets outside the quotes of a literal, unless the value is a number.
  pub sql_literal-IsContained :
      (data_type value literal : Text)
      → elem data_type (codes "integer" ∷ codes "numeric" ∷ []) ≡ false
      → sql_literal parsers data_type value ≡ compiled literal
      → IsContained literal
  unfolding sql_literal
  sql_literal-IsContained data_type value literal e h =
      Gives-compiled IsContained _ literal
        (rw e (
          Gives-bind IsTemporal IsContained _ _ (parse_temporal_value-Gives data_type value)
            (λ t k. Gives-pure IsContained _ (string_unless-IsContained value t k))))
        h

  -- A value that is neither a number nor a time is always compiled, and reads back as it was.
  pub sql_literal-read :
      (data_type value rest : Text)
      → elem data_type (codes "integer" ∷ codes "numeric" ∷ codes "date" ∷ codes "timestamp" ∷ [])
        ≡ false
      → starts_quoted rest ≡ false
      → (literal : Text) × (sql_literal parsers data_type value ≡ compiled literal)
        × (read_literal (literal ++ rest) ≡ some (value, rest))
  unfolding sql_literal elem parse_temporal_value string_unless ◌>>=◌
  sql_literal-read data_type value rest e h =
      let (integer, numeric, date, timestamp) =
        four_false (data_type == codes "integer") (data_type == codes "numeric")
          (data_type == codes "date") (data_type == codes "timestamp") e in
      (
        quoted (escape value),
        rw (integer, numeric, date, timestamp) refl,
        read_literal-quoted value rest h,
      )
