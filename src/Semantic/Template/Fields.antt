-- ===== src/Semantic/Template/Fields.antt =====
-- What decides whether a template can be filled in: the names, not the values.
use Prim.Native.Nat.{ℕ}
use mathlib.Core.Path.{◌≡◌, refl, ◌∙◌, sym}
use mathlib.Core.Bool.{Bool, true, false, ◌||◌}
use mathlib.Core.Option.{Option, none, some}
use mathlib.Core.List.{List, [], ◌∷◌, map}
use native.Mathlib.Omega.{arith}
use drivee_tolmach.Common.{Text, lookup, nat_eq, same_list, same_ℕ, list_eq, if◌then◌else◌}
use drivee_tolmach.Semantic.Template.{
  Context, Formatted, formatted, key_error, index_error, value_error, Mode, plain, opened, closed,
  inside, emit, field, next_mode, output, scan, format,
}

abbrev pub is_formatted : Formatted → Bool
is_formatted (formatted t) = true
is_formatted _ = false

abbrev pub names : Context → List Text
names context = map (λ entry. entry.0) context

abbrev is_known : Option Text → Bool
is_known (some v) = true
is_known none = false

pub emit_lem : (s : Text) (f : Formatted) → is_formatted (emit s f) ≡ is_formatted f
unfolding emit
emit_lem s (formatted t) = refl
emit_lem s (key_error name) = refl
emit_lem s index_error = refl
emit_lem s value_error = refl

emit-same :
    (s t : Text) (f g : Formatted)
    → is_formatted f ≡ is_formatted g
    → is_formatted (emit s f) ≡ is_formatted (emit t g)
emit-same s t f g h = emit_lem s f ∙ h ∙ sym (emit_lem t g)

unknown_lem :
    (b : Bool) (name : Text) → is_formatted (if b then index_error else key_error name) ≡ false
unknown_lem true name = refl
unknown_lem false name = refl

field-same :
    (name : Text) (o p : Option Text) (f g : Formatted)
    → is_known o ≡ is_known p
    → is_formatted f ≡ is_formatted g
    → is_formatted (field name o f) ≡ is_formatted (field name p g)
unfolding field
field-same name (some v) (some w) f g h k = emit-same v w f g k
field-same name (some v) none f g h k = absurd (ground arith)
field-same name none (some w) f g h k = absurd (ground arith)
field-same name none none f g h k = refl

-- Both branches of a test agree when the parts do.
if-same :
    (b : Bool) (f f' g g' : Formatted)
    → is_formatted f ≡ is_formatted f'
    → is_formatted g ≡ is_formatted g'
    → is_formatted (if b then f else g) ≡ is_formatted (if b then f' else g')
if-same true f f' g g' h k = h
if-same false f f' g g' h k = k

known_if-same :
    (b : Bool) (v w : Text) (o p : Option Text)
    → is_known o ≡ is_known p
    → is_known (if b then some v else o) ≡ is_known (if b then some w else p)
known_if-same true v w o p h = refl
known_if-same false v w o p h = h

lookup-known :
    (name : Text) (c d : Context)
    → names c ≡ names d
    → is_known (lookup name c) ≡ is_known (lookup name d)
unfolding lookup
lookup-known name [] [] h = refl
lookup-known name [] (e ∷ d) h = cc
lookup-known name (e ∷ c) [] h = cc
lookup-known name ((i, v) ∷ c) ((j, w) ∷ d) h =
    let heads : i ≡ j = cc in
    let tails : names c ≡ names d = cc in
    rw heads (known_if-same (list_eq j name) v w _ _ (lookup-known name c d tails))

module _ (c d : Context) (same_names : names c ≡ names d) where
  output-same :
      (m : Mode) (x : ℕ) (f g : Formatted)
      → is_formatted f ≡ is_formatted g
      → is_formatted (output c m x f) ≡ is_formatted (output d m x g)
  unfolding output
  output-same plain x f g h =
      if-same (nat_eq x b'{' || nat_eq x b'}') _ _ _ _ h (emit-same (x ∷ []) (x ∷ []) f g h)
  output-same opened x f g h =
      if-same (nat_eq x b'{') _ _ _ _ (emit-same (x ∷ []) (x ∷ []) f g h)
        (if-same (nat_eq x b'}') index_error index_error f g refl h)
  output-same closed x f g h =
      if-same (nat_eq x b'}') _ _ _ _ (emit-same (x ∷ []) (x ∷ []) f g h) refl
  output-same (inside name) x f g h =
      if-same (nat_eq x b'}') _ _ _ _
        (field-same name (lookup name c) (lookup name d) f g (lookup-known name c d same_names) h)
        (if-same (nat_eq x b'{') value_error value_error f g refl h)

  scan-same : (m : Mode) (t : Text) → is_formatted (scan c m t) ≡ is_formatted (scan d m t)
  unfolding scan
  scan-same plain [] = refl
  scan-same opened [] = refl
  scan-same closed [] = refl
  scan-same (inside name) [] = refl
  scan-same m (x ∷ s) = output-same m x _ _ (scan-same (next_mode m x) s)

  -- A template that one context fills in is filled in by every context with the same names.
  pub format-same : (t : Text) → is_formatted (format c t) ≡ is_formatted (format d t)
  unfolding format
  format-same t = scan-same plain t
