-- ===== src/Semantic/Store/Rows.antt =====
-- What the queries of backend/app/semantic/repository.py keep of a table, and what holds behind the tests
-- of a handler.
use Prim.Native.Nat.{ℕ}
use Prim.Native.String.{String}
use mathlib.Core.Path.{◌≡◌, refl, sym, ap, ap₂, subst, ◌∙◌}
use mathlib.Core.Logic.{inl, inr}
use mathlib.Core.Bool.{Bool, true, false, not}
use mathlib.Core.Option.{Option, none, some}
use mathlib.Core.List.{List, [], ◌∷◌, ◌++◌, map}
use native.Mathlib.Omega.{arith}
use drivee_tolmach.Common.{
  Text, All, Bool-cases, elem, filter, filter-in, filter-out, if-cases, ◌==◌, list_eq_iff,
  same_list, same_ℕ, if◌then◌else◌,
}
use drivee_tolmach.Semantic.Errors as semantic
use drivee_tolmach.Semantic.Catalog.{Row}
use drivee_tolmach.Semantic.Fragments.{Report, ok}
use drivee_tolmach.Semantic.Validators.Verdicts.{accepts}
use drivee_tolmach.Semantic.Store.{
  Reply, replied, http_error, failed, ◌>>=◌, ◌>>◌, http_if, or_missing, valid, validated, row_key,
  has_key, keys_of, active_keys, get_row, put_row, drop_row,
}

-- What holds of the tables that a handler leaves, if it replies
unfoldable pub Leaves {ℓ κ} : {A : Type ℓ} → (A → Type κ) → Reply A → Type κ
Leaves P (replied a) = P a
Leaves P (http_error status detail) = Unit
Leaves P (failed class_name) = Unit

pub Leaves-replied {ℓ κ} : {A : Type ℓ} (P : A → Type κ) (a : A) → P a → Leaves P (replied a)
unfolding Leaves
Leaves-replied P a h = h

pub Leaves-reply {ℓ κ} :
    {A : Type ℓ} (P : A → Type κ) (m : Reply A) (a : A) → Leaves P m → m ≡ replied a → P a
unfolding Leaves
Leaves-reply P m a h e = subst (λ r. Leaves P r) e h

pub Leaves-failed {ℓ κ} : {A : Type ℓ} (P : A → Type κ) (name : String) → Leaves P (failed name)
unfolding Leaves
Leaves-failed P name = tt

module _ {ℓ κ} {A : Type ℓ} (P : A → Type κ) where
  pub Leaves-http_if :
      (test : Bool) (status : ℕ) (detail : Text) (k : Reply A)
      → (test ≡ false → Leaves P k)
      → Leaves P (http_if test status detail >> k)
  unfolding Leaves http_if ◌>>=◌
  Leaves-http_if true status detail k h = tt
  Leaves-http_if false status detail k h = h refl

  pub Leaves-valid :
      (report : Report) (k : Reply A)
      → (ok report ≡ true → Leaves P k)
      → Leaves P (valid report >> k)
  unfolding Leaves valid ◌>>=◌
  Leaves-valid report k h = elim (Bool-cases (ok report)) [ inl e ↦ rw e (h e) | inr e ↦ rw e tt ]

  pub Leaves-validated :
      (m : semantic.Compiled Report) (k : Reply A)
      → (accepts m ≡ true → Leaves P k)
      → Leaves P (validated m >> k)
  unfolding validated Leaves ◌>>=◌
  Leaves-validated (semantic.compiled report) k h = Leaves-valid report k h
  Leaves-validated (semantic.refused reason) k h = tt
  Leaves-validated (semantic.crashed class_name) k h = tt

  pub Leaves-or_missing {μ} :
      {B : Type μ} (o : Option B) (detail : Text) (f : B → Reply A)
      → ((b : B) → o ≡ some b → Leaves P (f b))
      → Leaves P (or_missing o detail >>= f)
  unfolding Leaves or_missing ◌>>=◌
  Leaves-or_missing (some b) detail f h = h b refl
  Leaves-or_missing none detail f h = tt

module _ {ℓ κ μ} {A : Type ℓ} (P : A → Type κ) (Q : A → Type μ) where
  pub All-weaken : (xs : List A) → ((x : A) → P x → Q x) → All P xs → All Q xs
  All-weaken [] f _ = tt
  All-weaken (x ∷ xs) f (p, h) = (f x p, All-weaken xs f h)

module _ {ℓ κ} {A : Type ℓ} (P : A → Type κ) where
  pub All-filter : (q : A → Bool) (xs : List A) → All P xs → All P (filter q xs)
  All-filter q [] _ = tt
  All-filter q (x ∷ xs) (p, h) = elim (Bool-cases (q x)) [
    | inl e ↦ subst (λ ys. All P ys) (sym (filter-in q x xs e)) (p, All-filter q xs h)
    | inr e ↦ subst (λ ys. All P ys) (sym (filter-out q x xs e)) (All-filter q xs h)
  ]

  -- A map that replaces some elements by one for which P holds too
  pub All-replace :
      (q : A → Bool) (f : A → A) (xs : List A)
      → ((x : A) → P (f x))
      → All P xs
      → All P (map (λ x. if q x then f x else x) xs)
  All-replace q f [] g _ = tt
  All-replace q f (x ∷ xs) g (p, h) =
      (if-cases P (q x) (f x) x (λ _. g x) (λ _. p), All-replace q f xs g h)

pub elem-append : (k : Text) (xs ys : List Text) → elem k xs ≡ true → elem k (xs ++ ys) ≡ true
unfolding elem
elem-append k [] ys h = cc
elem-append k (x ∷ xs) ys h = ground (arith, elem-append k xs ys)

some_inj {ℓ} : {A : Type ℓ} {b a : A} → some b ≡ some a → b ≡ a
some_inj f = cc

-- A key that is not the first one is among the later ones.
other :
    (k x key : Text) (xs : List Text)
    → x ≡ key
    → (key == k) ≡ false
    → elem k (x ∷ xs) ≡ true
    → elem k xs ≡ true
unfolding elem
other k x key xs e d h = ground (arith, list_eq_iff k x, list_eq_iff key k, e)

still :
    (k x : Text) (xs ys : List Text)
    → (elem k xs ≡ true → elem k ys ≡ true)
    → elem k (x ∷ xs) ≡ true
    → elem k (x ∷ ys) ≡ true
unfolding elem
still k x xs ys f h = ground (arith, f)

module _ {A : Type 0} (key_of : A → Text) where
  pub active_keys-elem :
      (k : Text) (rows : List (Row A))
      → elem k (active_keys key_of rows) ≡ true
      → elem k (keys_of key_of rows) ≡ true
  unfolding elem
  active_keys-elem k [] h = h
  active_keys-elem k (row ∷ rows) h = elim (Bool-cases row.is_active) [
    | inl e ↦
        let here =
          subst (λ rs. elem k (keys_of key_of rs) ≡ true)
            (filter-in (λ row. row.is_active) row rows e) h in
        ground (arith, active_keys-elem k rows)
    | inr e ↦
        let later =
          subst (λ rs. elem k (keys_of key_of rs) ≡ true)
            (filter-out (λ row. row.is_active) row rows e) h in
        ground (arith, active_keys-elem k rows later)
  ]

  keys-append :
      (rows more : List (Row A))
      → keys_of key_of (rows ++ more) ≡ keys_of key_of rows ++ keys_of key_of more
  keys-append [] more = refl
  keys-append (row ∷ rows) more = ap (λ ks. row_key key_of row ∷ ks) (keys-append rows more)

  -- New rows take no key away.
  pub elem-keys-append :
      (k : Text) (rows more : List (Row A))
      → elem k (keys_of key_of rows) ≡ true
      → elem k (keys_of key_of (rows ++ more)) ≡ true
  elem-keys-append k rows more h = rw (keys-append rows more) (elem-append k _ _ h)

  pub get_row-key :
      (key : Text) (row : Row A) (rows : List (Row A))
      → get_row key_of key rows ≡ some row
      → row_key key_of row ≡ key
  unfolding get_row
  get_row-key key row [] h = cc
  get_row-key key row (r ∷ rows) h =
      if-cases (λ (o : Option (Row A)). o ≡ some row → row_key key_of row ≡ key)
        (has_key key_of key r) (some r) (get_row key_of key rows)
        (λ e f. ap (row_key key_of) (sym (some_inj f)) ∙ (list_eq_iff (row_key key_of r) key).0 e)
        (λ _ f. get_row-key key row rows f) h

  -- A row in the place of one with the same key changes no key.
  pub put_row-keys :
      (key : Text) (new : Row A) (rows : List (Row A))
      → row_key key_of new ≡ key
      → keys_of key_of (put_row key_of key new rows) ≡ keys_of key_of rows
  unfolding put_row
  put_row-keys key new [] e = refl
  put_row-keys key new (row ∷ rows) e =
      ap₂ (λ x xs. x ∷ xs)
        (if-cases (λ (r : Row A). row_key key_of r ≡ row_key key_of row) (has_key key_of key row)
          new row (λ f. e ∙ sym ((list_eq_iff (row_key key_of row) key).0 f)) (λ _. refl))
        (put_row-keys key new rows e)

  -- Every other key is still there behind a deletion.
  pub drop_row-elem :
      (key k : Text) (rows : List (Row A))
      → (key == k) ≡ false
      → elem k (keys_of key_of rows) ≡ true
      → elem k (keys_of key_of (drop_row key_of key rows)) ≡ true
  unfolding drop_row
  drop_row-elem key k [] d h = h
  drop_row-elem key k (row ∷ rows) d h = elim (Bool-cases (has_key key_of key row)) [
    | inl e ↦
        let gone = filter-out (λ row. not (has_key key_of key row)) row rows (ap not e) in
        let later =
          other k (row_key key_of row) key (keys_of key_of rows)
            ((list_eq_iff (row_key key_of row) key).0 e) d h in
        subst (λ rs. elem k (keys_of key_of rs) ≡ true) (sym gone)
          (drop_row-elem key k rows d later)
    | inr e ↦
        let kept = filter-in (λ row. not (has_key key_of key row)) row rows (ap not e) in
        subst (λ rs. elem k (keys_of key_of rs) ≡ true) (sym kept)
          (still k (row_key key_of row) _ _ (drop_row-elem key k rows d) h)
  ]

  pub put_row-All {κ} :
      (P : Row A → Type κ) (key : Text) (new : Row A) (rows : List (Row A))
      → P new
      → All P rows
      → All P (put_row key_of key new rows)
  unfolding put_row
  put_row-All P key new rows p h = All-replace P (has_key key_of key) (λ _. new) rows (λ _. p) h
