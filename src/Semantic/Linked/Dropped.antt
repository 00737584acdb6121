-- ===== src/Semantic/Linked/Dropped.antt =====
-- What is left of the references behind the deletion of a metric or of a dimension.
use mathlib.Core.Path.{◌≡◌}
use mathlib.Core.Bool.{Bool, true, false, ◌||◌}
use mathlib.Core.List.{List, [], ◌∷◌}
use native.Mathlib.Omega.{arith}
use drivee_tolmach.Common.{Text, All, any, elem, ◌==◌, list_eq_iff, same_list, same_ℕ}
use drivee_tolmach.Semantic.Store.{Store, with_metrics, with_dimensions, keys_of, drop_row}
use drivee_tolmach.Semantic.Store.Rows.{All-filter, drop_row-elem}
use drivee_tolmach.Semantic.Admin.{metric_key, dimension_key, refers}
use drivee_tolmach.Semantic.Linked.{Known, all_metrics, all_dimensions, IsLinked}

not_same : (a b : Text) → (a == b) ≡ false → (b == a) ≡ false
not_same a b h = ground (arith, list_eq_iff a b, list_eq_iff b a)

neither : (a b : Bool) → (a || b) ≡ false → (a ≡ false) × (b ≡ false)
neither a b h = ground arith

-- What each element is known not to pass, in a list where none passes
module _ {ℓ κ μ} {A : Type ℓ} (P : A → Type κ) (Q : A → Type μ) (p : A → Bool) where
  All-none :
      (xs : List A) → any p xs ≡ false → ((x : A) → p x ≡ false → P x → Q x) → All P xs → All Q xs
  All-none [] h f _ = tt
  All-none (x ∷ xs) h f (a, more) =
      let (here, later) = neither (p x) (any p xs) h in (f x here a, All-none xs later f more)

-- Without a key that is not referred to
module _ (key : Text) (keys left : List Text)
    (kept : (k : Text) → (key == k) ≡ false → elem k keys ≡ true → elem k left ≡ true) where
  Known-left : (xs : List Text) → elem key xs ≡ false → Known keys xs → Known left xs
  unfolding elem
  Known-left [] h _ = tt
  Known-left (x ∷ xs) h (k, ks) =
      let (here, later) = neither _ _ h in (kept x here k, Known-left xs later ks)

  both-left :
      (xs ys : List Text)
      → refers key xs ys ≡ false
      → Known keys xs
      → Known keys ys
      → Known left xs × Known left ys
  both-left xs ys h k l =
      let (x, y) = neither (elem key xs) (elem key ys) h in (Known-left xs x k, Known-left ys y l)

module _ (s : Store) (linked : IsLinked s) (key : Text) where
  pub dropped_metric :
      any (λ row. row.1.definition.metric_key == key) s.examples ≡ false
      → any (λ row. row.definition.metric_key == key) s.templates ≡ false
      → IsLinked (with_metrics (drop_row metric_key key s.metrics) s)
  unfolding IsLinked drop_row
  dropped_metric e t =
      let kept : (k : Text)
          → (k == key) ≡ false
          → elem k (all_metrics s) ≡ true
          → elem k (keys_of metric_key (drop_row metric_key key s.metrics)) ≡ true =
        λ k h. drop_row-elem metric_key key k s.metrics (not_same k key h) in
      (
        All-filter _ _ s.metrics linked.0,
        All-none _ _ _ s.examples e
            (λ row h (k, x, y). (kept row.1.definition.metric_key h k, x, y)) linked.1,
        All-none _ _ _ s.templates t (λ row h (k, x, y). (kept row.definition.metric_key h k, x, y))
            linked.2,
      )

  pub dropped_dimension :
      any
          (λ row. refers key row.definition.allowed_dimensions row.definition.allowed_filters)
          s.metrics
        ≡ false
      → any
          (λ row. refers key row.1.definition.dimension_keys row.1.definition.filter_keys)
          s.examples
        ≡ false
      → any (λ row. refers key row.definition.dimension_keys row.definition.filter_keys) s.templates
        ≡ false
      → IsLinked (with_dimensions (drop_row dimension_key key s.dimensions) s)
  unfolding IsLinked
  dropped_dimension m e t =
      let both =
        both-left key (all_dimensions s)
          (keys_of dimension_key (drop_row dimension_key key s.dimensions))
          (λ k. drop_row-elem dimension_key key k s.dimensions) in
      (
        All-none _ _ _ s.metrics m
            (λ row h (x, y).
              both row.definition.allowed_dimensions row.definition.allowed_filters h x y)
            linked.0,
        All-none _ _ _ s.examples e
            (λ row h (k, x, y).
              let (a, b) =
                both row.1.definition.dimension_keys row.1.definition.filter_keys h x y in
              (k, a, b))
            linked.1,
        All-none _ _ _ s.templates t
            (λ row h (k, x, y).
              let (a, b) = both row.definition.dimension_keys row.definition.filter_keys h x y in
              (k, a, b))
            linked.2,
      )
