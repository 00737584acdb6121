-- ===== src/Reports/Recipients/Keys.antt =====
-- No recipient of a report twice: the keys that backend/app/reports/service.py compares.
use Prim.Native.Nat.{ℕ}
use mathlib.Core.Path.{◌≡◌, refl, sym, ap, subst}
use mathlib.Core.Logic.{inl, inr}
use mathlib.Core.Bool.{false, ◌||◌, not}
use mathlib.Core.List.{List, [], ◌∷◌, ◌++◌, map, map-append}
use native.Mathlib.Omega.{arith}
use drivee_tolmach.Common.{
  Text, codes, Unicode, lower, lower-lower, strip, is_empty, elem, filter-in, filter-out, All,
  All-append, Bool-cases, if-cases, Same, ◌==◌, same_list, same_pair, same_ℕ,
}
use drivee_tolmach.Reports.Records.{ReportRecipient}
use drivee_tolmach.Reports.Recipients.{
  RequestedTarget, Target, Progress, add_target, email_value, email_target, add_email, channel_of,
  requested_destination, requested_target, add_requested, add_emails, add_all,
  normalize_delivery_targets, key_of, missing_targets, existing_key, rows_from, of_report,
  append_report_recipients,
}

module _ {ℓ} {A : Type ℓ} ⦃e : Same A⦄ where
  -- Each element once.
  unfoldable pub IsDistinct : List A → Type 0
  IsDistinct [] = Unit
  IsDistinct (x ∷ xs) = (elem x xs ≡ false) × IsDistinct xs

  elem-append : (x : A) (xs : List A) (y : A) → elem x (xs ++ y ∷ []) ≡ (elem x xs || (x == y))
  unfolding elem
  elem-append x [] y = ground arith
  elem-append x (z ∷ xs) y = ground (arith, elem-append x xs y)

  IsDistinct-append :
      (xs : List A) (y : A) → IsDistinct xs → elem y xs ≡ false → IsDistinct (xs ++ y ∷ [])
  unfolding IsDistinct elem
  IsDistinct-append [] y _ _ = (refl, tt)
  IsDistinct-append (x ∷ xs) y (alone, rest) new =
      let other : (x == y) ≡ false = ground (arith, e.same_iff x y, e.same_iff y x) in
      let here : elem x (xs ++ y ∷ []) ≡ false = rw (elem-append x xs y, alone, other) refl in
      (here, IsDistinct-append xs y rest (ground arith))

module _ ⦃u : Unicode⦄ where
  -- The keys that are seen are those of the targets, each once, and no target is empty.
  IsKeyed : Progress → Type 0
  IsKeyed p =
      (p.seen ≡ map key_of p.normalized)
      × IsDistinct p.seen
      × All (λ target. is_empty target.destination ≡ false) p.normalized

  add_target-IsKeyed :
      (key : Text × Text) (target : Target) (p : Progress)
      → key ≡ key_of target
      → is_empty target.destination ≡ false
      → IsKeyed p
      → IsKeyed (add_target key target p)
  unfolding IsKeyed add_target
  add_target-IsKeyed key target p same full (keys, once, filled) =
      if-cases IsKeyed (elem key p.seen) _ _ (λ _. (keys, once, filled))
        (λ new. (
          rw (map-append key_of p.normalized (target ∷ []), keys, same) refl,
          IsDistinct-append p.seen key once new,
          All-append (λ t. is_empty t.destination ≡ false) p.normalized (target ∷ []) filled
              (full, tt),
        ))

  lowered : (s : Text) → (codes "email", email_value s) ≡ key_of (email_target (email_value s))
  unfolding email_value email_target key_of
  lowered s = ap (λ k. (codes "email", k)) (sym (lower-lower (strip s)))

  filled : (s : Text) → is_empty s ≡ false → is_empty (email_target s).destination ≡ false
  unfolding email_target
  filled s h = h

  requested-key :
      (item : RequestedTarget)
      → (channel_of item, lower (requested_destination item)) ≡ key_of (requested_target item)
  unfolding requested_target key_of
  requested-key item = refl

  requested-filled :
      (item : RequestedTarget)
      → is_empty (requested_destination item) ≡ false
      → is_empty (requested_target item).destination ≡ false
  unfolding requested_target
  requested-filled item h = h

  add_email-IsKeyed : (p : Progress) (email : Text) → IsKeyed p → IsKeyed (add_email p email)
  unfolding add_email
  add_email-IsKeyed p email h =
      if-cases IsKeyed (is_empty (email_value email)) _ _ (λ _. h)
        (λ full.
          add_target-IsKeyed (codes "email", email_value email) (email_target (email_value email)) p
            (lowered email) (filled (email_value email) full) h)

  add_requested-IsKeyed :
      (p : Progress) (item : RequestedTarget) → IsKeyed p → IsKeyed (add_requested p item)
  unfolding add_requested
  add_requested-IsKeyed p item h =
      if-cases IsKeyed (is_empty (requested_destination item)) _ _ (λ _. h)
        (λ full.
          add_target-IsKeyed (channel_of item, lower (requested_destination item))
            (requested_target item) p (requested-key item) (requested-filled item full) h)

  add_emails-IsKeyed :
      (p : Progress) (emails : List Text) → IsKeyed p → IsKeyed (add_emails p emails)
  unfolding add_emails
  add_emails-IsKeyed p [] h = h
  add_emails-IsKeyed p (email ∷ emails) h =
      add_emails-IsKeyed (add_email p email) emails (add_email-IsKeyed p email h)

  add_all-IsKeyed :
      (p : Progress) (rest : List RequestedTarget) → IsKeyed p → IsKeyed (add_all p rest)
  unfolding add_all
  add_all-IsKeyed p [] h = h
  add_all-IsKeyed p (item ∷ rest) h =
      add_all-IsKeyed (add_requested p item) rest (add_requested-IsKeyed p item h)

  start-IsKeyed : IsKeyed (record { normalized = []; seen = [] })
  unfolding IsKeyed IsDistinct
  start-IsKeyed = (refl, tt, tt)

  IsKeyed-facts :
      (p : Progress)
      → IsKeyed p
      → IsDistinct (map key_of p.normalized)
        × All (λ target. is_empty target.destination ≡ false) p.normalized
  unfolding IsKeyed
  IsKeyed-facts p (keys, once, full) = (subst IsDistinct keys once, full)

  -- The targets of a report that are made of what is asked for have different keys, the channel and the
  -- destination in lower case, and no destination is empty.
  pub normalize_delivery_targets-IsDistinct :
      (recipients : List Text) (delivery_targets : List RequestedTarget)
      → IsDistinct (map key_of (normalize_delivery_targets recipients delivery_targets))
        × All
            (λ target. is_empty target.destination ≡ false)
            (normalize_delivery_targets recipients delivery_targets)
  unfolding normalize_delivery_targets
  normalize_delivery_targets-IsDistinct recipients delivery_targets = IsKeyed-facts _ (
      add_all-IsKeyed (add_emails (record { normalized = []; seen = [] }) recipients)
        delivery_targets
        (add_emails-IsKeyed (record { normalized = []; seen = [] }) recipients start-IsKeyed))

  module _ (keys : List (Text × Text)) where
    elem-missing :
        (k : Text × Text) (targets : List Target)
        → elem k (map key_of targets) ≡ false
        → elem k (map key_of (missing_targets keys targets)) ≡ false
    unfolding elem missing_targets
    elem-missing k [] _ = refl
    elem-missing k (t ∷ targets) h = elim (Bool-cases (elem (key_of t) keys)) [
      | inl e ↦
          rw (filter-out (λ target. not (elem (key_of target) keys)) t targets (rw e refl))
            (elem-missing k targets (ground arith))
      | inr e ↦
          rw (filter-in (λ target. not (elem (key_of target) keys)) t targets (rw e refl))
            (ground (arith, elem-missing k targets))
    ]

    missing_targets-IsDistinct :
        (targets : List Target)
        → IsDistinct (map key_of targets)
        → IsDistinct (map key_of (missing_targets keys targets))
          × All (λ target. elem (key_of target) keys ≡ false) (missing_targets keys targets)
    unfolding missing_targets IsDistinct
    missing_targets-IsDistinct [] _ = (tt, tt)
    missing_targets-IsDistinct (t ∷ targets) (alone, rest) =
        let (once, new) = missing_targets-IsDistinct targets rest in
        elim (Bool-cases (elem (key_of t) keys)) [
          | inl e ↦
              rw (filter-out (λ target. not (elem (key_of target) keys)) t targets (rw e refl))
                (once, new)
          | inr e ↦
              rw (filter-in (λ target. not (elem (key_of target) keys)) t targets (rw e refl))
                ((elem-missing (key_of t) targets alone, once), (e, new))
        ]

  -- To append recipients keeps the rows and adds rows for targets with different keys, none of which is
  -- the key of a recipient of the report.
  pub append_report_recipients-IsDistinct :
      (id report_id : ℕ) (recipients : List Text) (delivery_targets : List RequestedTarget)
      (rows : List ReportRecipient)
      → (targets : List Target) × (append_report_recipients id report_id recipients delivery_targets
            rows
          ≡ rows ++ rows_from id report_id targets)
        × IsDistinct (map key_of targets)
        × All
            (λ target. elem (key_of target) (map existing_key (of_report report_id rows)) ≡ false)
            targets
  unfolding append_report_recipients
  append_report_recipients-IsDistinct id report_id recipients delivery_targets rows =
      let (once, new) =
        missing_targets-IsDistinct (map existing_key (of_report report_id rows))
          (normalize_delivery_targets recipients delivery_targets)
          (normalize_delivery_targets-IsDistinct recipients delivery_targets).0 in
      (_, refl, once, new)
