-- ===== src/Reports/Calendar/Dates.antt =====
-- Laws of the dates of backend/app/reports/scheduler.py: the next day is a date, it is later, and its
-- ordinal is the next number.
use Prim.Native.Nat.{ℕ, zero, suc, ◌+◌, ◌-◌, ◌*◌, ◌≤◌, ◌<◌}
use mathlib.Core.Path.{◌≡◌, refl, sym, ap, subst}
use native.Mathlib.Omega.{arith}
use drivee_tolmach.Common.{ltb, ltb→lt, if-cases, if◌then◌else◌}
use drivee_tolmach.Reports.Calendar.{
  Date, is_leap, days_in_month, days_before_month, days_before_year, toordinal, day_stamp, next_day,
  add_days,
}

-- A date of the calendar.
unfoldable pub IsDate : Date → Type 0
IsDate d =
    (1 ≤ d.year)
    × (1 ≤ d.month)
    × (d.month ≤ 12)
    × (1 ≤ d.day)
    × (d.day ≤ days_in_month d.year d.month)

pub days_in_month-bounds : (y m : ℕ) → (28 ≤ days_in_month y m) × (days_in_month y m ≤ 31)
unfolding days_in_month
days_in_month-bounds y m = ground arith

year_step :
    (y : ℕ)
    → 1 ≤ y
    → days_before_year (suc y) ≡ (days_before_year y + 365) + (if is_leap y then 1 else 0)
unfolding days_before_year is_leap
year_step y h = ground arith

first_month : (y : ℕ) → days_before_month y 1 ≡ 0
unfolding days_before_month
first_month y = refl

year_days :
    (y : ℕ) → days_before_month y 12 + days_in_month y 12 ≡ 365 + (if is_leap y then 1 else 0)
unfolding days_before_month days_in_month
year_days y = ground arith

month_step :
    (y m : ℕ) → 1 ≤ m → days_before_month y (suc m) ≡ days_before_month y m + days_in_month y m
unfolding days_before_month
month_step y zero h = omega arith
month_step y (suc m) h = refl

-- What holds of the next day in the month, in the next month and in the next year.
module _ {ℓ} (P : Date → Type ℓ) (d : Date) (h : IsDate d) where
  next_day-cases :
      (d.day < days_in_month d.year d.month → P (record d { day = suc d.day }))
      → (d.day ≡ days_in_month d.year d.month
          → d.month < 12
          → P (record d { month = suc d.month; day = 1 }))
      → (d.day ≡ days_in_month d.year d.month
          → d.month ≡ 12
          → P (record { year = suc d.year; month = 1; day = 1 }))
      → P (next_day d)
  unfolding IsDate next_day
  next_day-cases f g k =
      let (_, _, m, _, last) = h in
      if-cases P (ltb d.day (days_in_month d.year d.month)) _ _ (λ e. f (ltb→lt _ _ e))
        (λ e.
          let end : d.day ≡ days_in_month d.year d.month = ground arith in
          if-cases P (ltb d.month 12) _ _ (λ e'. g end (ltb→lt _ _ e'))
            (λ e'. k end (ground arith)))

pub toordinal-next_day : (d : Date) → IsDate d → toordinal (next_day d) ≡ suc (toordinal d)
unfolding IsDate toordinal
toordinal-next_day d h =
    let (y, m, _, _, _) = h in
    next_day-cases (λ x. toordinal x ≡ suc (toordinal d)) d h (λ _. omega arith)
      (λ end _. omega (arith, month_step d.year d.month m))
      (λ end last.
        let days : days_before_month d.year d.month + d.day
            ≡ 365 + (if is_leap d.year then 1 else 0) =
          rw (end, last) (year_days d.year) in
        omega (arith, year_step d.year y, first_month (suc d.year), days))

pub next_day-IsDate : (d : Date) → IsDate d → IsDate (next_day d)
unfolding IsDate
next_day-IsDate d h =
    let (y, m, m', k, k') = h in
    next_day-cases IsDate d h (λ e. (y, m, m', omega arith, omega arith))
      (λ _ e.
        let days = days_in_month-bounds d.year (suc d.month) in
        (y, omega arith, omega arith, omega arith, omega arith))
      (λ _ _.
        let days = days_in_month-bounds (suc d.year) 1 in
        (omega arith, omega arith, omega arith, omega arith, omega arith))

pub next_day-later : (d : Date) → IsDate d → day_stamp d < day_stamp (next_day d)
unfolding IsDate
next_day-later d h =
    next_day-cases (λ x. day_stamp d < day_stamp x) d h (λ _. omega arith)
      (λ end _. omega (arith, days_in_month-bounds d.year d.month))
      (λ end _. omega (arith, days_in_month-bounds d.year d.month))

pub add_days-IsDate : (n : ℕ) (d : Date) → IsDate d → IsDate (add_days n d)
unfolding add_days
add_days-IsDate zero d h = h
add_days-IsDate (suc n) d h = add_days-IsDate n (next_day d) (next_day-IsDate d h)

pub toordinal-add_days : (n : ℕ) (d : Date) → IsDate d → toordinal (add_days n d) ≡ n + toordinal d
unfolding add_days
toordinal-add_days zero d h = omega arith
toordinal-add_days (suc n) d h =
    omega (arith, toordinal-add_days n (next_day d) (next_day-IsDate d h), toordinal-next_day d h)

pub add_days-later : (n : ℕ) (d : Date) → IsDate d → day_stamp d + n ≤ day_stamp (add_days n d)
unfolding add_days
add_days-later zero d h = omega arith
add_days-later (suc n) d h =
    omega (arith, add_days-later n (next_day d) (next_day-IsDate d h), next_day-later d h)

-- Days of the same month.
pub add_days-within :
    (n : ℕ) (d : Date)
    → d.day + n ≤ days_in_month d.year d.month
    → add_days n d ≡ record d { day = d.day + n }
unfolding add_days next_day
add_days-within zero d h = ground arith
add_days-within (suc n) d h = ground (arith, add_days-within n (record d { day = suc d.day }))

add_days-add : (n k : ℕ) (d : Date) → add_days (n + k) d ≡ add_days k (add_days n d)
unfolding add_days
add_days-add zero k d = let e : 0 + k ≡ k = omega arith in rw e refl
add_days-add (suc n) k d =
    let e : suc n + k ≡ suc (n + k) = omega arith in rw e (add_days-add n k (next_day d))

-- From the first of a month, a number of days that ends in the month after.
module _ {ℓ} (P : Date → Type ℓ) (d : Date) (h : IsDate d)
    (f : (y m n : ℕ)
      → 1 ≤ y
      → 1 ≤ m
      → m ≤ 12
      → y * 12 + m ≡ suc (d.year * 12 + d.month)
      → P (record { year = y; month = m; day = n })) where
  last_day : Date
  last_day = record d { day = days_in_month d.year d.month }

  last_day-IsDate : IsDate last_day
  unfolding IsDate last_day
  last_day-IsDate =
      let (y, m, m', _, _) = h in
      let long = days_in_month-bounds d.year d.month in (y, m, m', omega arith, omega arith)

  behind_last_day : (k : ℕ) → k ≤ 4 → P (add_days k (next_day last_day))
  unfolding IsDate last_day
  behind_last_day k few =
      let (y, m, m', _, _) = h in
      next_day-cases (λ x. P (add_days k x)) last_day last_day-IsDate (λ e. absurd (omega arith))
        (λ _ e.
          let long = days_in_month-bounds d.year (suc d.month) in
          rw
            (add_days-within k (record { year = d.year; month = suc d.month; day = 1 })
              (omega arith))
            (f d.year (suc d.month) (1 + k) y (omega arith) (omega arith) (omega arith)))
        (λ _ e.
          let long = days_in_month-bounds (suc d.year) 1 in
          rw (add_days-within k (record { year = suc d.year; month = 1; day = 1 }) (omega arith))
            (f (suc d.year) 1 (1 + k) (omega arith) (omega arith) (omega arith) (omega arith)))

  to_last_day :
      (n : ℕ) → suc n ≡ days_in_month d.year d.month → add_days n (record d { day = 1 }) ≡ last_day
  unfolding last_day
  to_last_day n e =
      rw (add_days-within n (record d { day = 1 }) (omega arith))
        (ap (λ k. record d { day = k }) (omega arith))

  -- The first of a month and 32 days are in the month after.
  pub month_after : P (add_days 32 (record d { day = 1 }))
  unfolding add_days
  month_after =
      let long = days_in_month-bounds d.year d.month in
      let n : ℕ = days_in_month d.year d.month - 1 in
      let k : ℕ = 32 - days_in_month d.year d.month in
      let parts : add_days (n + suc k) (record d { day = 1 }) ≡ add_days (suc k) last_day =
        rw (add_days-add n (suc k) (record d { day = 1 }), to_last_day n (omega arith)) refl in
      let sum : n + suc k ≡ 32 = omega arith in
      subst (λ x. P (add_days x (record d { day = 1 }))) sum
        (subst P (sym parts) (behind_last_day k (omega arith)))
