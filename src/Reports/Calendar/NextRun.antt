-- ===== src/Reports/Calendar/NextRun.antt =====
-- next_run_at of backend/app/reports/scheduler.py: the next run is scheduled for the time and the day
-- asked for, it is in the future, and no such moment is left out.
use Prim.Native.Nat.{ℕ, zero, suc, ◌+◌, ◌-◌, ◌*◌, ◌%◌, ◌≤◌, ◌<◌, min}
use Prim.Native.String.{String}
use mathlib.Core.Path.{◌≡◌, refl}
use mathlib.Core.Option.{Option, none, some}
use native.Mathlib.Omega.{arith}
use drivee_tolmach.Common.{ltb, ltb→lt, if-cases}
use drivee_tolmach.Reports.Calendar.{
  day, elapsed, Date, Time, Moment, isoweekday, micros, stamp, add_days, later, or_default,
  target_time, Frequency, daily, weekly, monthly, frequency_of, on_day, next_for, at_time,
  next_run_at,
}
use drivee_tolmach.Reports.Calendar.Dates.{
  IsDate, days_in_month-bounds, toordinal-add_days, add_days-IsDate, add_days-later, month_after,
}

unfoldable pub IsMoment : Moment → Type 0
IsMoment m = IsDate m.date × (micros m.time < day)

-- The day is one that the frequency asks for.
pub IsScheduled : Frequency → ℕ → ℕ → Moment → Type 0
IsScheduled daily dow dom m = Unit
IsScheduled weekly dow dom m = isoweekday m.date ≡ dow
IsScheduled monthly dow dom m = m.date.day ≡ min dom 28

-- The next moment is at most one day, one week or one month behind; months are 32 days of a stamp.
pub IsSoon : Frequency → Moment → Moment → Type 0
IsSoon daily now next = elapsed next ≤ elapsed now + day
IsSoon weekly now next = elapsed next ≤ elapsed now + 7 * day
IsSoon monthly now next = stamp next ≤ stamp now + 32 * day

pub IsNext : Frequency → ℕ → ℕ → Moment → Time → Moment → Type 0
IsNext f dow dom now t next =
    IsDate next.date
    × (stamp now < stamp next)
    × (next.time ≡ t)
    × IsScheduled f dow dom next
    × IsSoon f now next

week-isoweekday : (d : Date) → IsDate d → isoweekday (add_days 7 d) ≡ isoweekday d
unfolding isoweekday
week-isoweekday d h = omega (arith, toordinal-add_days 7 d h)

module _ (now : Moment) (t : Time) (valid : IsMoment now) (time : micros t < day) where
  abbrev candidate : Moment
  candidate = record now { time = t }

  IsNext-daily : (dow dom : ℕ) → IsNext daily dow dom now t (next_for daily now candidate dow dom)
  unfolding IsNext IsScheduled IsSoon IsMoment next_for elapsed
  IsNext-daily dow dom =
      let (date, clock) = valid in
      if-cases (IsNext daily dow dom now t) (ltb (stamp now) (stamp candidate)) _ _
        (λ e. (date, ltb→lt _ _ e, refl, tt, omega arith))
        (λ e.
          let old : stamp candidate ≤ stamp now = ground arith in
          let next = add_days-later 1 now.date date in
          let number = toordinal-add_days 1 now.date date in
          (add_days-IsDate 1 now.date date, omega arith, refl, tt, omega arith))

  module _ (dow dom : ℕ) (first : 1 ≤ dow) (last : dow ≤ 7) where
    abbrev ahead : ℕ
    ahead = ((dow + 7) - isoweekday now.date) % 7

    ahead-isoweekday : (n : ℕ) → n % 7 ≡ ahead → isoweekday (add_days n now.date) ≡ dow
    unfolding isoweekday IsMoment
    ahead-isoweekday n h = omega (arith, toordinal-add_days n now.date valid.0)

    IsNext-weekly : IsNext weekly dow dom now t (next_for weekly now candidate dow dom)
    unfolding IsNext IsScheduled IsSoon IsMoment next_for elapsed
    IsNext-weekly =
        let (date, clock) = valid in
        let there = add_days ahead now.date in
        let here : IsDate there = add_days-IsDate ahead now.date date in
        let soon : ahead < 7 = omega arith in
        let number = toordinal-add_days ahead now.date date in
        let right = ahead-isoweekday ahead (omega arith) in
        if-cases (IsNext weekly dow dom now t) (ltb (stamp now) (stamp (later ahead candidate))) _ _
          (λ e. (here, ltb→lt _ _ e, refl, right, omega arith))
          (λ e.
            let old : stamp (later ahead candidate) ≤ stamp now = ground arith in
            let farther = add_days-later ahead now.date date in
            let next = add_days-later 7 there here in
            let number' = toordinal-add_days 7 there here in
            let today : ahead ≡ 0 = omega arith in
            (
              add_days-IsDate 7 there here,
              omega arith,
              refl,
              rw (week-isoweekday there here) right,
              omega arith,
            ))

  module _ (dow dom : ℕ) (first : 1 ≤ dom) where
    abbrev chosen : ℕ
    chosen = min dom 28

    -- The first of the month and 32 days are in the next month.
    IsNext-monthly : IsNext monthly dow dom now t (next_for monthly now candidate dow dom)
    unfolding IsNext IsScheduled IsSoon IsMoment IsDate next_for
    IsNext-monthly =
        let (date, clock) = valid in
        let (y, m, m', k, k') = date in
        let long = days_in_month-bounds now.date.year now.date.month in
        if-cases (IsNext monthly dow dom now t) (ltb (stamp now) (stamp (on_day chosen candidate)))
          _ _ (λ e. ((y, m, m', omega arith, omega arith), ltb→lt _ _ e, refl, refl, omega arith))
          (λ e.
            let old : stamp (on_day chosen candidate) ≤ stamp now = ground arith in
            month_after
              (λ x.
                IsNext monthly dow dom now t
                  (record candidate { date = record x { day = chosen } }))
              now.date date
              (λ y1 m1 n1 y2 m2 m3 step.
                let long' = days_in_month-bounds y1 m1 in
                ((y2, m2, m3, omega arith, omega arith), omega arith, refl, refl, omega arith)))

next_for-IsNext :
    (f : Frequency) (now : Moment) (t : Time) (dow dom : ℕ)
    → IsMoment now
    → micros t < day
    → 1 ≤ dow
    → dow ≤ 7
    → 1 ≤ dom
    → IsNext f dow dom now t (next_for f now (record now { time = t }) dow dom)
next_for-IsNext daily now t dow dom valid time _ _ _ = IsNext-daily now t valid time dow dom
next_for-IsNext weekly now t dow dom valid time first last _ =
    IsNext-weekly now t valid time dow dom first last
next_for-IsNext monthly now t dow dom valid time _ _ first =
    IsNext-monthly now t valid time dow dom first

or_default-positive : (o : Option ℕ) → 1 ≤ or_default o 1
or_default-positive none = omega arith
or_default-positive (some zero) = omega arith
or_default-positive (some (suc n)) = omega arith

-- For a valid moment, a time of the clock and no day of the week beyond Sunday, the next run is at a
-- date of the calendar, later than now, at the hour and minute asked for (nine o'clock if none is),
-- on the day of the week or the month that the frequency asks for (at most the 28th), and not more
-- than a day, a week or a month behind now.
pub next_run_at-IsNext :
    (now : Moment) (frequency : String) (run_at : Option Time) (day_of_week day_of_month : Option ℕ)
    → IsMoment now
    → (target_time run_at).hour ≤ 23
    → (target_time run_at).minute ≤ 59
    → or_default day_of_week 1 ≤ 7
    → IsNext
        (frequency_of frequency)
        (or_default day_of_week 1)
        (or_default day_of_month 1)
        now
        (at_time now run_at).time
        (next_run_at now frequency run_at day_of_week day_of_month)
unfolding next_run_at
next_run_at-IsNext now frequency run_at day_of_week day_of_month valid hour minute week =
    next_for-IsNext (frequency_of frequency) now (at_time now run_at).time
      (or_default day_of_week 1) (or_default day_of_month 1) valid (omega arith)
      (or_default-positive day_of_week) week (or_default-positive day_of_month)
