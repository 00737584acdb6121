-- ===== src/Reports/Calendar.antt =====
-- Dates as Python's datetime has them, and next_run_at of backend/app/reports/scheduler.py. Moments
-- are in UTC; the year has no upper bound.
pub mod Dates
pub mod NextRun
use Prim.Native.Nat.{ℕ, zero, suc, ◌+◌, ◌-◌, ◌*◌, ◌/◌, ◌%◌, min}
use Prim.Native.String.{String}
use mathlib.Core.Bool.{Bool, true, false, ◌&&◌, ◌||◌, not}
use mathlib.Core.Option.{Option, none, some}
use drivee_tolmach.Common.{ltb, leb, nat_eq, ◌==◌, same_string, if◌then◌else◌}

pub record Date : Type 0 where
  pub year : ℕ
  pub month : ℕ
  pub day : ℕ

pub record Time : Type 0 where
  pub hour : ℕ
  pub minute : ℕ
  pub second : ℕ
  pub microsecond : ℕ

pub record Moment : Type 0 where
  pub date : Date
  pub time : Time

pub is_leap : ℕ → Bool
is_leap y = nat_eq (y % 4) 0 && (not (nat_eq (y % 100) 0) || nat_eq (y % 400) 0)

-- The days of February, of the months with 30 days and of the others.
pub days_in_month : ℕ → ℕ → ℕ
unfolding is_leap
days_in_month y m =
    if nat_eq m 2
    then (if is_leap y then 29 else 28)
    else if nat_eq m 4 || (nat_eq m 6 || (nat_eq m 9 || nat_eq m 11))
    then 30
    else 31

-- The days of the months before.
pub days_before_month : ℕ → ℕ → ℕ
unfolding days_in_month
days_before_month y zero = 0
days_before_month y (suc zero) = 0
days_before_month y (suc (suc m)) = days_before_month y (suc m) + days_in_month y (suc m)

pub days_before_year : ℕ → ℕ
days_before_year y = let n = y - 1 in ((n * 365 + n / 4) - n / 100) + n / 400

-- date.toordinal and datetime.isoweekday: ordinal 1, the first of January of year 1, is a Monday.
unfoldable pub toordinal : Date → ℕ
unfolding days_before_month days_before_year
toordinal d = (days_before_year d.year + days_before_month d.year d.month) + d.day

unfoldable pub isoweekday : Date → ℕ
unfolding toordinal
isoweekday d = (toordinal d + 6) % 7 + 1

-- The moments are compared field by field.
abbrev pub micros : Time → ℕ
micros t = ((t.hour * 60 + t.minute) * 60 + t.second) * 1000000 + t.microsecond

abbrev pub day_stamp : Date → ℕ
day_stamp d = (d.year * 12 + d.month) * 32 + d.day

abbrev pub stamp : Moment → ℕ
stamp m = day_stamp m.date * 86400000000 + micros m.time

abbrev pub day : ℕ
day = 86400000000

-- The microseconds since the ordinal 0.
unfoldable pub elapsed : Moment → ℕ
unfolding toordinal
elapsed m = toordinal m.date * day + micros m.time

unfoldable pub next_day : Date → Date
unfolding days_in_month
next_day d =
    if ltb d.day (days_in_month d.year d.month)
    then record d { day = suc d.day }
    else if ltb d.month 12
    then record d { month = suc d.month; day = 1 }
    else record { year = suc d.year; month = 1; day = 1 }

-- `d + timedelta(days=n)`
unfoldable pub add_days : ℕ → Date → Date
unfolding next_day
add_days zero d = d
add_days (suc n) d = add_days n (next_day d)

abbrev pub later : ℕ → Moment → Moment
later n m = record m { date = add_days n m.date }

-- `value or default`
abbrev pub or_default : Option ℕ → ℕ → ℕ
or_default none n = n
or_default (some zero) n = n
or_default (some (suc m)) n = suc m

abbrev pub target_time : Option Time → Time
target_time none = record { hour = 9; minute = 0; second = 0; microsecond = 0 }
target_time (some t) = t

pub data Frequency : Type 0 where
  daily weekly monthly : Frequency

-- The tests on the name of the frequency.
unfoldable pub frequency_of : String → Frequency
frequency_of name = if name == "daily" then daily else if name == "weekly" then weekly else monthly

abbrev after : Moment → Moment → Moment → Moment
after now candidate other = if ltb (stamp now) (stamp candidate) then candidate else other

abbrev on_day : ℕ → Moment → Moment
on_day n m = record m { date = record m.date { day = n } }

next_for : Frequency → Moment → Moment → ℕ → ℕ → Moment
unfolding add_days isoweekday
next_for daily now candidate dow dom = after now candidate (later 1 candidate)
next_for weekly now candidate dow dom =
    let there = later (((dow + 7) - isoweekday now.date) % 7) candidate in
    after now there (later 7 there)
next_for monthly now candidate dow dom =
    let there = on_day (min dom 28) candidate in
    after now there (on_day (min dom 28) (later 32 (on_day 1 there)))

-- `now.replace(hour=…, minute=…, second=0, microsecond=0)`
abbrev pub at_time : Moment → Option Time → Moment
at_time now run_at = record now {
  time = record {
    hour = (target_time run_at).hour;
    minute = (target_time run_at).minute;
    second = 0;
    microsecond = 0;
  };
}

unfoldable pub next_run_at : Moment → String → Option Time → Option ℕ → Option ℕ → Moment
unfolding next_for frequency_of
next_run_at now frequency run_at day_of_week day_of_month =
    next_for (frequency_of frequency) now (at_time now run_at) (or_default day_of_week 1)
      (or_default day_of_month 1)
