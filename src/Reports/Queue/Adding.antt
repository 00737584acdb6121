-- ===== src/Reports/Queue/Adding.antt =====
-- What enqueue_due_schedules of backend/app/reports/scheduler.py does to the table of runs, one run after
-- the other, and the schedules that it creates no run for.
use Prim.Native.Nat.{ℕ, suc, ◌≤◌}
use mathlib.Core.Path.{◌≡◌, refl}
use mathlib.Core.Logic.{inl, inr}
use mathlib.Core.Bool.{true, false}
use mathlib.Core.Option.{Option, none, some}
use mathlib.Core.List.{List, [], ◌∷◌, ◌++◌}
use native.Mathlib.Omega.{arith}
use drivee_tolmach.Common.{nat_eq, nat_eq_iff, All, All-append, Bool-cases, if-cases}
use drivee_tolmach.Settings.{Settings}
use drivee_tolmach.Reports.Calendar.{Moment}
use drivee_tolmach.Reports.Records.{ScheduleRun, Report, Schedule}
use drivee_tolmach.Reports.Queue.{
  Queue, same_key, active_count, find_report, run_record, create_run_record, due_schedules,
  enqueue_report, enqueue_one, enqueue_all, enqueue_due_schedules,
}
use drivee_tolmach.Reports.Queue.Active.{active_count-append}

-- What a new run with the next id preserves.
module _ {κ} (P : Queue → Type κ) (now : Moment)
    (step : (q : Queue) (new : ScheduleRun) (schedules : List Schedule)
      → P q
      → new.id ≡ q.next_run_id
      → P (record q {
        schedules = schedules;
        runs = q.runs ++ new ∷ [];
        next_run_id = suc q.next_run_id;
      })) where
  enqueue_report-step :
      (s : Schedule) (o : Option Report) (q : Queue) → P q → P (enqueue_report now s o q).1
  unfolding enqueue_report create_run_record run_record
  enqueue_report-step s none q p = p
  enqueue_report-step s (some report) q p = step q _ _ p refl

  enqueue_one-step : (s : Schedule) (q : Queue) → P q → P (enqueue_one now s q).1
  unfolding enqueue_one
  enqueue_one-step s q p =
      if-cases {A = List ScheduleRun × Queue} (λ x. P x.1) (nat_eq (active_count s.id q.runs) 0) _ _
        (λ _. enqueue_report-step s (find_report s.report_id q.reports) q p) (λ _. p)

  enqueue_all-step : (ss : List Schedule) (q : Queue) → P q → P (enqueue_all now ss q).1
  unfolding enqueue_all
  enqueue_all-step [] q p = p
  enqueue_all-step (s ∷ ss) q p =
      enqueue_all-step ss (enqueue_one now s q).1 (enqueue_one-step s q p)

  pub enqueue_due_schedules-step :
      (settings : Settings) (limit : Option ℕ) (q : Queue)
      → P q
      → P (enqueue_due_schedules settings now limit q).1
  unfolding enqueue_due_schedules
  enqueue_due_schedules-step settings limit q p =
      enqueue_all-step (due_schedules settings now limit q.schedules) q p

-- A run of another schedule.
abbrev pub IsElsewhere : ℕ → ScheduleRun → Type 0
IsElsewhere id run = same_key run.schedule_id id ≡ false

module _ (id : ℕ) (now : Moment) where
  abbrev IsBusy : Queue → Type 0
  IsBusy q = 1 ≤ active_count id q.runs

  IsBusy-step :
      (q : Queue) (new : ScheduleRun) (schedules : List Schedule)
      → IsBusy q
      → new.id ≡ q.next_run_id
      → IsBusy (record q {
        schedules = schedules;
        runs = q.runs ++ new ∷ [];
        next_run_id = suc q.next_run_id;
      })
  IsBusy-step q new schedules busy _ = omega (arith, active_count-append id q.runs (new ∷ []))

  enqueue_report-IsElsewhere :
      (s : Schedule) (o : Option Report) (q : Queue)
      → nat_eq s.id id ≡ false
      → All (IsElsewhere id) (enqueue_report now s o q).0
  unfolding enqueue_report create_run_record run_record
  enqueue_report-IsElsewhere s none q e = tt
  enqueue_report-IsElsewhere s (some report) q e = (e, tt)

  enqueue_one-IsElsewhere :
      (s : Schedule) (q : Queue) → IsBusy q → All (IsElsewhere id) (enqueue_one now s q).0
  unfolding enqueue_one
  enqueue_one-IsElsewhere s q busy =
      if-cases {A = List ScheduleRun × Queue} (λ x. All (IsElsewhere id) x.0)
        (nat_eq (active_count s.id q.runs) 0) _ _
        (λ e.
          enqueue_report-IsElsewhere s (find_report s.report_id q.reports) q
            (elim (Bool-cases (nat_eq s.id id)) [
              | inl same ↦ absurd (idle s.id q same e busy)
              | inr other ↦ other
            ]))
        (λ _. tt)
    where
      idle :
          (n : ℕ) (q : Queue)
          → nat_eq n id ≡ true
          → nat_eq (active_count n q.runs) 0 ≡ true
          → IsBusy q
          → ⊥
      idle n q same free busy =
          let here : n ≡ id = (nat_eq_iff n id).0 same in
          let empty : active_count n q.runs ≡ 0 = (nat_eq_iff _ _).0 free in
          let gone : active_count id q.runs ≡ 0 = rw (← here) empty in omega arith

  enqueue_all-IsElsewhere :
      (ss : List Schedule) (q : Queue) → IsBusy q → All (IsElsewhere id) (enqueue_all now ss q).0
  unfolding enqueue_all
  enqueue_all-IsElsewhere [] q busy = tt
  enqueue_all-IsElsewhere (s ∷ ss) q busy =
      All-append (IsElsewhere id) (enqueue_one now s q).0
        (enqueue_all now ss (enqueue_one now s q).1).0 (enqueue_one-IsElsewhere s q busy)
        (enqueue_all-IsElsewhere ss (enqueue_one now s q).1
          (enqueue_one-step IsBusy now IsBusy-step s q busy))

  -- No run is created for a schedule with a run that is queued or running.
  pub enqueue_due_schedules-IsElsewhere :
      (settings : Settings) (limit : Option ℕ) (q : Queue)
      → 1 ≤ active_count id q.runs
      → All (IsElsewhere id) (enqueue_due_schedules settings now limit q).0
  unfolding enqueue_due_schedules
  enqueue_due_schedules-IsElsewhere settings limit q busy =
      enqueue_all-IsElsewhere (due_schedules settings now limit q.schedules) q busy
