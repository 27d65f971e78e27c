-- ===== src/Schedule/Paths.antt =====
-- `schedule` on each of its paths. None of them faults.
use unnamed_os.Base.{
  ==-false, ==-refl, ℕ_discrete, ℕ, ◌≤◌, ◌<◌, ◌≡◌, ◌≢◌, arith, ◌∙◌, true, ◌==◌, if◌then◌else◌,
  sub32, ok,
}
use unnamed_os.Task.{Tasks, Task, max_tasks, running}
use unnamed_os.Task.Fields.{Holds, Holds-update, Holds-update_ne}
use unnamed_os.Task.Round.{
  HasState, Nearest, get_next_task_with_state-Nearest, get_next_task_with_state-none,
}
use unnamed_os.Schedule.{Sched, get_next_task, slice_over, schedule}
use unnamed_os.Schedule.Switch.{
  switched, left, switch_task-ok, ticked, leave_task-tick, leave_task-over, slice_over-stay,
  slice_over-switch,
}

-- The task that the scheduler goes to next.
pub record NextUp (tasks : Tasks) (current r : ℕ) (n : Task) : Type 0 where
  pub nearest : Nearest tasks running current r
  pub holds : Holds tasks r n
  pub positive : 0 < r

module _ {V : Type 0} (load_page_directory : ℕ → V → V) (cpu : ℕ) (s : Sched V) where
  pub next_up :
      (q : ℕ)
      → s.current_task < max_tasks
      → HasState s.tasks running q
      → (r : ℕ) × (n : Task) × (get_next_task load_page_directory s ≡ ok r)
        × NextUp s.tasks s.current_task r n
  unfolding get_next_task
  next_up q small has =
      let (r, e, near) =
        get_next_task_with_state-Nearest s.tasks running s.current_task q small has in
      (
        r,
        near.has.task,
        e,
        record {
          nearest = near;
          holds = record { small = near.has.small; slot = near.has.slot };
          positive = near.has.positive;
        },
      )

  idle :
      s.current_task < max_tasks
      → ((q : ℕ) → ¬ HasState s.tasks running q)
      → get_next_task load_page_directory s ≡ ok 0
  unfolding get_next_task
  idle = get_next_task_with_state-none s.tasks running s.current_task

  -- With no running task `schedule` changes nothing.
  pub schedule-idle :
      s.current_task < max_tasks
      → ((q : ℕ) → ¬ HasState s.tasks running q)
      → schedule load_page_directory cpu s ≡ ok (cpu, s)
  unfolding schedule
  schedule-idle small no_such = rw (idle small no_such)

  -- With no current task `schedule` switches to the first running one.
  pub schedule-first :
      (q : ℕ)
      → s.current_task ≡ 0
      → HasState s.tasks running q
      → (r : ℕ) × (n : Task) × NextUp s.tasks s.current_task r n
        × (schedule load_page_directory cpu s ≡ ok (n.cpu, switched load_page_directory r n s))
  unfolding schedule
  schedule-first q e has =
      let (r, n, got, up) = next_up q (omega arith) has in
      let z : (s.current_task == 0) ≡ true = ground arith in
      (
        r,
        n,
        up,
        rw (got, ==-false r 0 (omega (arith, up.positive)), z)
            (switch_task-ok load_page_directory r n s up.holds),
      )

  module _ (t : Task) (q : ℕ) (busy : s.current_task ≢ 0) (current : Holds s.tasks s.current_task t)
      (has : HasState s.tasks running q) where
    -- While the time slice of the current task lasts, `schedule` takes one tick from it and goes
    -- on with the task.
    pub schedule-tick : 1 < t.ticks → schedule load_page_directory cpu s ≡ ok (cpu, ticked t s)
    unfolding schedule
    schedule-tick h =
        let (r, n, got, up) = next_up q current.small has in
        rw (got, ==-false r 0 (omega (arith, up.positive)), ==-false s.current_task 0 busy)
          (leave_task-tick load_page_directory cpu s t current r h)

    go_on :
        (r : ℕ) (n : Task)
        → NextUp s.tasks s.current_task r n
        → slice_over load_page_directory r cpu (ticked t s) ≡ (
            if r == s.current_task
            then ok (cpu, left t cpu s)
            else ok (n.cpu, switched load_page_directory r n (left t cpu s)))
    go_on r n up =
        let here = Holds-update (record t { ticks = sub32 t.ticks 1 }) current in
        elim (ℕ_discrete r s.current_task) [
          | yes e ↦
              rw (e, ==-refl s.current_task)
                (slice_over-stay load_page_directory cpu (ticked t s) _ here)
          | no ne ↦ rw (==-false _ _ ne) (
              slice_over-switch load_page_directory r cpu (ticked t s) _ n here
                (Holds-update_ne s.current_task _ ne up.holds) ne)
        ]

    -- When the time slice is over, `schedule` saves the CPU state of the current task and resumes
    -- the nearest running task; if that is the current one, it goes on with it.
    pub schedule-over :
        t.ticks ≤ 1
        → (r : ℕ) × (n : Task) × NextUp s.tasks s.current_task r n
          × (schedule load_page_directory cpu s ≡ (
              if r == s.current_task
              then ok (cpu, left t cpu s)
              else ok (n.cpu, switched load_page_directory r n (left t cpu s))))
    unfolding schedule
    schedule-over h =
        let (r, n, got, up) = next_up q current.small has in
        (
          r,
          n,
          up,
          rw (got, ==-false r 0 (omega (arith, up.positive)), ==-false s.current_task 0 busy)
              (leave_task-over load_page_directory cpu s t current r h ∙ go_on r n up),
        )
