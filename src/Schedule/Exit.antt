-- ===== src/Schedule/Exit.antt =====
-- `syscall_exit`: what happens to the task that leaves and to the one that follows it.
use unnamed_os.Base.{
  ap, sym, ==-false, ==-refl, ℕ_discrete, ℕ, ◌≡◌, ◌≢◌, refl, arith, ◌∙◌, some, update, ok,
}
use unnamed_os.Task.{Task, running, stopped}
use unnamed_os.Task.Fields.{Holds, Holds-update, Holds-update_ne, stop-ok}
use unnamed_os.Task.Round.{HasState, far}
use unnamed_os.Schedule.{Sched, get_next_task, syscall_exit}
use unnamed_os.Schedule.Switch.{switched, switch_task-ok}
use unnamed_os.Schedule.Paths.{NextUp, next_up}

-- The state with the current task, which is `t`, marked as stopped.
abbrev pub exited : {V : Type 0} → Task → Sched V → Sched V
exited t s = record s {
  tasks = update s.tasks s.current_task (some (record t { state = stopped }));
}

module _ {V : Type 0} (load : ℕ → V → V) (s : Sched V) (t : Task)
    (current : Holds s.tasks s.current_task t) where
  exit-switch :
      (r : ℕ) (n : Task)
      → get_next_task load s ≡ ok r
      → Holds (exited t s).tasks r n
      → syscall_exit load s ≡ ok (n.cpu, switched load r n (exited t s))
  unfolding syscall_exit
  exit-switch r n got holds = rw (got, stop-ok current) (switch_task-ok load r n (exited t s) holds)

  -- A task that exits while another one is running is marked as stopped, and the nearest other
  -- running task becomes the current one.
  pub syscall_exit-switch :
      (q : ℕ)
      → HasState s.tasks running q
      → q ≢ s.current_task
      → (r : ℕ) × (n : Task) × NextUp s.tasks s.current_task r n
        × (r ≢ s.current_task)
        × (syscall_exit load s ≡ ok (n.cpu, switched load r n (exited t s)))
  syscall_exit-switch q has other =
      let (r, n, got, up) = next_up load t.cpu s q current.small has in
      let ne : r ≢ s.current_task = λ e. elim (ℕ_discrete s.current_task 0) [
        | yes z ↦ omega (arith, e, z, up.positive)
        | no busy ↦
            far s.current_task q r e busy current.small has.positive has.small (λ e. other (sym e))
              (up.nearest.nearest q has)
      ] in
      (r, n, up, ne, exit-switch r n got (Holds-update_ne s.current_task _ ne up.holds))

  nobody_left :
      ((q : ℕ) → HasState s.tasks running q → q ≡ s.current_task)
      → (q : ℕ)
      → ¬ HasState
          (switched load s.current_task (record t { state = stopped }) (exited t s)).tasks
          running
          q
  nobody_left only q h = elim (ℕ_discrete q s.current_task) [
    | yes e ↦
        let stopped_slot = rw (e, ==-refl s.current_task) at h.slot in cc (h.in_state, stopped_slot)
    | no ne ↦
        let same_slot = rw (==-false q s.current_task ne) at h.slot in
        ne (
          only q (record {
            task = h.task;
            positive = h.positive;
            small = h.small;
            slot = same_slot;
            in_state = h.in_state;
          }))
  ]

  -- If the task that exits is the only running one, the kernel stops it all the same and resumes
  -- it: it stays the current task, and no task is running any more.
  pub syscall_exit-last :
      HasState s.tasks running s.current_task
      → ((q : ℕ) → HasState s.tasks running q → q ≡ s.current_task)
      → (s' : Sched V) × (syscall_exit load s ≡ ok (t.cpu, s'))
        × (s'.current_task ≡ s.current_task)
        × ((q : ℕ) → ¬ HasState s'.tasks running q)
  syscall_exit-last has only =
      let (r, n, got, up) = next_up load t.cpu s s.current_task current.small has in
      let same = only r up.nearest.has in
      let stopped-t = record t { state = stopped } in
      let there = Holds-update stopped-t current in
      (
        switched load s.current_task stopped-t (exited t s),
        exit-switch s.current_task stopped-t (got ∙ ap (λ (p : ℕ). ok p) same) there,
        refl,
        nobody_left only,
      )
