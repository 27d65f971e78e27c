-- ===== src/Schedule/Switch.antt =====
-- What `schedule` does on each of its paths, and that none of them faults.
use unnamed_os.Base.{
  sym, ==-false, ==-refl, ltb-true, ltb-false, ℕ, ◌+◌, ◌≤◌, ◌<◌, ◌≡◌, ◌≢◌, true, some, update, u32,
  sub32, ok,
}
use unnamed_os.Task.{Task}
use unnamed_os.Task.Fields.{
  Holds, Holds-update, Holds-update_ne, get_ticks-ok, set_ticks-ok, get_cpu-ok, set_cpu-ok,
  get_page_directory-ok,
}
use unnamed_os.Schedule.{Sched, cpu_state_size, switch_task, slice_over, leave_task}

module _ {V : Type 0} where
  -- The state with one tick taken from the current task, which is `t`.
  abbrev pub ticked : Task → Sched V → Sched V
  ticked t s = record s {
    tasks = update s.tasks s.current_task (some (record t { ticks = sub32 t.ticks 1 }));
  }

  -- The state with the CPU state of the current task saved.
  abbrev pub saved : Task → (cpu : ℕ) → Sched V → Sched V
  saved t cpu s = record s { tasks = update s.tasks s.current_task (some (record t { cpu = cpu })) }

  -- The state in which `schedule` leaves the current task for another one.
  abbrev pub left : Task → (cpu : ℕ) → Sched V → Sched V
  left t cpu s = saved (record t { ticks = sub32 t.ticks 1 }) cpu (ticked t s)

module _ {V : Type 0} (load_page_directory : ℕ → V → V) where
  -- The state after a switch to the task `t` in slot `next`.
  abbrev pub switched : (next : ℕ) (t : Task) → Sched V → Sched V
  switched next t s = record s {
    tasks = update s.tasks next (some (record t { ticks = s.ticks_per_time_slice }));
    current_task = next;
    esp0 = u32 (t.cpu + cpu_state_size);
    logging_enabled = true;
    vmm = load_page_directory t.page_directory s.vmm;
  }

  pub switch_task-ok :
      (next : ℕ) (t : Task) (s : Sched V)
      → Holds s.tasks next t
      → switch_task load_page_directory next s ≡ ok (t.cpu, switched next t s)
  unfolding switch_task
  switch_task-ok next t s h =
      let h' = Holds-update (record t { ticks = s.ticks_per_time_slice }) h in
      rw (
        get_cpu-ok h,
        set_ticks-ok h s.ticks_per_time_slice,
        get_page_directory-ok h',
        get_cpu-ok h',
      )

  pub slice_over-stay :
      (cpu : ℕ) (s : Sched V) (t : Task)
      → Holds s.tasks s.current_task t
      → slice_over load_page_directory s.current_task cpu s ≡ ok (cpu, saved t cpu s)
  unfolding slice_over
  slice_over-stay cpu s t h = rw (set_cpu-ok h cpu, ==-refl s.current_task)

  pub slice_over-switch :
      (next cpu : ℕ) (s : Sched V) (t n : Task)
      → Holds s.tasks s.current_task t
      → Holds s.tasks next n
      → next ≢ s.current_task
      → slice_over load_page_directory next cpu s ≡ ok (n.cpu, switched next n (saved t cpu s))
  unfolding slice_over
  slice_over-switch next cpu s t n h hn ne =
      rw (set_cpu-ok h cpu, ==-false s.current_task next (λ e. ne (sym e)))
        (switch_task-ok next n (saved t cpu s) (Holds-update_ne s.current_task _ ne hn))

  module _ (cpu : ℕ) (s : Sched V) (t : Task) (current : Holds s.tasks s.current_task t) where
    pub leave_task-tick :
        (next : ℕ) → 1 < t.ticks → leave_task load_page_directory next cpu s ≡ ok (cpu, ticked t s)
    unfolding leave_task
    leave_task-tick next h =
        rw (get_ticks-ok current, set_ticks-ok current (sub32 t.ticks 1), ltb-true 1 t.ticks h)

    pub leave_task-over :
        (next : ℕ)
        → t.ticks ≤ 1
        → leave_task load_page_directory next cpu s
          ≡ slice_over load_page_directory next cpu (ticked t s)
    unfolding leave_task
    leave_task-over next h =
        rw (get_ticks-ok current, set_ticks-ok current (sub32 t.ticks 1), ltb-false 1 t.ticks h)
