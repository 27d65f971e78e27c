-- ===== src/Schedule.antt =====
-- The scheduler, `src/kernel/tasks/schedule.c`, and the system calls that ask for it,
-- `syscall_exit` and `syscall_getpid` of `src/kernel/interrupts/syscall.c`.
-- The memory manager's state and its `vmm_load_page_directory` are parameters. The messages on
-- the screen are left out.
pub mod Switch
mod Tests
pub mod Exit
pub mod RoundRobin
pub mod Paths
pub mod Reachable
mod ReachableTests
pub mod Finalize
pub mod Finalized
use unnamed_os.Base.{
  ℕ, ◌+◌, ◌<◌, Bool, true, false, ◌==◌, ltb, if◌then◌else◌, u32, sub32, Outcome, ok, ◌>>=◌, ◌>>◌,
}
use unnamed_os.Task.{
  Tasks, get_ticks, set_ticks, get_cpu, set_cpu, get_page_directory, get_next_task_with_state, stop,
  running,
}

-- `sizeof(cpu_state_t)`.
abbrev pub cpu_state_size : ℕ
cpu_state_size = 92

-- The static variables of schedule.c, and what `schedule_switch_task` writes elsewhere: the
-- task list, the kernel stack of the task state segment (`tss.esp0`), the flag of
-- `io_set_logging`, and the memory manager.
pub record Sched (V : Type 0) : Type 0 where
  pub tasks : Tasks
  pub current_task : ℕ
  pub ticks_per_time_slice : ℕ
  pub esp0 : ℕ
  pub logging_enabled : Bool
  pub vmm : V

module _ {V : Type 0} (load_page_directory : ℕ → V → V) where
  -- `schedule_get_next_task`.
  unfoldable pub get_next_task : Sched V → Outcome ℕ
  get_next_task s = get_next_task_with_state s.tasks s.current_task running

  -- `schedule_switch_task`: the CPU state to resume, and the state.
  unfoldable pub switch_task : ℕ → Sched V → Outcome (ℕ × Sched V)
  switch_task next s = do
    cpu ← get_cpu s.tasks next
    (old_ticks, tasks) ← set_ticks s.tasks next s.ticks_per_time_slice
    directory ← get_page_directory tasks next
    cpu' ← get_cpu tasks next
    ok (
      cpu',
      record s {
        tasks = tasks;
        current_task = next;
        esp0 = u32 (cpu + cpu_state_size);
        logging_enabled = true;
        vmm = load_page_directory directory s.vmm;
      },
    )

  -- What `schedule` does when the time slice of the task to leave is over.
  unfoldable pub slice_over : (next cpu : ℕ) → Sched V → Outcome (ℕ × Sched V)
  slice_over next cpu s = do
    tasks ← set_cpu s.tasks s.current_task cpu
    if s.current_task == next
        then ok (cpu, record s { tasks = tasks })
        else switch_task next (record s { tasks = tasks })

  -- What `schedule` does with a task to go to and a task to leave.
  unfoldable pub leave_task : (next cpu : ℕ) → Sched V → Outcome (ℕ × Sched V)
  leave_task next cpu s = do
    ticks ← get_ticks s.tasks s.current_task
    (old_ticks, tasks) ← set_ticks s.tasks s.current_task (sub32 ticks 1)
    if ltb 1 old_ticks
        then ok (cpu, record s { tasks = tasks })
        else slice_over next cpu (record s { tasks = tasks })

  -- `schedule`.
  unfoldable pub schedule : (cpu : ℕ) → Sched V → Outcome (ℕ × Sched V)
  schedule cpu s = do
    next ← get_next_task s
    if next == 0
        then ok (cpu, s)
        else if s.current_task == 0
        then switch_task next s
        else leave_task next cpu s

  -- `syscall_exit`: the CPU state that it stores through its last argument. The message about
  -- the last task stops nothing.
  unfoldable pub syscall_exit : Sched V → Outcome (ℕ × Sched V)
  syscall_exit s = do
    next ← get_next_task s
    tasks ← stop s.tasks s.current_task
    switch_task next (record s { tasks = tasks })

-- `syscall_getpid`, which is `schedule_get_current_task`.
abbrev syscall_getpid : {V : Type 0} → Sched V → ℕ
syscall_getpid s = s.current_task
