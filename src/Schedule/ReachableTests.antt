-- ===== src/Schedule/ReachableTests.antt =====
-- The scheduler over a few events: two tasks are created, the timer starts the first one, which exits.
use unnamed_os.Base.{ℕ, ◌*◌, refl, arith, inl, none, some, update, true, false}
use unnamed_os.Task
use unnamed_os.Task.{
  Task, running, add, get_next_task_with_state, with_state_loop, scan_used, get, get_cpu, set_ticks,
  get_page_directory, stop,
}
use unnamed_os.Task.Round.{HasState}
use unnamed_os.Schedule.{Sched, get_next_task, switch_task, schedule, syscall_exit}
use unnamed_os.Schedule.Switch.{switched}
use unnamed_os.Schedule.Exit.{exited}
use unnamed_os.Schedule.Reachable.{
  Reach, here, next, interrupt, exit, create, Resumes, schedule-safe,
}

abbrev added_task : (cpu : ℕ) → Task
added_task cpu = record {
  state = running;
  page_directory = 4096 * cpu;
  kernel_stack = 0;
  user_stack = 0;
  kernel_stack_len = 4096;
  user_stack_len = 4096;
  cpu = cpu;
  ticks = 0;
  vm86 = false;
  elf = 0;
}

abbrev load_directory : ℕ → ℕ → ℕ
load_directory directory _ = directory

abbrev at_boot : Sched ℕ
at_boot = record {
  tasks = λ _. none;
  current_task = 0;
  ticks_per_time_slice = 1;
  esp0 = 0;
  logging_enabled = true;
  vmm = 0;
}

abbrev one_task : Sched ℕ
one_task = record at_boot { tasks = update at_boot.tasks 1 (some (added_task 100)) }

abbrev two_tasks : Sched ℕ
two_tasks = record one_task { tasks = update one_task.tasks 2 (some (added_task 200)) }

abbrev started : Sched ℕ
started = switched load_directory 1 (added_task 100) two_tasks

abbrev left_alone : Sched ℕ
left_alone =
    switched load_directory 2 (added_task 200)
      (exited (record (added_task 100) { ticks = 1 }) started)

second : HasState started.tasks running 2
second = record {
  task = added_task 200;
  positive = omega arith;
  small = omega arith;
  slot = refl;
  in_state = refl;
}

events : Reach load_directory at_boot left_alone
unfolding add schedule get_next_task get_next_task_with_state with_state_loop Task.get_next_task
    scan_used get switch_task get_cpu set_ticks get_page_directory syscall_exit stop
events =
    next
      (next
        (next (next here (create (added_task 100) 1 one_task.tasks refl refl refl))
          (create (added_task 200) 2 two_tasks.tasks refl refl refl))
        (interrupt 7 100 refl))
      (exit 2 200 (λ e. omega arith) second (λ e. omega arith) refl)

schedule-safe_example : Resumes load_directory left_alone (schedule load_directory 9 left_alone)
schedule-safe_example =
    schedule-safe load_directory at_boot left_alone 9
      (record { small = omega arith; current = inl refl }) events
