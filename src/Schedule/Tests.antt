-- ===== src/Schedule/Tests.antt =====
-- The scheduler on three tasks, and the theorems there. The memory manager's state is the page
-- directory loaded last.
use unnamed_os.Base.{
  ==-false, ℕ_discrete, ◌*◌, ℕ, ◌<◌, ◌≡◌, refl, arith, true, false, some, none, update, ok, inr, [],
  ◌∷◌,
}
use unnamed_os.Task
use unnamed_os.Task.{
  Tasks, Task, TaskState, stopped, running, get, get_ticks, set_ticks, get_cpu, set_cpu,
  get_page_directory, stop, scan_used, with_state_loop, get_next_task_with_state,
}
use unnamed_os.Task.Fields.{Holds}
use unnamed_os.Task.Round.{HasState}
use unnamed_os.Schedule.{
  Sched, get_next_task, switch_task, slice_over, leave_task, schedule, syscall_exit,
}
use unnamed_os.Schedule.Switch.{switched, left, ticked}
use unnamed_os.Schedule.Paths.{schedule-idle}
use unnamed_os.Schedule.Exit.{syscall_exit-last}
use unnamed_os.Schedule.RoundRobin.{IsFair, Reaches, round_robin}

abbrev task : TaskState → ℕ → ℕ → Task
task st cpu ticks = record {
  state = st;
  page_directory = 4096 * cpu;
  kernel_stack = 0;
  user_stack = 0;
  kernel_stack_len = 4096;
  user_stack_len = 4096;
  cpu = cpu;
  ticks = ticks;
  vm86 = false;
  elf = 0;
}

abbrev load : ℕ → ℕ → ℕ
load directory _ = directory

abbrev sched : Tasks → ℕ → Sched ℕ
sched tasks current = record {
  tasks = tasks;
  current_task = current;
  ticks_per_time_slice = 1;
  esp0 = 0;
  logging_enabled = true;
  vmm = 0;
}

abbrev tasks : Tasks
tasks =
    update (update (update (λ _. none) 1 (some (task running 100 1))) 2 (some (task running 200 3)))
      4 (some (task running 400 1))

holds : (pid : ℕ) (t : Task) → pid < 1024 → tasks pid ≡ some t → Holds tasks pid t
holds pid t small slot = record { small = small; slot = slot }

four : HasState tasks running 4
four = record {
  task = task running 400 1;
  positive = omega arith;
  small = omega arith;
  slot = refl;
  in_state = refl;
}

-- Slice over in task 1, and a tick in task 2.
schedule_runs :
    (schedule load 111 (sched tasks 1)
      ≡ ok (
        200,
        switched load 2 (task running 200 3) (left (task running 100 1) 111 (sched tasks 1)),
      ))
    × (schedule load 222 (sched tasks 2) ≡ ok (222, ticked (task running 200 3) (sched tasks 2)))
unfolding schedule get_next_task leave_task slice_over switch_task get_next_task_with_state
    with_state_loop Task.get_next_task scan_used get get_ticks set_ticks get_cpu set_cpu
    get_page_directory
schedule_runs = (refl, refl)

schedule-idle_example : schedule load 7 (sched (λ _. none) 3) ≡ ok (7, sched (λ _. none) 3)
schedule-idle_example =
    schedule-idle load 7 (sched (λ _. none) 3) (omega arith) (λ q h. cc (h.slot))

-- Task 2 has two ticks left before its last one.
fair : IsFair 2 (sched tasks 2)
fair = record {
  slice = refl;
  small = omega arith;
  current = inr (task running 200 3, holds 2 (task running 200 3) (omega arith) refl, omega arith);
}

round_robin_example : Reaches load (111 ∷ 222 ∷ 333 ∷ 444 ∷ []) (sched tasks 2) 4
round_robin_example =
    round_robin load (111 ∷ 222 ∷ 333 ∷ 444 ∷ []) (sched tasks 2) 4 2 fair four (omega arith)

abbrev alone : Tasks
alone = update (λ _. none) 3 (some (task running 300 1))

alone_has : HasState alone running 3
alone_has = record {
  task = task running 300 1;
  positive = omega arith;
  small = omega arith;
  slot = refl;
  in_state = refl;
}

alone_only : (q : ℕ) → HasState alone running q → q ≡ 3
alone_only q h = elim (ℕ_discrete q 3) [
  | yes e ↦ e
  | no ne ↦ let slot = rw (==-false q 3 ne) at h.slot in cc slot
]

syscall_exit-last_example :
    let s = sched alone 3 in
    (s' : Sched ℕ) × (syscall_exit load s ≡ ok (300, s'))
    × (s'.current_task ≡ 3)
    × ((q : ℕ) → ¬ HasState s'.tasks running q)
syscall_exit-last_example =
    syscall_exit-last load (sched alone 3) (task running 300 1)
      (record { small = omega arith; slot = refl }) alone_has alone_only
