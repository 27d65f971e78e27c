-- ===== src/Task/Tests.antt =====
-- The searches on a list of three tasks, and the theorems there.
use unnamed_os.Base.{
  zero, suc, is_some, ◌*◌, ℕ, ◌<◌, ◌≡◌, refl, arith, true, false, some, none, update, ok,
}
use unnamed_os.Task.{
  Tasks, Task, TaskState, stopped, running, get, scan_used, get_next_task, with_state_loop,
  get_next_task_with_state,
}
use unnamed_os.Task.Round.{HasState, Nearest, get_next_task_with_state-Nearest}

abbrev task : TaskState → ℕ → Task
task st cpu = record {
  state = st;
  page_directory = 4096 * cpu;
  kernel_stack = 0;
  user_stack = 0;
  kernel_stack_len = 4096;
  user_stack_len = 4096;
  cpu = cpu;
  ticks = 1;
  vm86 = false;
  elf = 0;
}

-- PID 1 and 4 are running, PID 2 is stopped.
abbrev three : Tasks
three =
    update (update (update (λ _. none) 1 (some (task running 100))) 2 (some (task stopped 200))) 4
      (some (task running 400))

next_in_order :
    (get_next_task three 0 ≡ 1)
    × (get_next_task three 1 ≡ 2)
    × (get_next_task three 2 ≡ 4)
    × (get_next_task three 4 ≡ 1)
unfolding get_next_task scan_used
next_in_order = (refl, refl, refl, refl)

next_running :
    (get_next_task_with_state three 1 running ≡ ok 4)
    × (get_next_task_with_state three 4 running ≡ ok 1)
    × (get_next_task_with_state three 4 stopped ≡ ok 2)
    × (get_next_task_with_state three 2 stopped ≡ ok 2)
unfolding get_next_task_with_state with_state_loop get_next_task scan_used get
next_running = (refl, refl, refl, refl)

four : HasState three running 4
four = record {
  task = task running 400;
  positive = omega arith;
  small = omega arith;
  slot = refl;
  in_state = refl;
}

get_next_task_with_state-Nearest_example :
    (r : ℕ) × (get_next_task_with_state three 1 running ≡ ok r) × Nearest three running 1 r
get_next_task_with_state-Nearest_example =
    get_next_task_with_state-Nearest three running 1 4 (omega arith) four

abbrev empty : Tasks
empty _ = none

below_three : (p : ℕ) → 0 < p → p < 3 → is_some (three p) ≡ true
below_three zero lo hi = absurd (omega arith)
below_three (suc zero) lo hi = refl
below_three (suc (suc zero)) lo hi = refl
below_three (suc (suc (suc p))) lo hi = absurd (omega arith)

abbrev full : Tasks
full _ = some (task running 1)
