-- ===== src/Task.antt =====
-- The task list, `src/kernel/tasks/task.c`: the array of tasks indexed by PID, the search for a
-- free PID, and the searches for the next task, which the scheduler's round robin rests on.
-- A slot of the array holds a pointer to a task that no other slot holds, so the model keeps the
-- task itself in the slot.
pub mod Scan
mod Tests
mod LifecycleTests
pub mod Examples
pub mod Fields
pub mod Add
pub mod Round
pub mod Find
pub mod Effects
pub mod Create
pub mod Lifecycle
use unnamed_os.Base.{
  ℕ, zero, suc, ◌+◌, Bool, true, false, not, ◌&&◌, Option, none, some, ltb, leb, ◌==◌,
  if◌then◌else◌, is_some, update, u32, Outcome, ok, fault, out_of_bounds, null_dereference, panic,
  ◌>>=◌, ◌>>◌,
}

abbrev pub max_tasks : ℕ
max_tasks = 1024

-- `task_state_t`.
pub data TaskState : Type 0 where
  stopped running : TaskState

abbrev pub same_state : TaskState → TaskState → Bool
same_state stopped stopped = true
same_state running running = true
same_state _ _ = false

-- `task_t`; pointers are addresses.
pub record Task : Type 0 where
  pub state : TaskState
  pub page_directory : ℕ
  pub kernel_stack : ℕ
  pub user_stack : ℕ
  pub kernel_stack_len : ℕ
  pub user_stack_len : ℕ
  pub cpu : ℕ
  pub ticks : ℕ
  pub vm86 : Bool
  pub elf : ℕ

-- `static task_t* tasks[MAX_TASKS]`.
abbrev pub Tasks : Type 0
Tasks = ℕ → Option Task

-- The read `tasks[pid]`.
unfoldable pub read : Tasks → ℕ → Outcome (Option Task)
read tasks pid = if ltb pid max_tasks then ok (tasks pid) else fault out_of_bounds

-- `task_get`, and the dereference that each of its callers makes of its result at once.
unfoldable pub get : Tasks → ℕ → Outcome Task
unfolding read
get tasks pid = do
  slot ← read tasks pid
  elim slot [ none ↦ fault null_dereference | some t ↦ ok t ]

-- The loop of `task_add`. It reads the slot before it tests the index. The fuel is the number of
-- slots, and the loop never uses it up.
unfoldable pub add_loop : Tasks → (fuel pid : ℕ) → Outcome ℕ
unfolding read
add_loop tasks zero pid = ok pid
add_loop tasks (suc fuel) pid = do
  slot ← read tasks pid
  let rest = add_loop tasks fuel (pid + 1)
  if is_some slot && ltb pid max_tasks then rest else ok pid

-- `task_add`: the PID, and the new list.
unfoldable pub add : Tasks → Task → Outcome (ℕ × Tasks)
unfolding add_loop
add tasks t = do
  pid ← add_loop tasks max_tasks 1
  if pid == max_tasks then fault panic else ok (pid, update tasks pid (some t))

-- `task_remove`.
unfoldable pub remove : Tasks → ℕ → Outcome Tasks
remove tasks pid = if ltb pid max_tasks then ok (update tasks pid none) else fault out_of_bounds

-- A store into a field of the task with the given PID.
abbrev pub modify : Tasks → ℕ → (Task → Task) → Outcome Tasks
modify tasks pid f = do t ← get tasks pid; ok (update tasks pid (some (f t)))

-- `task_stop`, `task_get_ticks`, `task_set_ticks`, `task_get_cpu`, `task_set_cpu`,
-- `task_get_page_directory`, `task_get_vm86` and `task_get_elf`.
unfoldable pub stop : Tasks → ℕ → Outcome Tasks
unfolding get
stop tasks pid = modify tasks pid (λ t. record t { state = stopped })

unfoldable pub get_ticks : Tasks → ℕ → Outcome ℕ
unfolding get
get_ticks tasks pid = do t ← get tasks pid; ok t.ticks

unfoldable pub set_ticks : Tasks → (pid ticks : ℕ) → Outcome (ℕ × Tasks)
unfolding get
set_ticks tasks pid ticks = do
  t ← get tasks pid
  ok (t.ticks, update tasks pid (some (record t { ticks = ticks })))

unfoldable pub get_cpu : Tasks → ℕ → Outcome ℕ
unfolding get
get_cpu tasks pid = do t ← get tasks pid; ok t.cpu

unfoldable pub set_cpu : Tasks → (pid cpu : ℕ) → Outcome Tasks
unfolding get
set_cpu tasks pid cpu = modify tasks pid (λ t. record t { cpu = cpu })

unfoldable pub get_page_directory : Tasks → ℕ → Outcome ℕ
unfolding get
get_page_directory tasks pid = do t ← get tasks pid; ok t.page_directory

unfoldable pub get_vm86 : Tasks → ℕ → Outcome Bool
unfolding get
get_vm86 tasks pid = do t ← get tasks pid; ok t.vm86

unfoldable pub get_elf : Tasks → ℕ → Outcome ℕ
unfolding get
get_elf tasks pid = do t ← get tasks pid; ok t.elf

-- The loop `for (; pid < MAX_TASKS && !tasks[pid]; pid++)`, on fuel; as many rounds as there are
-- slots are enough.
unfoldable pub scan_used : Tasks → (fuel pid : ℕ) → ℕ
scan_used tasks zero pid = pid
scan_used tasks (suc fuel) pid =
    let rest = scan_used tasks fuel (pid + 1) in
    if ltb pid max_tasks && not (is_some (tasks pid)) then rest else pid

-- `task_get_next_task`; 0 is "no task".
unfoldable pub get_next_task : Tasks → ℕ → ℕ
get_next_task tasks pid =
    let after = scan_used tasks max_tasks (u32 (pid + 1)) in
    let first = scan_used tasks max_tasks 1 in
    if after == max_tasks then (if first == max_tasks then 0 else first) else after

-- The `do` loop of `task_get_next_task_with_state`. It makes at most `MAX_TASKS + 1` rounds.
unfoldable pub with_state_loop : Tasks → TaskState → (fuel pid pids : ℕ) → Outcome ℕ
with_state_loop tasks state zero pid pids = ok 0
with_state_loop tasks state (suc fuel) pid pids =
    let next = get_next_task tasks pid in
    let rest = with_state_loop tasks state fuel next (pids + 1) in
    if next == 0
    then ok 0
    else if leb (pids + 1) max_tasks
    then get tasks next >>= (λ t. if same_state t.state state then ok next else rest)
    else ok 0

unfoldable pub get_next_task_with_state : Tasks → ℕ → TaskState → Outcome ℕ
get_next_task_with_state tasks pid state = with_state_loop tasks state (max_tasks + 1) pid 0
