-- ===== src/Schedule/Finalize.antt =====
-- `schedule_finalize_tasks` of `src/kernel/tasks/schedule.c`: every task that has been stopped is
-- destroyed.
use unnamed_os.Base.{ℕ, zero, suc, ◌==◌, if◌then◌else◌, Option, none, some, Outcome, ok, ◌>>=◌}
use unnamed_os.Elf.Tasks.{elf_destroy_task}
use unnamed_os.Task.{get_elf, get_next_task_with_state, stopped}
use unnamed_os.Task.Create.{Kernel, task_destroy}

-- The body of the loop, for the stopped task `pid`.
unfoldable pub finalize_task : (pid : ℕ) → Kernel → Outcome Kernel
finalize_task pid k = do
  elf ← get_elf k.tasks pid
  if elf == 0 then task_destroy pid k else elf_destroy_task pid k

-- The loop, on fuel; `none` says that it is still running.
unfoldable pub finalize_loop : (fuel pid : ℕ) → Kernel → Outcome (Option Kernel)
finalize_loop zero pid k = ok none
finalize_loop (suc fuel) pid k = do
  let rest = λ (next : ℕ) (k' : Kernel). finalize_loop fuel next k'
  next ← get_next_task_with_state k.tasks pid stopped
  if next == 0 then ok (some k) else finalize_task next k >>= rest next

unfoldable pub schedule_finalize_tasks : (fuel : ℕ) → Kernel → Outcome (Option Kernel)
schedule_finalize_tasks fuel k = finalize_loop fuel 0 k
