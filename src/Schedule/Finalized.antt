-- ===== src/Schedule/Finalized.antt =====
-- The end of `schedule_finalize_tasks` in `src/kernel/tasks/schedule.c`.
use unnamed_os.Base.{
  Outcome, fault, panic, ℕ, zero, suc, ◌+◌, ◌≡◌, ◌⊎◌, some, none, Option, Bool, true, false, ok,
  if◌then◌else◌, ◌==◌,
}
use unnamed_os.Elf.{elf_unload}
use unnamed_os.Task.{Tasks, Task, stopped, same_state}
use unnamed_os.Task.Create.{Kernel, enable_interrupts, release}
use unnamed_os.Vmm.{Vmm}
use unnamed_os.Task.Lifecycle.{Destroyed}
use unnamed_os.Task.Round.{HasState}

abbrev is_stopped : Option Task → Bool
is_stopped none = false
is_stopped (some t) = same_state t.state stopped

-- How many of the tasks 1 to `n` are stopped.
stopped_count : Tasks → ℕ → ℕ
stopped_count tasks zero = 0
stopped_count tasks (suc n) = (if is_stopped (tasks (suc n)) then 1 else 0) + stopped_count tasks n

-- What the destruction of the task `t` in slot `pid` leaves of the memory manager; an executable is
-- unloaded first.
abbrev pub freed : (pid : ℕ) → Task → Kernel → Vmm
freed pid t k =
    if t.elf == 0
    then (release t (k.task_at pid) (enable_interrupts false k.loader.vmm).1).1
    else (release t (k.task_at pid)
        (enable_interrupts false
          (elf_unload t.elf t.page_directory
            (record k.loader { vmm = (enable_interrupts false k.loader.vmm).1 })).vmm).1).1

-- A step that either destroys a task, or panics because of a page fault.
abbrev Destroying : (k : Kernel) (pid : ℕ) → Vmm → Outcome Kernel → Type 0
Destroying k pid s r =
    ((k' : Kernel) × (r ≡ ok k') × Destroyed k k' pid) ⊎ ((s.faulted ≡ true) × (r ≡ fault panic))

module _ (pid : ℕ) (k : Kernel) (h : HasState k.tasks stopped pid) where
  -- What `elf_destroy_task` gives to `task_destroy`.
  abbrev unloaded : Kernel
  unloaded = record k {
    loader =
        elf_unload h.task.elf h.task.page_directory
          (record k.loader { vmm = (enable_interrupts false k.loader.vmm).1 });
  }

-- No task is stopped in `k'`, and the slots of `k` without a stopped task are as they were.
pub record Finalized (k k' : Kernel) : Type 0 where
  pub none_stopped : (q : ℕ) → ¬ HasState k'.tasks stopped q
  pub others : (q : ℕ) → ¬ HasState k.tasks stopped q → k'.tasks q ≡ k.tasks q
  pub restored : k'.loader.vmm.0.enabled ≡ k.loader.vmm.0.enabled

-- The result of the loop: it has ended, or, with none but stopped tasks gone so far, the destruction of a
-- stopped one has led to a page fault.
pub data Ends (k : Kernel) (r : Outcome (Option Kernel)) : Type 0 where
  finalized : (k' : Kernel) → r ≡ ok (some k') → Finalized k k' → Ends k r
  panicked :
      (pid : ℕ) (k1 : Kernel)
      → ((q : ℕ) → ¬ HasState k.tasks stopped q → k1.tasks q ≡ k.tasks q)
      → (k.loader.vmm.1.faulted ≡ false → k1.loader.vmm.1.faulted ≡ false)
      → (h : HasState k1.tasks stopped pid) → (freed pid h.task k1).faulted ≡ true
      → r ≡ fault panic
      → Ends k r
