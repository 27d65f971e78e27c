-- ===== src/Elf/Tasks.antt =====
-- The tasks that run an executable, at the end of `src/kernel/tasks/elf.c`.
use unnamed_os.Base.{ℕ, false, ◌==◌, if◌then◌else◌, Outcome, ok, fault, panic, ◌>>=◌}
use unnamed_os.Elf.{elf_load, elf_unload}
use unnamed_os.Task.{get_elf, get_page_directory}
use unnamed_os.Task.Create.{Kernel, enable_interrupts, task_create_user, task_destroy}
use unnamed_os.Vmm.Directories.{create_page_directory}

-- `elf_create_task`; 0 if there is no file. An executable that does not pass the check gets a task
-- whose entry point is 0.
unfoldable elf_create_task :
    (elf kernel_stack_len user_stack_len : ℕ) → Kernel → Outcome (ℕ × Kernel)
elf_create_task elf kernel_stack_len user_stack_len k =
    let (old_interrupts, (i, s)) = enable_interrupts false k.loader.vmm in
    let (dir, s1) = create_page_directory s in
    let (entry, l) = elf_load elf dir (record k.loader { vmm = (i, s1) }) in
    if elf == 0 then ok (0, k) else do
      (pid, k') ←
          task_create_user entry dir kernel_stack_len user_stack_len elf (record k { loader = l })
      let (_, vmm) = enable_interrupts old_interrupts k'.loader.vmm
      ok (pid, record k' { loader = record k'.loader { vmm = vmm } })

-- `elf_destroy_task`.
unfoldable pub elf_destroy_task : (pid : ℕ) → Kernel → Outcome Kernel
elf_destroy_task pid k = do
  let (old_interrupts, vmm) = enable_interrupts false k.loader.vmm
  elf ← get_elf k.tasks pid
  directory ← get_page_directory k.tasks pid
  k' ←
      task_destroy pid
        (record k { loader = elf_unload elf directory (record k.loader { vmm = vmm }) })
  let (_, vmm') = enable_interrupts old_interrupts k'.loader.vmm
  if vmm'.1.faulted
      then fault panic
      else ok (record k' { loader = record k'.loader { vmm = vmm' } })
