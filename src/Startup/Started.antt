-- ===== src/Startup/Started.antt =====
-- What runs, and what is registered, when `main` of `src/kernel/boot/main.c` has ended.
use unnamed_os.Base.{false, ℕ, ◌≡◌, ◌≢◌, refl, ap, ◌∙◌, arith, true, some, ◌==◌, if◌then◌else◌, ok}
use unnamed_os.Mmu.{mmu_init}
use unnamed_os.Descriptors.{gdt_init, get_selector, init_entry}
use unnamed_os.Descriptors.Tss.{tss_init}
use unnamed_os.Dispatch.{Tables, register_handler, register_syscall}
use unnamed_os.Dispatch.Init.{isr_init, syscall_init}
use unnamed_os.Startup.{
  Image, Routines, System, devices_init, create_main2, after_memory, stack_size,
}
use unnamed_os.Vmm.Directories.{modified_page_directory}
use unnamed_os.Task.{Task, Tasks, running}
use unnamed_os.Task.Create.{initial_eflags}
use unnamed_os.Task.Lifecycle.{memory_for, task_create_detailed-Starts}
use unnamed_os.Task.Scan.{Vacant}

module _ {S : Type 0} where
  -- The functions that answer the interrupts 13, 14, 32 and 48, and the system calls 0 to 3; every other
  -- entry of the tables is as before.
  pub record Answers (h : Routines S) (before after : Tables S) : Type 0 where
    pub handlers :
        (n : ℕ)
        → after.handlers n ≡ (
            if n == 48
            then some h.calls.handle_syscall
            else if n == 32
            then some h.timer
            else if n == 14
            then some h.page_fault
            else if n == 13
            then some h.general_protection
            else before.handlers n)
    pub syscalls :
        (n : ℕ)
        → after.syscalls n ≡ (
            if n == 0
            then some h.calls.exit
            else if n == 1
            then some h.calls.getpid
            else if n == 2
            then some h.calls.io_putchar
            else if n == 3
            then some h.calls.io_attr
            else before.syscalls n)

  -- The segments of the kernel have the selectors 8 and 16.
  selectors :
      (image : Image) (h : Routines S) (m : System S)
      → (get_selector (devices_init image h m).kernel.gdt 1 ≡ 8)
        × (get_selector (devices_init image h m).kernel.gdt 2 ≡ 16)
  unfolding devices_init tss_init gdt_init get_selector init_entry
  selectors image h m = (refl, refl)

  devices_init-Answers :
      (image : Image) (h : Routines S) (before : Tables S) (m : System S)
      → m.tables ≡ mmu_init h.page_fault before
      → Answers h before (devices_init image h m).tables
  unfolding devices_init isr_init syscall_init register_handler register_syscall
  devices_init-Answers image h before m e =
      rw e (record { handlers = λ n. ground arith; syscalls = λ n. ground arith })

  -- The state in which `main` ends, `m` being that after `memory_init` and `before` the tables before it: the
  -- task 1 is to run `main2` in the kernel.
  pub record Started (image : Image) (h : Routines S) (before : Tables S) (m m2 : System S)
      : Type 0 where
    pub task : Task
    pub slot : m2.kernel.tasks 1 ≡ some task
    pub is_running : task.state ≡ running
    pub others : (q : ℕ) → q ≢ 1 → m2.kernel.tasks q ≡ m.kernel.tasks q
    pub enters : (m2.kernel.cpu_states task.cpu).eip ≡ image.main2
    pub in_segment : (m2.kernel.cpu_states task.cpu).cs ≡ 8
    pub interruptible : (m2.kernel.cpu_states task.cpu).eflags ≡ initial_eflags
    pub answers : Answers h before m2.tables
    pub enabled : m2.kernel.loader.vmm.0.enabled ≡ true

  devices_init-kernel :
      (image : Image) (h : Routines S) (m : System S)
      → ((devices_init image h m).kernel.tasks ≡ m.kernel.tasks)
        × ((devices_init image h m).kernel.loader.vmm.0.enabled ≡ true)
  unfolding devices_init
  devices_init-kernel image h m = (refl, refl)

  module _ (image : Image) (h : Routines S) (before : Tables S) (m : System S) where
    create_main2-Started :
        m.tables ≡ mmu_init h.page_fault before
        → Vacant m.kernel.tasks 1
        → (memory_for 0 stack_size 0 (devices_init image h m).kernel).task ≢ 0
        → (memory_for 0 stack_size 0 (devices_init image h m).kernel).kernel_stack ≢ 0
        → (modified_page_directory
            (memory_for 0 stack_size 0 (devices_init image h m).kernel).vmm).1.faulted
          ≡ false
        → (m2 : System S) × (create_main2 image (devices_init image h m) ≡ ok (1, m2))
          × Started image h before m m2
    unfolding create_main2
    create_main2-Started registered vacant ht hk reached =
        let ready = devices_init image h m in
        let keeps = devices_init-kernel image h m in
        let (k, runs, starts) =
          task_create_detailed-Starts 1 ready.kernel (omega arith) (omega arith) (rw keeps.0 vacant)
            (λ p lo hi. absurd (omega arith)) image.main2 0 stack_size 0 0 1 2 ht hk reached in
        (
          record ready { kernel = k },
          rw runs refl,
          record {
            task = starts.task;
            slot = starts.slot;
            is_running = starts.is_running;
            others = λ q ne. starts.others q ne ∙ ap (λ (t : Tasks). t q) keeps.0;
            enters = starts.enters;
            in_segment = starts.in_segment ∙ (selectors image h m).0;
            interruptible = starts.interruptible;
            answers = devices_init-Answers image h before m registered;
            enabled = starts.restored ∙ keeps.1;
          },
        )

    -- Where `vmm_init` has registered the handler of page faults, the task list has no task 1, the two
    -- allocations for the new task do not fail, and the page directories that are changed between for it can
    -- be mapped, so that no page fault occurs, the rest of `main` ends with the task 1, which is to run
    -- `main2` in the kernel's code segment with interrupts on. Then interrupts are on, and the interrupts 13, 14,
    -- 32 and 48 and the four system calls have their functions; all other slots of the tables and of the
    -- task list are as they were.
    pub main-Started :
        m.tables ≡ mmu_init h.page_fault before
        → Vacant m.kernel.tasks 1
        → (memory_for 0 stack_size 0 (devices_init image h m).kernel).task ≢ 0
        → (memory_for 0 stack_size 0 (devices_init image h m).kernel).kernel_stack ≢ 0
        → (modified_page_directory
            (memory_for 0 stack_size 0 (devices_init image h m).kernel).vmm).1.faulted
          ≡ false
        → (m2 : System S) × (after_memory image h (some m) ≡ some (ok (1, m2)))
          × Started image h before m m2
    main-Started registered vacant ht hk reached =
        let (m2, runs, started) = create_main2-Started registered vacant ht hk reached in
        (m2, ap some runs, started)
