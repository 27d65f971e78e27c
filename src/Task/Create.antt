-- ===== src/Task/Create.antt =====
-- The creation and the destruction of tasks, `src/kernel/tasks/task.c`, on top of the memory
-- manager. What `vmm_alloc` returns is memory that nobody has cleared: a field that the code does
-- not set keeps what was there, which the state gives by address. A null pointer that `vmm_alloc`
-- returns is not tested, and writing through it is a fault.
use unnamed_os.Base.{
  ℕ, ◌+◌, Bool, false, ◌==◌, ◌||◌, if◌then◌else◌, update, u32, sub32, Outcome, ok, fault,
  null_dereference, panic, ◌>>=◌,
}
use unnamed_os.Descriptors.{Gdt, get_selector}
use unnamed_os.Elf.{Loader}
use unnamed_os.Task.{Tasks, Task, running, same_state, get, add, remove}
use unnamed_os.Vmm.{Vmm, vmm_kernel, vmm_user, vmm_writable}
use unnamed_os.Vmm.Directories.{
  Interrupts, create_page_directory, destroy_page_directory, modify_page_directory,
  modified_page_directory,
}
use unnamed_os.Vmm.Memory.{vmm_alloc, vmm_free}

-- `isr_registers_t`.
pub record Registers : Type 0 where
  pub edi : ℕ
  pub esi : ℕ
  pub ebp : ℕ
  pub esp : ℕ
  pub ebx : ℕ
  pub edx : ℕ
  pub ecx : ℕ
  pub eax : ℕ

-- `cpu_state_t`.
pub record CpuState : Type 0 where
  pub gs : ℕ
  pub fs : ℕ
  pub es : ℕ
  pub ds : ℕ
  pub r : Registers
  pub intr : ℕ
  pub error : ℕ
  pub eip : ℕ
  pub cs : ℕ
  pub eflags : ℕ
  pub user_esp : ℕ
  pub user_ss : ℕ
  pub vm86_es : ℕ
  pub vm86_ds : ℕ
  pub vm86_fs : ℕ
  pub vm86_gs : ℕ

-- The task list with the pointers in its slots, the memory manager with the interrupt flag, the
-- CPU states in memory by address, the descriptor table, and what the fields `ticks` and `elf` of
-- a `task_t` at an address hold before they are set.
pub record Kernel : Type 0 where
  pub tasks : Tasks
  pub task_at : ℕ → ℕ
  pub loader : Loader
  pub cpu_states : ℕ → CpuState
  pub gdt : Gdt
  pub stale_ticks : ℕ → ℕ
  pub stale_elf : ℕ → ℕ

-- `sizeof(task_t)`, and `sizeof(cpu_state_t)` and one.
abbrev pub task_size : ℕ
task_size = 40

abbrev cpu_state_room : ℕ
cpu_state_room = 93

-- The flags that a new CPU state has: IF, and the bit that is always set.
abbrev pub initial_eflags : ℕ
initial_eflags = 512 + 2

-- `isr_enable_interrupts`: the previous flag, and the state.
abbrev pub enable_interrupts : Bool → Interrupts × Vmm → Bool × (Interrupts × Vmm)
enable_interrupts enable (i, s) = (i.enabled, (record i { enabled = enable }, s))

-- The memory that `task_create_detailed` takes for a task, and the memory manager after that.
pub record TaskMemory : Type 0 where
  pub task : ℕ
  pub directory : ℕ
  pub kernel_stack : ℕ
  pub user_stack : ℕ
  pub vmm : Interrupts × Vmm

abbrev pub directory_for : (page_directory : ℕ) → Vmm → ℕ × Vmm
directory_for page_directory s =
    if page_directory == 0 then create_page_directory s else (page_directory, s)

unfoldable pub task_memory :
    (page_directory kernel_stack_len user_stack_len : ℕ) → Interrupts × Vmm → TaskMemory
task_memory page_directory kernel_stack_len user_stack_len (i, s) =
    let (task, s1) = vmm_alloc task_size vmm_kernel s in
    let (directory, s2) = directory_for page_directory s1 in
    let (i1, s3) = modify_page_directory directory (i, s2) in
    let (kernel_stack, s4) = vmm_alloc kernel_stack_len vmm_kernel s3 in
    let (user_stack, s5) = vmm_alloc user_stack_len (vmm_user + vmm_writable) s4 in
    record {
      task = task;
      directory = directory;
      kernel_stack = kernel_stack;
      user_stack = user_stack;
      vmm = (i1, s5);
    }

-- The CPU state at the top of the kernel stack.
abbrev pub cpu_at : (kernel_stack kernel_stack_len : ℕ) → ℕ
cpu_at kernel_stack kernel_stack_len = sub32 (u32 (kernel_stack + kernel_stack_len)) cpu_state_room

abbrev initial_registers : Registers → Registers
initial_registers r = record r { edi = 0; esi = 0; ebp = 0; ebx = 0; edx = 0; ecx = 0; eax = 0 }

abbrev pub initial_cpu : (code data_selector entry_point user_esp : ℕ) → CpuState → CpuState
initial_cpu code data_selector entry_point user_esp cpu = record cpu {
  gs = data_selector;
  fs = data_selector;
  es = data_selector;
  ds = data_selector;
  r = initial_registers cpu.r;
  eip = entry_point;
  cs = code;
  eflags = initial_eflags;
  user_esp = user_esp;
  user_ss = data_selector;
}

-- What `task_create_detailed` and `vm86_create_task` do last: the previous page directory, the
-- task list, and the interrupt flag.
unfoldable pub enlist :
    Task → (task : ℕ) → (old_interrupts : Bool) → Interrupts × Vmm → Kernel → Outcome (ℕ × Kernel)
enlist t task old_interrupts vmm k = do
  (pid, tasks) ← add k.tasks t
  let (_, vmm') = enable_interrupts old_interrupts (modified_page_directory vmm)
  if vmm'.1.faulted
      then fault panic
      else ok (
        pid,
        record k {
          tasks = tasks;
          task_at = update k.task_at pid task;
          loader = record k.loader { vmm = vmm' };
        },
      )

abbrev pub new_task : TaskMemory → (kernel_stack_len user_stack_len elf ticks : ℕ) → Task
new_task m kernel_stack_len user_stack_len elf ticks = record {
  state = running;
  page_directory = m.directory;
  kernel_stack = m.kernel_stack;
  user_stack = m.user_stack;
  kernel_stack_len = kernel_stack_len;
  user_stack_len = user_stack_len;
  cpu = cpu_at m.kernel_stack kernel_stack_len;
  ticks = ticks;
  vm86 = false;
  elf = elf;
}

-- `task_create_detailed`: the PID, and the state.
unfoldable pub task_create_detailed :
    (entry_point page_directory kernel_stack_len user_stack_len elf code_segment data_segment : ℕ)
    → Kernel
    → Outcome (ℕ × Kernel)
task_create_detailed entry_point page_directory kernel_stack_len user_stack_len elf code_segment
      data_segment k =
    let (old_interrupts, vmm) = enable_interrupts false k.loader.vmm in
    let m = task_memory page_directory kernel_stack_len user_stack_len vmm in
    let cpu = cpu_at m.kernel_stack kernel_stack_len in
    let state =
      initial_cpu (get_selector k.gdt code_segment) (get_selector k.gdt data_segment) entry_point
        (sub32 (u32 (m.user_stack + user_stack_len)) 1) (k.cpu_states cpu) in
    if m.task == 0 || m.kernel_stack == 0
    then fault null_dereference
    else enlist (new_task m kernel_stack_len user_stack_len elf (k.stale_ticks m.task)) m.task
        old_interrupts m.vmm (record k { cpu_states = update k.cpu_states cpu state })

-- `task_create_kernel` and `task_create_user`.
abbrev pub task_create_kernel :
    (entry_point page_directory kernel_stack_len : ℕ) → Kernel → Outcome (ℕ × Kernel)
task_create_kernel entry_point page_directory kernel_stack_len k =
    task_create_detailed entry_point page_directory kernel_stack_len 0 0 1 2 k

abbrev pub task_create_user :
    (entry_point page_directory kernel_stack_len user_stack_len elf : ℕ)
    → Kernel
    → Outcome (ℕ × Kernel)
task_create_user entry_point page_directory kernel_stack_len user_stack_len elf k =
    task_create_detailed entry_point page_directory kernel_stack_len user_stack_len elf 3 4 k

-- The memory that `task_destroy` gives back.
unfoldable pub release : Task → (task : ℕ) → Interrupts × Vmm → Interrupts × Vmm
release t task vmm =
    let (i1, s1) = modify_page_directory t.page_directory vmm in
    let s2 =
      vmm_free t.user_stack t.user_stack_len (vmm_free t.kernel_stack t.kernel_stack_len s1) in
    let (i3, s3) = modified_page_directory (i1, s2) in
    (i3, vmm_free task task_size (destroy_page_directory t.page_directory s3))

-- `task_destroy`. For a running task it returns before it restores the interrupt flag.
unfoldable pub task_destroy : (pid : ℕ) → Kernel → Outcome Kernel
task_destroy pid k = do
  let (old_interrupts, vmm) = enable_interrupts false k.loader.vmm
  t ← get k.tasks pid
  if same_state t.state running
      then ok (record k { loader = record k.loader { vmm = vmm } })
      else do
        tasks ← remove k.tasks pid
        let (_, vmm') = enable_interrupts old_interrupts (release t (k.task_at pid) vmm)
        if vmm'.1.faulted
            then fault panic
            else ok (record k { tasks = tasks; loader = record k.loader { vmm = vmm' } })
