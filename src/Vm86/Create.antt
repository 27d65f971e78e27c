-- ===== src/Vm86/Create.antt =====
-- The creation of virtual 8086 tasks and the call of the BIOS, `src/kernel/tasks/vm86.c`.
-- The addresses of the code in vm86_asm.S are parameters. The memory that the code writes is the
-- one that the task's page directory shows.
use unnamed_os.Base.{
  ℕ, ◌+◌, true, false, ◌==◌, ◌||◌, not, if◌then◌else◌, update, u32, sub32, Outcome, ok, fault,
  null_dereference, ◌>>=◌,
}
use unnamed_os.Descriptors.{get_selector}
use unnamed_os.Strings.{memcpy}
use unnamed_os.Task.{Task, running}
use unnamed_os.Task.Create.{
  Registers, CpuState, Kernel, task_size, initial_eflags, enable_interrupts, directory_for, cpu_at,
  enlist,
}
use unnamed_os.Vm86.{lower_memory, get_farptr}
use unnamed_os.Vmm.{Vmm, vmm_kernel, vmm_user, vmm_writable, map_range}
use unnamed_os.Vmm.Directories.{Interrupts, modify_page_directory}
use unnamed_os.Vmm.Memory.{vmm_alloc, enable_domain_check}

-- `CODE_ADDRESS`.
abbrev pub code_address : ℕ
code_address = 1280

-- The flag VM in EFLAGS.
abbrev pub flag_vm : ℕ
flag_vm = 131072

-- The memory that `vm86_create_task` takes, and the memory manager after that.
pub record Vm86Memory : Type 0 where
  pub task : ℕ
  pub directory : ℕ
  pub kernel_stack : ℕ
  pub vmm : Interrupts × Vmm

unfoldable pub vm86_memory : (page_directory kernel_stack_len : ℕ) → Interrupts × Vmm → Vm86Memory
vm86_memory page_directory kernel_stack_len (i, s) =
    let (task, s1) = vmm_alloc task_size vmm_kernel s in
    let (directory, s2) = directory_for page_directory s1 in
    let (i1, s3) = modify_page_directory directory (i, s2) in
    let lower =
      map_range 0 0 lower_memory (vmm_user + vmm_writable) (enable_domain_check false s3) in
    let (kernel_stack, s4) =
      vmm_alloc kernel_stack_len vmm_kernel (enable_domain_check true lower) in
    record { task = task; directory = directory; kernel_stack = kernel_stack; vmm = (i1, s4) }

-- The CPU state that enters the copied code in real mode.
abbrev pub vm86_cpu : (data_selector stack_top : ℕ) → Registers → CpuState → CpuState
vm86_cpu data_selector stack_top registers cpu =
    let entry_point = get_farptr code_address in
    let user_stack = get_farptr stack_top in
    record cpu {
      gs = data_selector;
      fs = data_selector;
      es = data_selector;
      ds = data_selector;
      r = registers;
      eip = entry_point.offset;
      cs = entry_point.segment;
      eflags = initial_eflags + flag_vm;
      user_esp = user_stack.offset;
      user_ss = user_stack.segment;
      vm86_es = entry_point.segment;
      vm86_ds = entry_point.segment;
      vm86_fs = entry_point.segment;
      vm86_gs = entry_point.segment;
    }

-- The task. Its field `elf` is not set.
abbrev pub vm86_task :
    Vm86Memory → (user_stack kernel_stack_len user_stack_len ticks elf : ℕ) → Task
vm86_task m user_stack kernel_stack_len user_stack_len ticks elf = record {
  state = running;
  page_directory = m.directory;
  kernel_stack = m.kernel_stack;
  user_stack = user_stack;
  kernel_stack_len = kernel_stack_len;
  user_stack_len = user_stack_len;
  cpu = cpu_at m.kernel_stack kernel_stack_len;
  ticks = ticks;
  vm86 = true;
  elf = elf;
}

-- `vm86_create_task`: the PID, and the state.
unfoldable pub vm86_create_task :
    (code_start code_end page_directory kernel_stack_len user_stack_len : ℕ)
    → Registers
    → Kernel
    → Outcome (ℕ × Kernel)
vm86_create_task code_start code_end page_directory kernel_stack_len user_stack_len registers k =
    let (old_interrupts, vmm) = enable_interrupts false k.loader.vmm in
    let m = vm86_memory page_directory kernel_stack_len vmm in
    let code_length = u32 (sub32 code_end code_start + 1) in
    let user_stack = u32 (code_address + code_length) in
    let cpu = cpu_at m.kernel_stack kernel_stack_len in
    let state =
      vm86_cpu (get_selector k.gdt 4) (sub32 (u32 (user_stack + user_stack_len)) 1) registers
        (k.cpu_states cpu) in
    if m.task == 0 || m.kernel_stack == 0
    then fault null_dereference
    else enlist
        (vm86_task m user_stack kernel_stack_len user_stack_len (k.stale_ticks m.task)
          (k.stale_elf m.task))
        m.task old_interrupts m.vmm
        (record k {
          cpu_states = update k.cpu_states cpu state;
          loader = record k.loader {
            memory = memcpy code_length code_address code_start k.loader.memory;
          };
        })

-- The addresses `&vm86_call_bios_start`, `&vm86_call_bios_end` and `&vm86_interrupt_hook`.
pub record BiosCode : Type 0 where
  pub start : ℕ
  pub last : ℕ
  pub hook : ℕ

-- `vm86_call_bios`; without the instruction INT at the hook it does nothing.
unfoldable pub vm86_call_bios : BiosCode → (interrupt : ℕ) → Registers → Kernel → Outcome Kernel
vm86_call_bios code interrupt registers k =
    let memory = update k.loader.memory (code.hook + 1) interrupt in
    if not (k.loader.memory code.hook == 205) then ok k else do
      (pid, k') ←
          vm86_create_task code.start code.last 0 4096 4096 registers
            (record k { loader = record k.loader { memory = memory } })
      ok k'
