-- ===== src/Vm86/Bios.antt =====
-- What a task that `vm86_call_bios` creates runs.
use unnamed_os.Base.{
  ==-false, ltb-true, leb-true, ℕ, ◌+◌, ◌-◌, ◌≤◌, ◌<◌, ◌≡◌, ◌≢◌, refl, ap, arith, some, true, false,
  update, ok, u32, sub32, inl, ◌∙◌,
}
use unnamed_os.Descriptors.{get_selector}
use unnamed_os.Strings.{memcpy}
use unnamed_os.Strings.Copies.{memcpy-range}
use unnamed_os.Task.{Task, running, max_tasks}
use unnamed_os.Task.Create.{Registers, Kernel, initial_eflags, enable_interrupts, cpu_at, CpuState}
use unnamed_os.Task.Lifecycle.{enlisted, enlist-enlisted, update-same, update-other}
use unnamed_os.Task.Scan.{Used, Vacant}
use unnamed_os.Vmm.Directories.{modified_page_directory}
use unnamed_os.Vm86.{get_address, get_farptr}
use unnamed_os.Vm86.Create.{
  code_address, flag_vm, Vm86Memory, vm86_memory, vm86_cpu, vm86_task, vm86_create_task, BiosCode,
  vm86_call_bios,
}

-- The memory that a new task gets in the state `k`.
abbrev pub memory_for : (page_directory kernel_stack_len : ℕ) → Kernel → Vm86Memory
memory_for page_directory kernel_stack_len k =
    vm86_memory page_directory kernel_stack_len (enable_interrupts false k.loader.vmm).1

-- In `k'` the task `pid` runs in virtual 8086 mode, with the given registers, and enters a copy of
-- the code at `code_start`.
pub record Enters (k k' : Kernel) (pid code_start code_length stale_elf : ℕ) (registers : Registers)
    : Type 0 where
  pub task : Task
  pub slot : k'.tasks pid ≡ some task
  pub is_running : task.state ≡ running
  pub in_vm86 : task.vm86 ≡ true
  pub elf_not_set : task.elf ≡ stale_elf
  pub others : (q : ℕ) → q ≢ pid → k'.tasks q ≡ k.tasks q
  pub enters :
      get_address
        (record { offset = (k'.cpu_states task.cpu).eip; segment = (k'.cpu_states task.cpu).cs })
      ≡ code_address
  pub passes : (k'.cpu_states task.cpu).r ≡ registers
  pub eflags : (k'.cpu_states task.cpu).eflags ≡ initial_eflags + flag_vm
  pub copied :
      (i : ℕ)
      → i < code_length
      → k'.loader.memory (code_address + i) ≡ k.loader.memory (code_start + i)
  pub restored : k'.loader.vmm.0.enabled ≡ k.loader.vmm.0.enabled

copy :
    (num src i : ℕ) (m : ℕ → ℕ)
    → code_address ≤ src
    → i < num
    → memcpy num code_address src m (code_address + i) ≡ m (src + i)
copy num src i m le lt =
    let index : src + (code_address + i - code_address) ≡ src + i = omega arith in
    memcpy-range num code_address src (code_address + i) m (inl le)
    ∙ rw
        (
          leb-true code_address (code_address + i) (omega arith),
          ltb-true (code_address + i) (code_address + num) (omega arith),
        )
        (ap m index)

module _ (pid : ℕ) (k : Kernel) (pos : 0 < pid) (small : pid < max_tasks)
    (vacant : Vacant k.tasks pid) (below : (p : ℕ) → 0 < p → p < pid → Used k.tasks p) where
  pub vm86_create_task-Enters :
      (code_start code_end page_directory kernel_stack_len user_stack_len : ℕ)
      (registers : Registers)
      → (memory_for page_directory kernel_stack_len k).task ≢ 0
      → (memory_for page_directory kernel_stack_len k).kernel_stack ≢ 0
      → (modified_page_directory (memory_for page_directory kernel_stack_len k).vmm).1.faulted
        ≡ false
      → code_address ≤ code_start
      → (k' : Kernel) × (vm86_create_task code_start code_end page_directory kernel_stack_len
            user_stack_len registers k
          ≡ ok (pid, k'))
        × Enters k k' pid code_start
            (u32 (sub32 code_end code_start + 1))
            (k.stale_elf (memory_for page_directory kernel_stack_len k).task)
            registers
  unfolding vm86_create_task get_farptr get_address
  vm86_create_task-Enters code_start code_end page_directory kernel_stack_len user_stack_len
        registers ht hk reached low =
      let m = memory_for page_directory kernel_stack_len k in
      let code_length = u32 (sub32 code_end code_start + 1) in
      let user_stack = u32 (code_address + code_length) in
      let cpu = cpu_at m.kernel_stack kernel_stack_len in
      let t =
        vm86_task m user_stack kernel_stack_len user_stack_len (k.stale_ticks m.task)
          (k.stale_elf m.task) in
      let state =
        vm86_cpu (get_selector k.gdt 4) (sub32 (u32 (user_stack + user_stack_len)) 1) registers
          (k.cpu_states cpu) in
      let states = update k.cpu_states cpu state in
      let k0 : Kernel = record k {
        loader = record k.loader {
          memory = memcpy code_length code_address code_start k.loader.memory;
        };
      } in
      let there : states cpu ≡ state = update-same k.cpu_states cpu state in
      (
        enlisted pid m.task t k.loader.vmm.0.enabled m.vmm (record k0 { cpu_states = states }),
        rw (==-false m.task 0 ht, ==-false m.kernel_stack 0 hk)
            (enlist-enlisted pid k0 pos small vacant below t m.task k.loader.vmm.0.enabled m.vmm
              states reached),
        record {
          task = t;
          slot = update-same k.tasks pid (some t);
          is_running = refl;
          in_vm86 = refl;
          elf_not_set = refl;
          others = update-other k.tasks pid (some t);
          enters =
              ap (λ (c : CpuState). get_address (record { offset = c.eip; segment = c.cs })) there;
          passes = ap (λ c. c.r) there;
          eflags = ap (λ c. c.eflags) there;
          copied = λ i lt. copy code_length code_start i k.loader.memory low lt;
          restored = refl;
        },
      )

module _ (pid : ℕ) (k : Kernel) (pos : 0 < pid) (small : pid < max_tasks)
    (vacant : Vacant k.tasks pid) (below : (p : ℕ) → 0 < p → p < pid → Used k.tasks p) where
  -- Where the code of vm86_asm.S lies behind address 0x500 and has the instruction INT at its hook, the
  -- allocations do not fail, and the page directories that are changed between can be mapped, `vm86_call_bios` creates a task of the lowest free PID that runs in
  -- virtual 8086 mode with the given registers and interrupts on, and whose CS:IP is the address 0x500, where
  -- a copy of the code calls the given interrupt. The field `elf` of the task keeps what was in memory.
  pub vm86_call_bios-Enters :
      (code : BiosCode) (interrupt : ℕ) (registers : Registers)
      → k.loader.memory code.hook ≡ 205
      → code_address ≤ code.start
      → code.start ≤ code.hook
      → code.hook + 1 ≤ code.last
      → code.last < 4294967295
      → (memory_for 0 4096 k).task ≢ 0
      → (memory_for 0 4096 k).kernel_stack ≢ 0
      → (modified_page_directory (memory_for 0 4096 k).vmm).1.faulted ≡ false
      → (k' : Kernel) × (vm86_call_bios code interrupt registers k ≡ ok k')
        × (k'.loader.memory (code_address + (code.hook - code.start)) ≡ 205)
        × (k'.loader.memory (code_address + (code.hook - code.start) + 1) ≡ interrupt)
        × (t : Task) × (k'.tasks pid ≡ some t)
        × (t.vm86 ≡ true)
        × (t.state ≡ running)
        × (get_address
              (record { offset = (k'.cpu_states t.cpu).eip; segment = (k'.cpu_states t.cpu).cs })
            ≡ code_address)
        × ((k'.cpu_states t.cpu).eflags ≡ initial_eflags + flag_vm)
        × (t.elf ≡ k.stale_elf (memory_for 0 4096 k).task)
        × ((k'.cpu_states t.cpu).r ≡ registers)
  unfolding vm86_call_bios
  vm86_call_bios-Enters code interrupt registers int low inside before small_end ht hk reached =
      let k1 : Kernel = record k {
        loader = record k.loader { memory = update k.loader.memory (code.hook + 1) interrupt };
      } in
      let (k', e, enters) =
        vm86_create_task-Enters pid k1 pos small vacant below code.start code.last 0 4096 4096
          registers ht hk reached low in
      let long : u32 (sub32 code.last code.start + 1) ≡ code.last - code.start + 1 = omega arith in
      let opcode_at : code.start + (code.hook - code.start) ≡ code.hook = omega arith in
      let operand_at : code.start + (code.hook - code.start + 1) ≡ code.hook + 1 = omega arith in
      (
        k',
        rw (int, e),
        enters.copied (code.hook - code.start) (rw long (omega arith))
            ∙ ap k1.loader.memory opcode_at
            ∙ update-other k.loader.memory (code.hook + 1) interrupt code.hook (λ q. omega arith)
            ∙ int,
        ap k'.loader.memory (omega arith)
            ∙ enters.copied (code.hook - code.start + 1) (rw long (omega arith))
            ∙ ap k1.loader.memory operand_at
            ∙ update-same k.loader.memory (code.hook + 1) interrupt,
        enters.task,
        enters.slot,
        enters.in_vm86,
        enters.is_running,
        enters.enters,
        enters.eflags,
        enters.elf_not_set,
        enters.passes,
      )
