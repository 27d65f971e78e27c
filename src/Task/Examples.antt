-- ===== src/Task/Examples.antt =====
-- A concrete kernel: a small address space and no task.
use unnamed_os.Base.{ℕ, true, false, update}
use unnamed_os.Descriptors.{empty_entry, gdt_init}
use unnamed_os.Task.{Tasks}
use unnamed_os.Task.Create.{Kernel, CpuState, Registers}
use unnamed_os.Vmm.{Vmm, Entry, absent}

abbrev pub zero_registers : Registers
zero_registers = record { edi = 0; esi = 0; ebp = 0; esp = 0; ebx = 0; edx = 0; ecx = 0; eax = 0 }

abbrev zero_cpu : CpuState
zero_cpu = record {
  gs = 0;
  fs = 0;
  es = 0;
  ds = 0;
  r = zero_registers;
  intr = 0;
  error = 0;
  eip = 0;
  cs = 0;
  eflags = 0;
  user_esp = 0;
  user_ss = 0;
  vm86_es = 0;
  vm86_ds = 0;
  vm86_fs = 0;
  vm86_gs = 0;
}

abbrev own_entry : ℕ → Entry
own_entry page = record { pr = true; rw = true; user = false; page = page }

-- Frames 0 and 1 are in use, and frame 1 is the page directory.
abbrev fresh_vmm : Vmm
fresh_vmm = record {
  entries = update (λ _ _. absent) 1 (update (λ _. absent) 1023 (own_entry 1));
  directory = 1;
  old_directory = 0;
  domain_check_enabled = true;
  paging = true;
  faulted = false;
  pmm = record { bitmap = update (λ _. 0) 0 10; highest_kernel_page = 1 };
}

abbrev pub fresh_kernel : Tasks → Kernel
fresh_kernel tasks = record {
  tasks = tasks;
  task_at = λ _. 0;
  loader = record {
    vmm = (record { enabled = true; old_interrupts = false }, fresh_vmm);
    memory = λ _. 0;
  };
  cpu_states = λ _. zero_cpu;
  gdt = gdt_init (λ _. empty_entry);
  stale_ticks = λ _. 0;
  stale_elf = λ _. 7;
}
