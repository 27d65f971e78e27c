-- ===== src/Vm86/BiosTests.antt =====
-- A call of the BIOS from a concrete kernel without tasks.
use unnamed_os.Base.{false, ◌+◌, ◌-◌, ◌≡◌, refl, arith, true, none, some, update, ok}
use unnamed_os.Pmm
use unnamed_os.Task.{Task, running}
use unnamed_os.Task.Create.{Kernel, initial_eflags}
use unnamed_os.Task.Examples.{fresh_kernel, zero_registers}
use unnamed_os.Vm86.Create.{BiosCode, vm86_memory, vm86_call_bios, code_address, flag_vm}
use unnamed_os.Vm86.{get_address}
use unnamed_os.Vm86.Bios.{memory_for, vm86_call_bios-Enters}
use unnamed_os.Vmm
use unnamed_os.Vmm.Directories
use unnamed_os.Vmm.Memory

abbrev bios_code : BiosCode
bios_code = record { start = 1048576; last = 1048600; hook = 1048580 }

-- The instruction INT stands at the hook.
abbrev idle_kernel : Kernel
idle_kernel = record (fresh_kernel (λ _. none)) {
  loader = record (fresh_kernel (λ _. none)).loader { memory = update (λ _. 0) 1048580 205 };
}

task_at : (memory_for 0 4096 idle_kernel).task ≡ 4194304
unfolding vm86_memory Memory.vmm_alloc Pmm.alloc Pmm.find_free Pmm.find_loop Pmm.bitmap_get
    Memory.find_free Memory.find_loop Vmm.get_physical_address
task_at = refl

stack_at : (memory_for 0 4096 idle_kernel).kernel_stack ≡ 4198400
unfolding vm86_memory Memory.vmm_alloc Pmm.alloc Pmm.find_free Pmm.find_loop Pmm.bitmap_get
    Directories.modify_page_directory Directories.create_page_directory Memory.unmap_physical_memory
    Memory.map_physical_memory Memory.find_free Memory.find_loop Vmm.get_physical_address
    Vmm.map_range Vmm.domain_check Vmm.map_pages Vmm.map_page Vmm.ensure_page_table
    Pmm.bitmap_clear_bit Pmm.bitmap_set Pmm.bitmap_set_bit Pmm.bitmap_set_loop Pmm.free
    Pmm.use_pages Pmm.use_range Directories.load_page_directory Directories.refresh_page_directory
    Vmm.create_page_table Vmm.destroy_page_table Vmm.first_present Vmm.unmap_page Vmm.unmap_pages
    Vmm.unmap_range
stack_at = refl

in_reach :
    (Directories.modified_page_directory (memory_for 0 4096 idle_kernel).vmm).1.faulted ≡ false
unfolding vm86_memory Memory.vmm_alloc Pmm.alloc Pmm.find_free Pmm.find_loop Pmm.bitmap_get
    Directories.modify_page_directory Directories.modified_page_directory
    Directories.create_page_directory Memory.unmap_physical_memory Memory.map_physical_memory
    Memory.find_free Memory.find_loop Vmm.get_physical_address Vmm.map_range Vmm.domain_check
    Vmm.map_pages Vmm.map_page Vmm.ensure_page_table Pmm.bitmap_clear_bit Pmm.bitmap_set
    Pmm.bitmap_set_bit Pmm.bitmap_set_loop Pmm.free Pmm.use_pages Pmm.use_range
    Directories.load_page_directory Directories.refresh_page_directory Vmm.create_page_table
    Vmm.destroy_page_table Vmm.first_present Vmm.unmap_page Vmm.unmap_pages Vmm.unmap_range
in_reach = refl

vm86_call_bios-Enters_example :
    (k' : Kernel) × (vm86_call_bios bios_code 16 zero_registers idle_kernel ≡ ok k')
    × (k'.loader.memory (code_address + (bios_code.hook - bios_code.start)) ≡ 205)
    × (k'.loader.memory (code_address + (bios_code.hook - bios_code.start) + 1) ≡ 16)
    × (t : Task) × (k'.tasks 1 ≡ some t)
    × (t.vm86 ≡ true)
    × (t.state ≡ running)
    × (get_address
          (record { offset = (k'.cpu_states t.cpu).eip; segment = (k'.cpu_states t.cpu).cs })
        ≡ code_address)
    × ((k'.cpu_states t.cpu).eflags ≡ initial_eflags + flag_vm)
    × (t.elf ≡ idle_kernel.stale_elf (memory_for 0 4096 idle_kernel).task)
    × ((k'.cpu_states t.cpu).r ≡ zero_registers)
vm86_call_bios-Enters_example =
    vm86_call_bios-Enters 1 idle_kernel (omega arith) (omega arith) refl
      (λ p lo hi. absurd (omega arith)) bios_code 16 zero_registers refl (omega arith) (omega arith)
      (omega arith) (omega arith) (λ e. omega (arith, e, task_at)) (λ e. omega (arith, e, stack_at))
      in_reach
