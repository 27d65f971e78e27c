-- ===== src/Task/LifecycleTests.antt =====
-- The creation and the destruction of tasks at a concrete kernel, and the theorems there.
use unnamed_os.Base.{◌≡◌, refl, arith, false, none, some, update, ok}
use unnamed_os.Descriptors.{get_selector}
use unnamed_os.Pmm
use unnamed_os.Task.{Tasks, Task, running, stopped}
use unnamed_os.Task.Create.{release, Kernel, task_memory, task_create_detailed}
use unnamed_os.Task.Examples.{fresh_kernel}
use unnamed_os.Task.Lifecycle.{released, memory_for, Starts, task_create_detailed-Starts}
use unnamed_os.Vmm
use unnamed_os.Vmm.Directories
use unnamed_os.Vmm.Memory

abbrev a_task : Task
a_task = record {
  state = stopped;
  page_directory = 16384;
  kernel_stack = 4198400;
  user_stack = 1073741824;
  kernel_stack_len = 4096;
  user_stack_len = 4096;
  cpu = 4202403;
  ticks = 1;
  vm86 = false;
  elf = 0;
}

-- PID 1 is in use and stopped.
abbrev one_task : Tasks
one_task = update (λ _. none) 1 (some a_task)

abbrev busy_kernel : Kernel
busy_kernel = fresh_kernel one_task

task_at : (memory_for 0 4096 4096 busy_kernel).task ≡ 4194304
unfolding task_memory Memory.vmm_alloc Pmm.alloc Pmm.find_free Pmm.find_loop Pmm.bitmap_get
    Memory.find_free Memory.find_loop Vmm.get_physical_address
task_at = refl

stack_at : (memory_for 0 4096 4096 busy_kernel).kernel_stack ≡ 4198400
unfolding task_memory Memory.vmm_alloc Pmm.alloc Pmm.find_free Pmm.find_loop Pmm.bitmap_get
    Directories.modify_page_directory Directories.create_page_directory Memory.unmap_physical_memory
    Memory.map_physical_memory Memory.find_free Memory.find_loop Vmm.get_physical_address
    Vmm.map_range Vmm.domain_check Vmm.map_pages Vmm.map_page Vmm.ensure_page_table
    Pmm.bitmap_clear_bit Pmm.bitmap_set Pmm.bitmap_set_bit Pmm.bitmap_set_loop Pmm.free
    Pmm.use_pages Pmm.use_range Directories.load_page_directory Directories.refresh_page_directory
    Vmm.create_page_table Vmm.destroy_page_table Vmm.first_present Vmm.unmap_page Vmm.unmap_pages
    Vmm.unmap_range
stack_at = refl

in_reach :
    (Directories.modified_page_directory (memory_for 0 4096 4096 busy_kernel).vmm).1.faulted ≡ false
unfolding task_memory Memory.vmm_alloc Pmm.alloc Pmm.find_free Pmm.find_loop Pmm.bitmap_get
    Directories.modify_page_directory Directories.modified_page_directory
    Directories.create_page_directory Memory.unmap_physical_memory Memory.map_physical_memory
    Memory.find_free Memory.find_loop Vmm.get_physical_address Vmm.map_range Vmm.domain_check
    Vmm.map_pages Vmm.map_page Vmm.ensure_page_table Pmm.bitmap_clear_bit Pmm.bitmap_set
    Pmm.bitmap_set_bit Pmm.bitmap_set_loop Pmm.free Pmm.use_pages Pmm.use_range
    Directories.load_page_directory Directories.refresh_page_directory Vmm.create_page_table
    Vmm.destroy_page_table Vmm.first_present Vmm.unmap_page Vmm.unmap_pages Vmm.unmap_range
in_reach = refl

task_create_detailed-Starts_example :
    (k' : Kernel) × (task_create_detailed 65536 0 4096 4096 0 3 4 busy_kernel ≡ ok (2, k'))
    × Starts busy_kernel k' 2 65536
        (get_selector busy_kernel.gdt 3)
        (get_selector busy_kernel.gdt 4)
task_create_detailed-Starts_example =
    task_create_detailed-Starts 2 busy_kernel (omega arith) (omega arith) refl
      (λ p lo hi. ground arith) 65536 0 4096 4096 0 3 4 (λ e. omega (arith, e, task_at))
      (λ e. omega (arith, e, stack_at)) in_reach

abbrev running_kernel : Kernel
running_kernel = fresh_kernel (update (λ _. none) 1 (some (record a_task { state = running })))

-- There no page fault occurs.
reached : (released 1 busy_kernel (omega arith) a_task refl).1.faulted ≡ false
unfolding Directories.destroy_page_directory Directories.destroy_loop Memory.vmm_free
    Directories.modified_page_directory Directories.modify_page_directory
    Directories.create_page_directory Memory.unmap_physical_memory Memory.map_physical_memory
    Memory.find_free Memory.find_loop Vmm.get_physical_address Vmm.map_range Vmm.domain_check
    Vmm.map_pages Vmm.map_page Vmm.ensure_page_table Pmm.bitmap_clear_bit Pmm.bitmap_set
    Pmm.bitmap_set_bit Pmm.bitmap_set_loop Pmm.free Pmm.use_pages Pmm.use_range
    Directories.load_page_directory Directories.refresh_page_directory Vmm.create_page_table
    Vmm.destroy_page_table Vmm.first_present Vmm.unmap_page Vmm.unmap_pages Vmm.unmap_range
    Pmm.alloc Pmm.find_free Pmm.find_loop Pmm.bitmap_get release
reached = refl
