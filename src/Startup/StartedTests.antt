-- ===== src/Startup/StartedTests.antt =====
-- The second half of the boot, in the address space of `Task.Examples`.
use unnamed_os.Base.{false, ℕ, ◌≡◌, refl, arith, some, none, ok}
use unnamed_os.Mmu.{mmu_init}
use unnamed_os.Pmm
use unnamed_os.Startup.{System, after_memory, stack_size, devices_init}
use unnamed_os.Startup.Examples.{image, routines, turned_on}
use unnamed_os.Startup.Started.{Started, main-Started}
use unnamed_os.Task.Create.{task_memory}
use unnamed_os.Task.Examples.{fresh_kernel}
use unnamed_os.Task.Lifecycle.{memory_for}
use unnamed_os.Vmm
use unnamed_os.Vmm.Directories
use unnamed_os.Vmm.Memory

abbrev paged : System ℕ
paged = record turned_on {
  kernel = fresh_kernel (λ _. none);
  tables = mmu_init routines.page_fault turned_on.tables;
}

task_at : (memory_for 0 stack_size 0 (devices_init image routines paged).kernel).task ≡ 4194304
unfolding devices_init task_memory Memory.vmm_alloc Pmm.alloc Pmm.find_free Pmm.find_loop
    Pmm.bitmap_get Memory.find_free Memory.find_loop Vmm.get_physical_address
task_at = refl

stack_at :
    (memory_for 0 stack_size 0 (devices_init image routines paged).kernel).kernel_stack ≡ 4198400
unfolding devices_init task_memory Memory.vmm_alloc Pmm.alloc Pmm.find_free Pmm.find_loop
    Pmm.bitmap_get Directories.modify_page_directory Directories.create_page_directory
    Memory.unmap_physical_memory Memory.map_physical_memory Memory.find_free Memory.find_loop
    Vmm.get_physical_address Vmm.map_range Vmm.domain_check Vmm.map_pages Vmm.map_page
    Vmm.ensure_page_table Pmm.bitmap_clear_bit Pmm.bitmap_set Pmm.bitmap_set_bit Pmm.bitmap_set_loop
    Pmm.free Pmm.use_pages Pmm.use_range Directories.load_page_directory
    Directories.refresh_page_directory Vmm.create_page_table Vmm.destroy_page_table
    Vmm.first_present Vmm.unmap_page Vmm.unmap_pages Vmm.unmap_range
stack_at = refl

in_reach :
    (Directories.modified_page_directory
      (memory_for 0 stack_size 0 (devices_init image routines paged).kernel).vmm).1.faulted
    ≡ false
unfolding devices_init task_memory Memory.vmm_alloc Pmm.alloc Pmm.find_free Pmm.find_loop
    Pmm.bitmap_get Directories.modify_page_directory Directories.modified_page_directory
    Directories.create_page_directory Memory.unmap_physical_memory Memory.map_physical_memory
    Memory.find_free Memory.find_loop Vmm.get_physical_address Vmm.map_range Vmm.domain_check
    Vmm.map_pages Vmm.map_page Vmm.ensure_page_table Pmm.bitmap_clear_bit Pmm.bitmap_set
    Pmm.bitmap_set_bit Pmm.bitmap_set_loop Pmm.free Pmm.use_pages Pmm.use_range
    Directories.load_page_directory Directories.refresh_page_directory Vmm.create_page_table
    Vmm.destroy_page_table Vmm.first_present Vmm.unmap_page Vmm.unmap_pages Vmm.unmap_range
in_reach = refl

main-Started_example :
    (m2 : System ℕ) × (after_memory image routines (some paged) ≡ some (ok (1, m2)))
    × Started image routines turned_on.tables paged m2
main-Started_example =
    main-Started image routines turned_on.tables paged refl refl (λ e. omega (arith, e, task_at))
      (λ e. omega (arith, e, stack_at)) in_reach
