-- ===== src/Vmm/InitTests.antt =====
-- The initialisation of the memory manager on a kernel in page frames 1 and 2, with page frame 0
-- reserved and the rest of memory free.
use mathlib.Core.Path.{subst}
use unnamed_os.Base.{ℕ, sym, ◌≡◌, ◌≢◌, refl, arith, false, ◌==◌}
use unnamed_os.Pmm
use unnamed_os.Pmm.{
  Pmm, bitmap_get, bitmap_set, kernel, reserved, page_number, alloc, use_range, use_pages, check,
  find_free,
}
use unnamed_os.Pmm.Kernel.{KernelBelow, use_range-KernelBelow}
use unnamed_os.Vmm.{
  Vmm, absent, get_physical_address, table_size, map_page, ensure_page_table, create_page_table,
  domain_check,
}
use unnamed_os.Vmm.Memory
use unnamed_os.Vmm.Init.{vmm_init, identity_loop, identity_page}
use unnamed_os.Vmm.Identity.{TablesFound}
use unnamed_os.Vmm.VideoMemory.{VideoTableFound}
use unnamed_os.Vmm.Initialised.{CanInit, vmm_init-kernel, kernel_pages, with_directory, loaded}

abbrev blank : Pmm
blank = record { bitmap = λ _. 0; highest_kernel_page = 0 }

abbrev two_pages : Pmm
two_pages = use_range 4096 8192 kernel (use_range 0 4096 reserved blank)

differs : (r : ℕ) → (r == 0) ≡ false → r ≢ 0
differs r e z = ground arith

blank-KernelBelow : KernelBelow blank
unfolding bitmap_get
blank-KernelBelow p small e = ground arith

abbrev small_machine : Vmm
small_machine = record {
  entries = λ _ _. absent;
  directory = 0;
  old_directory = 0;
  domain_check_enabled = false;
  paging = false;
  faulted = false;
  pmm = two_pages;
}

third_page :
    ((alloc table_size kernel small_machine.pmm).0 ≡ 12288) × (kernel_pages small_machine ≡ 4)
unfolding alloc find_free Pmm.find_loop bitmap_get use_range use_pages bitmap_set Pmm.bitmap_set_bit
    Pmm.bitmap_clear_bit
third_page = (refl, refl)

one_table : TablesFound 4 0 (with_directory small_machine)
unfolding alloc find_free Pmm.find_loop bitmap_get use_range use_pages identity_page check map_page
    ensure_page_table create_page_table domain_check bitmap_set Pmm.bitmap_set_bit
    Pmm.bitmap_clear_bit
one_table = (
  λ gone. differs _ refl,
  (λ gone. differs _ refl, (λ gone. differs _ refl, (λ gone. differs _ refl, tt))),
)

screen_table : VideoTableFound 753664 (loaded small_machine)
unfolding alloc find_free Pmm.find_loop bitmap_get use_range use_pages identity_page identity_loop
    check map_page ensure_page_table create_page_table domain_check bitmap_set Pmm.bitmap_set_bit
    Pmm.bitmap_clear_bit Memory.find_free Memory.find_loop get_physical_address
screen_table = λ gone. differs _ refl

small_machine-CanInit : CanInit 753664 small_machine
small_machine-CanInit = record {
  off = refl;
  unchecked = refl;
  directory = λ z. omega (arith, third_page.0, z);
  inside = λ z. omega (arith, third_page.0, z);
  small = omega (arith, third_page.1);
  tables =
      subst (λ (n : ℕ). TablesFound n 0 (with_directory small_machine)) (sym third_page.1)
        one_table;
  video_table = screen_table;
}

small_machine-KernelBelow : KernelBelow small_machine.pmm
small_machine-KernelBelow =
    use_range-KernelBelow (use_range 0 4096 reserved blank) 4096 8192 kernel (omega arith)
      (use_range-KernelBelow blank 0 4096 reserved (omega arith) blank-KernelBelow)

vmm_init-kernel_example : get_physical_address (vmm_init 753664 small_machine).1 8197 ≡ 8197
unfolding bitmap_get use_range use_pages bitmap_set Pmm.bitmap_set_bit Pmm.bitmap_clear_bit
vmm_init-kernel_example =
    vmm_init-kernel 753664 small_machine small_machine-CanInit 8197 small_machine-KernelBelow
      (omega arith) (omega arith) refl
