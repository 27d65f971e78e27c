-- ===== src/Startup/Tests.antt =====
-- The boot at the memory map of `Boot.Examples`, with a state of handlers that is a number.
use unnamed_os.Base.{ap, ◌/◌, ◌≤◌, ◌>>>◌, ℕ, ◌+◌, ◌≡◌, refl, arith, some, u32}
use unnamed_os.Boot.{Boot, Symbols, pmm_init, multiboot_init}
use unnamed_os.Boot
use unnamed_os.Boot.Examples.{at_boot, two_pages, marked, marks, copies, boot_memory-small}
use unnamed_os.Pmm
use unnamed_os.Pmm.{Pmm}
use unnamed_os.Startup.{System, vmm_of, memory_init}
use unnamed_os.Startup.Examples.{image, routines, turned_on, unwrap}
use unnamed_os.Startup.Memory.{memory_init-kernel}
use unnamed_os.Strings.{memcpy}
use unnamed_os.Vmm.{get_physical_address}

-- The highest page of the kernel is the one with the boot loader's information.
booted-highest : (unwrap (pmm_init two_pages 8 30 at_boot)).pmm.highest_kernel_page ≡ 1026
unfolding pmm_init Boot.reserve Boot.multiboot_free_memory Boot.mmap_loop Boot.multiboot_copy_memory
    Boot.copy_info Boot.copy_modules Boot.store32 Pmm.alloc Pmm.find_free Pmm.find_loop
    Pmm.bitmap_get Pmm.use_range Pmm.bitmap_set Pmm.bitmap_set_bit Pmm.bitmap_clear_bit
    Pmm.use_pages memcpy
booted-highest = refl

memory_init-kernel_example :
    (m1 : System ℕ) × (memory_init image routines 8 30 65536 turned_on ≡ some m1)
    × ((w : ℕ)
        → image.symbols.kernel_start / 4096 ≤ w >>> 12
        → w >>> 12 ≤ image.symbols.kernel_end / 4096
        → get_physical_address (vmm_of m1) w ≡ w)
memory_init-kernel_example =
    memory_init-kernel image routines (omega arith) (omega arith) (omega arith) 8 30 65536 turned_on
      (λ e. omega (arith, e)) refl
      (λ a entry lt. omega (
        arith,
        boot_memory-small (u32 a),
        boot_memory-small (u32 (a + 1)),
        boot_memory-small (u32 (a + 2)),
        boot_memory-small (u32 (a + 2 + 1)),
      ))
      (omega arith) (λ b1 e. let same : b1 ≡ marked = cc (e, marks) in rw same copies)
      (λ b e.
        let same : (unwrap (pmm_init two_pages 8 30 at_boot)) ≡ b = ap unwrap e in
        omega (arith, booted-highest, ap (λ x. x.pmm.highest_kernel_page) same))
      (omega arith) refl refl
