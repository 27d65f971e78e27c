-- ===== src/Boot/Tests.antt =====
-- The boot at a memory map of one entry, without modules.
use unnamed_os.Base.{◌+◌, ◌≡◌, refl, arith, some, u32}
use unnamed_os.Boot.{Boot, pmm_init}
use unnamed_os.Boot.Layout.{Layout, pmm_init-Layout}
use unnamed_os.Boot.Examples.{at_boot, two_pages, marked, marks, copies, boot_memory-small}

pmm_init-Layout_example :
    (b' : Boot) × (pmm_init two_pages 8 30 at_boot ≡ some b') × Layout two_pages b'.pmm
pmm_init-Layout_example =
    pmm_init-Layout two_pages (omega arith) (omega arith) (omega arith) 8 30 at_boot
      (λ e. omega (arith, e)) refl
      (λ a entry lt. omega (
        arith,
        boot_memory-small (u32 a),
        boot_memory-small (u32 (a + 1)),
        boot_memory-small (u32 (a + 2)),
        boot_memory-small (u32 (a + 2 + 1)),
      ))
      (omega arith) (λ b1 e. let same : b1 ≡ marked = cc (e, marks) in rw same copies)
