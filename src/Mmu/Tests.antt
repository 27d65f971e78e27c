-- ===== src/Mmu/Tests.antt =====
-- Tests of the registers that turn paging on.
use unnamed_os.Base.{ℕ, ◌<◌, ◌≡◌, ◌==◌, if◌then◌else◌}
use unnamed_os.Base.Bits.{bit_at}
use unnamed_os.Mmu.{Control, mmu_get_paging, mmu_enable_paging, mmu_get_paging-enable}

-- Protected mode without paging.
abbrev at_start : Control
at_start = record { cr0 = 17; cr2 = 0; cr3 = 0 }

mmu_get_paging-enable_example :
    (mmu_get_paging (mmu_enable_paging 12288 at_start) ≡ (if 12288 == 0 then 0 else 1))
    × ((mmu_enable_paging 12288 at_start).cr3 ≡ (if 12288 == 0 then at_start.cr3 else 12288))
    × ((k : ℕ) → k < 31 → bit_at (mmu_enable_paging 12288 at_start).cr0 k ≡ bit_at at_start.cr0 k)
mmu_get_paging-enable_example = mmu_get_paging-enable 12288 at_start
