-- ===== src/Pmm/Kernel.antt =====
-- `highest_kernel_page`: `vmm_init` maps the kernel up to this page, and relies on no kernel page
-- lying above it.
use unnamed_os.Base.{ℕ_discrete, ==-false, ℕ, ◌-◌, ◌≤◌, ◌<◌, ◌≡◌, arith}
use unnamed_os.Pmm.{Pmm, find_free, use_range, alloc, bitmap_get, page_number, kernel, get_page}
use unnamed_os.Pmm.Range.{bitmap_get-use_range}

abbrev pub KernelBelow : Pmm → Type 0
KernelBelow s =
    (p : ℕ) → p < page_number → bitmap_get s.bitmap p ≡ kernel → p ≤ s.highest_kernel_page

highest-use_range :
    (s : Pmm) (ptr len flags : ℕ)
    → 0 < len
    → (s.highest_kernel_page ≤ (use_range ptr len flags s).highest_kernel_page)
      × (flags ≡ kernel → get_page ptr (len - 1) ≤ (use_range ptr len flags s).highest_kernel_page)
unfolding use_range
highest-use_range s ptr len flags hl = (ground arith, λ e. ground arith)

use_range_empty : (s : Pmm) (ptr len flags : ℕ) → len ≡ 0 → use_range ptr len flags s ≡ s
unfolding use_range
use_range_empty s ptr len flags z = rw z

-- Marking a range keeps every kernel page at or below `highest_kernel_page`.
pub use_range-KernelBelow :
    (s : Pmm) (ptr len flags : ℕ)
    → flags < 4
    → KernelBelow s
    → KernelBelow (use_range ptr len flags s)
use_range-KernelBelow s ptr len flags hf inv p hp e = elim (ℕ_discrete len 0) [
  | yes z ↦ let same = use_range_empty s ptr len flags z in rw same (inv p hp (rw same at e))
  | no nz ↦ ground (
    arith,
    highest-use_range s ptr len flags,
    bitmap_get-use_range ptr len flags s p (omega arith) hf hp,
    inv p hp,
    e,
  )
]

-- So does every allocation, and every release.
pub alloc-KernelBelow :
    (s : Pmm) (len flags : ℕ) → flags < 4 → KernelBelow s → KernelBelow (alloc len flags s).1
unfolding alloc
alloc-KernelBelow s len flags hf inv = elim (ℕ_discrete (find_free s len) 0) [
  | yes e ↦ rw e inv
  | no ne ↦ rw (==-false _ _ ne) (use_range-KernelBelow s (find_free s len) len flags hf inv)
]
