-- ===== src/Vmm/Memory.antt =====
-- The allocation of memory in `src/kernel/mem/vmm.c`: the search for unmapped pages, and the
-- operations that mark, map, and give back.
use unnamed_os.Base.{ℕ, zero, suc, ◌+◌, ◌-◌, Bool, not, ◌||◌, bit_and, leb, ◌==◌, if◌then◌else◌}
use unnamed_os.Pmm.{get_page, get_address, alloc, free, use_range, pages_of, kernel, user}
use unnamed_os.Vmm.{
  Vmm, Domain, domain_start, domain_end, get_domain, domain_check, vmm_user, map_range, unmap_range,
  get_physical_address,
}

-- The loop of `vmm_find_free` at page `i`, with `rounds` pages left. 0 is "not found".
unfoldable pub find_loop : Vmm → (pages rounds i free_pages : ℕ) → ℕ
find_loop s pages zero i free_pages = 0
find_loop s pages (suc rounds) i free_pages =
    let free = if get_physical_address s (get_address i 0) == 0 then free_pages + 1 else 0 in
    let rest = find_loop s pages rounds (i + 1) free in
    if leb pages free then get_address (i + 1 - free) 0 else rest

-- `vmm_find_free`.
unfoldable pub find_free : (len : ℕ) → Domain → Vmm → ℕ
find_free len domain s =
    let first = get_page (domain_start domain) 0 in
    let last = get_page (domain_end domain) 0 in
    if len == 0 then 0 else find_loop s (pages_of len) (last + 1 - first) first 0

-- `vmm_get_pmm_flags`.
abbrev pub get_pmm_flags : (flags : ℕ) → ℕ
get_pmm_flags flags = if bit_and flags vmm_user == 0 then kernel else user

-- `vmm_map_physical_memory` and `vmm_unmap_physical_memory`.
unfoldable pub map_physical_memory : (paddr len flags : ℕ) → Vmm → ℕ × Vmm
map_physical_memory paddr len flags s =
    if s.paging
    then (let vaddr = find_free len (get_domain flags) s in
        if vaddr == 0 then (0, s) else (vaddr, map_range vaddr paddr len flags s))
    else (paddr, s)

unfoldable pub unmap_physical_memory : (vaddr len : ℕ) → Vmm → Vmm
unmap_physical_memory vaddr len s = if s.paging then unmap_range vaddr len s else s

-- `vmm_use`, `vmm_use_physical_memory` and `vmm_use_virtual_memory`.
unfoldable pub use_memory : (vaddr paddr len flags : ℕ) → Vmm → Vmm
use_memory vaddr paddr len flags s =
    if len == 0 || not (domain_check vaddr flags s)
    then s
    else map_range vaddr paddr len flags
        (record s { pmm = use_range paddr len (get_pmm_flags flags) s.pmm })

unfoldable pub use_physical_memory : (paddr len flags : ℕ) → Vmm → ℕ × Vmm
use_physical_memory paddr len flags s =
    let vaddr = find_free len (get_domain flags) s in
    if vaddr == 0 then (0, s) else (vaddr, use_memory vaddr paddr len flags s)

unfoldable pub use_virtual_memory : (vaddr len flags : ℕ) → Vmm → ℕ × Vmm
use_virtual_memory vaddr len flags s =
    let (paddr, pmm) = alloc len (get_pmm_flags flags) s.pmm in
    if domain_check vaddr flags s
    then (if paddr == 0
        then (0, record s { pmm = pmm })
        else (paddr, map_range vaddr paddr len flags (record s { pmm = pmm })))
    else (0, s)

-- `vmm_alloc`. It allocates the page frames before it looks for pages to map them into, and keeps
-- them if there are none.
unfoldable pub vmm_alloc : (len flags : ℕ) → Vmm → ℕ × Vmm
vmm_alloc len flags s =
    let (paddr, pmm) = alloc len (get_pmm_flags flags) s.pmm in
    let s1 = record s { pmm = pmm } in
    let vaddr = find_free len (get_domain flags) s1 in
    if paddr == 0 || vaddr == 0 then (0, s1) else (vaddr, map_range vaddr paddr len flags s1)

-- `vmm_free`.
unfoldable pub vmm_free : (vaddr len : ℕ) → Vmm → Vmm
vmm_free vaddr len s =
    let paddr = get_physical_address s vaddr in
    let s1 = unmap_range vaddr len s in
    if len == 0 then s else record s1 { pmm = free paddr len s1.pmm }

-- `vmm_enable_domain_check`.
abbrev pub enable_domain_check : Bool → Vmm → Vmm
enable_domain_check enable s = record s { domain_check_enabled = enable }
