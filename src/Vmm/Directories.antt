-- ===== src/Vmm/Directories.antt =====
-- The page directories of `src/kernel/mem/vmm.c`: their creation and destruction, and the change
-- from one to another. A directory is named by its physical address. `vmm_map_physical_memory`
-- may return a null pointer, which is not tested: accessing it is a page fault.
use unnamed_os.Base.{
  ℕ, zero, suc, ◌+◌, ◌-◌, Bool, true, false, ◌==◌, ◌&&◌, leb, if◌then◌else◌, update,
}
use unnamed_os.Pmm.{get_page, get_address, alloc, kernel}
use unnamed_os.Vmm.{
  Vmm, Entry, table_size, vmm_kernel, store, clear_frame, destroy_page_table, get_physical_address,
  touch, page_table_of, domain_start, domain_end, kernel_domain, user_domain,
}
use unnamed_os.Vmm.Memory.{map_physical_memory, unmap_physical_memory}

-- `VMM_PAGEDIR`.
abbrev vmm_pagedir : ℕ
vmm_pagedir = 4294963200

-- The frame behind a pointer to a directory.
abbrev frame_at : (vaddr : ℕ) → Vmm → ℕ
frame_at vaddr s = get_page (get_physical_address s vaddr) 0

-- `vmm_create_page_directory`.
unfoldable pub create_page_directory : Vmm → ℕ × Vmm
create_page_directory s =
    let (dir_phys, pmm) = alloc table_size kernel s.pmm in
    let (dir, mapped) =
      map_physical_memory dir_phys table_size vmm_kernel (record s { pmm = pmm }) in
    let s1 = touch dir mapped in
    let frame = frame_at dir s1 in
    let own : Entry = record { pr = true; rw = false; user = false; page = get_page dir_phys 0 } in
    (dir_phys, unmap_physical_memory dir table_size (store frame 1023 own (clear_frame frame s1)))

-- The loop of `vmm_destroy_page_directory`, over the tables that are left.
unfoldable pub destroy_loop : (rounds i : ℕ) → Vmm → Vmm
destroy_loop zero i s = s
destroy_loop (suc rounds) i s =
    destroy_loop rounds (i + 1) (if (s.entries s.directory i).pr then destroy_page_table i s else s)

-- `vmm_destroy_page_directory`.
unfoldable pub destroy_page_directory : (dir_phys : ℕ) → Vmm → Vmm
destroy_page_directory dir_phys s =
    let (dir, mapped) = map_physical_memory dir_phys table_size vmm_kernel s in
    let s1 = touch dir mapped in
    let first = page_table_of (domain_start user_domain) in
    let last = page_table_of (domain_end user_domain) in
    let s2 = destroy_page_table 0 (record s1 { directory = frame_at dir s1 }) in
    let s3 = destroy_page_table 1023 (destroy_loop (last + 1 - first) first s2) in
    unmap_physical_memory dir table_size (record s3 { directory = s.directory })

-- `vmm_refresh_page_directory`: the entries of the kernel domain are copied.
unfoldable pub refresh_page_directory : (dir_phys : ℕ) → Vmm → Vmm
refresh_page_directory dir_phys s =
    let (dir, mapped) = map_physical_memory dir_phys table_size vmm_kernel s in
    let s1 = touch dir mapped in
    let first = page_table_of (domain_start kernel_domain) in
    let last = page_table_of (domain_end kernel_domain) in
    let frame = frame_at dir s1 in
    let copied = λ (i : ℕ).
      if leb first i && leb i last then s1.entries s1.directory i else s1.entries frame i in
    unmap_physical_memory dir table_size (record s1 { entries = update s1.entries frame copied })

-- `vmm_load_page_directory`: the physical address of the previous directory, and the state.
unfoldable pub load_page_directory : (new_directory : ℕ) → Vmm → ℕ × Vmm
load_page_directory new_directory s =
    if new_directory == vmm_pagedir
    then (0, s)
    else if s.paging
    then (let s1 = refresh_page_directory new_directory s in
        (get_physical_address s vmm_pagedir, record s1 { directory = get_page new_directory 0 }))
    else (
      get_address s.directory 0,
      record s { directory = get_page new_directory 0; paging = true },
    )

-- `vmm_modify_page_directory` and `vmm_modified_page_directory`, with the state of the interrupt
-- flag and `old_interrupts`.
pub record Interrupts : Type 0 where
  pub enabled : Bool
  pub old_interrupts : Bool

unfoldable pub modify_page_directory : (new_directory : ℕ) → Interrupts × Vmm → Interrupts × Vmm
modify_page_directory new_directory (i, s) =
    if s.old_directory == 0
    then (let (old, s1) = load_page_directory new_directory s in
        (record { enabled = false; old_interrupts = i.enabled }, record s1 { old_directory = old }))
    else (i, s)

unfoldable pub modified_page_directory : Interrupts × Vmm → Interrupts × Vmm
modified_page_directory (i, s) =
    if s.old_directory == 0
    then (i, s)
    else (let (_, s1) = load_page_directory s.old_directory s in
        (record i { enabled = i.old_interrupts }, record s1 { old_directory = 0 }))
