-- ===== src/Vmm.antt =====
-- The virtual memory manager, `src/kernel/mem/vmm.c`: page directories and page tables, the
-- mapping and unmapping of pages, and the translation of addresses.
-- Directories and tables are page frames of 1024 entries, and the state holds the entries of every
-- frame, so a directory that is its own last table is that in the model too. The recursive
-- mapping that gives the kernel access to them is the processor's, and is taken to lead to the
-- frame that an entry names. The flush of the TLB, write-through and the like are left out.
pub mod Memory
pub mod Ranges
pub mod Directories
pub mod Walk
pub mod Separated
pub mod Translate
pub mod Freeing
pub mod Unmap
pub mod NullPage
pub mod Init
pub mod Identity
pub mod Spare
pub mod Suffices
pub mod VideoMemory
pub mod Initialised
pub mod FindFree
pub mod Allocation
mod Tests
mod InitTests
use unnamed_os.Base.{
  ℕ, zero, suc, ◌+◌, ◌-◌, ◌%◌, Bool, true, false, not, ◌&&◌, ◌||◌, Option, none, some, bit_and, ltb,
  leb, ◌==◌, if◌then◌else◌, update, u32, sub32, ◌>>>◌,
}
use unnamed_os.Pmm.{Pmm, get_page, get_address, alloc, free, kernel}

abbrev pub table_size : ℕ
table_size = 4096

-- `vmm_flags_t`.
abbrev pub vmm_kernel : ℕ
vmm_kernel = 0

abbrev pub vmm_user : ℕ
vmm_user = 1

abbrev pub vmm_writable : ℕ
vmm_writable = 4

-- `page_directory_entry_t` and `page_table_entry_t`, whose fields lie at the same places: `page` is
-- also the field `pt`. `memset` to 0 makes an entry `absent`.
pub record Entry : Type 0 where
  pub pr : Bool
  pub rw : Bool
  pub user : Bool
  pub page : ℕ

abbrev pub absent : Entry
absent = record { pr = false; rw = false; user = false; page = 0 }

-- The static variables of vmm.c, the entries in memory by frame and index, whether paging is on,
-- the PMM, and whether the memory manager has accessed memory that is not mapped, which is a page fault: the
-- functions that return an `Outcome` panic then. `directory` is the frame that `page_directory` points to.
pub record Vmm : Type 0 where
  pub entries : ℕ → ℕ → Entry
  pub directory : ℕ
  pub old_directory : ℕ
  pub domain_check_enabled : Bool
  pub paging : Bool
  pub faulted : Bool
  pub pmm : Pmm

-- `vmm_virtual_address_t`.
abbrev pub page_table_of : (vaddr : ℕ) → ℕ
page_table_of vaddr = vaddr >>> 22

abbrev pub page_of : (vaddr : ℕ) → ℕ
page_of vaddr = (vaddr >>> 12) % 1024

abbrev pub page_offset_of : (vaddr : ℕ) → ℕ
page_offset_of vaddr = vaddr % 4096

-- The store of an entry.
abbrev pub store : (frame index : ℕ) → Entry → Vmm → Vmm
store frame index e s = record s {
  entries = update s.entries frame (update (s.entries frame) index e);
}

abbrev pub clear_frame : (frame : ℕ) → Vmm → Vmm
clear_frame frame s = record s { entries = update s.entries frame (λ _. absent) }

-- `vmm_domain_t`, and the two domains.
pub data Domain : Type 0 where
  kernel_domain user_domain : Domain

abbrev pub domain_start : Domain → ℕ
domain_start kernel_domain = 4194304
domain_start user_domain = 1073741824

abbrev pub domain_end : Domain → ℕ
domain_end kernel_domain = 1073741823
domain_end user_domain = 4290772991

-- `vmm_get_domain`, `vmm_is_in_domain`, `vmm_get_domain_from_address` and `vmm_domain_check`.
abbrev pub get_domain : (flags : ℕ) → Domain
get_domain flags = if bit_and flags vmm_user == 0 then kernel_domain else user_domain

abbrev is_in_domain : (vaddr : ℕ) → Domain → Bool
is_in_domain vaddr domain = leb (domain_start domain) vaddr && leb vaddr (domain_end domain)

abbrev pub get_domain_from_address : (vaddr : ℕ) → Option Domain
get_domain_from_address vaddr =
    if is_in_domain vaddr kernel_domain
    then some kernel_domain
    else if is_in_domain vaddr user_domain
    then some user_domain
    else none

abbrev pub same_domain : Option Domain → Domain → Bool
same_domain (some kernel_domain) kernel_domain = true
same_domain (some user_domain) user_domain = true
same_domain _ _ = false

unfoldable pub domain_check : (vaddr flags : ℕ) → Vmm → Bool
domain_check vaddr flags s =
    not (
      s.domain_check_enabled
      && not (same_domain (get_domain_from_address vaddr) (get_domain flags)))

-- The entry of the directory for an address, and the entry that `vmm_get_page_table_entry` finds
-- through it.
abbrev pub dir_entry : Vmm → (vaddr : ℕ) → Entry
dir_entry s vaddr = s.entries s.directory (page_table_of vaddr)

abbrev pub tab_entry : Vmm → (vaddr : ℕ) → Entry
tab_entry s vaddr = s.entries (dir_entry s vaddr).page (page_of vaddr)

-- Whether the entries for an address are present.
abbrev is_mapped : Vmm → (vaddr : ℕ) → Bool
is_mapped s vaddr = (dir_entry s vaddr).pr && (tab_entry s vaddr).pr

-- An access to an address, and to all bytes from an address on.
abbrev pub touch : (vaddr : ℕ) → Vmm → Vmm
touch vaddr s = record s { faulted = (s.paging && not (is_mapped s vaddr)) || s.faulted }

unfoldable pub mapped_pages : (rounds page : ℕ) → Vmm → Bool
mapped_pages zero page s = true
mapped_pages (suc rounds) page s =
    is_mapped s (get_address page 0) && mapped_pages rounds (page + 1) s

abbrev pub all_mapped : (vaddr len : ℕ) → Vmm → Bool
all_mapped vaddr len s =
    if len == 0
    then true
    else mapped_pages (get_page vaddr (len - 1) + 1 - get_page vaddr 0) (get_page vaddr 0) s

abbrev pub touch_range : (vaddr len : ℕ) → Vmm → Vmm
touch_range vaddr len s = record s {
  faulted = (s.paging && not (all_mapped vaddr len s)) || s.faulted;
}

-- `vmm_destroy_page_table`.
unfoldable pub destroy_page_table : (page_table : ℕ) → Vmm → Vmm
destroy_page_table page_table s =
    let e = s.entries s.directory page_table in
    let freed = record s { pmm = free (get_address e.page 0) table_size s.pmm } in
    store freed.directory page_table absent freed

-- The part of `vmm_map` that creates a page table. `pmm_alloc` may return 0, which is not tested.
unfoldable pub create_page_table : (page_table : ℕ) → Vmm → Vmm
create_page_table page_table s =
    let (ptr, pmm) = alloc table_size kernel s.pmm in
    let e : Entry = record { pr = true; rw = true; user = true; page = get_page ptr 0 } in
    clear_frame e.page (store s.directory page_table e (record s { pmm = pmm }))

unfoldable pub ensure_page_table : (vaddr : ℕ) → Vmm → Vmm
ensure_page_table vaddr s =
    if (dir_entry s vaddr).pr then s else create_page_table (page_table_of vaddr) s

-- The entry that `vmm_map` writes.
abbrev pub mapping : (paddr flags : ℕ) → Entry
mapping paddr flags = record {
  pr = true;
  rw = not (bit_and flags vmm_writable == 0);
  user = not (bit_and flags vmm_user == 0);
  page = get_page paddr 0;
}

-- `vmm_map`: whether it mapped the page, and the state.
unfoldable pub map_page : (vaddr paddr flags : ℕ) → Vmm → Bool × Vmm
map_page vaddr paddr flags s =
    if domain_check vaddr flags s
    then (let s1 = ensure_page_table vaddr s in
        if (tab_entry s1 vaddr).pr
        then (false, s1)
        else (true, store (dir_entry s1 vaddr).page (page_of vaddr) (mapping paddr flags) s1))
    else (false, s)

-- The loop of `vmm_unmap`, from entry `i` on: the index of the first present entry, or 1024.
unfoldable pub first_present : (ℕ → Entry) → (rounds i : ℕ) → ℕ
first_present table zero i = i
first_present table (suc rounds) i =
    let rest = first_present table rounds (i + 1) in if (table i).pr then i else rest

-- `vmm_unmap`. The table is given back if the loop stopped at 1023.
unfoldable pub unmap_page : (vaddr : ℕ) → Vmm → Vmm
unmap_page vaddr s =
    if (dir_entry s vaddr).pr && (tab_entry s vaddr).pr
    then (let frame = (dir_entry s vaddr).page in
        let s1 = store frame (page_of vaddr) absent s in
        if first_present (s1.entries frame) 1024 0 == 1023
        then destroy_page_table (page_table_of vaddr) s1
        else s1)
    else s

-- The loops of `vmm_map_range_detailed`, over the pages that are left.
unfoldable pub map_pages : (rounds virtual_page physical_page flags : ℕ) → Vmm → Vmm
map_pages zero virtual_page physical_page flags s = s
map_pages (suc rounds) virtual_page physical_page flags s =
    let (_, s1) = map_page (get_address virtual_page 0) (get_address physical_page 0) flags s in
    map_pages rounds (virtual_page + 1) (physical_page + 1) flags s1

unfoldable pub unmap_pages : (rounds virtual_page : ℕ) → Vmm → Vmm
unmap_pages zero virtual_page s = s
unmap_pages (suc rounds) virtual_page s =
    unmap_pages rounds (virtual_page + 1) (unmap_page (get_address virtual_page 0) s)

-- `vmm_map_range` and `vmm_unmap_range`.
abbrev pages_in : (vaddr len : ℕ) → ℕ
pages_in vaddr len = u32 (sub32 (get_page vaddr (sub32 len 1)) (get_page vaddr 0) + 1)

unfoldable pub map_range : (vaddr paddr len flags : ℕ) → Vmm → Vmm
map_range vaddr paddr len flags s =
    if len == 0
    then s
    else if domain_check vaddr flags s
    then map_pages (pages_in vaddr len) (get_page vaddr 0) (get_page paddr 0) flags s
    else s

unfoldable pub unmap_range : (vaddr len : ℕ) → Vmm → Vmm
unmap_range vaddr len s =
    if len == 0 then s else unmap_pages (pages_in vaddr len) (get_page vaddr 0) s

-- `vmm_get_physical_address`.
unfoldable pub get_physical_address : Vmm → (vaddr : ℕ) → ℕ
get_physical_address s vaddr =
    if s.paging
    then (if (dir_entry s vaddr).pr && (tab_entry s vaddr).pr
        then get_address (tab_entry s vaddr).page (page_offset_of vaddr)
        else 0)
    else vaddr
