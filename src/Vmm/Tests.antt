-- ===== src/Vmm/Tests.antt =====
-- Tests of the virtual memory manager, at a directory in frame 0 that has one table, in frame 1,
-- for the addresses from 1 GiB on.
use unnamed_os.Base.{
  false, ◌≤◌, ℕ, ◌<◌, ◌≡◌, refl, sym, ap, ◌∙◌, arith, true, update, if◌then◌else◌,
}
use unnamed_os.Pmm
use unnamed_os.Pmm.{alloc, get_page, get_address, bitmap_get}
use unnamed_os.Vmm.{
  dir_entry, destroy_page_table, Vmm, Entry, absent, map_page, unmap_page, get_physical_address,
  page_offset_of, store, domain_check, ensure_page_table,
}
use unnamed_os.Vmm.Translate.{map_page-translates}
use unnamed_os.Vmm.Walk.{same_page}
use unnamed_os.Vmm.{map_range, pages_in}
use unnamed_os.Vmm.Ranges.{with_range, map_range-translates}
use unnamed_os.Vmm.Memory
use unnamed_os.Vmm.Memory.{vmm_alloc}
use unnamed_os.Vmm.Allocation.{IsFresh, vmm_alloc-IsFresh}
use unnamed_os.Vmm.Separated.{Separated}
use unnamed_os.Vmm.NullPage.{destroy_page_table-null}
use unnamed_os.Vmm.Unmap.{unmap_page-translates}
use unnamed_os.Vmm.Freeing.{unmap_page-loses_last}

abbrev table_entry : ℕ → Entry
table_entry page = record { pr = true; rw = true; user = true; page = page }

abbrev small_vmm : Vmm
small_vmm = record {
  entries =
      update (λ _ _. absent) 0
        (update (update (λ _. absent) 1023 (table_entry 0)) 256 (table_entry 1));
  directory = 0;
  old_directory = 0;
  domain_check_enabled = true;
  paging = true;
  faulted = false;
  pmm = record { bitmap = λ _. 10; highest_kernel_page = 1 };
}

used : (bitmap_get (λ _. 10) 0 ≡ 2) × (bitmap_get (λ _. 10) 1 ≡ 2)
unfolding bitmap_get
used = (refl, refl)

only_table :
    (i : ℕ)
    → i < 1023
    → (small_vmm.entries 0 i).pr ≡ true
    → (i ≡ 256) × ((small_vmm.entries 0 i).page ≡ 1)
only_table i h pr = ground arith

small_vmm-Separated : Separated small_vmm
small_vmm-Separated = record {
  dir_small = omega arith;
  dir_used = λ e. ground (arith, used.0);
  tab_small = λ i h pr. omega (arith, (only_table i h pr).1);
  tab_used =
      λ i h pr e. omega (arith, used.1, ap (bitmap_get (λ _. 10)) (sym (only_table i h pr).1) ∙ e);
  own = λ i h pr e. omega (arith, (only_table i h pr).1);
  only = λ i j h h' pr pr' e. omega (arith, (only_table i h pr).0, (only_table j h' pr').0);
}

map_page-translates_example :
    (get_physical_address (map_page 1073742115 20480 5 small_vmm).1 1073745919 ≡ (
      if same_page 1073742115 1073745919
      then get_address (get_page 20480 0) (page_offset_of 1073745919)
      else get_physical_address small_vmm 1073745919))
    × Separated (map_page 1073742115 20480 5 small_vmm).1
unfolding map_page domain_check ensure_page_table
map_page-translates_example =
    map_page-translates small_vmm 1073742115 20480 5 1073745919 small_vmm-Separated refl
      (omega arith) (omega arith) (λ gone. absurd (cc gone)) refl

unmap_page-translates_example :
    (get_physical_address
        (unmap_page 1073742115 (map_page 1073742115 20480 5 small_vmm).1)
        1073745919
      ≡ (if same_page 1073742115 1073745919
          then 0
          else get_physical_address (map_page 1073742115 20480 5 small_vmm).1 1073745919))
    × Separated (unmap_page 1073742115 (map_page 1073742115 20480 5 small_vmm).1)
unfolding map_page domain_check ensure_page_table
unmap_page-translates_example =
    unmap_page-translates (map_page 1073742115 20480 5 small_vmm).1 1073742115
      map_page-translates_example.1 (omega arith) 1073745919 refl (omega arith) (λ there. refl)

-- Two pages, and an address in the second of them.
map_range-translates_example :
    (get_physical_address (map_range 1073742115 20480 5000 5 small_vmm) 1073745999
      ≡ with_range
          (pages_in 1073742115 5000)
          (get_page 1073742115 0)
          (get_page 20480 0)
          (get_physical_address small_vmm)
          1073745999)
    × Separated (map_range 1073742115 20480 5000 5 small_vmm)
unfolding map_page domain_check ensure_page_table
map_range-translates_example =
    map_range-translates 1073742115 20480 5000 5 small_vmm 1073745999 small_vmm-Separated refl
      (omega arith) (omega arith) (omega arith) (omega arith) refl
      (λ gone. absurd (cc gone), refl, (λ gone. absurd (cc gone), refl, tt))

second_page :
    with_range
      (pages_in 1073742115 5000)
      (get_page 1073742115 0)
      (get_page 20480 0)
      (get_physical_address small_vmm)
      1073745999
    ≡ 24655
second_page = refl

abbrev one_page : Vmm
one_page = store 1 0 (table_entry 5) small_vmm

abbrev two_pages : Vmm
two_pages = store 1 1023 (table_entry 6) one_page

unmap_page-loses_last_example :
    (get_physical_address (unmap_page 1073742115 two_pages) 1077932032 ≡ 0)
    × ((dir_entry (unmap_page 1073742115 two_pages) 1073742115).pr ≡ false)
    × (bitmap_get (unmap_page 1073742115 two_pages).pmm.bitmap (dir_entry two_pages 1073742115).page
        ≡ 0)
unmap_page-loses_last_example =
    unmap_page-loses_last two_pages 1073742115 (λ e. omega arith) refl refl 1077932032 refl refl
      refl (λ e. omega arith) refl (omega arith) (λ j h ne. ground arith)

destroy_page_table-null_example :
    (bitmap_get (destroy_page_table 0 small_vmm).pmm.bitmap 0 ≡ 0)
    × ((len flags : ℕ)
        → 0 < len
        → len ≤ 4096
        → alloc len flags (destroy_page_table 0 small_vmm).pmm
          ≡ (0, (destroy_page_table 0 small_vmm).pmm))
destroy_page_table-null_example = destroy_page_table-null 0 small_vmm refl

-- Two pages for a user, at 1 GiB, in page frames 2 and 3.
allocated : ((vmm_alloc 5000 5 small_vmm).0 ≡ 1073741824) × ((alloc 5000 3 small_vmm.pmm).0 ≡ 8192)
unfolding alloc Pmm.find_free Pmm.find_loop bitmap_get vmm_alloc Memory.find_free Memory.find_loop
    get_physical_address Pmm.use_range Pmm.use_pages Pmm.bitmap_set Pmm.bitmap_set_bit
    Pmm.bitmap_clear_bit
allocated = (refl, refl)

vmm_alloc-IsFresh_example :
    IsFresh 5000 5 small_vmm (vmm_alloc 5000 5 small_vmm).0 (vmm_alloc 5000 5 small_vmm).1
unfolding alloc Pmm.find_free Pmm.find_loop bitmap_get vmm_alloc Memory.find_free Memory.find_loop
    get_physical_address Pmm.use_range Pmm.use_pages Pmm.bitmap_set Pmm.bitmap_set_bit
    Pmm.bitmap_clear_bit map_page domain_check ensure_page_table
vmm_alloc-IsFresh_example =
    vmm_alloc-IsFresh 5000 5 small_vmm small_vmm-Separated refl (omega arith)
      (λ z. omega (arith, allocated.1, z)) (λ z. omega (arith, allocated.0, z))
      (λ gone. absurd (cc gone), refl, (λ gone. absurd (cc gone), refl, tt))
