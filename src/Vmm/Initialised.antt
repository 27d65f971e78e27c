-- ===== src/Vmm/Initialised.antt =====
-- `vmm_init` of `src/kernel/mem/vmm.c`: the address space in which the kernel goes on.
use mathlib.Core.Path.{subst, ap₂}
use unnamed_os.Base.{
  ℕ, zero, suc, ◌+◌, ◌≤◌, ◌<◌, ◌≡◌, ◌≢◌, inl, refl, sym, ap, ◌∙◌, arith, true, false, ◌>>>◌,
  ==-false, ==-refl,
}
use unnamed_os.Pmm.{
  get_page, get_address, alloc, kernel, page_number, bitmap_get, get_highest_kernel_page,
}
use unnamed_os.Pmm.Alloc.{alloc-Allocated}
use unnamed_os.Pmm.Kernel.{KernelBelow, alloc-KernelBelow}
use unnamed_os.Vmm.{
  Vmm, Entry, absent, store, clear_frame, page_table_of, table_size, vmm_kernel,
  get_physical_address, vmm_kernel,
}
use unnamed_os.Vmm.Walk.{walk, get_physical_address-walk}
use unnamed_os.Vmm.Separated.{Separated}
use unnamed_os.Vmm.Translate.{map_page-paging}
use unnamed_os.Vmm.Memory.{map_physical_memory, unmap_physical_memory}
use unnamed_os.Vmm.Directories.{create_page_directory, load_page_directory}
use unnamed_os.Vmm.VideoMemory.{VideoTableFound, use_video_memory-itself}
use unnamed_os.Vmm.Init.{identity_page, identity_loop, fill_directory, vmm_init, use_video_memory}
use unnamed_os.Vmm.Identity.{
  InUse, Identity, TablesFound, identity_loop-Identity, map_page-directory, alloc-keeps,
}

identity_page-keeps :
    (i : ℕ) (s : Vmm)
    → ((identity_page i s).directory ≡ s.directory) × ((identity_page i s).paging ≡ s.paging)
unfolding identity_page
identity_page-keeps i s =
    let v = get_address i 0 in
    ground (arith, map_page-directory v v vmm_kernel s, map_page-paging v v vmm_kernel s)

identity_loop-keeps :
    (rounds i : ℕ) (s : Vmm)
    → ((identity_loop rounds i s).directory ≡ s.directory)
      × ((identity_loop rounds i s).paging ≡ s.paging)
unfolding identity_loop
identity_loop-keeps zero i s = (refl, refl)
identity_loop-keeps (suc rounds) i s =
    let one = identity_page-keeps i s in
    let rest = identity_loop-keeps rounds (i + 1) (identity_page i s) in
    (rest.0 ∙ one.0, rest.1 ∙ one.1)

-- The state after `vmm_create_page_directory` without paging, with the directory in use.
abbrev pub with_directory : Vmm → Vmm
with_directory s =
    let (dir, pmm) = alloc table_size kernel s.pmm in
    let frame = get_page dir 0 in
    let own : Entry = record { pr = true; rw = false; user = false; page = frame } in
    store frame 1023 own (clear_frame frame (record s { pmm = pmm; directory = frame }))

module _ (s : Vmm) (off : s.paging ≡ false) where
  created :
      (record (create_page_directory s).1 { directory = get_page (create_page_directory s).0 0 }
        ≡ with_directory s)
      × ((create_page_directory s).0 ≡ (alloc table_size kernel s.pmm).0)
  unfolding create_page_directory map_physical_memory unmap_physical_memory get_physical_address
  created = rw off (refl, refl)

  module _ (unchecked : s.domain_check_enabled ≡ false)
      (success : (alloc table_size kernel s.pmm).0 ≢ 0) where
    no_table :
        (i : ℕ) → i < 1023 → (with_directory s).entries (with_directory s).directory i ≡ absent
    no_table i hi =
        rw (
          ==-refl (get_page (alloc table_size kernel s.pmm).0 0),
          ==-false i 1023 (λ e. omega arith),
        )

    true≢false : ¬ (true ≡ false)
    true≢false e = ground arith

    pub fresh-Identity : Identity s.pmm.bitmap 0 (with_directory s)
    fresh-Identity =
        let a = alloc-Allocated s.pmm table_size kernel (omega arith) (omega arith) success in
        let f = get_page (alloc table_size kernel s.pmm).0 0 in
        let small : f < page_number = omega (arith, a.in_memory) in
        let none_present : (i : ℕ) → i < 1023 → ¬ (((with_directory s).entries f i).pr ≡ true) =
          λ i hi pr. true≢false (sym pr ∙ ap (λ (e : Entry). e.pr) (no_table i hi)) in
        record {
          separated = record {
            dir_small = small;
            dir_used = λ z. ground (arith, a.entries f small);
            tab_small = λ i hi pr. absurd (none_present i hi pr);
            tab_used = λ i hi pr. absurd (none_present i hi pr);
            own = λ i hi pr. absurd (none_present i hi pr);
            only = λ i j hi hj pr. absurd (none_present i hi pr);
          };
          unchecked = unchecked;
          kept = λ p hp used. alloc-keeps s.pmm p success hp used;
          below = λ w hw lt. absurd (omega arith);
          only = λ w hw. inl (rw (no_table (page_table_of w) hw));
          above = λ w hw le. rw (no_table (page_table_of w) hw);
        }

-- The pages that `vmm_init` goes through.
abbrev pub kernel_pages : Vmm → ℕ
kernel_pages s = get_highest_kernel_page (with_directory s).pmm + 1

-- The state after the loop of `vmm_init`, and that with paging on.
abbrev pub identity_mapped : Vmm → Vmm
identity_mapped s = identity_loop (kernel_pages s) 0 (with_directory s)

abbrev pub loaded : Vmm → Vmm
loaded s = record (identity_mapped s) {
  domain_check_enabled = true;
  directory = (with_directory s).directory;
  paging = true;
}

-- What `vmm_init` relies on: paging and the check of domains are off, as at the start; the memory for
-- the directory and for each table can be allocated, the directory not at the very end of memory; and the
-- kernel does not reach into the last 4 MiB.
pub record CanInit (video : ℕ) (s : Vmm) : Type 0 where
  pub off : s.paging ≡ false
  pub unchecked : s.domain_check_enabled ≡ false
  pub directory : (alloc table_size kernel s.pmm).0 ≢ 0
  pub inside : (alloc table_size kernel s.pmm).0 ≢ 4294963200
  pub small : kernel_pages s ≤ 1047552
  pub tables : TablesFound (kernel_pages s) 0 (with_directory s)
  pub video_table : VideoTableFound video (loaded s)

module _ (video : ℕ) (s : Vmm) (can : CanInit video s) where
  filled :
      fill_directory video (alloc table_size kernel s.pmm).0 (with_directory s)
      ≡ use_video_memory video (loaded s)
  unfolding fill_directory load_page_directory
  filled =
      let keeps = identity_loop-keeps (kernel_pages s) 0 (with_directory s) in
      rw (==-false (alloc table_size kernel s.pmm).0 4294963200 can.inside, keeps.1, can.off) refl

  vmm_init-loaded : vmm_init video s ≡ use_video_memory video (loaded s)
  unfolding vmm_init
  vmm_init-loaded =
      let c = created s can.off in
      ap₂ (λ (dir : ℕ) (x : Vmm). fill_directory video dir x) c.1 c.0 ∙ filled

  loaded-Identity : Identity s.pmm.bitmap (kernel_pages s) (identity_mapped s)
  loaded-Identity =
      subst (λ (n : ℕ). Identity s.pmm.bitmap n (identity_mapped s)) (omega arith)
        (identity_loop-Identity s.pmm.bitmap (kernel_pages s) 0 (with_directory s)
          (omega (arith, can.small)) can.tables
          (fresh-Identity s can.off can.unchecked can.directory))

  loaded-walk :
      (w : ℕ)
      → get_physical_address (loaded s) w
        ≡ walk (identity_mapped s).entries (identity_mapped s).directory w
  loaded-walk w =
      let keeps = identity_loop-keeps (kernel_pages s) 0 (with_directory s) in
      get_physical_address-walk (loaded s) w refl
      ∙ ap (λ (d : ℕ). walk (identity_mapped s).entries d w) (sym keeps.0)

  loaded-Separated : Separated (loaded s)
  loaded-Separated =
      let keeps = identity_loop-keeps (kernel_pages s) 0 (with_directory s) in
      let sep =
        subst (λ (d : ℕ). Separated (record (identity_mapped s) { directory = d })) keeps.0
          loaded-Identity.separated in
      record {
        dir_small = sep.dir_small;
        dir_used = sep.dir_used;
        tab_small = sep.tab_small;
        tab_used = sep.tab_used;
        own = sep.own;
        only = sep.only;
      }

  loaded-itself :
      (w : ℕ)
      → page_table_of w < 1023
      → w >>> 12 < kernel_pages s
      → InUse (bitmap_get s.pmm.bitmap (w >>> 12))
      → get_physical_address (loaded s) w ≡ w
  loaded-itself w hw lt used = loaded-walk w ∙ loaded-Identity.below w hw lt used

  -- Where memory suffices, an address in a page that is in use before `vmm_init`, not above the highest page of
  -- the kernel and not in page 0, translates to itself after it, so the kernel goes on where it is.
  vmm_init-itself :
      (w : ℕ)
      → 0 < w >>> 12
      → w >>> 12 < kernel_pages s
      → InUse (bitmap_get s.pmm.bitmap (w >>> 12))
      → get_physical_address (vmm_init video s).1 w ≡ w
  vmm_init-itself w behind lt used =
      let hw : page_table_of w < 1023 = omega (arith, can.small) in
      ap (λ (r : ℕ × Vmm). get_physical_address r.1 w) vmm_init-loaded
      ∙ use_video_memory-itself video (loaded s) loaded-Separated refl can.video_table w hw behind
          (λ x e. loaded-itself x (omega (arith, e)) (omega (arith, e)) (rw e used))

  -- Where memory suffices, every address in a page of the kernel, but for page 0, translates to itself after
  -- `vmm_init` has turned paging on: the kernel goes on where it is. It is assumed that no page of the kernel
  -- lies above the highest one that the PMM has memorized.
  pub vmm_init-kernel :
      (w : ℕ)
      → KernelBelow s.pmm
      → 0 < w >>> 12
      → w >>> 12 < page_number
      → bitmap_get s.pmm.bitmap (w >>> 12) ≡ kernel
      → get_physical_address (vmm_init video s).1 w ≡ w
  vmm_init-kernel w below behind small of_kernel =
      let used : InUse (bitmap_get s.pmm.bitmap (w >>> 12)) =
        (λ z. omega (arith, of_kernel, z), λ z. omega (arith, of_kernel, z)) in
      let still = alloc-keeps s.pmm (w >>> 12) can.directory small used.0 ∙ of_kernel in
      let lower : w >>> 12 ≤ (with_directory s).pmm.highest_kernel_page =
        alloc-KernelBelow s.pmm table_size kernel (omega arith) below (w >>> 12) small still in
      vmm_init-itself w behind (omega (arith, lower)) used
