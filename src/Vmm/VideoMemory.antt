-- ===== src/Vmm/VideoMemory.antt =====
-- The mapping of the video memory at the end of `vmm_init`, `io_use_video_memory` in
-- `src/kernel/hardware/io/output.c`, and the pages that the kernel uses.
use mathlib.Core.Path.{subst}
use unnamed_os.Base.{
  ℕ, ◌+◌, ◌<◌, ◌≡◌, ◌≢◌, inl, inr, refl, sym, ◌∙◌, arith, true, false, ◌>>>◌, Bool-cases, ==-false,
  ℕ_discrete,
}
use unnamed_os.Pmm.{get_page, get_address, alloc, kernel, use_range, pages_of}
use unnamed_os.Pmm.Range.{bitmap_get-use_range}
use unnamed_os.Vmm.{
  Vmm, dir_entry, page_table_of, table_size, vmm_kernel, map_page, domain_check,
  get_physical_address, kernel_domain, map_range, map_pages, pages_in,
}
use unnamed_os.Vmm.Walk.{same_page, get_physical_address-walk, get_physical_address-pmm}
use unnamed_os.Vmm.Separated.{Separated, Separated-pmm}
use unnamed_os.Vmm.Translate.{map_page-other, map_page-paging}
use unnamed_os.Vmm.Memory.{use_memory, use_physical_memory, find_free}
use unnamed_os.Vmm.FindFree.{
  IsUnmapped, Found, found, not_found, find_free-Found, first_page, last_page,
}
use unnamed_os.Vmm.Init.{use_video_memory}

-- The state in which the video memory has been marked as used.
abbrev pub marked : (video : ℕ) → Vmm → Vmm
marked video s = record s { pmm = use_range video 4000 kernel s.pmm }

-- The memory for a page table that the video memory needs can be allocated.
abbrev pub VideoTableFound : (video : ℕ) → Vmm → Type 0
VideoTableFound video s =
    (dir_entry s (find_free 4000 kernel_domain s)).pr ≡ false
    → (alloc table_size kernel (marked video s).pmm).0 ≢ 0

marked-Separated : (video : ℕ) (s : Vmm) → Separated s → Separated (marked video s)
marked-Separated video s =
    Separated-pmm s (use_range video 4000 kernel s.pmm)
      (λ p hp h z. ground (arith, bitmap_get-use_range video 4000 kernel s.pmm p))

module _ (s : Vmm) (sep : Separated s) (on : s.paging ≡ true) (w : ℕ) (hw : page_table_of w < 1023)
    (behind : 0 < w >>> 12)
    (itself : (x : ℕ) → x >>> 12 ≡ w >>> 12 → get_physical_address s x ≡ x) where
  -- A mapping of an unmapped page.
  one_page :
      (first paddr : ℕ)
      → first < 262144
      → IsUnmapped s first
      → ((dir_entry s (get_address first 0)).pr ≡ false → (alloc table_size kernel s.pmm).0 ≢ 0)
      → get_physical_address (map_page (get_address first 0) paddr vmm_kernel s).1 w ≡ w
  one_page first paddr small unmapped tables =
      let v = get_address first 0 in
      let away : same_page v w ≡ false =
        ==-false (w >>> 12) (v >>> 12) (λ e. omega (arith, itself v (sym e), unmapped)) in
      get_physical_address-walk (map_page v paddr vmm_kernel s).1 w
        (map_page-paging v paddr vmm_kernel s ∙ on)
      ∙ map_page-other s v paddr vmm_kernel w sep (omega arith) hw tables away
      ∙ sym (get_physical_address-walk s w on)
      ∙ itself w refl

  one_range :
      (first paddr : ℕ)
      → first < 262144
      → IsUnmapped s first
      → ((dir_entry s (get_address first 0)).pr ≡ false → (alloc table_size kernel s.pmm).0 ≢ 0)
      → get_physical_address (map_range (get_address first 0) paddr 4000 vmm_kernel s) w ≡ w
  unfolding map_range map_pages
  one_range first paddr small unmapped tables =
      let v = get_address first 0 in
      let one : pages_in v 4000 ≡ 1 = omega arith in
      let page : get_page v 0 ≡ first = omega arith in
      elim (Bool-cases (domain_check v vmm_kernel s)) [
        | inr refused ↦ rw refused (itself w refl)
        | inl checked ↦
            rw (checked, one, page)
              (one_page first (get_address (get_page paddr 0) 0) small unmapped tables)
      ]

module _ (video : ℕ) (s : Vmm) (sep : Separated s) (on : s.paging ≡ true)
    (tables : VideoTableFound video s) (w : ℕ) (hw : page_table_of w < 1023) (behind : 0 < w >>> 12)
    (itself : (x : ℕ) → x >>> 12 ≡ w >>> 12 → get_physical_address s x ≡ x) where
  in_new_pages :
      (vaddr : ℕ)
      → vaddr ≢ 0
      → ((dir_entry s vaddr).pr ≡ false → (alloc table_size kernel (marked video s).pmm).0 ≢ 0)
      → Found s (pages_of 4000) (first_page kernel_domain) (last_page kernel_domain + 1) vaddr
      → get_physical_address (map_range vaddr video 4000 vmm_kernel (marked video s)) w ≡ w
  in_new_pages vaddr ne found_table (not_found z) = absurd (ne z)
  in_new_pages vaddr ne found_table (found first lo hi at unmapped) =
      subst
        (λ (v : ℕ). get_physical_address (map_range v video 4000 vmm_kernel (marked video s)) w ≡ w)
        (sym at)
        (one_range (marked video s) (marked-Separated video s sep) on w hw behind
          (λ x e. get_physical_address-pmm s (marked video s).pmm x ∙ itself x e) first video
          (omega arith)
          (get_physical_address-pmm s (marked video s).pmm (get_address first 0)
            ∙ unmapped first (omega arith) (omega arith))
          (subst
            (λ (v : ℕ).
              (dir_entry s v).pr ≡ false → (alloc table_size kernel (marked video s).pmm).0 ≢ 0)
            at found_table))

  pub use_video_memory-itself : get_physical_address (use_video_memory video s).1 w ≡ w
  unfolding use_physical_memory use_memory
  use_video_memory-itself =
      let vaddr = find_free 4000 kernel_domain s in
      elim (ℕ_discrete vaddr 0) [
        | yes z ↦ rw z (itself w refl)
        | no ne ↦ elim (Bool-cases (domain_check vaddr vmm_kernel s)) [
          | inr refused ↦ rw (==-false vaddr 0 ne, refused) (itself w refl)
          | inl checked ↦
              rw (==-false vaddr 0 ne, checked)
                (in_new_pages vaddr ne tables (find_free-Found 4000 kernel_domain s (omega arith)))
        ]
      ]
