-- ===== src/Vmm/Allocation.antt =====
-- `vmm_alloc` of `src/kernel/mem/vmm.c`, with the search for pages and the mapping.
use mathlib.Core.Path.{subst, ap₂}
use unnamed_os.Base.{
  ℕ, ◌+◌, ◌≤◌, ◌<◌, ◌≡◌, ◌≢◌, refl, sym, ap, ◌∙◌, arith, true, ◌/◌, ◌%◌, ==-false, ℕ_discrete,
}
use unnamed_os.Pmm.{get_page, get_address, alloc, unused, page_number, page_size, pages_of}
use unnamed_os.Pmm.Alloc.{alloc-Allocated}
use unnamed_os.Pmm.FirstFit.{FreeRun}
use unnamed_os.Vmm.{
  Vmm, Domain, kernel_domain, user_domain, get_domain, page_table_of, domain_check,
  get_physical_address, map_range, pages_in, get_domain_from_address, same_domain,
}
use unnamed_os.Vmm.Walk.{get_physical_address-pmm}
use unnamed_os.Vmm.Separated.{Separated, Separated-pmm}
use unnamed_os.Vmm.Ranges.{MapsAll, with_range, map_range-translates}
use unnamed_os.Vmm.Memory.{vmm_alloc, find_free, get_pmm_flags}
use unnamed_os.Vmm.FindFree.{
  IsUnmapped, Found, found, not_found, find_free-Found, first_page, last_page,
}

-- The state in which the page frames have been allocated.
abbrev with_frames : (len flags : ℕ) → Vmm → Vmm
with_frames len flags s = record s { pmm = (alloc len (get_pmm_flags flags) s.pmm).1 }

pmm_flags-small : (flags : ℕ) → get_pmm_flags flags < 4
pmm_flags-small flags = ground arith

pmm_flags-used : (flags : ℕ) → get_pmm_flags flags ≢ unused
pmm_flags-used flags = ground arith

-- An address between the first and the last page of a domain lies in it.
in_domain :
    (domain : Domain) (first : ℕ)
    → first_page domain ≤ first
    → first ≤ last_page domain
    → same_domain (get_domain_from_address (get_address first 0)) domain ≡ true
in_domain kernel_domain first lo hi = ground arith
in_domain user_domain first lo hi = ground arith

-- The new memory at `vaddr` lies in `pages` pages from `first` on that led nowhere, and page frames from
-- `frame` on that were unused. They are mapped to each other, and nothing else changes.
pub record IsFresh (len flags : ℕ) (s : Vmm) (vaddr : ℕ) (s' : Vmm) : Type 0 where
  pub first : ℕ
  pub frame : ℕ
  pub starts : vaddr ≡ get_address first 0
  pub unmapped : (p : ℕ) → first ≤ p → p < first + pages_of len → IsUnmapped s p
  pub unused_before : FreeRun s.pmm.bitmap frame (pages_of len)
  pub translates :
      (w : ℕ)
      → page_table_of w < 1023
      → get_physical_address s' w ≡ with_range (pages_of len) first frame (get_physical_address s) w
  pub separated : Separated s'

domain-end : (domain : Domain) → last_page domain + 1 ≤ 1047552
domain-end kernel_domain = omega arith
domain-end user_domain = omega arith

pages_of-positive : (len : ℕ) → 0 < len → 0 < pages_of len
pages_of-positive len positive = ground arith

-- An aligned range has as many pages as its length asks for.
pages_in-pages_of :
    (first len : ℕ)
    → 0 < len
    → first + pages_of len ≤ 1047552
    → pages_in (get_address first 0) len ≡ pages_of len
pages_in-pages_of first len positive fits = ground arith

end_fits :
    (first len : ℕ)
    → 0 < len
    → first + pages_of len ≤ 1047552
    → get_address first 0 + len ≤ 4290772992
end_fits first len positive fits = ground arith

frames_fit :
    (ptr len : ℕ)
    → ptr % page_size ≡ 0
    → ptr + len ≤ 4294967296
    → get_page ptr 0 + pages_of len ≤ page_number
frames_fit ptr len aligned fits = ground arith

module _ (len flags : ℕ) (s : Vmm) (sep : Separated s) (on : s.paging ≡ true) (positive : 0 < len)
    (success : (alloc len (get_pmm_flags flags) s.pmm).0 ≢ 0) where
  abbrev frames : ℕ
  frames = (alloc len (get_pmm_flags flags) s.pmm).0

  with_frames-Separated : Separated (with_frames len flags s)
  with_frames-Separated =
      let a =
        alloc-Allocated s.pmm len (get_pmm_flags flags) positive (pmm_flags-small flags) success in
      Separated-pmm s (alloc len (get_pmm_flags flags) s.pmm).1
        (λ p hp used z. ground (arith, a.entries p hp, pmm_flags-used flags)) sep

  checked :
      (first : ℕ)
      → first_page (get_domain flags) ≤ first
      → first ≤ last_page (get_domain flags)
      → domain_check (get_address first 0) flags (with_frames len flags s) ≡ true
  unfolding domain_check
  checked first lo hi = rw (in_domain (get_domain flags) first lo hi) (ground arith)

  at_first :
      (first : ℕ)
      → first_page (get_domain flags) ≤ first
      → first + pages_of len ≤ last_page (get_domain flags) + 1
      → ((p : ℕ) → first ≤ p → p < first + pages_of len → IsUnmapped (with_frames len flags s) p)
      → MapsAll
          (pages_of len)
          (get_page (get_address first 0) 0)
          (get_page frames 0)
          flags
          (with_frames len flags s)
      → IsFresh len flags s
          (get_address first 0)
          (map_range (get_address first 0) frames len flags (with_frames len flags s))
  at_first first lo hi unmapped all =
      let a =
        alloc-Allocated s.pmm len (get_pmm_flags flags) positive (pmm_flags-small flags) success in
      let below = domain-end (get_domain flags) in
      let some_page = pages_of-positive len positive in
      let page : get_page (get_address first 0) 0 ≡ first = omega (arith, below) in
      let pages : pages_in (get_address first 0) len ≡ pages_of len =
        pages_in-pages_of first len positive (omega (arith, below)) in
      let s1 = with_frames len flags s in
      let frame : get_page frames 0 ≡ frames / page_size = omega (arith, a.in_memory) in
      let fits : get_page frames 0 + pages_of len ≤ page_number =
        frames_fit frames len a.aligned a.in_memory in
      let maps = λ (w : ℕ) (hw : page_table_of w < 1023).
        map_range-translates (get_address first 0) frames len flags s1 w with_frames-Separated on
          positive (end_fits first len positive (omega (arith, below))) (rw pages fits) hw
          (checked first lo (omega arith)) (rw pages all) in
      record {
        first = first;
        frame = get_page frames 0;
        starts = refl;
        unmapped =
            λ p le lt. sym (get_physical_address-pmm s s1.pmm (get_address p 0)) ∙ unmapped p le lt;
        unused_before = rw frame a.was_free;
        translates = λ w hw.
            (maps w hw).0
            ∙ ap₂ (λ (n p : ℕ). with_range n p (get_page frames 0) (get_physical_address s1) w)
                pages page
            ∙ ap (λ (x : ℕ). with_range (pages_of len) first (get_page frames 0) (λ _. x) w)
                (get_physical_address-pmm s s1.pmm w);
        separated = (maps 0 (omega arith)).1;
      }

  in_new_pages :
      (vaddr : ℕ)
      → vaddr ≢ 0
      → MapsAll
          (pages_of len)
          (get_page vaddr 0)
          (get_page frames 0)
          flags
          (with_frames len flags s)
      → Found
          (with_frames len flags s)
          (pages_of len)
          (first_page (get_domain flags))
          (last_page (get_domain flags) + 1)
          vaddr
      → IsFresh len flags s vaddr (map_range vaddr frames len flags (with_frames len flags s))
  in_new_pages vaddr ne all (not_found z) = absurd (ne z)
  in_new_pages vaddr ne all (found first lo hi at unmapped) =
      subst
        (λ (v : ℕ). IsFresh len flags s v (map_range v frames len flags (with_frames len flags s)))
        (sym at)
        (at_first first lo hi unmapped (
          subst
            (λ (v : ℕ).
              MapsAll (pages_of len) (get_page v 0) (get_page frames 0) flags
                (with_frames len flags s))
            at all))

  -- Where page frames and unmapped pages are found and each page can be mapped, `vmm_alloc` returns the
  -- address of pages that led nowhere, and maps them, one after the other, to page frames that were
  -- unused. Every other address translates as before. Paging is on and the tables lie apart, as they do afterwards.
  pub vmm_alloc-IsFresh :
      (vmm_alloc len flags s).0 ≢ 0
      → MapsAll
          (pages_of len)
          (get_page (vmm_alloc len flags s).0 0)
          (get_page frames 0)
          flags
          (with_frames len flags s)
      → IsFresh len flags s (vmm_alloc len flags s).0 (vmm_alloc len flags s).1
  unfolding vmm_alloc
  vmm_alloc-IsFresh returned all =
      let vaddr = find_free len (get_domain flags) (with_frames len flags s) in
      elim (ℕ_discrete vaddr 0) [
        | yes z ↦ absurd (returned (rw (==-false frames 0 success, z)))
        | no ne ↦
            let some_pages = rw (==-false frames 0 success, ==-false vaddr 0 ne) at all in
            rw (==-false frames 0 success, ==-false vaddr 0 ne)
              (in_new_pages vaddr ne some_pages
                (find_free-Found len (get_domain flags) (with_frames len flags s) positive))
      ]
