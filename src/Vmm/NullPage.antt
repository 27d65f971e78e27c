-- ===== src/Vmm/NullPage.antt =====
-- What `vmm_destroy_page_table` does for a table that is not there, as `vmm_destroy_page_directory`
-- asks it to for the first table of every task that is not in virtual 8086 mode.
use unnamed_os.Base.{ℕ, ◌≤◌, ◌<◌, ◌≡◌, ◌∙◌, ap, arith, ℕ_discrete}
use unnamed_os.Pmm.{
  Pmm, alloc, free, find_free, bitmap_get, unused, pages_of, page_number, get_address,
}
use unnamed_os.Pmm.Range.{bitmap_get-use_range}
use unnamed_os.Pmm.FirstFit.{FirstFit, found, not_found, find_free-FirstFit}
use unnamed_os.Vmm.{Vmm, destroy_page_table, table_size}

one_page : (len : ℕ) → 0 < len → len ≤ 4096 → pages_of len ≡ 1
one_page len h h' = ground arith

first_is_null :
    (b : ℕ → ℕ) (pages r : ℕ)
    → bitmap_get b 0 ≡ unused
    → pages ≡ 1
    → FirstFit b pages page_number r
    → r ≡ 0
first_is_null b pages r null one (not_found e none) = e
first_is_null b pages r null one (found first e fits run lowest) = elim (ℕ_discrete first 0) [
  | yes z ↦ omega (arith, e, z)
  | no ne ↦ absurd (
      lowest 0 (omega arith) (λ p lo hi. let z : p ≡ 0 = omega arith in ap (bitmap_get b) z ∙ null))
]

-- If the page frame at address 0 is unused, an allocation of up to a page finds it first, and so
-- reports that there is no memory.
alloc-null :
    (len flags : ℕ) (s : Pmm)
    → 0 < len
    → len ≤ 4096
    → bitmap_get s.bitmap 0 ≡ unused
    → alloc len flags s ≡ (0, s)
unfolding alloc
alloc-null len flags s h h' null =
    let e =
      first_is_null s.bitmap (pages_of len) (find_free s len) null (one_page len h h')
        (find_free-FirstFit s len h) in
    rw e

-- Destroying a table whose entry is zero marks the page frame at address 0 as unused. After that every
-- allocation of up to a page fails, however much memory is free, and changes nothing, so the
-- next one fails as well.
pub destroy_page_table-null :
    (page_table : ℕ) (s : Vmm)
    → (s.entries s.directory page_table).page ≡ 0
    → (bitmap_get (destroy_page_table page_table s).pmm.bitmap 0 ≡ unused)
      × ((len flags : ℕ)
          → 0 < len
          → len ≤ 4096
          → alloc len flags (destroy_page_table page_table s).pmm
            ≡ (0, (destroy_page_table page_table s).pmm))
unfolding destroy_page_table free
destroy_page_table-null page_table s zero_entry =
    let marked : bitmap_get (destroy_page_table page_table s).pmm.bitmap 0 ≡ unused =
      bitmap_get-use_range (get_address (s.entries s.directory page_table).page 0) table_size unused
        s.pmm 0 (omega arith) (omega arith) (omega arith)
      ∙ ground (arith, zero_entry) in
    (marked, λ len flags h h'. alloc-null len flags _ h h' marked)
