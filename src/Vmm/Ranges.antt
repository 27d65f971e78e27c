-- ===== src/Vmm/Ranges.antt =====
-- `vmm_map_range` as a partial map of pages: a range of virtual pages leads to a range of page
-- frames, page by page, and every other address where it did.
use unnamed_os.Base.{
  ℕ, zero, suc, ◌+◌, ◌-◌, ◌<◌, ◌≤◌, ◌≡◌, ◌≢◌, ◌∙◌, ap, true, false, ◌&&◌, ltb, leb, ◌==◌,
  if◌then◌else◌, arith, ==-false, ◌>>>◌,
}
use mathlib.Core.Path.{ap₂}
use unnamed_os.Pmm.{get_page, get_address, alloc, kernel, page_number}
use unnamed_os.Vmm.{
  Vmm, dir_entry, page_table_of, page_offset_of, get_physical_address, map_page, map_pages,
  map_range, pages_in, domain_check, table_size,
}
use unnamed_os.Vmm.Walk.{same_page}
use unnamed_os.Vmm.Separated.{Separated}
use unnamed_os.Vmm.Translate.{map_page-translates, map_page-paging}

-- Each call of `vmm_map` for the pages of a range reports success, and finds memory for a table
-- that is missing.
abbrev pub MapsAll : (rounds virtual_page physical_page flags : ℕ) → Vmm → Type 0
MapsAll zero v p flags s = Unit
MapsAll (suc rounds) v p flags s =
    ((dir_entry s (get_address v 0)).pr ≡ false → (alloc table_size kernel s.pmm).0 ≢ 0)
    × ((map_page (get_address v 0) (get_address p 0) flags s).0 ≡ true)
    × MapsAll rounds (v + 1) (p + 1) flags (map_page (get_address v 0) (get_address p 0) flags s).1

-- The translation `old` with the pages from `v` on led to the page frames from `p` on.
abbrev pub with_range : (rounds v p : ℕ) (old : ℕ → ℕ) (vaddr : ℕ) → ℕ
with_range rounds v p old w =
    if leb v (w >>> 12) && ltb (w >>> 12) (v + rounds)
    then get_address (p + ((w >>> 12) - v)) (page_offset_of w)
    else old w

get_page-address : (n : ℕ) → n < 1048576 → get_page (get_address n 0) 0 ≡ n
get_page-address n h = omega arith

first_cases :
    (rounds v p other page offset : ℕ)
    → (if leb (v + 1) page && ltb page (v + 1 + rounds)
        then get_address (p + 1 + (page - (v + 1))) offset
        else if page == v
        then get_address p offset
        else other)
      ≡ (if leb v page && ltb page (v + suc rounds)
          then get_address (p + (page - v)) offset
          else other)
first_cases rounds v p other page offset = ground arith

-- One page in front of a range that starts behind it.
with_range-first :
    (rounds v p : ℕ) (old : ℕ → ℕ) (w : ℕ)
    → v < 1048576
    → p < 1048576
    → with_range rounds
        (v + 1)
        (p + 1)
        (λ x.
          if same_page (get_address v 0) x
          then get_address (get_page (get_address p 0) 0) (page_offset_of x)
          else old x)
        w
      ≡ with_range (suc rounds) v p old w
with_range-first rounds v p old w hv hp =
    let page : get_address v 0 >>> 12 ≡ v = omega arith in
    ap₂
      (λ (at frame : ℕ).
        if leb (v + 1) (w >>> 12) && ltb (w >>> 12) (v + 1 + rounds)
        then get_address (p + 1 + ((w >>> 12) - (v + 1))) (page_offset_of w)
        else if (w >>> 12) == at
        then get_address frame (page_offset_of w)
        else old w)
      page (get_page-address p hp)
    ∙ first_cases rounds v p (old w) (w >>> 12) (page_offset_of w)

map_pages-translates :
    (rounds v p flags : ℕ) (s : Vmm) (w : ℕ)
    → Separated s
    → s.paging ≡ true
    → v + rounds ≤ 1047552
    → p + rounds ≤ page_number
    → page_table_of w < 1023
    → MapsAll rounds v p flags s
    → (get_physical_address (map_pages rounds v p flags s) w
        ≡ with_range rounds v p (get_physical_address s) w)
      × Separated (map_pages rounds v p flags s)
unfolding map_pages
map_pages-translates zero v p flags s w sep on hv hp hw all = (ground arith, sep)
map_pages-translates (suc rounds) v p flags s w sep on hv hp hw all =
    let v0 = get_address v 0 in
    let p0 = get_address p 0 in
    let s1 = (map_page v0 p0 flags s).1 in
    let first = λ (x : ℕ) (hx : page_table_of x < 1023).
      map_page-translates s v0 p0 flags x sep on (omega arith) hx all.0 all.1 in
    let rest =
      map_pages-translates rounds (v + 1) (p + 1) flags s1 w (first w hw).1
        (map_page-paging v0 p0 flags s ∙ on) (omega arith) (omega arith) hw all.2 in
    (
      rest.0
          ∙ ap
              (λ y.
                if leb (v + 1) (w >>> 12) && ltb (w >>> 12) (v + 1 + rounds)
                then get_address (p + 1 + ((w >>> 12) - (v + 1))) (page_offset_of w)
                else y)
              (first w hw).0
          ∙ with_range-first rounds v p (get_physical_address s) w (omega arith) (omega arith),
      rest.1,
    )

-- Where every page of a range can be mapped, `vmm_map_range` leads the pages that the range touches
-- to as many page frames in a row, from that of the physical address on, and every other
-- address where it led before; the tables still lie apart. It is assumed that they did, that
-- paging is on, that no address belongs to the last table, that the range of page
-- frames does not lead past the end of memory, and that memory for missing tables can be allocated.
pub map_range-translates :
    (vaddr paddr len flags : ℕ) (s : Vmm) (w : ℕ)
    → Separated s
    → s.paging ≡ true
    → 0 < len
    → vaddr + len ≤ 4290772992
    → get_page paddr 0 + pages_in vaddr len ≤ page_number
    → page_table_of w < 1023
    → domain_check vaddr flags s ≡ true
    → MapsAll (pages_in vaddr len) (get_page vaddr 0) (get_page paddr 0) flags s
    → (get_physical_address (map_range vaddr paddr len flags s) w
        ≡ with_range
            (pages_in vaddr len)
            (get_page vaddr 0)
            (get_page paddr 0)
            (get_physical_address s)
            w)
      × Separated (map_range vaddr paddr len flags s)
unfolding map_range
map_range-translates vaddr paddr len flags s w sep on pos end frames hw domain all =
    rw (==-false len 0 (λ e. omega arith), domain)
      (map_pages-translates (pages_in vaddr len) (get_page vaddr 0) (get_page paddr 0) flags s w sep
        on (omega arith) frames hw all)
