-- ===== src/Elf/Reach.antt =====
-- The page faults of `elf_load` in `src/kernel/tasks/elf.c`: a segment is written to where
-- `vmm_use_virtual_memory` was to map it.
use unnamed_os.Base.{
  ℕ, zero, suc, ◌+◌, ◌-◌, ◌*◌, ◌≡◌, refl, ◌∙◌, true, false, ◌==◌, ◌&&◌, ◌||◌, not, u32, ltb, inl,
  inr, Bool, Bool-cases, eq_of_==, arith,
}
use unnamed_os.Pmm.{alloc, get_page}
use unnamed_os.Elf.{
  header_at, Segment, segment_at, segment_size, pt_load, flags_of, Loader, load_segment, load_loop,
}
use unnamed_os.Vmm.{
  Vmm, map_page, map_pages, map_range, ensure_page_table, create_page_table, domain_check,
  all_mapped, mapped_pages, touch_range,
}
use unnamed_os.Vmm.Memory.{use_virtual_memory, get_pmm_flags}

map_page-faulted : (v paddr flags : ℕ) (s : Vmm) → (map_page v paddr flags s).1.faulted ≡ s.faulted
unfolding map_page ensure_page_table create_page_table
map_page-faulted v paddr flags s = ground arith

map_pages-faulted :
    (rounds v p flags : ℕ) (s : Vmm) → (map_pages rounds v p flags s).faulted ≡ s.faulted
unfolding map_pages
map_pages-faulted zero v p flags s = refl
map_pages-faulted (suc rounds) v p flags s =
    map_pages-faulted rounds (v + 1) (p + 1) flags _ ∙ map_page-faulted _ _ flags s

map_range-faulted :
    (v paddr len flags : ℕ) (s : Vmm) → (map_range v paddr len flags s).faulted ≡ s.faulted
unfolding map_range
map_range-faulted v paddr len flags s = elim (Bool-cases (len == 0)) [
  | inl e ↦ rw e refl
  | inr e ↦ elim (Bool-cases (domain_check v flags s)) [
    | inr bad ↦ rw (e, bad) refl
    | inl good ↦ rw (e, good) (map_pages-faulted _ _ _ flags s)
  ]
]

use_virtual_memory-faulted :
    (v len flags : ℕ) (s : Vmm) → (use_virtual_memory v len flags s).1.faulted ≡ s.faulted
unfolding use_virtual_memory
use_virtual_memory-faulted v len flags s = elim (Bool-cases (domain_check v flags s)) [
  | inr e ↦ rw e refl
  | inl e ↦ elim (Bool-cases ((alloc len (get_pmm_flags flags) s.pmm).0 == 0)) [
    | inl z ↦ rw (e, z) refl
    | inr n ↦ rw (e, n) (map_range-faulted v _ len flags _)
  ]
]

-- All bytes of the segment that are written are mapped.
abbrev pub IsClaimed : Segment → Vmm → Type 0
IsClaimed e s =
    (all_mapped e.p_vaddr e.p_memsz s ≡ true) × (all_mapped e.p_vaddr e.p_filesz s ≡ true)

module _ (elf table : ℕ) where
  -- Before the rounds from entry `i` on: `vmm_use_virtual_memory` maps each segment that is to be loaded.
  unfoldable pub Claims : (rounds i : ℕ) → Loader → Type 0
  Claims zero i l = Unit
  Claims (suc rounds) i l =
      let e = segment_at l.memory (u32 (table + i * segment_size)) in
      ltb i (header_at l.memory elf).e_phnum ≡ true
      → ((e.p_type ≡ pt_load)
          → IsClaimed e (use_virtual_memory e.p_vaddr e.p_memsz (flags_of e) l.vmm.1).1)
        × Claims rounds (i + 1) (load_segment elf (u32 (table + i * segment_size)) l)

  -- There is no entry `i`.
  pub Claims-none :
      (rounds i : ℕ) (l : Loader)
      → ltb i (header_at l.memory elf).e_phnum ≡ false
      → Claims rounds i l
  unfolding Claims
  Claims-none zero i l last = tt
  Claims-none (suc rounds) i l last = λ more. absurd (cc (last, more))

  -- Entry `i` and the ones behind it.
  pub Claims-entry :
      (rounds i : ℕ) (l : Loader)
      → (((segment_at l.memory (u32 (table + i * segment_size))).p_type ≡ pt_load)
          → IsClaimed
              (segment_at l.memory (u32 (table + i * segment_size)))
              (use_virtual_memory
                (segment_at l.memory (u32 (table + i * segment_size))).p_vaddr
                (segment_at l.memory (u32 (table + i * segment_size))).p_memsz
                (flags_of (segment_at l.memory (u32 (table + i * segment_size))))
                l.vmm.1).1)
      → Claims rounds (i + 1) (load_segment elf (u32 (table + i * segment_size)) l)
      → Claims (suc rounds) i l
  unfolding Claims
  Claims-entry rounds i l claimed rest more = (claimed, rest)

  untouched : (paging f : Bool) → ((paging && not true) || f) ≡ f
  untouched true f = refl
  untouched false f = refl

  -- Whether pages are mapped is no matter of earlier page faults.
  mapped_pages-faulted :
      (rounds page : ℕ) (f : Bool) (s : Vmm)
      → mapped_pages rounds page (record s { faulted = f }) ≡ mapped_pages rounds page s
  unfolding mapped_pages
  mapped_pages-faulted zero page f s = refl
  mapped_pages-faulted (suc rounds) page f s = rw (mapped_pages-faulted rounds (page + 1) f s) refl

  all_mapped-faulted :
      (v len : ℕ) (f : Bool) (s : Vmm)
      → all_mapped v len (record s { faulted = f }) ≡ all_mapped v len s
  all_mapped-faulted v len f s =
      rw (mapped_pages-faulted (get_page v (len - 1) + 1 - get_page v 0) (get_page v 0) f s) refl

  touch_range-faulted :
      (v len : ℕ) (s : Vmm) → all_mapped v len s ≡ true → (touch_range v len s).faulted ≡ s.faulted
  touch_range-faulted v len s mapped = rw mapped (untouched s.paging s.faulted)

  load_segment-faulted :
      (address : ℕ) (l : Loader)
      → (((segment_at l.memory address).p_type ≡ pt_load)
          → IsClaimed
              (segment_at l.memory address)
              (use_virtual_memory
                (segment_at l.memory address).p_vaddr
                (segment_at l.memory address).p_memsz
                (flags_of (segment_at l.memory address))
                l.vmm.1).1)
      → (load_segment elf address l).vmm.1.faulted ≡ l.vmm.1.faulted
  unfolding load_segment
  load_segment-faulted address l claims =
      let e = segment_at l.memory address in
      let s = (use_virtual_memory e.p_vaddr e.p_memsz (flags_of e) l.vmm.1).1 in
      elim (Bool-cases (e.p_type == pt_load)) [
        | inr other ↦ rw other refl
        | inl load ↦
            let claimed = claims (eq_of_== e.p_type pt_load load) in
            rw load (
              touch_range-faulted e.p_vaddr e.p_filesz (touch_range e.p_vaddr e.p_memsz s) (
                all_mapped-faulted e.p_vaddr e.p_filesz (touch_range e.p_vaddr e.p_memsz s).faulted
                  s
                ∙ claimed.1)
              ∙ touch_range-faulted e.p_vaddr e.p_memsz s claimed.0
              ∙ use_virtual_memory-faulted e.p_vaddr e.p_memsz (flags_of e) l.vmm.1)
      ]

  pub load_loop-faulted :
      (rounds i : ℕ) (l : Loader)
      → Claims rounds i l
      → (load_loop elf table rounds i l).vmm.1.faulted ≡ l.vmm.1.faulted
  unfolding load_loop Claims
  load_loop-faulted zero i l claims = refl
  load_loop-faulted (suc rounds) i l claims =
      elim (Bool-cases (ltb i (header_at l.memory elf).e_phnum)) [
        | inr last ↦ rw last refl
        | inl more ↦
            let (first, rest) = claims more in
            rw more (
              load_loop-faulted rounds (i + 1) (load_segment elf (u32 (table + i * segment_size)) l)
                rest
              ∙ load_segment-faulted (u32 (table + i * segment_size)) l first)
      ]
