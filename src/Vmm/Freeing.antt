-- ===== src/Vmm/Freeing.antt =====
-- When `vmm_unmap` gives a page table back: the test after its loop compares the index with 1023,
-- which the loop leaves behind only if the last entry is the first present one.
use unnamed_os.Base.{
  ℕ, zero, suc, ◌+◌, ◌≤◌, ◌<◌, ◌≡◌, ◌≢◌, ◌∙◌, refl, sym, ap, ◌⊎◌, inl, inr, true, false, update,
  arith, ==-false, ==-refl, ℕ_discrete,
}
use unnamed_os.Pmm.{get_address, bitmap_get, page_number, unused, free, use_range}
use unnamed_os.Pmm.Range.{bitmap_get-use_range}
use unnamed_os.Vmm.{
  table_size, Vmm, Entry, absent, dir_entry, tab_entry, page_table_of, page_of,
  get_physical_address, unmap_page, first_present, destroy_page_table, store,
}
use unnamed_os.Vmm.Walk.{get_physical_address-walk}

first_present-reach :
    (t : ℕ → Entry) (rounds i k : ℕ)
    → i ≤ k
    → k ≤ i + rounds
    → ((j : ℕ) → i ≤ j → j < k → (t j).pr ≡ false)
    → (k ≡ i + rounds) ⊎ ((t k).pr ≡ true)
    → first_present t rounds i ≡ k
unfolding first_present
first_present-reach t zero i k lo hi gone end = omega arith
first_present-reach t (suc rounds) i k lo hi gone end = elim (ℕ_discrete i k) [
  | yes e ↦ elim end [
    | inl full ↦ absurd (omega arith)
    | inr there ↦ let there' = ap (λ x. (t x).pr) e ∙ there in rw there' e
  ]
  | no ne ↦ rw (gone i (omega arith) (omega arith)) (
      first_present-reach t rounds (i + 1) k (omega arith) (omega arith)
        (λ j h h'. gone j (omega arith) h')
        (elim end [ inl full ↦ inl (omega arith) | inr there ↦ inr there ]))
]

module _ (s : Vmm) (v : ℕ) (own : (dir_entry s v).page ≢ s.directory)
    (table : (dir_entry s v).pr ≡ true) (mapped : (tab_entry s v).pr ≡ true) where
  left : ℕ → Entry
  left = update (s.entries (dir_entry s v).page) (page_of v) absent

  left_gone :
      (k j : ℕ)
      → ((j : ℕ) → j < k → j ≢ page_of v → (s.entries (dir_entry s v).page j).pr ≡ false)
      → j < k
      → (left j).pr ≡ false
  unfolding left
  left_gone k j gone h = elim (ℕ_discrete j (page_of v)) [
    | yes e ↦ rw (e, ==-refl (page_of v))
    | no ne ↦ rw (==-false j (page_of v) ne) (gone j h ne)
  ]

  -- A table whose only page is unmapped stays in the directory.
  pub unmap_page-keeps_empty :
      ((j : ℕ) → j < 1024 → j ≢ page_of v → (s.entries (dir_entry s v).page j).pr ≡ false)
      → (dir_entry (unmap_page v s) v).pr ≡ true
  unfolding unmap_page left
  unmap_page-keeps_empty gone =
      let frame = (dir_entry s v).page in
      let full =
        first_present-reach left 1024 0 1024 (omega arith) (omega arith)
          (λ j lo hi. left_gone 1024 j gone hi) (inl refl) in
      rw (table, mapped, ==-refl frame, full, ==-false s.directory frame (λ e. own (sym e))) table

  -- Where the last page of a table is the only one left, the page frame of the table is marked as unused
  -- and the directory loses its entry, so the last page, which nobody unmapped, no longer translates.
  pub unmap_page-loses_last :
      (w : ℕ)
      → s.paging ≡ true
      → page_table_of w ≡ page_table_of v
      → page_of w ≡ 1023
      → page_of v ≢ 1023
      → (tab_entry s w).pr ≡ true
      → (dir_entry s v).page < page_number
      → ((j : ℕ) → j < 1023 → j ≢ page_of v → (s.entries (dir_entry s v).page j).pr ≡ false)
      → (get_physical_address (unmap_page v s) w ≡ 0)
        × ((dir_entry (unmap_page v s) v).pr ≡ false)
        × (bitmap_get (unmap_page v s).pmm.bitmap (dir_entry s v).page ≡ unused)
  unfolding unmap_page left destroy_page_table free
  unmap_page-loses_last w on et ep ne there small gone =
      let frame = (dir_entry s v).page in
      let there' : (s.entries frame 1023).pr ≡ true =
        ap (λ x. (s.entries (s.entries s.directory x).page 1023).pr) (sym et)
        ∙ ap (λ k. (s.entries (s.entries s.directory (page_table_of w)).page k).pr) (sym ep)
        ∙ there in
      let stays : (left 1023).pr ≡ true = rw (==-false 1023 (page_of v) (λ e. ne (sym e))) there' in
      let last =
        first_present-reach left 1024 0 1023 (omega arith) (omega arith)
          (λ j lo hi. left_gone 1023 j gone hi) (inr stays) in
      let i = page_table_of v in
      let table_free : bitmap_get (use_range (get_address frame 0) table_size unused s.pmm).bitmap
            frame
          ≡ unused =
        ground (
          arith,
          bitmap_get-use_range (get_address frame 0) table_size unused s.pmm frame (omega arith)
              (omega arith) small,
        ) in
      let freed = destroy_page_table i (store frame (page_of v) absent s) in
      rw (table, mapped, ==-refl frame, last)
        (
          get_physical_address-walk freed w on ∙ rw (et, ==-refl s.directory, ==-refl i),
          rw (==-refl s.directory, ==-refl i) refl,
          rw (==-false s.directory frame (λ e. own (sym e))) table_free,
        )
