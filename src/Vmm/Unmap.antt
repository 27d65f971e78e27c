-- ===== src/Vmm/Unmap.antt =====
-- `vmm_unmap` of `src/kernel/mem/vmm.c` and the translation of addresses, where the table of the page
-- is kept.
use unnamed_os.Base.{
  ℕ, zero, suc, ◌+◌, ◌<◌, ◌≡◌, ◌∙◌, refl, sym, ap, inl, inr, Bool, true, false, ◌&&◌, ◌==◌,
  if◌then◌else◌, arith, Bool-cases, ==-false, ==-refl, eq_of_==, ◌>>>◌,
}
use unnamed_os.Vmm.{
  Vmm, Entry, absent, dir_entry, tab_entry, page_table_of, page_of, store, first_present,
  unmap_page, get_physical_address,
}
use unnamed_os.Vmm.Walk.{walk, same_page, walk-store_any, get_physical_address-walk}
use unnamed_os.Vmm.Separated.{Separated}
use unnamed_os.Vmm.Translate.{store-Separated}

-- The loop stops at a present entry.
first_present-present :
    (table : ℕ → Entry) (rounds i : ℕ)
    → first_present table rounds i < i + rounds
    → (table (first_present table rounds i)).pr ≡ true
unfolding first_present
first_present-present table zero i small = absurd (omega arith)
first_present-present table (suc rounds) i small = elim (Bool-cases (table i).pr) [
  | inl there ↦ rw there there
  | inr gone ↦ rw gone (
      first_present-present table rounds (i + 1)
        (let small' = rw gone at small in omega (arith, small')))
]

both_values : {b : Bool} → b ≡ true → ¬ (b ≡ false)
both_values t f = cc (t, f)

module _ (s : Vmm) (v : ℕ) (sep : Separated s) (hv : page_table_of v < 1023) where
  -- What is stored.
  abbrev cleared : Vmm
  cleared = store (dir_entry s v).page (page_of v) absent s

  cleared_last :
      (s.entries (dir_entry s v).page 1023).pr ≡ false
      → (cleared.entries (dir_entry s v).page 1023).pr ≡ false
  cleared_last last =
      rw (==-refl (dir_entry s v).page)
        (elim (Bool-cases (1023 == page_of v)) [ inl t ↦ rw t refl | inr f ↦ rw f last ])

  kept_table :
      (s.entries (dir_entry s v).page 1023).pr ≡ false
      → (first_present (cleared.entries (dir_entry s v).page) 1024 0 == 1023) ≡ false
  kept_table last = ==-false _ 1023 (λ e.
      let stop =
        first_present-present (cleared.entries (dir_entry s v).page) 1024 0 (omega (arith, e)) in
      both_values (rw e at stop) (cleared_last last))

  cleared-walk :
      (w : ℕ)
      → (dir_entry s v).pr ≡ true
      → page_table_of w < 1023
      → walk cleared.entries s.directory w
        ≡ (if same_page v w then 0 else walk s.entries s.directory w)
  cleared-walk w there hw =
      walk-store_any s.entries s.directory v w absent (sep.own (page_table_of v) hv there)
        (λ t e. sep.only (page_table_of w) (page_table_of v) hw hv t there e) there

  unmapped :
      (w : ℕ)
      → ((dir_entry s v).pr && (tab_entry s v).pr) ≡ false
      → walk s.entries s.directory w ≡ (if same_page v w then 0 else walk s.entries s.directory w)
  unmapped w gone = elim (Bool-cases (same_page v w)) [
    | inl t ↦
        let at = eq_of_== (w >>> 12) (v >>> 12) t in
        let ei : page_table_of w ≡ page_table_of v = omega (arith, at) in
        let ej : page_of w ≡ page_of v = omega (arith, at) in rw (t, ei, ej, gone) refl
    | inr f ↦ rw f refl
  ]

  -- Unless the last entry of its table is in use, a page that `vmm_unmap` is given translates to nothing after it,
  -- no other address translates differently, and the tables still lie apart, whether the page was mapped or not.
  -- It is assumed that the tables lay apart before, that paging is on, and that neither address belongs to
  -- the last table.
  pub unmap_page-translates :
      (w : ℕ)
      → s.paging ≡ true
      → page_table_of w < 1023
      → ((dir_entry s v).pr ≡ true → (s.entries (dir_entry s v).page 1023).pr ≡ false)
      → (get_physical_address (unmap_page v s) w
          ≡ (if same_page v w then 0 else get_physical_address s w))
        × Separated (unmap_page v s)
  unfolding unmap_page
  unmap_page-translates w on hw last =
      elim (Bool-cases ((dir_entry s v).pr && (tab_entry s v).pr)) [
        | inr gone ↦ rw gone (
          get_physical_address-walk s w on
              ∙ unmapped w gone
              ∙ ap (λ x. if same_page v w then 0 else x) (sym (get_physical_address-walk s w on)),
          sep,
        )
        | inl both ↦
            let there : (dir_entry s v).pr ≡ true = ground (arith, both) in
            rw (both, kept_table (last there))
              (
                get_physical_address-walk cleared w on
                    ∙ cleared-walk w there hw
                    ∙ ap (λ x. if same_page v w then 0 else x)
                        (sym (get_physical_address-walk s w on)),
                store-Separated s sep v hv absent there,
              )
      ]
