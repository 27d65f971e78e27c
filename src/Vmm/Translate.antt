-- ===== src/Vmm/Translate.antt =====
-- `vmm_map` and the translation of addresses: a mapping changes the translation of its own page
-- and of no other.
use unnamed_os.Base.{
  ℕ, ◌+◌, ◌%◌, ◌<◌, ◌≡◌, ◌≢◌, ◌∙◌, refl, sym, ap, inl, inr, true, false, if◌then◌else◌, arith,
  Bool-cases, ==-false, ==-refl,
}
use unnamed_os.Pmm.{get_page, get_address, alloc, kernel, page_number, unused, bitmap_get}
use unnamed_os.Pmm.Alloc.{alloc-Allocated}
use unnamed_os.Vmm.{
  Vmm, Entry, dir_entry, tab_entry, page_table_of, page_of, page_offset_of, get_physical_address,
  map_page, ensure_page_table, create_page_table, mapping, store, table_size, domain_check,
}
use unnamed_os.Vmm.Walk.{walk, same_page, walk-store, walk-create, get_physical_address-walk}
use unnamed_os.Vmm.Separated.{Separated, entered-Separated}

-- What a step of `vmm_map` keeps.
pub record Kept (s s1 : Vmm) (v : ℕ) : Type 0 where
  pub separated : Separated s1
  pub table : (dir_entry s1 v).pr ≡ true
  walks :
      (w : ℕ)
      → page_table_of w < 1023
      → walk s1.entries s1.directory w ≡ walk s.entries s.directory w
  paging : s1.paging ≡ s.paging

module _ (s : Vmm) (sep : Separated s) (v : ℕ) (hv : page_table_of v < 1023) where
  create-Kept :
      (dir_entry s v).pr ≡ false
      → (alloc table_size kernel s.pmm).0 ≢ 0
      → Kept s (create_page_table (page_table_of v) s) v
  unfolding create_page_table
  create-Kept gone success =
      let a = alloc-Allocated s.pmm table_size kernel (omega arith) (omega arith) success in
      let f = get_page (alloc table_size kernel s.pmm).0 0 in
      let i = page_table_of v in
      let small : f < page_number = omega (arith, a.in_memory) in
      let fresh : bitmap_get s.pmm.bitmap f ≡ unused =
        a.was_free f (omega arith) (omega (arith, a.in_memory)) in
      let not_d : s.directory ≢ f = λ e. sep.dir_used (ap (bitmap_get s.pmm.bitmap) e ∙ fresh) in
      let E = s.entries in
      let D = s.directory in
      let e : Entry = record { pr = true; rw = true; user = true; page = f } in
      let taken = λ (p : ℕ) (hp : p < page_number). a.entries p hp in
      record {
        separated =
            entered-Separated s (create_page_table i s) sep i e refl
              (λ j. rw (==-false D f not_d, ==-refl D)) small fresh
              (λ z. ground (arith, taken f small)) (λ p hp used z. ground (arith, taken p hp));
        table = rw (==-false D f not_d, ==-refl D, ==-refl i);
        walks = λ w hw. walk-create E D i w e not_d gone (λ there. (
          λ z. sep.tab_used (page_table_of w) hw there (ap (bitmap_get s.pmm.bitmap) z ∙ fresh),
          sep.own (page_table_of w) hw there,
        ));
        paging = refl;
      }

  pub ensure-Kept :
      ((dir_entry s v).pr ≡ false → (alloc table_size kernel s.pmm).0 ≢ 0)
      → Kept s (ensure_page_table v s) v
  unfolding ensure_page_table
  ensure-Kept success = elim (Bool-cases (dir_entry s v).pr) [
    | inl t ↦ rw t (record { separated = sep; table = t; walks = λ w hw. refl; paging = refl })
    | inr f ↦ rw f (create-Kept f (success f))
  ]

  pub store-Separated :
      (m : Entry)
      → (dir_entry s v).pr ≡ true
      → Separated (store (dir_entry s v).page (page_of v) m s)
  store-Separated m t =
      let at_d =
        ==-false s.directory (dir_entry s v).page (λ e. sep.own (page_table_of v) hv t (sym e)) in
      record {
        dir_small = sep.dir_small;
        dir_used = sep.dir_used;
        tab_small = λ i hi. rw at_d (sep.tab_small i hi);
        tab_used = λ i hi. rw at_d (sep.tab_used i hi);
        own = λ i hi. rw at_d (sep.own i hi);
        only = λ i j hi hj. rw at_d (sep.only i j hi hj);
      }

  store-walk :
      (m : Entry) (w : ℕ)
      → (dir_entry s v).pr ≡ true
      → m.pr ≡ true
      → page_table_of w < 1023
      → walk (store (dir_entry s v).page (page_of v) m s).entries s.directory w ≡ (
          if same_page v w
          then get_address m.page (page_offset_of w)
          else walk s.entries s.directory w)
  store-walk m w t pr hw =
      walk-store s.entries s.directory v w m (sep.own (page_table_of v) hv t)
        (λ there e. sep.only (page_table_of w) (page_table_of v) hw hv there t e) pr t

-- A mapping that succeeds, for the walk through the tables.
pub map_page-walks :
    (s : Vmm) (v paddr flags w : ℕ)
    → Separated s
    → page_table_of v < 1023
    → page_table_of w < 1023
    → ((dir_entry s v).pr ≡ false → (alloc table_size kernel s.pmm).0 ≢ 0)
    → (map_page v paddr flags s).0 ≡ true
    → (walk (map_page v paddr flags s).1.entries (map_page v paddr flags s).1.directory w ≡ (
        if same_page v w
        then get_address (get_page paddr 0) (page_offset_of w)
        else walk s.entries s.directory w))
      × Separated (map_page v paddr flags s).1
unfolding map_page
map_page-walks s v paddr flags w sep hv hw success mapped =
    let s1 = ensure_page_table v s in
    let k = ensure-Kept s sep v hv success in
    elim (Bool-cases (domain_check v flags s)) [
      | inr f ↦ absurd (cc (rw f at mapped))
      | inl t ↦ elim (Bool-cases (tab_entry s1 v).pr) [
        | inl there ↦ absurd (cc (rw (t, there) at mapped))
        | inr free ↦
            rw (t, free)
              (
                store-walk s1 k.separated v hv (mapping paddr flags) w k.table refl hw
                    ∙ ap
                        (λ x.
                          if same_page v w
                          then get_address (get_page paddr 0) (page_offset_of w)
                          else x)
                        (k.walks w hw),
                store-Separated s1 k.separated v hv (mapping paddr flags) k.table,
              )
      ]
    ]

-- Whatever `vmm_map` does, the walks to other pages stay as they were.
pub map_page-other :
    (s : Vmm) (v paddr flags w : ℕ)
    → Separated s
    → page_table_of v < 1023
    → page_table_of w < 1023
    → ((dir_entry s v).pr ≡ false → (alloc table_size kernel s.pmm).0 ≢ 0)
    → same_page v w ≡ false
    → walk (map_page v paddr flags s).1.entries (map_page v paddr flags s).1.directory w
      ≡ walk s.entries s.directory w
unfolding map_page
map_page-other s v paddr flags w sep hv hw success away =
    let s1 = ensure_page_table v s in
    let k = ensure-Kept s sep v hv success in
    elim (Bool-cases (domain_check v flags s)) [
      | inr f ↦ rw f
      | inl t ↦ elim (Bool-cases (tab_entry s1 v).pr) [
        | inl there ↦ rw (t, there) (k.walks w hw)
        | inr free ↦
            rw (t, free)
              (store-walk s1 k.separated v hv (mapping paddr flags) w k.table refl hw
                ∙ rw away (k.walks w hw))
      ]
    ]

-- An unmapped page can be mapped. The walk to its second byte tells that it is unmapped, since no
-- mapped page leads that byte to address 0.
pub map_page-succeeds :
    (s : Vmm) (v paddr flags : ℕ)
    → Separated s
    → page_table_of v < 1023
    → v % 4096 ≡ 0
    → ((dir_entry s v).pr ≡ false → (alloc table_size kernel s.pmm).0 ≢ 0)
    → domain_check v flags s ≡ true
    → walk s.entries s.directory (v + 1) ≡ 0
    → (map_page v paddr flags s).0 ≡ true
unfolding map_page
map_page-succeeds s v paddr flags sep hv aligned success checked unmapped =
    let s1 = ensure_page_table v s in
    let k = ensure-Kept s sep v hv success in
    let same_table : page_table_of (v + 1) ≡ page_table_of v = omega arith in
    let same_index : page_of (v + 1) ≡ page_of v = omega arith in
    elim (Bool-cases (tab_entry s1 v).pr) [
      | inr free ↦ rw (checked, free)
      | inl there ↦
          let zero_walk = k.walks (v + 1) (omega (arith, same_table)) ∙ unmapped in
          let at_second = rw (same_table, same_index, k.table, there) at zero_walk in
          absurd (omega (arith, at_second))
    ]

pub map_page-paging : (v paddr flags : ℕ) (s : Vmm) → (map_page v paddr flags s).1.paging ≡ s.paging
unfolding map_page ensure_page_table create_page_table
map_page-paging v paddr flags s = ground arith

-- Where `vmm_map` reports success, the page that it was given translates to the page frame that it
-- was given, no other address translates differently, and the tables still lie apart. It is
-- assumed that they did before, that paging is on, that neither address belongs to the last table,
-- and that memory for a missing table can be allocated.
pub map_page-translates :
    (s : Vmm) (v paddr flags w : ℕ)
    → Separated s
    → s.paging ≡ true
    → page_table_of v < 1023
    → page_table_of w < 1023
    → ((dir_entry s v).pr ≡ false → (alloc table_size kernel s.pmm).0 ≢ 0)
    → (map_page v paddr flags s).0 ≡ true
    → (get_physical_address (map_page v paddr flags s).1 w ≡ (
        if same_page v w
        then get_address (get_page paddr 0) (page_offset_of w)
        else get_physical_address s w))
      × Separated (map_page v paddr flags s).1
map_page-translates s v paddr flags w sep on hv hw success mapped =
    let (walks, separated) = map_page-walks s v paddr flags w sep hv hw success mapped in
    (
      get_physical_address-walk (map_page v paddr flags s).1 w
            (map_page-paging v paddr flags s ∙ on)
          ∙ walks
          ∙ ap (λ x. if same_page v w then get_address (get_page paddr 0) (page_offset_of w) else x)
              (sym (get_physical_address-walk s w on)),
      separated,
    )
