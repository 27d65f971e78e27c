-- ===== src/Vmm/Identity.antt =====
-- The loop of `vmm_init` in `src/kernel/mem/vmm.c`: what it maps, and what it leaves unmapped.
use mathlib.Core.Path.{subst}
use unnamed_os.Base.{
  ℕ, zero, suc, ◌+◌, ◌≤◌, ◌<◌, ◌≡◌, ◌≢◌, ◌⊎◌, inl, inr, refl, sym, ap, ◌∙◌, arith, true, false,
  ◌==◌, ◌||◌, if◌then◌else◌, ◌>>>◌, Bool-cases, ==-false, ==-refl, ℕ_discrete,
}
use unnamed_os.Pmm.{
  Pmm, get_page, get_address, alloc, check, kernel, unused, reserved, page_number, bitmap_get,
}
use unnamed_os.Pmm.Alloc.{alloc-Allocated}
use unnamed_os.Vmm.{
  Vmm, dir_entry, page_table_of, page_offset_of, table_size, vmm_kernel, map_page, domain_check,
  ensure_page_table, create_page_table,
}
use unnamed_os.Vmm.Walk.{walk, same_page}
use unnamed_os.Vmm.Separated.{Separated}
use unnamed_os.Vmm.Translate.{map_page-walks, map_page-succeeds}
use unnamed_os.Vmm.Init.{identity_page, identity_loop}

-- What the PMM says of a page frame that the kernel or a task uses.
abbrev pub InUse : ℕ → Type 0
InUse use_of = (use_of ≢ unused) × (use_of ≢ reserved)

-- The page frames that were in use under `b` and have been passed, those before `i`, are mapped to
-- themselves; nothing leads to another place, and nothing from page `i` on is mapped.
pub record Identity (b : ℕ → ℕ) (i : ℕ) (s : Vmm) : Type 0 where
  pub separated : Separated s
  pub unchecked : s.domain_check_enabled ≡ false
  pub kept :
      (p : ℕ)
      → p < page_number
      → bitmap_get b p ≢ unused
      → bitmap_get s.pmm.bitmap p ≡ bitmap_get b p
  pub below :
      (w : ℕ)
      → page_table_of w < 1023
      → w >>> 12 < i
      → InUse (bitmap_get b (w >>> 12))
      → walk s.entries s.directory w ≡ w
  pub only :
      (w : ℕ)
      → page_table_of w < 1023
      → (walk s.entries s.directory w ≡ 0) ⊎ (walk s.entries s.directory w ≡ w)
  pub above : (w : ℕ) → page_table_of w < 1023 → i ≤ w >>> 12 → walk s.entries s.directory w ≡ 0

-- The memory for each table that the loop needs can be allocated.
abbrev pub TablesFound : (rounds i : ℕ) → Vmm → Type 0
TablesFound zero i s = Unit
TablesFound (suc rounds) i s =
    ((dir_entry s (get_address i 0)).pr ≡ false → (alloc table_size kernel s.pmm).0 ≢ 0)
    × TablesFound rounds (i + 1) (identity_page i s)

-- `vmm_map` does not touch the static variables, nor the use of a page frame that is in use.
pub map_page-directory :
    (v paddr flags : ℕ) (s : Vmm) → (map_page v paddr flags s).1.directory ≡ s.directory
unfolding map_page ensure_page_table create_page_table
map_page-directory v paddr flags s = ground arith

map_page-unchecked :
    (v paddr flags : ℕ) (s : Vmm)
    → (map_page v paddr flags s).1.domain_check_enabled ≡ s.domain_check_enabled
unfolding map_page ensure_page_table create_page_table
map_page-unchecked v paddr flags s = ground arith

pub alloc-keeps :
    (s : Pmm) (p : ℕ)
    → (alloc table_size kernel s).0 ≢ 0
    → p < page_number
    → bitmap_get s.bitmap p ≢ unused
    → bitmap_get (alloc table_size kernel s).1.bitmap p ≡ bitmap_get s.bitmap p
alloc-keeps s p success hp used =
    let a = alloc-Allocated s table_size kernel (omega arith) (omega arith) success in
    let free = a.was_free p in ground (arith, a.entries p hp)

pub map_page-pmm :
    (v paddr flags : ℕ) (s : Vmm)
    → ((map_page v paddr flags s).1.pmm ≡ s.pmm)
      ⊎ (((dir_entry s v).pr ≡ false)
          × ((map_page v paddr flags s).1.pmm ≡ (alloc table_size kernel s.pmm).1))
unfolding map_page ensure_page_table create_page_table
map_page-pmm v paddr flags s = ground arith

map_page-kept :
    (s : Vmm) (v paddr flags p : ℕ)
    → ((dir_entry s v).pr ≡ false → (alloc table_size kernel s.pmm).0 ≢ 0)
    → p < page_number
    → bitmap_get s.pmm.bitmap p ≢ unused
    → bitmap_get (map_page v paddr flags s).1.pmm.bitmap p ≡ bitmap_get s.pmm.bitmap p
map_page-kept s v paddr flags p success hp used = elim (map_page-pmm v paddr flags s) [
  | inl same ↦ ap (λ (m : Pmm). bitmap_get m.bitmap p) same
  | inr (gone, made) ↦
      ap (λ (m : Pmm). bitmap_get m.bitmap p) made ∙ alloc-keeps s.pmm p (success gone) hp used
]

-- What the mapping of a page to itself means for the walks.
at_place :
    (i w other : ℕ)
    → i < 1047552
    → (if same_page (get_address i 0) w
        then get_address (get_page (get_address i 0) 0) (page_offset_of w)
        else other)
      ≡ (if w >>> 12 == i then w else other)
at_place i w other hi =
    let page : get_address i 0 >>> 12 ≡ i = omega arith in
    let frame : get_page (get_address i 0) 0 ≡ i = omega arith in
    elim (ℕ_discrete (w >>> 12) i) [
      | yes e ↦
          let at : (w >>> 12) == (get_address i 0 >>> 12) ≡ true = ground (arith, page) in
          let whole : get_address (get_page (get_address i 0) 0) (page_offset_of w) ≡ w =
            omega (arith, frame, e) in
          rw (at, whole, e, ==-refl i)
      | no ne ↦
          let away : (w >>> 12) == (get_address i 0 >>> 12) ≡ false = ground (arith, page) in
          rw (away, ==-false (w >>> 12) i ne)
    ]

not_idle : (x : ℕ) → (x == unused || x == reserved) ≡ true → ¬ InUse x
not_idle x e (nu, nr) = ground arith

module _ (b : ℕ → ℕ) (i : ℕ) (hi : i < 1047552) (s : Vmm) (inv : Identity b i s) where
  -- A page frame that is not in use is passed over.
  passed :
      (bitmap_get s.pmm.bitmap i == unused || bitmap_get s.pmm.bitmap i == reserved) ≡ true
      → Identity b (i + 1) s
  passed idle = record {
    separated = inv.separated;
    unchecked = inv.unchecked;
    kept = inv.kept;
    below = λ w hw lt used. elim (ℕ_discrete (w >>> 12) i) [
      | no ne ↦ inv.below w hw (omega arith) used
      | yes e ↦
          let here = rw e at used in
          let same = inv.kept i (omega arith) here.0 in
          absurd (not_idle (bitmap_get b i) (rw same at idle) here)
    ];
    only = inv.only;
    above = λ w hw le. inv.above w hw (omega arith);
  }

  module _
      (found : (dir_entry s (get_address i 0)).pr ≡ false
        → (alloc table_size kernel s.pmm).0 ≢ 0) where
    succeeded : (map_page (get_address i 0) (get_address i 0) vmm_kernel s).0 ≡ true
    unfolding domain_check
    succeeded =
        map_page-succeeds s (get_address i 0) (get_address i 0) vmm_kernel inv.separated
          (omega arith) (omega arith) found (rw inv.unchecked refl)
          (inv.above (get_address i 0 + 1) (omega arith) (omega arith))

    walks :
        (w : ℕ)
        → page_table_of w < 1023
        → walk
            (map_page (get_address i 0) (get_address i 0) vmm_kernel s).1.entries
            (map_page (get_address i 0) (get_address i 0) vmm_kernel s).1.directory
            w
          ≡ (if w >>> 12 == i then w else walk s.entries s.directory w)
    walks w hw =
        (map_page-walks s (get_address i 0) (get_address i 0) vmm_kernel w inv.separated
          (omega arith) hw found succeeded).0
        ∙ at_place i w (walk s.entries s.directory w) hi

    -- A page frame that is in use is mapped.
    mapped : Identity b (i + 1) (map_page (get_address i 0) (get_address i 0) vmm_kernel s).1
    mapped =
        let v = get_address i 0 in
        record {
          separated =
              (map_page-walks s v v vmm_kernel 0 inv.separated (omega arith) (omega arith) found
                succeeded).1;
          unchecked = map_page-unchecked v v vmm_kernel s ∙ inv.unchecked;
          kept = λ p hp used.
              map_page-kept s v v vmm_kernel p found hp (λ z. used (sym (inv.kept p hp used) ∙ z))
              ∙ inv.kept p hp used;
          below = λ w hw lt used. walks w hw ∙ elim (ℕ_discrete (w >>> 12) i) [
            | yes e ↦ rw (e, ==-refl i)
            | no ne ↦ rw (==-false (w >>> 12) i ne) (inv.below w hw (omega arith) used)
          ];
          only = λ w hw. elim (ℕ_discrete (w >>> 12) i) [
            | yes e ↦ inr (walks w hw ∙ rw (e, ==-refl i))
            | no ne ↦
                subst (λ x. (x ≡ 0) ⊎ (x ≡ w)) (sym (walks w hw ∙ rw (==-false (w >>> 12) i ne)))
                  (inv.only w hw)
          ];
          above = λ w hw le.
              walks w hw
              ∙ rw (==-false (w >>> 12) i (λ e. omega arith)) (inv.above w hw (omega arith));
        }

    pub identity_page-Identity : Identity b (i + 1) (identity_page i s)
    unfolding identity_page check
    identity_page-Identity =
        let place : get_page (get_address i 0) 0 ≡ i = omega arith in
        elim (Bool-cases
          (check s.pmm (get_address i 0) == unused || check s.pmm (get_address i 0) == reserved)) [
            | inl idle ↦ rw idle (
                passed (
                  subst
                    (λ p.
                      (bitmap_get s.pmm.bitmap p == unused || bitmap_get s.pmm.bitmap p == reserved)
                      ≡ true)
                    place idle))
            | inr used ↦ rw used mapped
          ]

pub identity_loop-Identity :
    (b : ℕ → ℕ) (rounds i : ℕ) (s : Vmm)
    → i + rounds ≤ 1047552
    → TablesFound rounds i s
    → Identity b i s
    → Identity b (i + rounds) (identity_loop rounds i s)
unfolding identity_loop
identity_loop-Identity b zero i s hi found inv = subst (λ n. Identity b n s) (omega arith) inv
identity_loop-Identity b (suc rounds) i s hi found inv =
    let rest =
      identity_loop-Identity b rounds (i + 1) (identity_page i s) (omega arith) found.1
        (identity_page-Identity b i (omega arith) s inv found.0) in
    subst (λ n. Identity b n (identity_loop rounds (i + 1) (identity_page i s))) (omega arith) rest
