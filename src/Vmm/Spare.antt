-- ===== src/Vmm/Spare.antt =====
-- The memory that the loop of `vmm_init` in `src/kernel/mem/vmm.c` takes for its page tables.
use mathlib.Core.Path.{subst}
use unnamed_os.Base.{
  ℕ, zero, suc, ◌+◌, ◌/◌, ◌≤◌, ◌<◌, ◌≡◌, ◌≢◌, ◌⊎◌, inl, inr, refl, sym, ap, ◌∙◌, arith, true, false,
  ◌==◌, ◌||◌, Bool-cases, ==-false, ℕ_discrete,
}
use unnamed_os.Pmm.{get_address, alloc, check, kernel, unused, reserved, bitmap_get}
use unnamed_os.Pmm.Spare.{Spare, alloc-succeeds, alloc-Spare}
use unnamed_os.Vmm.{
  Vmm, dir_entry, tab_entry, page_table_of, table_size, vmm_kernel, map_page, domain_check,
  ensure_page_table,
}
use unnamed_os.Vmm.Identity.{Identity, TablesFound, map_page-pmm, identity_page-Identity}
use unnamed_os.Vmm.Init.{identity_page, identity_loop}
use unnamed_os.Vmm.Separated.{Separated}
use unnamed_os.Vmm.Translate.{ensure-Kept}

-- After `vmm_map` there is a table for its page.
map_page-table :
    (s : Vmm) (v paddr flags : ℕ)
    → Separated s
    → page_table_of v < 1023
    → ((dir_entry s v).pr ≡ false → (alloc table_size kernel s.pmm).0 ≢ 0)
    → domain_check v flags s ≡ true
    → (dir_entry (map_page v paddr flags s).1 v).pr ≡ true
unfolding map_page
map_page-table s v paddr flags sep hv success checked =
    let s1 = ensure_page_table v s in
    let k = ensure-Kept s sep v hv success in
    let at_d =
      ==-false s1.directory (dir_entry s1 v).page
        (λ e. k.separated.own (page_table_of v) hv k.table (sym e)) in
    elim (Bool-cases (tab_entry s1 v).pr) [
      | inl there ↦ rw (checked, there) k.table
      | inr free ↦ rw (checked, free, at_d) k.table
    ]

-- The pages below 4 MiB that are left before round `i`. Its table is there already, or there is one
-- page more.
pub record Left (i : ℕ) (s : Vmm) : Type 0 where
  pub first : ℕ
  pub spare : Spare first 1024 s.pmm
  pub budget :
      (((dir_entry s (get_address i 0)).pr ≡ true) × (first ≤ 258 + i / 1024))
      ⊎ (first ≤ 257 + i / 1024)

-- What lets the loop go on to page frame 784384, at 3064 MiB.
abbrev pub most : ℕ
most = 784384

module _ (b : ℕ → ℕ) (null_used : bitmap_get b 0 ≢ unused) (i : ℕ) (hi : i < most) (s : Vmm)
    (inv : Identity b i s) (left : Left i s) where
  null_kept : bitmap_get s.pmm.bitmap 0 ≢ unused
  null_kept z = null_used (sym (inv.kept 0 (omega arith) null_used) ∙ z)

  budget-first : left.first < 1024
  budget-first = elim left.budget [ inl there ↦ omega (arith, there.1) | inr le ↦ omega arith ]

  pub table_found :
      (dir_entry s (get_address i 0)).pr ≡ false → (alloc table_size kernel s.pmm).0 ≢ 0
  table_found gone =
      alloc-succeeds s.pmm left.first 1024 kernel (omega arith) (omega arith) budget-first
        left.spare null_kept

  budget-some : left.first ≤ 258 + i / 1024
  budget-some = elim left.budget [ inl there ↦ there.1 | inr le ↦ omega arith ]

  budget-gone : (dir_entry s (get_address i 0)).pr ≡ false → left.first ≤ 257 + i / 1024
  budget-gone gone = elim left.budget [ inl there ↦ ground (arith, there.0, gone) | inr le ↦ le ]

  budget-plus : left.first ≤ 257 + i / 1024 → left.first + 1 ≤ 258 + i / 1024
  budget-plus le = omega arith

  next_budget :
      (first : ℕ) (s' : Vmm)
      → first ≤ 258 + i / 1024
      → (((i + 1) / 1024 ≡ i / 1024)
          → ((dir_entry s' (get_address (i + 1) 0)).pr ≡ true) ⊎ (first ≤ 257 + i / 1024))
      → (((dir_entry s' (get_address (i + 1) 0)).pr ≡ true) × (first ≤ 258 + (i + 1) / 1024))
        ⊎ (first ≤ 257 + (i + 1) / 1024)
  next_budget first s' le same = elim (ℕ_discrete ((i + 1) / 1024) (i / 1024)) [
    | yes e ↦ elim (same e) [ inl there ↦ inl (there, omega arith) | inr less ↦ inr (omega arith) ]
    | no ne ↦ inr (omega arith)
  ]

  same_table :
      (i + 1) / 1024 ≡ i / 1024
      → page_table_of (get_address (i + 1) 0) ≡ page_table_of (get_address i 0)
  same_table e = omega arith

  next_table :
      (s' : Vmm)
      → (dir_entry s' (get_address i 0)).pr ≡ true
      → (i + 1) / 1024 ≡ i / 1024
      → (dir_entry s' (get_address (i + 1) 0)).pr ≡ true
  next_table s' there e = ap (λ t. (s'.entries s'.directory t).pr) (same_table e) ∙ there

  passed-Left : Left (i + 1) s
  passed-Left = record {
    first = left.first;
    spare = left.spare;
    budget =
        next_budget left.first s budget-some
          (λ e. elim left.budget [ inl there ↦ inl (next_table s there.0 e) | inr le ↦ inr le ]);
  }

  mapped-Left : Left (i + 1) (map_page (get_address i 0) (get_address i 0) vmm_kernel s).1
  unfolding domain_check
  mapped-Left =
      let v = get_address i 0 in
      let s' = (map_page v v vmm_kernel s).1 in
      let there : (dir_entry s' v).pr ≡ true =
        map_page-table s v v vmm_kernel inv.separated (omega arith) table_found
          (rw inv.unchecked refl) in
      elim (map_page-pmm v v vmm_kernel s) [
        | inl same ↦ record {
          first = left.first;
          spare = rw same left.spare;
          budget = next_budget left.first s' budget-some (λ e. inl (next_table s' there e));
        }
        | inr (gone, made) ↦ record {
          first = left.first + 1;
          spare = rw made (
              alloc-Spare s.pmm left.first 1024 kernel (omega arith) (omega arith) budget-first
                left.spare null_kept);
          budget =
              next_budget (left.first + 1) s' (budget-plus (budget-gone gone))
                (λ e. inl (next_table s' there e));
        }
      ]

  identity_page-Left : Left (i + 1) (identity_page i s)
  unfolding identity_page
  identity_page-Left =
      elim (Bool-cases
        (check s.pmm (get_address i 0) == unused || check s.pmm (get_address i 0) == reserved)) [
          | inl idle ↦ rw idle passed-Left
          | inr used ↦ rw used mapped-Left
        ]

-- All tables of the loop can be allocated, and what is left then.
module _ (b : ℕ → ℕ) (null_used : bitmap_get b 0 ≢ unused) where
  pub identity_loop-Left :
      (rounds i : ℕ) (s : Vmm)
      → i + rounds < most
      → Identity b i s
      → Left i s
      → TablesFound rounds i s × Left (i + rounds) (identity_loop rounds i s)
  unfolding identity_loop
  identity_loop-Left zero i s hi inv left = (tt, subst (λ n. Left n s) (omega arith) left)
  identity_loop-Left (suc rounds) i s hi inv left =
      let success = table_found b null_used i (omega arith) s inv left in
      let (rest, at_end) =
        identity_loop-Left rounds (i + 1) (identity_page i s) (omega arith)
          (identity_page-Identity b i (omega arith) s inv success)
          (identity_page-Left b null_used i (omega arith) s inv left) in
      (
        (success, rest),
        subst (λ n. Left n (identity_loop rounds (i + 1) (identity_page i s))) (omega arith) at_end,
      )
