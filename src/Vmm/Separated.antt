-- ===== src/Vmm/Separated.antt =====
-- The directory and its tables lie apart, and stay so when a table is entered for an unused frame.
use mathlib.Core.Path.{subst}
use unnamed_os.Base.{
  ℕ, ◌<◌, ◌≡◌, ◌≢◌, ◌∙◌, sym, ap, ◌⊎◌, inl, inr, true, ◌==◌, if◌then◌else◌, ==-false, ==-refl,
  ℕ_discrete,
}
use unnamed_os.Pmm.{Pmm, page_number, unused, bitmap_get}
use unnamed_os.Vmm.{Vmm, Entry}

-- The directory and its tables are different page frames, and the PMM has them in use. The last
-- entry is the directory itself, and is left out.
pub record Separated (s : Vmm) : Type 0 where
  pub dir_small : s.directory < page_number
  pub dir_used : bitmap_get s.pmm.bitmap s.directory ≢ unused
  pub tab_small :
      (i : ℕ)
      → i < 1023
      → (s.entries s.directory i).pr ≡ true
      → (s.entries s.directory i).page < page_number
  pub tab_used :
      (i : ℕ)
      → i < 1023
      → (s.entries s.directory i).pr ≡ true
      → bitmap_get s.pmm.bitmap (s.entries s.directory i).page ≢ unused
  pub own :
      (i : ℕ)
      → i < 1023
      → (s.entries s.directory i).pr ≡ true
      → (s.entries s.directory i).page ≢ s.directory
  pub only :
      (i j : ℕ)
      → i < 1023
      → j < 1023
      → (s.entries s.directory i).pr ≡ true
      → (s.entries s.directory j).pr ≡ true
      → (s.entries s.directory i).page ≡ (s.entries s.directory j).page
      → i ≡ j

-- The entries of a directory once a table has been entered for the frame `f`, which was unused.
module _ (s s1 : Vmm) (sep : Separated s) (i : ℕ) (e : Entry)
    (same_directory : s1.directory ≡ s.directory)
    (written : (j : ℕ)
      → s1.entries s1.directory j ≡ (if j == i then e else s.entries s.directory j))
    (small : e.page < page_number) (fresh : bitmap_get s.pmm.bitmap e.page ≡ unused)
    (taken : bitmap_get s1.pmm.bitmap e.page ≢ unused)
    (kept : (p : ℕ)
      → p < page_number
      → bitmap_get s.pmm.bitmap p ≢ unused
      → bitmap_get s1.pmm.bitmap p ≢ unused) where
  NewOrOld : ℕ → Type 0
  NewOrOld j =
      ((j ≡ i) × (s1.entries s1.directory j ≡ e))
      ⊎ (s1.entries s1.directory j ≡ s.entries s.directory j)

  new_or_old : (j : ℕ) → NewOrOld j
  unfolding NewOrOld
  new_or_old j = elim (ℕ_discrete j i) [
    | yes at ↦ inl (at, written j ∙ rw (at, ==-refl i))
    | no ne ↦ inr (written j ∙ rw (==-false j i ne))
  ]

  not_fresh :
      (j : ℕ)
      → j < 1023
      → (s.entries s.directory j).pr ≡ true
      → (s.entries s.directory j).page ≢ e.page
  not_fresh j hj pr same = sep.tab_used j hj pr (ap (bitmap_get s.pmm.bitmap) same ∙ fresh)

  tab_small' :
      (j : ℕ)
      → NewOrOld j
      → j < 1023
      → (s1.entries s1.directory j).pr ≡ true
      → (s1.entries s1.directory j).page < page_number
  unfolding NewOrOld
  tab_small' j (inl (at, n)) hj pr = subst (λ (x : Entry). x.page < page_number) (sym n) small
  tab_small' j (inr o) hj pr =
      subst (λ (x : Entry). x.page < page_number) (sym o)
        (sep.tab_small j hj (sym (ap (λ (x : Entry). x.pr) o) ∙ pr))

  tab_used' :
      (j : ℕ)
      → NewOrOld j
      → j < 1023
      → (s1.entries s1.directory j).pr ≡ true
      → bitmap_get s1.pmm.bitmap (s1.entries s1.directory j).page ≢ unused
  unfolding NewOrOld
  tab_used' j (inl (at, n)) hj pr =
      subst (λ (x : Entry). bitmap_get s1.pmm.bitmap x.page ≢ unused) (sym n) taken
  tab_used' j (inr o) hj pr =
      let pr' = sym (ap (λ (x : Entry). x.pr) o) ∙ pr in
      subst (λ (x : Entry). bitmap_get s1.pmm.bitmap x.page ≢ unused) (sym o)
        (kept (s.entries s.directory j).page (sep.tab_small j hj pr') (sep.tab_used j hj pr'))

  own' :
      (j : ℕ)
      → NewOrOld j
      → j < 1023
      → (s1.entries s1.directory j).pr ≡ true
      → (s1.entries s1.directory j).page ≢ s1.directory
  unfolding NewOrOld
  own' j (inl (at, n)) hj pr same = sep.dir_used (
      ap (bitmap_get s.pmm.bitmap) (sym same_directory ∙ sym same ∙ ap (λ (x : Entry). x.page) n)
      ∙ fresh)
  own' j (inr o) hj pr same =
      sep.own j hj (sym (ap (λ (x : Entry). x.pr) o) ∙ pr)
        (sym (ap (λ (x : Entry). x.page) o) ∙ same ∙ same_directory)

  only' :
      (j k : ℕ)
      → NewOrOld j
      → NewOrOld k
      → j < 1023
      → k < 1023
      → (s1.entries s1.directory j).pr ≡ true
      → (s1.entries s1.directory k).pr ≡ true
      → (s1.entries s1.directory j).page ≡ (s1.entries s1.directory k).page
      → j ≡ k
  unfolding NewOrOld
  only' j k (inl (at, n)) (inl (at', n')) hj hk pj pk same = at ∙ sym at'
  only' j k (inl (at, n)) (inr o) hj hk pj pk same = absurd (
      not_fresh k hk (sym (ap (λ (x : Entry). x.pr) o) ∙ pk)
        (sym (ap (λ (x : Entry). x.page) o) ∙ sym same ∙ ap (λ (x : Entry). x.page) n))
  only' j k (inr o) (inl (at, n)) hj hk pj pk same = absurd (
      not_fresh j hj (sym (ap (λ (x : Entry). x.pr) o) ∙ pj)
        (sym (ap (λ (x : Entry). x.page) o) ∙ same ∙ ap (λ (x : Entry). x.page) n))
  only' j k (inr o) (inr o') hj hk pj pk same =
      sep.only j k hj hk (sym (ap (λ (x : Entry). x.pr) o) ∙ pj)
        (sym (ap (λ (x : Entry). x.pr) o') ∙ pk)
        (sym (ap (λ (x : Entry). x.page) o) ∙ same ∙ ap (λ (x : Entry). x.page) o')

  pub entered-Separated : Separated s1
  entered-Separated = record {
    dir_small = subst (λ d. d < page_number) (sym same_directory) sep.dir_small;
    dir_used =
        subst (λ d. bitmap_get s1.pmm.bitmap d ≢ unused) (sym same_directory)
          (kept s.directory sep.dir_small sep.dir_used);
    tab_small = λ j. tab_small' j (new_or_old j);
    tab_used = λ j. tab_used' j (new_or_old j);
    own = λ j. own' j (new_or_old j);
    only = λ j k. only' j k (new_or_old j) (new_or_old k);
  }

-- The tables lie apart whatever the PMM does with page frames that are not in use.
pub Separated-pmm :
    (s : Vmm) (pmm : Pmm)
    → ((p : ℕ)
        → p < page_number
        → bitmap_get s.pmm.bitmap p ≢ unused
        → bitmap_get pmm.bitmap p ≢ unused)
    → Separated s
    → Separated (record s { pmm = pmm })
Separated-pmm s pmm used sep = record {
  dir_small = sep.dir_small;
  dir_used = used s.directory sep.dir_small sep.dir_used;
  tab_small = sep.tab_small;
  tab_used =
      λ i hi pr. used (s.entries s.directory i).page (sep.tab_small i hi pr) (sep.tab_used i hi pr);
  own = sep.own;
  only = sep.only;
}
