-- ===== src/Vmm/Walk.antt =====
-- The translation of addresses as a walk through a directory and a table: what a store into a table,
-- and a new table, change in it.
use unnamed_os.Base.{
  ℕ, ◌≡◌, ◌≢◌, refl, sym, ap, ◌∙◌, inl, inr, Bool, true, false, ◌&&◌, ◌==◌, if◌then◌else◌, update,
  arith, Bool-cases, ==-false, ==-refl, eq_of_==, ℕ_discrete, ◌>>>◌,
}
use unnamed_os.Pmm.{Pmm, get_address}
use unnamed_os.Vmm.{
  Vmm, Entry, absent, page_table_of, page_of, page_offset_of, get_physical_address,
}

-- The translation, by the entries and the frame of the directory.
abbrev pub walk : (entries : ℕ → ℕ → Entry) (directory vaddr : ℕ) → ℕ
walk entries directory v =
    let d = entries directory (page_table_of v) in
    let t = entries d.page (page_of v) in
    if d.pr && t.pr then get_address t.page (page_offset_of v) else 0

-- Whether two addresses lie in one page.
abbrev pub same_page : (v w : ℕ) → Bool
same_page v w = w >>> 12 == v >>> 12

not_same :
    (v w : ℕ) → same_page v w ≡ false → page_table_of w ≡ page_table_of v → page_of w ≢ page_of v
not_same v w h e = λ e'. ground arith

-- A store of the entry for the address `v` in its table.
pub walk-store_any :
    (E : ℕ → ℕ → Entry) (D v w : ℕ) (m : Entry)
    → (E D (page_table_of v)).page ≢ D
    → ((E D (page_table_of w)).pr ≡ true
        → (E D (page_table_of w)).page ≡ (E D (page_table_of v)).page
        → page_table_of w ≡ page_table_of v)
    → (E D (page_table_of v)).pr ≡ true
    → walk
        (update E
          (E D (page_table_of v)).page
          (update (E (E D (page_table_of v)).page) (page_of v) m))
        D
        w
      ≡ (if same_page v w
          then (if m.pr then get_address m.page (page_offset_of w) else 0)
          else walk E D w)
walk-store_any E D v w m own only table =
    let frame = (E D (page_table_of v)).page in
    let at_d = ==-false D frame (λ e. own (sym e)) in
    elim (Bool-cases (same_page v w)) [
      | inl t ↦
          let at = eq_of_== (w >>> 12) (v >>> 12) t in
          let ei : page_table_of w ≡ page_table_of v = omega (arith, at) in
          let ej : page_of w ≡ page_of v = omega (arith, at) in
          rw (ei, ej, at_d, table, ==-refl frame, ==-refl (page_of v), t)
      | inr f ↦ elim (Bool-cases (E D (page_table_of w)).pr) [
        | inr gone ↦ rw (at_d, gone, f)
        | inl there ↦ elim (ℕ_discrete (E D (page_table_of w)).page (E D (page_table_of v)).page) [
          | yes e ↦
              let ne = not_same v w f (only there e) in
              rw (at_d, e, ==-refl frame, ==-false (page_of w) (page_of v) ne, f)
          | no ne ↦ rw (at_d, ==-false (E D (page_table_of w)).page frame ne, f)
        ]
      ]
    ]

pub walk-store :
    (E : ℕ → ℕ → Entry) (D v w : ℕ) (m : Entry)
    → (E D (page_table_of v)).page ≢ D
    → ((E D (page_table_of w)).pr ≡ true
        → (E D (page_table_of w)).page ≡ (E D (page_table_of v)).page
        → page_table_of w ≡ page_table_of v)
    → m.pr ≡ true
    → (E D (page_table_of v)).pr ≡ true
    → walk
        (update E
          (E D (page_table_of v)).page
          (update (E (E D (page_table_of v)).page) (page_of v) m))
        D
        w
      ≡ (if same_page v w then get_address m.page (page_offset_of w) else walk E D w)
walk-store E D v w m own only pr table =
    walk-store_any E D v w m own only table
    ∙ ap
        (λ (p : Bool).
          if same_page v w
          then (if p then get_address m.page (page_offset_of w) else 0)
          else walk E D w)
        pr

-- A new, empty table changes no translation.
pub walk-create :
    (E : ℕ → ℕ → Entry) (D i w : ℕ) (e : Entry)
    → D ≢ e.page
    → (E D i).pr ≡ false
    → ((E D (page_table_of w)).pr ≡ true
        → ((E D (page_table_of w)).page ≢ e.page) × ((E D (page_table_of w)).page ≢ D))
    → walk (update (update E D (update (E D) i e)) e.page (λ _. absent)) D w ≡ walk E D w
walk-create E D i w e own gone apart = elim (ℕ_discrete (page_table_of w) i) [
  | yes at ↦
      rw (==-false D e.page own, ==-refl D, at, ==-refl i, ==-refl e.page, gone) (ground arith)
  | no away ↦ elim (Bool-cases (E D (page_table_of w)).pr) [
    | inr none_there ↦
        rw (==-false D e.page own, ==-refl D, ==-false (page_table_of w) i away, none_there)
    | inl there ↦
        let (ne, ne') = apart there in
        rw (
          ==-false D e.page own,
          ==-refl D,
          ==-false (page_table_of w) i away,
          ==-false (E D (page_table_of w)).page e.page ne,
          ==-false (E D (page_table_of w)).page D ne',
        )
  ]
]

pub get_physical_address-walk :
    (s : Vmm) (w : ℕ) → s.paging ≡ true → get_physical_address s w ≡ walk s.entries s.directory w
unfolding get_physical_address
get_physical_address-walk s w p = rw p

-- Translations do not depend on the PMM.
pub get_physical_address-pmm :
    (s : Vmm) (pmm : Pmm) (w : ℕ)
    → get_physical_address (record s { pmm = pmm }) w ≡ get_physical_address s w
unfolding get_physical_address
get_physical_address-pmm s pmm w = refl
