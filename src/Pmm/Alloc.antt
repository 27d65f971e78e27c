-- ===== src/Pmm/Alloc.antt =====
-- What a client of `pmm_alloc` and `pmm_free` may rely on.
use mathlib.Core.Path.{subst}
use unnamed_os.Base.{
  ℕ_discrete, Bool, true, false, ℕ, ◌+◌, ◌-◌, ◌*◌, ◌/◌, ◌%◌, ◌≤◌, ◌<◌, ◌≡◌, ◌≢◌, refl, arith, ◌&&◌,
  leb, if◌then◌else◌, ==-false, ◌∙◌, ap,
}
use unnamed_os.Pmm.{
  Pmm, find_free, use_range, alloc, free, bitmap_get, page_size, page_number, pages_of, unused,
  get_page,
}
use unnamed_os.Pmm.Range.{in_pages, bitmap_get-use_range}
use unnamed_os.Pmm.FirstFit.{FirstFit, found, not_found, FreeRun, find_free-FirstFit}

-- The outcome of a successful allocation at `ptr`.
pub record Allocated (s : Pmm) (len flags ptr : ℕ) (s' : Pmm) : Type 0 where
  pub aligned : ptr % page_size ≡ 0
  pub in_memory : ptr + len ≤ 4294967296
  pub was_free : FreeRun s.bitmap (ptr / page_size) (pages_of len)
  pub entries :
      (p : ℕ)
      → p < page_number
      → bitmap_get s'.bitmap p
        ≡ (if in_pages (ptr / page_size) (pages_of len) p then flags else bitmap_get s.bitmap p)

-- An aligned range that lies in memory covers the pages that its length asks for.
in_pages_of_range :
    (ptr len p : ℕ)
    → 0 < len
    → ptr % page_size ≡ 0
    → ptr + len ≤ 4294967296
    → (leb (get_page ptr 0) p && leb p (get_page ptr (len - 1)))
      ≡ in_pages (ptr / page_size) (pages_of len) p
in_pages_of_range ptr len p hl ha hm = ground arith

range_fits :
    (first len : ℕ) → first + pages_of len ≤ page_number → first * page_size + len ≤ 4294967296
range_fits first len fits = ground arith

module _ (s : Pmm) (len flags : ℕ) (positive : 0 < len) (flag : flags < 4) where
  Allocated-first :
      (first : ℕ)
      → first + pages_of len ≤ page_number
      → FreeRun s.bitmap first (pages_of len)
      → Allocated s len flags (first * page_size) (use_range (first * page_size) len flags s)
  Allocated-first first fits run = record {
    aligned = omega arith;
    in_memory = range_fits first len fits;
    was_free = let e : first * page_size / page_size ≡ first = omega arith in rw e run;
    entries = λ p hp.
        bitmap_get-use_range (first * page_size) len flags s p positive flag hp
        ∙ ap (λ (b : Bool). if b then flags else bitmap_get s.bitmap p)
            (in_pages_of_range (first * page_size) len p positive (omega arith)
              (range_fits first len fits));
  }

  alloc_cases :
      {r : ℕ}
      → r ≢ 0
      → FirstFit s.bitmap (pages_of len) page_number r
      → Allocated s len flags r (use_range r len flags s)
  alloc_cases some_page (found first e fits run lowest) = rw e (Allocated-first first fits run)
  alloc_cases some_page (not_found e none) = absurd (some_page e)

  -- A successful allocation returns the address of a page; the pages that hold `len` bytes from
  -- there on lie in memory, were unused before, carry the flag now, and no other entry has
  -- changed.
  pub alloc-Allocated :
      (alloc len flags s).0 ≢ 0 → Allocated s len flags (alloc len flags s).0 (alloc len flags s).1
  unfolding alloc
  alloc-Allocated success = elim (ℕ_discrete (find_free s len) 0) [
    | yes e ↦ absurd (success (rw e))
    | no ne ↦ rw (==-false _ _ ne) (alloc_cases ne (find_free-FirstFit s len positive))
  ]

  Allocated-eq :
      {ptr : ℕ} {s' : Pmm} → alloc len flags s ≡ (ptr, s') → ptr ≢ 0 → Allocated s len flags ptr s'
  Allocated-eq {ptr} {s'} e ne =
      subst (λ (r : ℕ × Pmm). r.0 ≢ 0 → Allocated s len flags r.0 r.1) e alloc-Allocated ne

  -- If the page at address 0 is in use, an allocation fails only if no run of unused pages is long
  -- enough, and then it changes nothing.
  pub alloc-failure :
      bitmap_get s.bitmap 0 ≢ unused
      → (alloc len flags s).0 ≡ 0
      → ((alloc len flags s).1 ≡ s)
        × ((f : ℕ) → f + pages_of len ≤ page_number → ¬ FreeRun s.bitmap f (pages_of len))
  unfolding alloc
  alloc-failure null_used failure = elim (ℕ_discrete (find_free s len) 0) [
    | yes e ↦ rw e (refl, no_run e (find_free-FirstFit s len positive))
    | no ne ↦ absurd (ne (rw (==-false _ _ ne) at failure))
  ]
    where
      no_run :
          {r : ℕ}
          → r ≡ 0
          → FirstFit s.bitmap (pages_of len) page_number r
          → (f : ℕ) → f + pages_of len ≤ page_number
          → FreeRun s.bitmap f (pages_of len)
          → ⊥
      no_run e (found first e' fits run lowest) f h free =
          let z : first ≡ 0 = omega arith in null_used (run 0 (omega arith) (ground arith))
      no_run e (not_found e' none) f h free = none f h free

  -- Freeing what was allocated gives every page frame its entry back.
  pub free-alloc :
      (alloc len flags s).0 ≢ 0
      → (p : ℕ) → p < page_number
      → bitmap_get (free (alloc len flags s).0 len (alloc len flags s).1).bitmap p
        ≡ bitmap_get s.bitmap p
  unfolding free
  free-alloc success p hp = restore (alloc-Allocated success)
    where
      restore :
          {ptr : ℕ} {s' : Pmm}
          → Allocated s len flags ptr s'
          → bitmap_get (free ptr len s').bitmap p ≡ bitmap_get s.bitmap p
      restore {ptr} {s'} a = ground (
        arith,
        bitmap_get-use_range ptr len unused s' p,
        in_pages_of_range ptr len p positive a.aligned a.in_memory,
        a.entries p hp,
        a.was_free p,
      )

module _ (s : Pmm) {s' s'' : Pmm} (len len' flags flags' : ℕ) {ptr ptr' : ℕ} where
  apart :
      Allocated s len flags ptr s'
      → Allocated s' len' flags' ptr' s''
      → flags ≢ unused
      → (p : ℕ) → p < page_number
      → in_pages (ptr / page_size) (pages_of len) p ≡ true
      → in_pages (ptr' / page_size) (pages_of len') p ≡ false
  apart a a' used p hp mine = ground (arith, a.entries p hp, a'.was_free p)

  -- Of two allocations, one after the other, neither returns a page of the other.
  pub alloc-disjoint :
      0 < len
      → 0 < len'
      → flags < 4
      → flags' < 4
      → flags ≢ unused
      → alloc len flags s ≡ (ptr, s')
      → ptr ≢ 0
      → alloc len' flags' s' ≡ (ptr', s'')
      → ptr' ≢ 0
      → (p : ℕ) → p < page_number
      → in_pages (ptr / page_size) (pages_of len) p ≡ true
      → in_pages (ptr' / page_size) (pages_of len') p ≡ false
  alloc-disjoint h h' f f' used e ne e' ne' =
      apart (Allocated-eq s len flags h f e ne) (Allocated-eq s' len' flags' h' f' e' ne') used
