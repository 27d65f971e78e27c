-- ===== src/Pmm/FirstFit.antt =====
-- `pmm_find_free` against the first-fit policy that its comment names.
use unnamed_os.Base.{
  false, ℕ, zero, suc, ◌+◌, ◌-◌, ◌*◌, ◌≤◌, ◌<◌, ◌≡◌, ◌≢◌, refl, arith, leb, dec_le, dec_lt,
  ℕ_discrete, ==-false, leb-false, leb-true,
}
use unnamed_os.Pmm.{
  Pmm, find_loop, find_free, bitmap_get, get_address, page_size, page_number, pages_of, unused,
}

-- The `n` pages from `first` on are unused.
abbrev pub FreeRun : (b : ℕ → ℕ) (first n : ℕ) → Type 0
FreeRun b first n = (p : ℕ) → first ≤ p → p < first + n → bitmap_get b p ≡ unused

-- What a first-fit search for `pages` pages among the first `last` may return: the address of the
-- lowest run that is long enough, or 0 where there is none.
pub data FirstFit (b : ℕ → ℕ) (pages last r : ℕ) : Type 0 where
  found :
      (first : ℕ)
      → r ≡ first * page_size
      → first + pages ≤ last
      → FreeRun b first pages
      → ((f : ℕ) → f < first → ¬ FreeRun b f pages)
      → FirstFit b pages last r
  not_found : r ≡ 0 → ((f : ℕ) → f + pages ≤ last → ¬ FreeRun b f pages) → FirstFit b pages last r

module _ (b : ℕ → ℕ) (pages last : ℕ) (positive : 0 < pages) (fits : last ≤ 1048576) where
  -- What the search knows at index `i`: the last `free` pages are a run that cannot be extended
  -- to the left, and no run that is long enough ends before `i`.
  record Searched (i free : ℕ) : Type 0 where
    within : free ≤ i
    short : free < pages
    run : (p : ℕ) → i ≤ p + free → p < i → bitmap_get b p ≡ unused
    edge : (p : ℕ) → p + free + 1 ≡ i → bitmap_get b p ≢ unused
    none_before : (f : ℕ) → f + pages ≤ i → ¬ FreeRun b f pages

  Searched-used : (i free : ℕ) → Searched i free → bitmap_get b i ≢ unused → Searched (i + 1) 0
  Searched-used i free inv used = record {
    within = omega arith;
    short = positive;
    run = λ p lo hi. absurd (omega arith);
    edge = λ p e. let e' : p ≡ i = omega arith in rw e' used;
    none_before = λ f h run. elim (dec_le (f + pages) i) [
      | yes early ↦ inv.none_before f early run
      | no late ↦ used (run i (omega arith) (omega arith))
    ];
  }

  Searched-free :
      (i free : ℕ)
      → Searched i free
      → bitmap_get b i ≡ unused
      → free + 1 < pages
      → Searched (i + 1) (free + 1)
  Searched-free i free inv is_free short = record {
    within = omega (arith, inv.within);
    short = short;
    run = λ p lo hi. elim (ℕ_discrete p i) [
      | yes e ↦ rw e is_free
      | no ne ↦ inv.run p (omega arith) (omega arith)
    ];
    edge = λ p e. inv.edge p (omega arith);
    none_before = λ f h run. elim (dec_le (f + pages) i) [
      | yes early ↦ inv.none_before f early run
      | no late ↦
          let p = i - free - 1 in inv.edge p (omega arith) (run p (omega arith) (omega arith))
    ];
  }

  test_zero : leb pages 0 ≡ false
  test_zero = ground arith

  found_here :
      (rounds i free : ℕ)
      → i + suc rounds ≡ last
      → Searched i free
      → bitmap_get b i ≡ unused
      → pages ≡ free + 1
      → FirstFit b pages last (get_address (i + 1 - (free + 1)) 0)
  found_here rounds i free e inv is_free enough =
      found (i - free) (omega (arith, inv.within)) (omega (arith, inv.within))
        (λ p lo hi. elim (ℕ_discrete p i) [
          | yes e ↦ rw e is_free
          | no ne ↦ inv.run p (omega (arith, inv.within)) (omega (arith, inv.within))
        ])
        (λ f h. inv.none_before f (omega (arith, inv.within)))

  find_loop-FirstFit :
      (rounds i free : ℕ)
      → i + rounds ≡ last
      → Searched i free
      → FirstFit b pages last (find_loop b pages rounds i free)
  unfolding find_loop
  find_loop-FirstFit zero i free e inv = not_found refl (λ f h. inv.none_before f (omega arith))
  find_loop-FirstFit (suc rounds) i free e inv = elim (ℕ_discrete (bitmap_get b i) unused) [
    | no used ↦
        rw (==-false _ _ used, test_zero)
          (find_loop-FirstFit rounds (i + 1) 0 (omega arith) (Searched-used i free inv used))
    | yes is_free ↦ rw (is_free) (elim (dec_lt (free + 1) pages) [
      | yes short ↦ rw (leb-false pages (free + 1) short) (
          find_loop-FirstFit rounds (i + 1) (free + 1) (omega arith)
            (Searched-free i free inv is_free short))
      | no enough ↦
          rw (leb-true pages (free + 1) (omega arith))
            (found_here rounds i free e inv is_free (omega arith))
    ])
  ]

  search_begins : Searched 0 0
  search_begins = record {
    within = omega arith;
    short = positive;
    run = λ p lo hi. absurd (omega arith);
    edge = λ p e. absurd (omega arith);
    none_before = λ f h run. omega arith;
  }

-- `pmm_find_free` searches every page frame first-fit: it returns the address of the lowest run of
-- unused page frames that holds `len` bytes, or 0 if there is none.
pub find_free-FirstFit :
    (s : Pmm) (len : ℕ) → 0 < len → FirstFit s.bitmap (pages_of len) page_number (find_free s len)
unfolding find_free
find_free-FirstFit s len hl = rw (==-false len 0 (omega arith)) (
    find_loop-FirstFit s.bitmap (pages_of len) page_number (ground arith) (omega arith) page_number
      0 0 (omega arith)
      (search_begins s.bitmap (pages_of len) page_number (ground arith) (omega arith)))
