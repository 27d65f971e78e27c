-- ===== src/Pmm/Spare.antt =====
-- Pages that are left for `pmm_alloc`: below a bound, all pages from some page on.
use unnamed_os.Base.{ℕ, ◌+◌, ◌*◌, ◌≤◌, ◌<◌, ◌≡◌, ◌≢◌, arith, ℕ_discrete, dec_le, ==-false}
use unnamed_os.Pmm.{Pmm, alloc, find_free, bitmap_get, page_size, page_number, unused}
use unnamed_os.Pmm.Alloc.{alloc-Allocated, alloc-failure}
use unnamed_os.Pmm.FirstFit.{FirstFit, found, not_found, find_free-FirstFit}

-- The pages from `first` to `last`, without `last`, are unused.
abbrev pub Spare : (first last : ℕ) → Pmm → Type 0
Spare first last s = (p : ℕ) → first ≤ p → p < last → bitmap_get s.bitmap p ≡ unused

module _ (s : Pmm) (first last flags : ℕ) (flag : flags < 4) (in_memory : last ≤ page_number)
    (some_page : first < last) (spare : Spare first last s)
    (null_used : bitmap_get s.bitmap 0 ≢ unused) where
  -- One page can be allocated.
  pub alloc-succeeds : (alloc 4096 flags s).0 ≢ 0
  alloc-succeeds failed =
      (alloc-failure s 4096 flags (omega arith) flag null_used failed).1 first (omega arith)
        (λ p lo hi. spare p lo (omega arith))

  low_first : {r : ℕ} → FirstFit s.bitmap 1 page_number r → r ≤ first * page_size
  low_first (found f e fits run lowest) = elim (dec_le f first) [
    | yes le ↦ omega (arith, e)
    | no gt ↦ absurd (lowest first (omega arith) (λ p lo hi. spare p lo (omega arith)))
  ]
  low_first (not_found e none_there) = omega (arith, e)

  -- It lies at or below the first of these pages.
  pub alloc-low : (alloc 4096 flags s).0 ≤ first * page_size
  unfolding alloc
  alloc-low = elim (ℕ_discrete (find_free s 4096) 0) [
    | yes e ↦ rw e (omega arith)
    | no ne ↦ rw (==-false _ _ ne) (low_first (find_free-FirstFit s 4096 (omega arith)))
  ]

  -- The pages behind that one are left.
  pub alloc-Spare : Spare (first + 1) last (alloc 4096 flags s).1
  alloc-Spare p lo hi =
      let a = alloc-Allocated s 4096 flags (omega arith) flag alloc-succeeds in
      ground (arith, a.entries p (omega arith), alloc-low, spare p (omega arith) hi)
