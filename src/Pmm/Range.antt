-- ===== src/Pmm/Range.antt =====
-- `pmm_use`: which page frames a memory range covers, and what is left alone.
use unnamed_os.Base.{
  Bool, ℕ, zero, suc, ◌+◌, ◌-◌, ◌≤◌, ◌<◌, ◌≡◌, arith, ◌&&◌, ltb, leb, if◌then◌else◌,
}
use unnamed_os.Pmm.{Pmm, use_pages, use_range, bitmap_set, bitmap_get, get_page}
use unnamed_os.Pmm.Bitmap.{bitmap_get-set}

-- Whether page `p` is one of the `n` pages from `first` on.
abbrev pub in_pages : (first n p : ℕ) → Bool
in_pages first n p = leb first p && ltb p (first + n)

bitmap_get-use_pages :
    (rounds i v : ℕ) (b : ℕ → ℕ) (p : ℕ)
    → i + rounds ≤ 1048576
    → v < 4
    → p < 1048576
    → bitmap_get (use_pages rounds i v b) p ≡ (if in_pages i rounds p then v else bitmap_get b p)
unfolding use_pages
bitmap_get-use_pages zero i v b p h hv hp = ground arith
bitmap_get-use_pages (suc rounds) i v b p h hv hp =
    ground
      (arith, bitmap_get-use_pages rounds (i + 1) v (bitmap_set b i v) p, bitmap_get-set b i v p)

-- Marking a range sets the entry of every page that the range touches to the flag, and no other
-- entry; a range that runs past the last address marks nothing.
pub bitmap_get-use_range :
    (ptr len v : ℕ) (s : Pmm) (p : ℕ)
    → 0 < len
    → v < 4
    → p < 1048576
    → bitmap_get (use_range ptr len v s).bitmap p ≡ (
        if leb (get_page ptr 0) p && leb p (get_page ptr (len - 1))
        then v
        else bitmap_get s.bitmap p)
unfolding use_range
bitmap_get-use_range ptr len v s p hl hv hp = ground (
  arith,
  bitmap_get-use_pages (get_page ptr (len - 1) + 1 - get_page ptr 0) (get_page ptr 0) v s.bitmap p,
)
