-- ===== src/Vmm/Suffices.antt =====
-- When memory suffices for `vmm_init` of `src/kernel/mem/vmm.c`.
use mathlib.Core.Path.{subst}
use unnamed_os.Base.{ℕ, ◌+◌, ◌-◌, ◌*◌, ◌≤◌, ◌<◌, ◌≡◌, ◌≢◌, inl, inr, arith, false}
use unnamed_os.Pmm.{Pmm, alloc, kernel, unused, bitmap_get, use_range}
use unnamed_os.Pmm.Range.{bitmap_get-use_range}
use unnamed_os.Pmm.Spare.{Spare, alloc-succeeds, alloc-Spare, alloc-low}
use unnamed_os.Vmm.{Vmm, table_size}
use unnamed_os.Vmm.Identity.{Identity, TablesFound, identity_loop-Identity}
use unnamed_os.Vmm.Initialised.{
  CanInit, with_directory, kernel_pages, identity_mapped, loaded, fresh-Identity,
}
use unnamed_os.Vmm.Spare.{Left, identity_loop-Left, most}
use unnamed_os.Vmm.VideoMemory.{VideoTableFound}

highest-alloc :
    (s : Pmm) (bound : ℕ)
    → (alloc table_size kernel s).0 ≤ bound * 4096
    → s.highest_kernel_page ≤ bound
    → (alloc table_size kernel s).1.highest_kernel_page ≤ bound
unfolding alloc use_range
highest-alloc s bound low le = ground arith

module _ (video : ℕ) (s : Vmm) (off : s.paging ≡ false) (unchecked : s.domain_check_enabled ≡ false)
    (low_video : video + 4000 ≤ 1048576) (null_used : bitmap_get s.pmm.bitmap 0 ≢ unused)
    (spare : Spare 256 1024 s.pmm) (small : s.pmm.highest_kernel_page + 1 < most) where
  made : (alloc table_size kernel s.pmm).0 ≢ 0
  made =
      alloc-succeeds s.pmm 256 1024 kernel (omega arith) (omega arith) (omega arith) spare null_used

  low : (alloc table_size kernel s.pmm).0 ≤ 256 * 4096
  low = alloc-low s.pmm 256 1024 kernel (omega arith) (omega arith) (omega arith) spare null_used

  first-Left : Left 0 (with_directory s)
  first-Left = record {
    first = 257;
    spare =
        alloc-Spare s.pmm 256 1024 kernel (omega arith) (omega arith) (omega arith) spare null_used;
    budget = inr (omega arith);
  }

  few : kernel_pages s < most
  few =
      let le = highest-alloc s.pmm (most - 2) (omega (arith, low)) (omega arith) in
      omega (arith, le)

  at_end :
      TablesFound (kernel_pages s) 0 (with_directory s)
      × Left (0 + kernel_pages s) (identity_mapped s)
  at_end =
      identity_loop-Left s.pmm.bitmap null_used (kernel_pages s) 0 (with_directory s)
        (omega (arith, few)) (fresh-Identity s off unchecked made) first-Left

  mapped-Identity : Identity s.pmm.bitmap (kernel_pages s) (identity_mapped s)
  mapped-Identity =
      subst (λ (n : ℕ). Identity s.pmm.bitmap n (identity_mapped s)) (omega arith)
        (identity_loop-Identity s.pmm.bitmap (kernel_pages s) 0 (with_directory s)
          (omega (arith, few)) at_end.0 (fresh-Identity s off unchecked made))

  video_table_found : VideoTableFound video (loaded s)
  video_table_found gone =
      let left = at_end.1 in
      let pmm = (identity_mapped s).pmm in
      let first_small : left.first < 1024 = elim left.budget [
        | inl there ↦ omega (arith, there.1, few)
        | inr le ↦ omega (arith, few)
      ] in
      let marked_page = λ (p : ℕ) (hp : p < 1048576).
        bitmap_get-use_range video 4000 kernel pmm p (omega arith) (omega arith) hp in
      let null_kept = mapped-Identity.kept 0 (omega arith) null_used in
      alloc-succeeds (use_range video 4000 kernel pmm) 1023 1024 kernel (omega arith) (omega arith)
        (omega arith)
        (λ p lo hi.
          ground (arith, marked_page p (omega arith), left.spare p (omega (arith, first_small)) hi))
        (λ z. ground (arith, marked_page 0 (omega arith), null_kept, null_used, z))

  -- With page 0 in use, the pages from 1 MiB to 4 MiB unused, the video memory below them, and the kernel
  -- below 3064 MiB, memory suffices.
  pub can_init : CanInit video s
  can_init = record {
    off = off;
    unchecked = unchecked;
    directory = made;
    inside = λ z. omega (arith, low, z);
    small = omega (arith, few);
    tables = at_end.0;
    video_table = video_table_found;
  }
