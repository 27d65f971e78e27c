-- ===== src/Startup/Memory.antt =====
-- The memory that the kernel runs in after `pmm_init` and `vmm_init`, in the order of `main` in
-- `src/kernel/boot/main.c`.
use unnamed_os.Base.{
  ℕ, ◌+◌, ◌-◌, ◌/◌, ◌≤◌, ◌<◌, ◌≡◌, ◌≢◌, ap, arith, true, false, some, is_some, u32, ◌>>>◌,
}
use unnamed_os.Boot.{
  Boot, first_page_table, has_flag, flag_mmap, mmap_addr, mmap_length, fill_words, bitmap_words,
  table_words, use_kernel_memory, multiboot_init, multiboot_free_memory, multiboot_copy_memory,
  pmm_init,
}
use unnamed_os.Boot.KernelPages.{pmm_init-KernelBelow}
use unnamed_os.Boot.Layout.{Advances, pmm_init-Layout}
use unnamed_os.Startup.{
  Image, Routines, System, vmm_of, boot_of, paging_from, paging_after, memory_init,
}
use unnamed_os.Vmm.{get_physical_address}
use unnamed_os.Vmm.Initialised.{CanInit, vmm_init-kernel}
use unnamed_os.Vmm.Spare.{most}
use unnamed_os.Vmm.Suffices.{can_init}

module _ {S : Type 0} (image : Image) (h : Routines S)
    (above : first_page_table ≤ image.symbols.kernel_start)
    (order : image.symbols.kernel_start ≤ image.symbols.kernel_end)
    (fits : image.symbols.kernel_end < 4294967296) where
  -- Where the kernel lies above the first 4 MiB, the boot loader gives a memory map whose entries do not lead
  -- past the end of memory, there is one round more than the map has bytes, the copying of the boot
  -- loader's structures ends, the highest page of the kernel lies below 3064 MiB and the video memory in the
  -- first MiB, and paging and the check of domains are off, the memory managers are initialised, and every
  -- address in a page that the kernel touches then translates to itself.
  pub memory_init-kernel :
      (strings fuel mb_info : ℕ) (m : System S)
      → mb_info ≢ 0
      → has_flag flag_mmap (multiboot_init mb_info (boot_of m)) ≡ true
      → Advances m.kernel.loader.memory
          (u32 (
            mmap_addr (multiboot_init mb_info (boot_of m))
            + mmap_length (multiboot_init mb_info (boot_of m))))
          (mmap_addr (multiboot_init mb_info (boot_of m)))
      → u32 (
            mmap_addr (multiboot_init mb_info (boot_of m))
            + mmap_length (multiboot_init mb_info (boot_of m)))
          - mmap_addr (multiboot_init mb_info (boot_of m))
        < fuel
      → ((b1 : Boot)
          → multiboot_free_memory fuel (record (multiboot_init mb_info (boot_of m)) {
            pmm = fill_words bitmap_words (vmm_of m).pmm;
          })
            ≡ some (true, b1)
          → is_some (
              multiboot_copy_memory strings fuel (record b1 {
                pmm = use_kernel_memory image.symbols (fill_words table_words b1.pmm);
              }))
            ≡ true)
      → ((b : Boot)
          → pmm_init image.symbols strings fuel (multiboot_init mb_info (boot_of m)) ≡ some b
          → b.pmm.highest_kernel_page + 1 < most)
      → m.video + 4000 ≤ 1048576
      → (vmm_of m).paging ≡ false
      → (vmm_of m).domain_check_enabled ≡ false
      → (m1 : System S) × (memory_init image h strings fuel mb_info m ≡ some m1)
        × ((w : ℕ)
            → image.symbols.kernel_start / 4096 ≤ w >>> 12
            → w >>> 12 ≤ image.symbols.kernel_end / 4096
            → get_physical_address (vmm_of m1) w ≡ w)
  unfolding memory_init
  memory_init-kernel strings fuel mb_info m found mapped adv enough copies small low_video off
        unchecked =
      let (b, ends, layout) =
        pmm_init-Layout image.symbols above order fits strings fuel
          (multiboot_init mb_info (boot_of m)) found mapped adv enough copies in
      let suffices : CanInit m.video (record (vmm_of m) { pmm = b.pmm }) =
        can_init m.video (record (vmm_of m) { pmm = b.pmm }) off unchecked low_video
          (λ z. omega (arith, layout.low 0 (omega arith), z)) layout.given_back (small b ends) in
      let below =
        pmm_init-KernelBelow image.symbols strings fuel (multiboot_init mb_info (boot_of m)) b
          ends in
      (
        paging_from h m b,
        ap (paging_after h m) ends,
        λ w lo hi.
            vmm_init-kernel m.video (record (vmm_of m) { pmm = b.pmm }) suffices w below
              (omega arith) (omega arith) (layout.of_kernel (w >>> 12) lo hi),
      )
