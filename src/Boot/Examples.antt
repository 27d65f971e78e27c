-- ===== src/Boot/Examples.antt =====
-- A memory map of one entry, without modules.
use unnamed_os.Base.{ℕ, ◌≤◌, ◌≡◌, refl, arith, true, some, is_some, ◌==◌, if◌then◌else◌}
use unnamed_os.Boot.{
  Boot, Symbols, store32, mmap_loop, multiboot_free_memory, multiboot_copy_memory, copy_info,
  copy_modules, fill_words, bitmap_words, table_words, use_kernel_memory,
}
use unnamed_os.Pmm
use unnamed_os.Pmm.{Pmm}
use unnamed_os.Strings.{memcpy}

-- At 65536 the information with the flag of the memory map, and behind it one entry: 64 KiB of
-- free memory from 4 MiB on.
abbrev pub boot_memory : ℕ → ℕ
boot_memory a =
    if a == 65536
    then 64
    else if a == 65580
    then 24
    else if a == 65586
    then 1
    else if a == 65585
    then 1
    else if a == 65792
    then 20
    else if a == 65798
    then 64
    else if a == 65806
    then 1
    else if a == 65812
    then 1
    else 0

abbrev pub at_boot : Boot
at_boot = record {
  mb_info = 65536;
  memory = boot_memory;
  pmm = record { bitmap = λ _. 0; highest_kernel_page = 0 };
}

abbrev pub two_pages : Symbols
two_pages = record { kernel_start = 4194304; kernel_end = 4202495 }

abbrev pub marked : Boot
marked = record at_boot {
  pmm = record {
    bitmap = Pmm.use_pages 16 1024 0 (fill_words bitmap_words at_boot.pmm).bitmap;
    highest_kernel_page = 0;
  };
}

pub marks :
    multiboot_free_memory 30 (record at_boot { pmm = fill_words bitmap_words at_boot.pmm })
    ≡ some (true, marked)
unfolding multiboot_free_memory mmap_loop Pmm.use_range
marks = refl

pub copies :
    is_some (
      multiboot_copy_memory 8 30
        (record marked { pmm = use_kernel_memory two_pages (fill_words table_words marked.pmm) }))
    ≡ true
unfolding multiboot_copy_memory copy_info copy_modules store32 Pmm.alloc Pmm.find_free Pmm.find_loop
    Pmm.bitmap_get Pmm.use_range Pmm.bitmap_set Pmm.bitmap_set_bit Pmm.bitmap_clear_bit memcpy
copies = refl

pub boot_memory-small : (a : ℕ) → boot_memory a ≤ 64
boot_memory-small a = ground arith
