-- ===== src/Boot.antt =====
-- What happens to memory at boot: the structures of the boot loader, `src/kernel/boot/multiboot.c`,
-- and the initialisation of the physical memory manager, `pmm_init` in `src/kernel/mem/pmm.c`.
-- Physical memory is a function from address to byte, where the boot loader has put its
-- structures. Loops whose end the boot loader's data decides run on fuel.

pub mod Pages
pub mod KernelPages
pub mod Layout
pub mod Examples
mod Tests
use unnamed_os.Base.{
  ℕ, zero, suc, ◌+◌, ◌-◌, ◌*◌, ◌/◌, Bool, true, false, not, ◌||◌, Option, none, some, bit_and, ltb,
  ◌==◌, if◌then◌else◌, update, u8, u32, sub32,
}
use unnamed_os.Elf.{read32}
use unnamed_os.Pmm.{Pmm, unused, reserved, kernel, alloc, use_range}
use unnamed_os.Strings.{strcmp_loop, strlen, memcpy}

-- `MULTIBOOT_LOWER_MEMORY` and `MULTIBOOT_FIRST_PAGE_TABLE`.
abbrev pub lower_memory : ℕ
lower_memory = 1048576

abbrev pub first_page_table : ℕ
first_page_table = 4194304

-- The static variable `mb_info`, memory, and the memory manager.
pub record Boot : Type 0 where
  pub mb_info : ℕ
  pub memory : ℕ → ℕ
  pub pmm : Pmm

-- The fields of `multiboot_info_t` that are used, by their offsets.
abbrev pub flag_mods : ℕ
flag_mods = 8

abbrev pub flag_mmap : ℕ
flag_mmap = 64

abbrev pub has_flag : (flag : ℕ) → Boot → Bool
has_flag flag b = not (bit_and (read32 b.memory b.mb_info) flag == 0)

abbrev pub mods_count : Boot → ℕ
mods_count b = read32 b.memory (b.mb_info + 20)

abbrev pub mods_addr : Boot → ℕ
mods_addr b = read32 b.memory (b.mb_info + 24)

abbrev pub mmap_length : Boot → ℕ
mmap_length b = read32 b.memory (b.mb_info + 44)

abbrev pub mmap_addr : Boot → ℕ
mmap_addr b = read32 b.memory (b.mb_info + 48)

-- `sizeof(multiboot_info_t)` and `sizeof(multiboot_module_t)`.
abbrev pub info_size : ℕ
info_size = 96

abbrev pub module_size : ℕ
module_size = 16

-- The store of a 32-bit number.
unfoldable pub store32 : (a value : ℕ) → (ℕ → ℕ) → ℕ → ℕ
store32 a value memory =
    update
      (update (update (update memory (u32 a) (u8 value)) (u32 (a + 1)) (u8 (value / 256)))
        (u32 (a + 2)) (u8 (value / 65536)))
      (u32 (a + 3)) (u8 (value / 16777216))

-- `multiboot_init`: the rest are messages.
abbrev pub multiboot_init : (mb_info : ℕ) → Boot → Boot
multiboot_init mb_info b = record b { mb_info = mb_info }

-- The loop of `multiboot_get_module` from module `i` on; the fuel bounds the modules and the
-- strings.
unfoldable pub module_loop : (str strings fuel i : ℕ) → Boot → ℕ
module_loop str strings zero i b = 0
module_loop str strings (suc fuel) i b =
    let entry = u32 (mods_addr b + i * module_size) in
    let rest = module_loop str strings fuel (i + 1) b in
    if ltb i (mods_count b)
    then (if strcmp_loop b.memory strings str (read32 b.memory (entry + 8)) == 0
        then read32 b.memory entry
        else rest)
    else 0

-- `multiboot_get_module`: the start of the module with the given string, or 0.
unfoldable multiboot_get_module : (str strings : ℕ) → Boot → ℕ
multiboot_get_module str strings b =
    if b.mb_info == 0 || not (has_flag flag_mods b)
    then 0
    else module_loop str strings (mods_count b) 0 b

-- The loop of `multiboot_free_memory` at the entry `mmap`; `none` says that it is still running.
unfoldable pub mmap_loop : (memory : ℕ → ℕ) (fuel mmap mmap_end : ℕ) → Pmm → Option Pmm
mmap_loop memory zero mmap mmap_end s = none
mmap_loop memory (suc fuel) mmap mmap_end s =
    let type = if read32 memory (mmap + 20) == 1 then unused else reserved in
    let s' = use_range (read32 memory (mmap + 4)) (read32 memory (mmap + 12)) type s in
    let rest = mmap_loop memory fuel (u32 (mmap + u32 (read32 memory mmap + 4))) mmap_end s' in
    if ltb mmap mmap_end then rest else some s

-- `multiboot_free_memory`: whether there is a memory map, and the memory manager.
unfoldable pub multiboot_free_memory : (fuel : ℕ) → Boot → Option (Bool × Boot)
multiboot_free_memory fuel b =
    let marked = mmap_loop b.memory fuel (mmap_addr b) (u32 (mmap_addr b + mmap_length b)) b.pmm in
    if b.mb_info == 0 || not (has_flag flag_mmap b)
    then some (false, b)
    else elim marked [ none ↦ none | some pmm ↦ some (true, record b { pmm = pmm }) ]

-- What the loop of `multiboot_copy_memory` does with the module at `entry`, whose string has
-- `string_length` bytes with its end.
unfoldable pub copy_module : (entry string_length : ℕ) → Boot → Boot
copy_module entry string_length b =
    let start = read32 b.memory entry in
    let module_length = u32 (sub32 (read32 b.memory (entry + 4)) start + 1) in
    let (dst, pmm) = alloc (u32 (module_length + string_length)) kernel b.pmm in
    let m1 = store32 entry dst (memcpy module_length dst start b.memory) in
    let string = u32 (dst + module_length) in
    let m2 = memcpy string_length string (read32 m1 (entry + 8)) m1 in
    record b { memory = store32 (entry + 8) string m2; pmm = pmm }

unfoldable pub copy_modules : (strings fuel i : ℕ) → Boot → Option Boot
copy_modules strings zero i b = none
copy_modules strings (suc fuel) i b =
    let entry = u32 (mods_addr b + i * module_size) in
    let rest = λ (n : ℕ). copy_modules strings fuel (i + 1) (copy_module entry (u32 (n + 1)) b) in
    if ltb i (mods_count b)
    then elim (strlen b.memory strings (read32 b.memory (entry + 8))) [
      | none ↦ none
      | some n ↦ rest n
    ]
    else some b

-- The first part of `multiboot_copy_memory`: the information and the memory map.
unfoldable pub copy_info : Boot → ℕ × Boot
copy_info b =
    let modules_length = if has_flag flag_mods b then u32 (mods_count b * module_size) else 0 in
    let mmap_size = mmap_length b in
    let (dst, pmm) = alloc (u32 (info_size + mmap_size + modules_length)) kernel b.pmm in
    let b1 : Boot = record {
      mb_info = dst;
      memory = memcpy info_size dst b.mb_info b.memory;
      pmm = pmm;
    } in
    let copied = memcpy mmap_size (u32 (dst + info_size)) (mmap_addr b1) b1.memory in
    (modules_length, record b1 { memory = store32 (dst + 48) (u32 (dst + info_size)) copied })

-- `multiboot_copy_memory`.
unfoldable pub multiboot_copy_memory : (strings fuel : ℕ) → Boot → Option Boot
multiboot_copy_memory strings fuel b =
    let mmap_size = mmap_length b in
    let (modules_length, b1) = copy_info b in
    let dst = u32 (b1.mb_info + info_size + mmap_size) in
    let copied = memcpy modules_length dst (mods_addr b1) b1.memory in
    let b2 = record b1 { memory = store32 (b1.mb_info + 24) dst copied } in
    if has_flag flag_mods b1 then copy_modules strings fuel 0 b2 else some b1

-- The addresses `&kernel_start` and `&kernel_end` of the linker script.
pub record Symbols : Type 0 where
  pub kernel_start : ℕ
  pub kernel_end : ℕ

-- `BITMAP_INIT`, `sizeof(bitmap)` and `ENTRIES / PAGES_BER_BYTE` in words, and the `memset` of the
-- first words of the bitmap, each of whose bytes becomes 0x55.
abbrev pub bitmap_init : ℕ
bitmap_init = 1431655765

abbrev pub bitmap_words : ℕ
bitmap_words = 65536

abbrev pub table_words : ℕ
table_words = 64

abbrev pub fill_words : (words : ℕ) → Pmm → Pmm
fill_words words s = record s { bitmap = λ i. if ltb i words then bitmap_init else s.bitmap i }

abbrev pub use_kernel_memory : Symbols → Pmm → Pmm
use_kernel_memory k s =
    use_range k.kernel_start (u32 (sub32 k.kernel_end k.kernel_start + 1)) kernel s

-- The end of `pmm_init`: the memory between the first MiB and the kernel is given back.
abbrev pub give_back : Option Boot → Option Boot
give_back none = none
give_back (some b) =
    some (record b { pmm = use_range lower_memory (first_page_table - lower_memory) unused b.pmm })

-- `pmm_init` from the memory map on: the pages that the kernel and the boot loader's structures
-- take, and the memory that is given back.
unfoldable pub reserve : Symbols → (strings fuel : ℕ) → Boot → Option Boot
reserve k strings fuel b = give_back (
    multiboot_copy_memory strings fuel
      (record b { pmm = use_kernel_memory k (fill_words table_words b.pmm) }))

-- What `pmm_init` does with the result of `multiboot_free_memory`.
abbrev pub after_map : Symbols → (strings fuel : ℕ) → Option (Bool × Boot) → Option Boot
after_map k strings fuel none = none
after_map k strings fuel (some (true, b)) = reserve k strings fuel b
after_map k strings fuel (some (false, b)) = some b

-- `pmm_init`. Without a memory map all memory stays reserved.
unfoldable pub pmm_init : Symbols → (strings fuel : ℕ) → Boot → Option Boot
pmm_init k strings fuel b =
    after_map k strings fuel
      (multiboot_free_memory fuel (record b { pmm = fill_words bitmap_words b.pmm }))
