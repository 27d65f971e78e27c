-- ===== src/Pmm.antt =====
-- The physical memory manager, `src/kernel/mem/pmm.c`: a bitmap of two bits for each page frame,
-- the marking of a range of frames, and the first-fit allocator. The log and the messages on the
-- screen are left out.
pub mod Bitmap
pub mod Range
pub mod FirstFit
pub mod Spare
mod Tests
pub mod Kernel
pub mod Alloc
use unnamed_os.Base.{
  ℕ, zero, suc, ◌+◌, ◌-◌, ◌*◌, ◌/◌, ◌%◌, ◌^◌, Bool, true, false, ◌&&◌, List, [], ◌∷◌, bit_and,
  bit_or, ltb, leb, ◌==◌, if◌then◌else◌, update, u32, sub32, not32, ◌>>>◌, ◌<<<◌,
}

-- `pmm_flags_t`, whose values are those of a bitmap entry.
abbrev pub unused : ℕ
unused = 0

abbrev pub reserved : ℕ
reserved = 1

abbrev pub kernel : ℕ
kernel = 2

abbrev pub user : ℕ
user = 3

abbrev pub page_size : ℕ
page_size = 4096

abbrev pub page_number : ℕ
page_number = 1048576

abbrev type_bits : ℕ
type_bits = 2

abbrev type_mask : ℕ
type_mask = 3

-- The static variables. `bitmap` has 65536 words, two bits for each of the 1048576 pages.
pub record Pmm : Type 0 where
  pub bitmap : ℕ → ℕ
  pub highest_kernel_page : ℕ

-- `BIT_CHECK`, `BITMAP_SET` and `BITMAP_CLEAR`.
abbrev pub bit_check : ℕ → ℕ → ℕ
bit_check val bit = bit_and (val >>> bit) 1

unfoldable pub bitmap_set_bit : (ℕ → ℕ) → ℕ → ℕ → ℕ
bitmap_set_bit bitmap idx =
    update bitmap (idx / 32) (bit_or (bitmap (idx / 32)) (u32 (1 <<< (idx % 32))))

unfoldable pub bitmap_clear_bit : (ℕ → ℕ) → ℕ → ℕ → ℕ
bitmap_clear_bit bitmap idx =
    update bitmap (idx / 32) (bit_and (bitmap (idx / 32)) (not32 (u32 (1 <<< (idx % 32)))))

-- The loop of `pmm_bitmap_set`, over the `rounds` values of `i` that are left.
unfoldable pub bitmap_set_loop : (rounds i idx value : ℕ) → (ℕ → ℕ) → ℕ → ℕ
bitmap_set_loop zero i idx value bitmap = bitmap
bitmap_set_loop (suc rounds) i idx value bitmap = bitmap_set_loop rounds (i + 1) idx value (
    if bit_check value i == 0
    then bitmap_clear_bit bitmap (idx + i)
    else bitmap_set_bit bitmap (idx + i))

unfoldable pub bitmap_set : (ℕ → ℕ) → (idx value : ℕ) → ℕ → ℕ
unfolding bitmap_set_loop
bitmap_set bitmap idx value = bitmap_set_loop type_bits 0 (u32 (idx * type_bits)) value bitmap

unfoldable pub bitmap_get : (ℕ → ℕ) → ℕ → ℕ
bitmap_get bitmap idx =
    let bit = u32 (idx * type_bits) in bit_and (bitmap (bit / 32) >>> (bit % 32)) type_mask

-- `pmm_get_page` and `pmm_get_address`.
abbrev pub get_page : (ptr offset : ℕ) → ℕ
get_page ptr offset = u32 (ptr + offset) >>> 12

abbrev pub get_address : (page offset : ℕ) → ℕ
get_address page offset = u32 (u32 (page <<< 12) + offset)

-- The loop of `pmm_use`, over the pages that are left.
unfoldable pub use_pages : (rounds i flags : ℕ) → (ℕ → ℕ) → ℕ → ℕ
use_pages zero i flags bitmap = bitmap
use_pages (suc rounds) i flags bitmap = use_pages rounds (i + 1) flags (bitmap_set bitmap i flags)

-- `pmm_use`. The loop `for (i = start; i <= end; i++)` makes `end + 1 - start` rounds, none if a
-- range that wraps round has `end` below `start`.
unfoldable pub use_range : (ptr len flags : ℕ) → Pmm → Pmm
unfolding use_pages
use_range ptr len flags s =
    if len == 0
    then s
    else let start_page = get_page ptr 0 in
      let end_page = get_page ptr (len - 1) in
      record {
        bitmap = use_pages (end_page + 1 - start_page) start_page flags s.bitmap;
        highest_kernel_page =
            if flags == kernel && ltb s.highest_kernel_page end_page
            then end_page
            else s.highest_kernel_page;
      }

-- The pages that hold `len` bytes: the rounding up of `pmm_find_free` and `vmm_find_free`.
abbrev pub pages_of : ℕ → ℕ
pages_of len = len / page_size + (if len % page_size == 0 then 0 else 1)

-- The loop of `pmm_find_free` at index `i`, with `rounds` indices left. 0 is "not found".
unfoldable pub find_loop : (bitmap : ℕ → ℕ) (pages rounds i free_pages : ℕ) → ℕ
find_loop bitmap pages zero i free_pages = 0
find_loop bitmap pages (suc rounds) i free_pages =
    let free = if bitmap_get bitmap i == unused then free_pages + 1 else 0 in
    let rest = find_loop bitmap pages rounds (i + 1) free in
    if leb pages free then get_address (i + 1 - free) 0 else rest

unfoldable pub find_free : Pmm → (len : ℕ) → ℕ
find_free s len = if len == 0 then 0 else find_loop s.bitmap (pages_of len) page_number 0 0

-- `pmm_alloc`, with the address that it returns, `pmm_free` and `pmm_check`.
unfoldable pub alloc : (len flags : ℕ) → Pmm → ℕ × Pmm
alloc len flags s =
    let ptr = find_free s len in if ptr == 0 then (0, s) else (ptr, use_range ptr len flags s)

unfoldable pub free : (ptr len : ℕ) → Pmm → Pmm
free ptr len s = if len == 0 then s else use_range ptr len unused s

unfoldable pub check : Pmm → (ptr : ℕ) → ℕ
check s ptr = bitmap_get s.bitmap (get_page ptr 0)

abbrev pub get_highest_kernel_page : Pmm → ℕ
get_highest_kernel_page s = s.highest_kernel_page
