-- ===== src/Pmm/Tests.antt =====
-- The allocator on a machine of which only the pages 16 to 31 are free, and the theorems there.
use unnamed_os.Base.{ℕ, ◌*◌, ◌/◌, ◌^◌, ◌%◌, ◌≡◌, ◌≢◌, refl, true, false, arith, ◌==◌, if◌then◌else◌}
use unnamed_os.Pmm.{
  Pmm, bitmap_set, bitmap_get, find_free, use_range, alloc, free, check, bitmap_set_bit,
  bitmap_clear_bit, find_loop, use_pages, kernel, user, reserved, unused, page_size, page_number,
  pages_of,
}
use unnamed_os.Base.Bits.{bit_and-three}
use unnamed_os.Pmm.Range.{in_pages}
use unnamed_os.Pmm.FirstFit.{FirstFit, found, not_found, find_free-FirstFit}
use unnamed_os.Pmm.Alloc.{Allocated, alloc-Allocated, free-alloc, alloc-disjoint}
use unnamed_os.Pmm.Kernel.{KernelBelow}

abbrev machine : Pmm
machine = record { bitmap = λ w. if w == 1 then 0 else 0x5555_5555; highest_kernel_page = 0 }

-- Two pages are needed for 5000 bytes.
alloc_two_pages : (alloc 5000 kernel machine).0 ≡ 65536
unfolding alloc find_free find_loop bitmap_get
alloc_two_pages = refl

entries_after :
    let s = (alloc 5000 kernel machine).1 in
    (check s 65535 ≡ reserved)
    × (check s 65536 ≡ kernel)
    × (check s 70000 ≡ kernel)
    × (check s 73728 ≡ unused)
    × (s.highest_kernel_page ≡ 17)
unfolding alloc find_free find_loop use_range bitmap_set bitmap_set_bit bitmap_clear_bit bitmap_get
    check
entries_after = (refl, refl, refl, refl, refl)

second_alloc : (alloc 4096 user (alloc 5000 kernel machine).1).0 ≡ 73728
unfolding alloc find_free find_loop use_range bitmap_set bitmap_set_bit bitmap_clear_bit bitmap_get
second_alloc = refl

-- A range that runs past the last address marks nothing.
wrapped_range : check (use_range 0xffff_f000 8192 kernel machine) 0xffff_f000 ≡ reserved
unfolding use_range use_pages check bitmap_get
wrapped_range = refl

success : (alloc 5000 kernel machine).0 ≢ 0
success = rw alloc_two_pages (omega arith)

find_free-FirstFit_example :
    FirstFit machine.bitmap (pages_of 5000) page_number (find_free machine 5000)
find_free-FirstFit_example = find_free-FirstFit machine 5000 (omega arith)

alloc-Allocated_example :
    Allocated machine 5000 kernel (alloc 5000 kernel machine).0 (alloc 5000 kernel machine).1
alloc-Allocated_example = alloc-Allocated machine 5000 kernel (omega arith) (omega arith) success

free-alloc_example :
    bitmap_get (free (alloc 5000 kernel machine).0 5000 (alloc 5000 kernel machine).1).bitmap 17
    ≡ bitmap_get machine.bitmap 17
free-alloc_example =
    free-alloc machine 5000 kernel (omega arith) (omega arith) success 17 (omega arith)

abbrev first : ℕ × Pmm
first = alloc 5000 kernel machine

abbrev second : ℕ × Pmm
second = alloc 4096 user first.1

in_first : in_pages (first.0 / page_size) (pages_of 5000) 17 ≡ true
in_first = rw alloc_two_pages refl

alloc-disjoint_example : in_pages (second.0 / page_size) (pages_of 4096) 17 ≡ false
alloc-disjoint_example =
    alloc-disjoint machine {s' = first.1} {s'' = second.1} 5000 4096 kernel user (omega arith)
      (omega arith) (omega arith) (omega arith) (omega arith) refl success refl
      (rw second_alloc (omega arith)) 17 (omega arith) in_first

-- All the pages that there are.
no_room : {r : ℕ} → FirstFit machine.bitmap (pages_of 0xffff_ffff) page_number r → r ≡ 0
no_room (found first e fits run lowest) = omega arith
no_room (not_found e none) = e

too_large : (alloc 0xffff_ffff kernel machine).0 ≡ 0
unfolding alloc
too_large =
    let none : find_free machine 0xffff_ffff ≡ 0 =
      no_room (find_free-FirstFit machine 0xffff_ffff (omega arith)) in
    rw none

page_zero_used : bitmap_get machine.bitmap 0 ≢ unused
unfolding bitmap_get
page_zero_used e = omega arith

abbrev blank : Pmm
blank = record { bitmap = λ _. 0; highest_kernel_page = 0 }

blank-KernelBelow : KernelBelow blank
unfolding bitmap_get
blank-KernelBelow p hp e =
    absurd (omega (arith, bit_and-three (0 / 2 ^ (p * 2 % 4294967296 % 32)), e))
