-- ===== src/Descriptors/Tests.antt =====
-- Tests of the descriptor tables.
use unnamed_os.Base.{◌≡◌, refl}
use unnamed_os.Descriptors.{Gdt, empty_entry, init_entry, gdt_init, get_selector, Idt}

abbrev zeroes : Gdt
zeroes = λ _. empty_entry

-- The selectors of the four segments.
selectors :
    (get_selector (gdt_init zeroes) 1 ≡ 8)
    × (get_selector (gdt_init zeroes) 2 ≡ 16)
    × (get_selector (gdt_init zeroes) 3 ≡ 27)
    × (get_selector (gdt_init zeroes) 4 ≡ 35)
unfolding get_selector gdt_init init_entry
selectors = (refl, refl, refl, refl)

abbrev no_gates : Idt
no_gates = λ _. record {
  func0_15 = 0;
  selector = 0;
  reserved = 0;
  gate = 0;
  st = 0;
  dpl = 0;
  pr = 0;
  func16_31 = 0;
}
