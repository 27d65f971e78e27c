-- ===== src/Elf/Tests.antt =====
-- Tests of the check of a header.
use unnamed_os.Base.{◌≡◌, refl, true, false}
use unnamed_os.Elf.{Header, elf_check}

abbrev executable : Header
executable = record {
  mag0 = 127;
  mag1 = 69;
  mag2 = 76;
  mag3 = 70;
  ei_class = 1;
  ei_data = 1;
  ei_version = 1;
  e_type = 2;
  e_machine = 3;
  e_version = 1;
  e_entry = 1073741824;
  e_phoff = 52;
  e_phnum = 1;
}

checks : (elf_check executable ≡ true) × (elf_check (record executable { e_type = 1 }) ≡ false)
unfolding elf_check
checks = (refl, refl)
