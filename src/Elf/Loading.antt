-- ===== src/Elf/Loading.antt =====
-- `elf_load` of `src/kernel/tasks/elf.c` over all segments.
use unnamed_os.Base.{ℕ, ◌+◌, ◌≤◌, ◌<◌, ◌≡◌, false, false, ◌==◌, if◌then◌else◌, u32}
use unnamed_os.Vmm.Directories.{modify_page_directory}
use unnamed_os.Elf.{header_at, Segment, pt_load, Loader}
use unnamed_os.Elf.Segments.{Holds, Outside, phnum, entry, Fits, Intact, filled}

module _ (elf size : ℕ) (m : ℕ → ℕ) where
  -- The memory after one round of the loop, which found the segment `e`.
  abbrev after_round : (ℕ → ℕ) → Segment → ℕ → ℕ
  after_round m' e = if e.p_type == pt_load then filled elf size m m' e else m'

  -- Memory `m2` has the segments from `i` on, and differs from `m1` in them only.
  pub record Loads (i : ℕ) (m1 m2 : ℕ → ℕ) : Type 0 where
    pub spares :
        (a : ℕ)
        → ((j : ℕ)
            → i ≤ j
            → j < phnum elf size m
            → (entry elf size m j).p_type ≡ pt_load
            → Outside a (entry elf size m j))
        → m2 a ≡ m1 a
    pub holds :
        (j : ℕ)
        → i ≤ j
        → j < phnum elf size m
        → (entry elf size m j).p_type ≡ pt_load
        → Holds elf m m2 (entry elf size m j)
    pub intact : Intact elf size m m2

  module _ (fits : Fits elf size m) where
    abbrev table : ℕ
    table = u32 (elf + (header_at m elf).e_phoff)

-- The program header table, and the state in which the loop begins.
abbrev pub table_of : (elf : ℕ) → Loader → ℕ
table_of elf l = u32 (elf + (header_at l.memory elf).e_phoff)

abbrev pub begin : (page_directory : ℕ) → Loader → Loader
begin page_directory l = record l { vmm = modify_page_directory page_directory l.vmm }
