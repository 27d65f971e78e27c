-- ===== src/Elf.antt =====
-- The loader of executables, `src/kernel/tasks/elf.c`: the check of the header, and the loading and
-- unloading of the segments. The tasks that run them are in Tasks.
-- Memory is one function from address to byte. It is the memory that the directory under
-- modification shows: the file itself lies in the kernel's part, which all directories share.
mod Tests
mod LoadingTests
pub mod Tasks
pub mod Segments
pub mod Reach
pub mod Loading
use unnamed_os.Base.{
  ℕ, zero, suc, ◌+◌, ◌*◌, Bool, true, false, not, ◌&&◌, ltb, ◌==◌, if◌then◌else◌, u32, bit_and,
}
use unnamed_os.Vmm.{touch_range, Vmm, vmm_user, vmm_writable}
use unnamed_os.Vmm.Memory.{use_virtual_memory, vmm_free}
use unnamed_os.Vmm.Directories.{Interrupts, modify_page_directory, modified_page_directory}
use unnamed_os.Strings.{memcpy, memset}

-- Little-endian reads.
abbrev pub read16 : (ℕ → ℕ) → ℕ → ℕ
read16 memory a = memory (u32 a) + 256 * memory (u32 (a + 1))

abbrev pub read32 : (ℕ → ℕ) → ℕ → ℕ
read32 memory a = read16 memory a + 65536 * read16 memory (a + 2)

-- The fields of `elf_header_t` that are used.
pub record Header : Type 0 where
  pub mag0 : ℕ
  pub mag1 : ℕ
  pub mag2 : ℕ
  pub mag3 : ℕ
  pub ei_class : ℕ
  pub ei_data : ℕ
  pub ei_version : ℕ
  pub e_type : ℕ
  pub e_machine : ℕ
  pub e_version : ℕ
  pub e_entry : ℕ
  pub e_phoff : ℕ
  pub e_phnum : ℕ

abbrev pub header_at : (ℕ → ℕ) → (elf : ℕ) → Header
header_at memory elf = record {
  mag0 = memory (u32 elf);
  mag1 = memory (u32 (elf + 1));
  mag2 = memory (u32 (elf + 2));
  mag3 = memory (u32 (elf + 3));
  ei_class = memory (u32 (elf + 4));
  ei_data = memory (u32 (elf + 5));
  ei_version = memory (u32 (elf + 6));
  e_type = read16 memory (elf + 16);
  e_machine = read16 memory (elf + 18);
  e_version = read32 memory (elf + 20);
  e_entry = read32 memory (elf + 24);
  e_phoff = read32 memory (elf + 28);
  e_phnum = read16 memory (elf + 44);
}

-- The fields of `elf_program_header_entry_t` that are used.
pub record Segment : Type 0 where
  pub p_type : ℕ
  pub p_offset : ℕ
  pub p_vaddr : ℕ
  pub p_filesz : ℕ
  pub p_memsz : ℕ
  pub p_flags : ℕ

abbrev pub segment_at : (ℕ → ℕ) → (address : ℕ) → Segment
segment_at memory address = record {
  p_type = read32 memory address;
  p_offset = read32 memory (address + 4);
  p_vaddr = read32 memory (address + 8);
  p_filesz = read32 memory (address + 16);
  p_memsz = read32 memory (address + 20);
  p_flags = read32 memory (address + 24);
}

abbrev pub segment_size : ℕ
segment_size = 32

-- `PT_LOAD` and `PF_W`.
abbrev pub pt_load : ℕ
pt_load = 1

abbrev pf_w : ℕ
pf_w = 2

-- `elf_check`.
unfoldable pub elf_check : Header → Bool
elf_check h =
    if not (h.mag0 == 127 && h.mag1 == 69 && h.mag2 == 76 && h.mag3 == 70)
    then false
    else if not (h.ei_class == 1)
    then false
    else if not (h.ei_data == 1)
    then false
    else if not (h.ei_version == 1 && h.e_version == 1)
    then false
    else if not (h.e_type == 2)
    then false
    else if not (h.e_machine == 3)
    then false
    else true

-- The memory manager with the interrupt flag, and memory.
pub record Loader : Type 0 where
  pub vmm : Interrupts × Vmm
  pub memory : ℕ → ℕ

-- The flags that a segment is mapped with.
abbrev pub flags_of : Segment → ℕ
flags_of e = if bit_and e.p_flags pf_w == 0 then vmm_user else vmm_user + vmm_writable

-- One round of the loop of `elf_load`. It does not look at the result of `vmm_use_virtual_memory`: writing to
-- a segment whose pages are not mapped is a page fault.
unfoldable pub load_segment : (elf address : ℕ) → Loader → Loader
load_segment elf address l =
    let e = segment_at l.memory address in
    let (interrupts, vmm) = l.vmm in
    let (paddr, claimed) = use_virtual_memory e.p_vaddr e.p_memsz (flags_of e) vmm in
    let vmm' = touch_range e.p_vaddr e.p_filesz (touch_range e.p_vaddr e.p_memsz claimed) in
    let zeroed = memset e.p_memsz e.p_vaddr 0 l.memory in
    if e.p_type == pt_load
    then record {
      vmm = (interrupts, vmm');
      memory = memcpy e.p_filesz e.p_vaddr (u32 (elf + e.p_offset)) zeroed;
    }
    else l

-- The loop of `elf_load` from segment `i` on, which reads the number of segments anew each time; it
-- is a 16-bit number, so 65536 rounds are enough.
unfoldable pub load_loop : (elf table rounds i : ℕ) → Loader → Loader
load_loop elf table zero i l = l
load_loop elf table (suc rounds) i l =
    let rest =
      load_loop elf table rounds (i + 1) (load_segment elf (u32 (table + i * segment_size)) l) in
    if ltb i (header_at l.memory elf).e_phnum then rest else l

-- `elf_load`: the entry point, 0 for a file that does not pass the check, and the state.
unfoldable pub elf_load : (elf page_directory : ℕ) → Loader → ℕ × Loader
elf_load elf page_directory l =
    let h = header_at l.memory elf in
    let l1 = record l { vmm = modify_page_directory page_directory l.vmm } in
    let l2 = load_loop elf (u32 (elf + h.e_phoff)) 65536 0 l1 in
    if elf_check h
    then ((header_at l2.memory elf).e_entry, record l2 { vmm = modified_page_directory l2.vmm })
    else (0, l)

-- The loop of `elf_unload`, and the function.
unfoldable pub unload_loop : (memory : ℕ → ℕ) (rounds address : ℕ) → Vmm → Vmm
unload_loop memory zero address s = s
unload_loop memory (suc rounds) address s =
    let e = segment_at memory address in
    unload_loop memory rounds (u32 (address + segment_size))
      (if e.p_type == pt_load then vmm_free e.p_vaddr e.p_memsz s else s)

unfoldable pub elf_unload : (elf page_directory : ℕ) → Loader → Loader
elf_unload elf page_directory l =
    let h = header_at l.memory elf in
    let (interrupts, s) = modify_page_directory page_directory l.vmm in
    let s' = unload_loop l.memory h.e_phnum (u32 (elf + h.e_phoff)) s in
    if elf_check h then record l { vmm = modified_page_directory (interrupts, s') } else l
