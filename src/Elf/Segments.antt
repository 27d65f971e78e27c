-- ===== src/Elf/Segments.antt =====
-- What `elf_load` of `src/kernel/tasks/elf.c` leaves in memory.
use unnamed_os.Base.{
  ℕ, ◌+◌, ◌-◌, ◌*◌, ◌≤◌, ◌<◌, ◌≡◌, ◌⊎◌, inl, inr, ◌∙◌, arith, ltb, leb, ◌&&◌, if◌then◌else◌, u32,
  ltb-true, leb-false, leb-true, ltb-false, dec_lt,
}
use unnamed_os.Strings.{memcpy, memset}
use unnamed_os.Strings.Copies.{memcpy-range, memset-range}
use unnamed_os.Elf.{read16, read32, header_at, Segment, segment_at, segment_size, pt_load}

-- The segment `e` of a file at `elf` that occupied memory `m`, loaded into memory `m'`: the bytes of
-- the file, and zeroes up to its length in memory.
abbrev pub Holds : (elf : ℕ) (m m' : ℕ → ℕ) → Segment → Type 0
Holds elf m m' e =
    (a : ℕ)
    → e.p_vaddr ≤ a
    → a < e.p_vaddr + e.p_memsz
    → m' a ≡ (if ltb a (e.p_vaddr + e.p_filesz) then m (elf + e.p_offset + (a - e.p_vaddr)) else 0)

-- The address lies outside of the segment.
abbrev pub Outside : ℕ → Segment → Type 0
Outside a e = (a < e.p_vaddr) ⊎ (e.p_vaddr + e.p_memsz ≤ a)

module _ (elf size : ℕ) (m : ℕ → ℕ) where
  abbrev pub phnum : ℕ
  phnum = (header_at m elf).e_phnum

  -- Entry `i` of the program header table.
  abbrev pub entry : ℕ → Segment
  entry i = segment_at m (u32 (u32 (elf + (header_at m elf).e_phoff) + i * segment_size))

  -- A file of the given size: its table and what its segments take from it lie within it, and the
  -- segments that are loaded lie behind or before it and apart from each other.
  pub record Fits : Type 0 where
    pub top : elf + size < 4294967296
    pub header : 52 ≤ size
    pub table : (header_at m elf).e_phoff + phnum * segment_size ≤ size
    pub number : phnum < 65536
    pub source :
        (i : ℕ)
        → i < phnum
        → (entry i).p_type ≡ pt_load
        → (entry i).p_offset + (entry i).p_filesz ≤ size
    pub length :
        (i : ℕ) → i < phnum → (entry i).p_type ≡ pt_load → (entry i).p_filesz ≤ (entry i).p_memsz
    pub place :
        (i : ℕ)
        → i < phnum
        → (entry i).p_type ≡ pt_load
        → ((entry i).p_vaddr + (entry i).p_memsz ≤ elf) ⊎ (elf + size ≤ (entry i).p_vaddr)
    pub apart :
        (i j a : ℕ)
        → i < j
        → j < phnum
        → (entry i).p_type ≡ pt_load
        → (entry j).p_type ≡ pt_load
        → (entry i).p_vaddr ≤ a
        → a < (entry i).p_vaddr + (entry i).p_memsz
        → Outside a (entry j)

  -- The file is as it was.
  abbrev pub Intact : (ℕ → ℕ) → Type 0
  Intact m' = (a : ℕ) → elf ≤ a → a < elf + size → m' a ≡ m a

  module _ (fits : Fits) (m' : ℕ → ℕ) (intact : Intact m') where
    same16 : (a : ℕ) → elf ≤ a → a + 2 ≤ elf + size → read16 m' a ≡ read16 m a
    same16 a lo hi =
        let low : u32 a ≡ a = omega (arith, fits.top) in
        let high : u32 (a + 1) ≡ a + 1 = omega (arith, fits.top) in
        rw (low, high, intact a lo (omega arith), intact (a + 1) (omega arith) (omega arith))

    same32 : (a : ℕ) → elf ≤ a → a + 4 ≤ elf + size → read32 m' a ≡ read32 m a
    same32 a lo hi = rw (same16 a lo (omega arith), same16 (a + 2) (omega arith) (omega arith))

    same_segment : (a : ℕ) → elf ≤ a → a + 32 ≤ elf + size → segment_at m' a ≡ segment_at m a
    same_segment a lo hi = λ i. record {
      p_type = same32 a lo (omega arith) i;
      p_offset = same32 (a + 4) (omega arith) (omega arith) i;
      p_vaddr = same32 (a + 8) (omega arith) (omega arith) i;
      p_filesz = same32 (a + 16) (omega arith) (omega arith) i;
      p_memsz = same32 (a + 20) (omega arith) (omega arith) i;
      p_flags = same32 (a + 24) (omega arith) (omega arith) i;
    }

    pub same_entry :
        (i : ℕ)
        → i < phnum
        → segment_at m' (u32 (u32 (elf + (header_at m elf).e_phoff) + i * segment_size)) ≡ entry i
    same_entry i lt =
        same_segment (u32 (u32 (elf + (header_at m elf).e_phoff) + i * segment_size))
          (omega (arith, fits.top, fits.table)) (omega (arith, fits.top, fits.table))

    pub same_number : (header_at m' elf).e_phnum ≡ phnum
    same_number = same16 (elf + 44) (omega arith) (omega (arith, fits.header))

    pub same_entry_point : (header_at m' elf).e_entry ≡ (header_at m elf).e_entry
    same_entry_point = same32 (elf + 24) (omega arith) (omega (arith, fits.header))

  -- The memory after the segment `e` has been loaded from memory `m'`.
  abbrev pub filled : (ℕ → ℕ) → Segment → ℕ → ℕ
  filled m' e =
      memcpy e.p_filesz e.p_vaddr (u32 (elf + e.p_offset)) (memset e.p_memsz e.p_vaddr 0 m')

  module _ (fits : Fits) (m' : ℕ → ℕ) (intact : Intact m') (e : Segment)
      (source : e.p_offset + e.p_filesz ≤ size) (length : e.p_filesz ≤ e.p_memsz)
      (place : (e.p_vaddr + e.p_memsz ≤ elf) ⊎ (elf + size ≤ e.p_vaddr)) where
    filled-copied :
        (a : ℕ)
        → filled m' e a ≡ (
            if leb e.p_vaddr a && ltb a (e.p_vaddr + e.p_filesz)
            then memset e.p_memsz e.p_vaddr 0 m' (u32 (elf + e.p_offset) + (a - e.p_vaddr))
            else memset e.p_memsz e.p_vaddr 0 m' a)
    filled-copied a = memcpy-range e.p_filesz e.p_vaddr (u32 (elf + e.p_offset)) a _ (elim place [
      | inl before ↦ inl (omega (arith, fits.top))
      | inr behind ↦ inr (omega (arith, fits.top))
    ])

    pub filled-other : (a : ℕ) → Outside a e → filled m' e a ≡ m' a
    filled-other a (inl low) =
        filled-copied a
        ∙ rw (leb-false e.p_vaddr a low)
            (memset-range e.p_memsz e.p_vaddr 0 a m' ∙ rw (leb-false e.p_vaddr a low))
    filled-other a (inr high) =
        filled-copied a
        ∙ rw
            (leb-true e.p_vaddr a (omega arith), ltb-false a (e.p_vaddr + e.p_filesz) (omega arith))
            (memset-range e.p_memsz e.p_vaddr 0 a m'
              ∙ rw (leb-true e.p_vaddr a (omega arith), ltb-false a (e.p_vaddr + e.p_memsz) high))

    pub filled-Holds : Holds elf m (filled m' e) e
    filled-Holds a lo hi = filled-copied a ∙ elim (dec_lt a (e.p_vaddr + e.p_filesz)) [
      | no past ↦
          rw (leb-true e.p_vaddr a lo, ltb-false a (e.p_vaddr + e.p_filesz) (omega arith))
            (memset-range e.p_memsz e.p_vaddr 0 a m'
              ∙ rw (leb-true e.p_vaddr a lo, ltb-true a (e.p_vaddr + e.p_memsz) hi))
      | yes within ↦
          let at : u32 (elf + e.p_offset) + (a - e.p_vaddr) ≡ elf + e.p_offset + (a - e.p_vaddr) =
            omega (arith, fits.top) in
          let b = elf + e.p_offset + (a - e.p_vaddr) in
          rw (leb-true e.p_vaddr a lo, ltb-true a (e.p_vaddr + e.p_filesz) within, at)
            (memset-range e.p_memsz e.p_vaddr 0 b m' ∙ elim place [
              | inl before ↦
                  rw
                    (
                      leb-true e.p_vaddr b (omega arith),
                      ltb-false b (e.p_vaddr + e.p_memsz) (omega arith),
                    )
                    (intact b (omega arith) (omega arith))
              | inr behind ↦
                  rw (leb-false e.p_vaddr b (omega arith)) (intact b (omega arith) (omega arith))
            ])
    ]

    pub filled-Intact : Intact (filled m' e)
    filled-Intact a lo hi =
        filled-other a
          (elim place [ inl before ↦ inr (omega arith) | inr behind ↦ inl (omega arith) ])
        ∙ intact a lo hi
