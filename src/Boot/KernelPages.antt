-- ===== src/Boot/KernelPages.antt =====
-- The highest page of the kernel, which `vmm_init` relies on, in `pmm_init` of `src/kernel/mem/pmm.c`.
use unnamed_os.Base.{
  ℕ, zero, suc, ◌+◌, ◌*◌, ◌≡◌, arith, Bool, Option, none, some, true, false, ltb, ◌==◌, not, ◌||◌,
  if◌then◌else◌, inl, inr, Option-cases, Bool-cases, u32,
}
use unnamed_os.Boot.{
  Boot, Symbols, mods_addr, mods_count, mmap_addr, mmap_length, module_size, mmap_loop,
  multiboot_free_memory, copy_module, copy_modules, copy_info, multiboot_copy_memory, has_flag,
  flag_mods, flag_mmap, fill_words, bitmap_words, table_words, use_kernel_memory, give_back,
  reserve, after_map, pmm_init,
}
use unnamed_os.Boot.Pages.{AtEnd, still_running, at_end, AtEnd-some, bitmap_get-fill_words}
use unnamed_os.Elf.{read32}
use unnamed_os.Pmm.{Pmm, unused, reserved, kernel}
use unnamed_os.Pmm.Kernel.{KernelBelow, use_range-KernelBelow, alloc-KernelBelow}
use unnamed_os.Strings.{strlen}

fill_words-KernelBelow : (words : ℕ) (s : Pmm) → KernelBelow s → KernelBelow (fill_words words s)
fill_words-KernelBelow words s below p hp e =
    ground (arith, bitmap_get-fill_words words p s hp, below p hp)

filled-KernelBelow : (s : Pmm) → KernelBelow (fill_words bitmap_words s)
filled-KernelBelow s p hp e = ground (arith, bitmap_get-fill_words bitmap_words p s hp)

mmap_loop-KernelBelow :
    (memory : ℕ → ℕ) (mmap_end fuel mmap : ℕ) (s : Pmm)
    → KernelBelow s
    → AtEnd KernelBelow (mmap_loop memory fuel mmap mmap_end s)
unfolding mmap_loop
mmap_loop-KernelBelow memory mmap_end zero mmap s below = still_running
mmap_loop-KernelBelow memory mmap_end (suc fuel) mmap s below =
    elim (Bool-cases (ltb mmap mmap_end)) [
      | inr last ↦ rw last (at_end below)
      | inl more ↦ rw more (
          mmap_loop-KernelBelow memory mmap_end fuel _ _ (
            use_range-KernelBelow s (read32 memory (mmap + 4)) (read32 memory (mmap + 12))
              (if read32 memory (mmap + 20) == 1 then unused else reserved) (ground arith) below))
    ]

multiboot_free_memory-KernelBelow :
    (fuel : ℕ) (b : Boot)
    → KernelBelow b.pmm
    → AtEnd (λ (x : Bool × Boot). KernelBelow x.1.pmm) (multiboot_free_memory fuel b)
unfolding multiboot_free_memory
multiboot_free_memory-KernelBelow fuel b below =
    elim (Bool-cases (b.mb_info == 0 || not (has_flag flag_mmap b))) [
      | inl nothing ↦ rw nothing (at_end below)
      | inr there ↦ rw there (
          marked (mmap_loop b.memory fuel (mmap_addr b) (u32 (mmap_addr b + mmap_length b)) b.pmm) (
            mmap_loop-KernelBelow b.memory (u32 (mmap_addr b + mmap_length b)) fuel (mmap_addr b)
              b.pmm below))
    ]
  where
    marked :
        (r : Option Pmm)
        → AtEnd KernelBelow r
        → AtEnd
            (λ (x : Bool × Boot). KernelBelow x.1.pmm)
            (elim r [ none ↦ none | some pmm ↦ some (true, record b { pmm = pmm }) ])
    marked none still_running = still_running
    marked (some pmm) (at_end below) = at_end below

module _ (strings : ℕ) where
  copy_module-KernelBelow :
      (entry n : ℕ) (b : Boot) → KernelBelow b.pmm → KernelBelow (copy_module entry n b).pmm
  unfolding copy_module
  copy_module-KernelBelow entry n b = alloc-KernelBelow b.pmm _ kernel (omega arith)

  copy_modules-KernelBelow :
      (fuel i : ℕ) (b : Boot)
      → KernelBelow b.pmm
      → AtEnd (λ (b' : Boot). KernelBelow b'.pmm) (copy_modules strings fuel i b)
  unfolding copy_modules
  copy_modules-KernelBelow zero i b below = still_running
  copy_modules-KernelBelow (suc fuel) i b below = elim (Bool-cases (ltb i (mods_count b))) [
    | inr last ↦ rw last (at_end below)
    | inl more ↦
        let entry = u32 (mods_addr b + i * module_size) in
        elim (Option-cases (strlen b.memory strings (read32 b.memory (entry + 8)))) [
          | inl e ↦ rw (more, e) still_running
          | inr (n, e) ↦
              rw (more, e)
                (copy_modules-KernelBelow fuel (i + 1) (copy_module entry (u32 (n + 1)) b)
                  (copy_module-KernelBelow entry (u32 (n + 1)) b below))
        ]
  ]

  multiboot_copy_memory-KernelBelow :
      (fuel : ℕ) (b : Boot)
      → KernelBelow b.pmm
      → AtEnd (λ (b' : Boot). KernelBelow b'.pmm) (multiboot_copy_memory strings fuel b)
  unfolding multiboot_copy_memory copy_info
  multiboot_copy_memory-KernelBelow fuel b below =
      let info = alloc-KernelBelow b.pmm _ kernel (omega arith) below in
      let (length, b1) = copy_info b in
      elim (Bool-cases (has_flag flag_mods b1)) [
        | inr none_there ↦ rw none_there (at_end info)
        | inl some_there ↦ rw some_there (copy_modules-KernelBelow fuel 0 _ info)
      ]

abbrev OfBoot : Boot → Type 0
OfBoot b = KernelBelow b.pmm

give_back-KernelBelow : (r : Option Boot) → AtEnd OfBoot r → AtEnd OfBoot (give_back r)
give_back-KernelBelow none still_running = still_running
give_back-KernelBelow (some b) (at_end below) =
    at_end (use_range-KernelBelow b.pmm _ _ unused (omega arith) below)

module _ (k : Symbols) (strings fuel : ℕ) where
  reserve-KernelBelow : (b : Boot) → KernelBelow b.pmm → AtEnd OfBoot (reserve k strings fuel b)
  unfolding reserve
  reserve-KernelBelow b below =
      let b1 : Boot = record b { pmm = use_kernel_memory k (fill_words table_words b.pmm) } in
      give_back-KernelBelow (multiboot_copy_memory strings fuel b1) (
        multiboot_copy_memory-KernelBelow strings fuel b1 (
          use_range-KernelBelow (fill_words table_words b.pmm) k.kernel_start _ kernel (omega arith)
            (fill_words-KernelBelow table_words b.pmm below)))

  after_map-KernelBelow :
      (r : Option (Bool × Boot))
      → AtEnd (λ (x : Bool × Boot). KernelBelow x.1.pmm) r
      → AtEnd OfBoot (after_map k strings fuel r)
  after_map-KernelBelow none still_running = still_running
  after_map-KernelBelow (some (true, b)) (at_end below) = reserve-KernelBelow b below
  after_map-KernelBelow (some (false, b)) (at_end below) = at_end below

  -- Where `pmm_init` ends, no page of the kernel lies above the highest one that it has memorized.
  pub pmm_init-KernelBelow :
      (b b' : Boot) → pmm_init k strings fuel b ≡ some b' → KernelBelow b'.pmm
  unfolding pmm_init
  pmm_init-KernelBelow b b' e =
      let b0 : Boot = record b { pmm = fill_words bitmap_words b.pmm } in
      let ends =
        after_map-KernelBelow (multiboot_free_memory fuel b0)
          (multiboot_free_memory-KernelBelow fuel b0 (filled-KernelBelow b.pmm)) in
      AtEnd-some (rw e at ends)
