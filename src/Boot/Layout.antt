-- ===== src/Boot/Layout.antt =====
-- How memory is laid out after `pmm_init`.
use unnamed_os.Base.{
  ℕ, zero, suc, ◌+◌, ◌-◌, ◌/◌, ◌≤◌, ◌<◌, ◌≡◌, ◌≢◌, ap, ◌∙◌, arith, true, some, is_some, ltb, leb,
  ltb-true, ltb-false, ==-false, dec_lt, if◌then◌else◌, inl, inr, Option-cases, u32, sub32, ◌&&◌,
}
use unnamed_os.Boot.{
  Boot, Symbols, has_flag, flag_mmap, mmap_addr, mmap_length, mmap_loop, multiboot_free_memory,
  multiboot_copy_memory, fill_words, bitmap_words, table_words, use_kernel_memory, reserve,
  after_map, give_back, pmm_init, lower_memory, first_page_table,
}
use unnamed_os.Boot.Pages.{Keeps, AtEnd-some, bitmap_get-fill_words, multiboot_copy_memory-Keeps}
use unnamed_os.Elf.{read32}
use unnamed_os.Pmm.{Pmm, unused, reserved, kernel, page_number, use_range, bitmap_get, get_page}
use unnamed_os.Pmm.Range.{bitmap_get-use_range}

-- The addresses of the entries of the memory map from `start` on, each by the size of the one before.
pub data IsEntry (memory : ℕ → ℕ) (mmap_end start : ℕ) : ℕ → Type 0 where
  first_entry : IsEntry memory mmap_end start start
  entry_behind :
      {a : ℕ}
      → IsEntry memory mmap_end start a
      → a < mmap_end
      → IsEntry memory mmap_end start (a + read32 memory a + 4)

-- The sizes of the entries do not lead round the end of memory.
abbrev pub Advances : (memory : ℕ → ℕ) (mmap_end start : ℕ) → Type 0
Advances memory mmap_end start =
    (a : ℕ) → IsEntry memory mmap_end start a → a < mmap_end → a + read32 memory a + 4 < 4294967296

-- The loop over the memory map ends.
mmap_loop-ends :
    (memory : ℕ → ℕ) (mmap_end start fuel mmap : ℕ) (s : Pmm)
    → Advances memory mmap_end start
    → IsEntry memory mmap_end start mmap
    → mmap_end - mmap < fuel
    → is_some (mmap_loop memory fuel mmap mmap_end s) ≡ true
unfolding mmap_loop
mmap_loop-ends memory mmap_end start zero mmap s adv at enough = absurd (omega arith)
mmap_loop-ends memory mmap_end start (suc fuel) mmap s adv at enough = elim (dec_lt mmap mmap_end) [
  | no last ↦ rw (ltb-false mmap mmap_end (omega arith))
  | yes more ↦
      let far = adv mmap at more in
      let next : u32 (mmap + u32 (read32 memory mmap + 4)) ≡ mmap + read32 memory mmap + 4 =
        omega (arith, far) in
      rw (ltb-true mmap mmap_end more, next)
        (mmap_loop-ends memory mmap_end start fuel (mmap + read32 memory mmap + 4) _ adv
          (entry_behind at more) (omega arith))
]

-- The first MiB is reserved, the rest of the first 4 MiB unused, and the kernel's pages are
-- marked as such.
pub record Layout (k : Symbols) (s : Pmm) : Type 0 where
  pub low : (p : ℕ) → p < 256 → bitmap_get s.bitmap p ≡ reserved
  pub given_back : (p : ℕ) → 256 ≤ p → p < 1024 → bitmap_get s.bitmap p ≡ unused
  pub of_kernel :
      (p : ℕ) → k.kernel_start / 4096 ≤ p → p ≤ k.kernel_end / 4096 → bitmap_get s.bitmap p ≡ kernel

module _ (k : Symbols) (above : first_page_table ≤ k.kernel_start)
    (order : k.kernel_start ≤ k.kernel_end) (fits : k.kernel_end < 4294967296) where
  -- What is reserved before the boot loader's structures are copied.
  before_copy :
      (s : Pmm) (p : ℕ)
      → p < page_number
      → bitmap_get (use_kernel_memory k (fill_words table_words s)).bitmap p ≡ (
          if leb (k.kernel_start / 4096) p && leb p (k.kernel_end / 4096)
          then kernel
          else if ltb p 1024
          then reserved
          else bitmap_get s.bitmap p)
  before_copy s p hp =
      let len : u32 (sub32 k.kernel_end k.kernel_start + 1) ≡ k.kernel_end - k.kernel_start + 1 =
        omega arith in
      let last : get_page k.kernel_start (k.kernel_end - k.kernel_start + 1 - 1)
          ≡ k.kernel_end / 4096 =
        omega arith in
      let first : get_page k.kernel_start 0 ≡ k.kernel_start / 4096 = omega arith in
      rw (
        len,
        bitmap_get-use_range k.kernel_start (k.kernel_end - k.kernel_start + 1) kernel
            (fill_words table_words s) p (omega arith) (omega arith) hp,
        last,
        first,
        bitmap_get-fill_words table_words p s hp,
      )

  reserve-Layout :
      (strings fuel : ℕ) (b : Boot)
      → is_some (
          multiboot_copy_memory strings fuel
            (record b { pmm = use_kernel_memory k (fill_words table_words b.pmm) }))
        ≡ true
      → (b' : Boot) × (reserve k strings fuel b ≡ some b') × Layout k b'.pmm
  unfolding reserve
  reserve-Layout strings fuel b ends =
      let b1 : Boot = record b { pmm = use_kernel_memory k (fill_words table_words b.pmm) } in
      elim (Option-cases (multiboot_copy_memory strings fuel b1)) [
        | inl e ↦ absurd (cc (e, ends))
        | inr (b2, e) ↦
            let ends_keeping = multiboot_copy_memory-Keeps strings fuel b1 in
            let keeps : Keeps b1.pmm b2.pmm = AtEnd-some (rw e at ends_keeping) in
            let before = before_copy b.pmm in
            let after = λ (p : ℕ) (hp : p < page_number).
              bitmap_get-use_range lower_memory (first_page_table - lower_memory) unused b2.pmm p
                (omega arith) (omega arith) hp in
            (
              record b2 {
                pmm = use_range lower_memory (first_page_table - lower_memory) unused b2.pmm;
              },
              ap give_back e,
              record {
                low = λ p hp.
                    ground
                      (arith, after p (omega arith), keeps p (omega arith), before p (omega arith));
                given_back = λ p lo hi. ground (arith, after p (omega arith));
                of_kernel = λ p lo hi.
                    ground
                      (arith, after p (omega arith), keeps p (omega arith), before p (omega arith));
              },
            )
      ]

  -- Where the boot loader gives a memory map whose entries do not lead past the end of memory, and
  -- the copying of its structures ends, `pmm_init` ends. After it the first MiB is reserved, the
  -- rest of the first 4 MiB unused, and every page that the kernel touches, which lies above, is a
  -- kernel page. As many rounds as the memory map has bytes, and one, are enough for its entries.
  pub pmm_init-Layout :
      (strings fuel : ℕ) (b : Boot)
      → b.mb_info ≢ 0
      → has_flag flag_mmap b ≡ true
      → Advances b.memory (u32 (mmap_addr b + mmap_length b)) (mmap_addr b)
      → u32 (mmap_addr b + mmap_length b) - mmap_addr b < fuel
      → ((b1 : Boot)
          → multiboot_free_memory fuel (record b { pmm = fill_words bitmap_words b.pmm })
            ≡ some (true, b1)
          → is_some (
              multiboot_copy_memory strings fuel
                (record b1 { pmm = use_kernel_memory k (fill_words table_words b1.pmm) }))
            ≡ true)
      → (b' : Boot) × (pmm_init k strings fuel b ≡ some b') × Layout k b'.pmm
  unfolding pmm_init multiboot_free_memory
  pmm_init-Layout strings fuel b found mapped adv enough copies =
      let b0 : Boot = record b { pmm = fill_words bitmap_words b.pmm } in
      let ends =
        mmap_loop-ends b.memory (u32 (mmap_addr b + mmap_length b)) (mmap_addr b) fuel (mmap_addr b)
          b0.pmm adv first_entry enough in
      elim (Option-cases
        (mmap_loop b.memory fuel (mmap_addr b) (u32 (mmap_addr b + mmap_length b)) b0.pmm)) [
          | inl e ↦ absurd (cc (e, ends))
          | inr (pmm, e) ↦
              let b1 : Boot = record b0 { pmm = pmm } in
              let marked : multiboot_free_memory fuel b0 ≡ some (true, b1) =
                rw (==-false b.mb_info 0 found, mapped, e) in
              let result = reserve-Layout strings fuel b1 (copies b1 marked) in
              (result.0, ap (after_map k strings fuel) marked ∙ result.1, result.2)
        ]
