-- ===== src/Boot/Pages.antt =====
-- Which entries of the bitmap the copying of the boot loader's structures leaves alone.
use native.Mathlib.Nat.{pow-suc, div-div-eq-div-mul}
use unnamed_os.Base.{
  ℕ, zero, suc, ◌+◌, ◌*◌, ◌/◌, ◌%◌, ◌^◌, ◌<◌, ◌≡◌, ◌≢◌, refl, sym, ◌∙◌, arith, Option, none, some,
  ltb, ltb-true, ltb-false, dec_lt, ==-false, ℕ_discrete, if◌then◌else◌, inl, inr, Option-cases,
  Bool-cases, u32,
}
use unnamed_os.Base.Bits.{bit_and-three}
use unnamed_os.Boot.{
  Boot, mods_addr, mods_count, module_size, copy_module, copy_modules, copy_info,
  multiboot_copy_memory, has_flag, flag_mods, fill_words, bitmap_init, info_size, mmap_length,
}
use unnamed_os.Elf.{read32}
use unnamed_os.Pmm.{Pmm, unused, reserved, kernel, page_number, alloc, find_free, bitmap_get}
use unnamed_os.Pmm.Alloc.{alloc-Allocated}
use unnamed_os.Strings.{strlen}

-- The entries that are not `unused` in `s` are the same in `s'`.
abbrev pub Keeps : Pmm → Pmm → Type 0
Keeps s s' =
    (p : ℕ)
    → p < page_number
    → bitmap_get s.bitmap p ≢ unused
    → bitmap_get s'.bitmap p ≡ bitmap_get s.bitmap p

Keeps-trans : (s s' s'' : Pmm) → Keeps s s' → Keeps s' s'' → Keeps s s''
Keeps-trans s s' s'' f g p hp ne = g p hp (λ e. ne (sym (f p hp ne) ∙ e)) ∙ f p hp ne

alloc_success-Keeps :
    (len flags : ℕ) (s : Pmm)
    → 0 < len
    → flags < 4
    → (alloc len flags s).0 ≢ 0
    → Keeps s (alloc len flags s).1
alloc_success-Keeps len flags s positive flag success p hp used =
    let a = alloc-Allocated s len flags positive flag success in
    ground (arith, a.entries p hp, a.was_free p)

alloc-Keeps : (len flags : ℕ) (s : Pmm) → flags < 4 → Keeps s (alloc len flags s).1
unfolding alloc find_free
alloc-Keeps len flags s flag p hp used = elim (ℕ_discrete (find_free s len) 0) [
  | yes failed ↦ rw failed
  | no ok ↦ elim (ℕ_discrete len 0) [
    | yes e ↦ absurd (ok (rw e))
    | no ne ↦
        alloc_success-Keeps len flags s (omega arith) flag
          (λ e. ok (rw (==-false (find_free s len) 0 ok) at e)) p hp used
  ]
]

-- The digits of `bitmap_init` in base 4.
ones : ℕ → ℕ
ones zero = 0
ones (suc n) = 4 * ones n + 1

ones-digit : (n e : ℕ) → e < n → ones n / 2 ^ (2 * e) % 4 ≡ 1
unfolding ones
ones-digit zero e lt = absurd (omega arith)
ones-digit (suc n) zero lt = omega arith
ones-digit (suc n) (suc e) lt =
    let two : 2 * suc e ≡ suc (suc (2 * e)) = omega arith in
    let power : 2 ^ (2 * suc e) ≡ 4 * 2 ^ (2 * e) = rw (two, pow-suc, pow-suc) (omega arith) in
    let quarter : (4 * ones n + 1) / 4 ≡ ones n = omega arith in
    rw (power, sym (div-div-eq-div-mul (4 * ones n + 1) 4 (2 ^ (2 * e))), quarter)
      (ones-digit n e (omega arith))

sixteen : ones 16 ≡ bitmap_init
unfolding ones
sixteen = refl

pub bitmap_get-fill_words :
    (words p : ℕ) (s : Pmm)
    → p < page_number
    → bitmap_get (fill_words words s).bitmap p
      ≡ (if ltb p (16 * words) then reserved else bitmap_get s.bitmap p)
unfolding bitmap_get
bitmap_get-fill_words words p s lt =
    let bit : u32 (p * 2) ≡ p * 2 = omega arith in
    let word : p * 2 / 32 ≡ p / 16 = omega arith in
    elim (dec_lt p (16 * words)) [
      | yes inside ↦
          let e : p * 2 % 32 ≡ 2 * (p % 16) = omega arith in
          let digit : ones 16 / 2 ^ (2 * (p % 16)) % 4 ≡ 1 = ones-digit 16 (p % 16) (omega arith) in
          rw
            (
              ltb-true p (16 * words) inside,
              bit,
              word,
              ltb-true (p / 16) words (omega arith),
              e,
              bit_and-three,
            )
            (rw sixteen at digit)
      | no outside ↦ rw (
        ltb-false p (16 * words) (omega arith),
        bit,
        word,
        ltb-false (p / 16) words (omega arith),
      )
    ]

-- What holds of the state that a loop ends in.
pub data AtEnd {A : Type 0} (P : A → Type 0) : Option A → Type 0 where
  still_running : AtEnd P none
  at_end : {a : A} → P a → AtEnd P (some a)

pub AtEnd-some : {A : Type 0} {P : A → Type 0} {a : A} → AtEnd P (some a) → P a
AtEnd-some (at_end p) = p

AtEnd-map :
    {A : Type 0} {P Q : A → Type 0} {r : Option A} → ((a : A) → P a → Q a) → AtEnd P r → AtEnd Q r
AtEnd-map f still_running = still_running
AtEnd-map f (at_end p) = at_end (f _ p)

module _ (strings : ℕ) where
  copy_module-Keeps : (entry n : ℕ) (b : Boot) → Keeps b.pmm (copy_module entry n b).pmm
  unfolding copy_module
  copy_module-Keeps entry n b = alloc-Keeps _ kernel b.pmm (omega arith)

  copy_modules-Keeps :
      (fuel i : ℕ) (b : Boot)
      → AtEnd (λ (b' : Boot). Keeps b.pmm b'.pmm) (copy_modules strings fuel i b)
  unfolding copy_modules
  copy_modules-Keeps zero i b = still_running
  copy_modules-Keeps (suc fuel) i b = elim (Bool-cases (ltb i (mods_count b))) [
    | inr last ↦ rw last (at_end (λ p hp used. refl))
    | inl more ↦
        let entry = u32 (mods_addr b + i * module_size) in
        elim (Option-cases (strlen b.memory strings (read32 b.memory (entry + 8)))) [
          | inl e ↦ rw (more, e) still_running
          | inr (n, e) ↦
              let b1 = copy_module entry (u32 (n + 1)) b in
              rw (more, e)
                (AtEnd-map
                  (λ b' k.
                    Keeps-trans b.pmm b1.pmm b'.pmm (copy_module-Keeps entry (u32 (n + 1)) b) k)
                  (copy_modules-Keeps fuel (i + 1) b1))
        ]
  ]

  -- `multiboot_copy_memory` takes memory that was unused, and no other.
  pub multiboot_copy_memory-Keeps :
      (fuel : ℕ) (b : Boot)
      → AtEnd (λ (b' : Boot). Keeps b.pmm b'.pmm) (multiboot_copy_memory strings fuel b)
  unfolding multiboot_copy_memory copy_info
  multiboot_copy_memory-Keeps fuel b =
      let modules_length = if has_flag flag_mods b then u32 (mods_count b * module_size) else 0 in
      let info =
        alloc-Keeps (u32 (info_size + mmap_length b + modules_length)) kernel b.pmm (omega arith) in
      let (length, b1) = copy_info b in
      elim (Bool-cases (has_flag flag_mods b1)) [
        | inr none_there ↦ rw none_there (at_end info)
        | inl some_there ↦ rw some_there (
            AtEnd-map (λ b' k. Keeps-trans b.pmm b1.pmm b'.pmm info k)
              (copy_modules-Keeps fuel 0 _))
      ]
