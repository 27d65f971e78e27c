-- ===== src/Cpuid.antt =====
-- The identification of the processor, `src/kernel/hardware/cpu/cpuid.c`. The instruction CPUID is a
-- parameter: `call` gives the registers that it returns for a function. What is printed is collected:
-- characters for names, and the features in their order.
pub mod Names
mod Tests
use unnamed_os.Base.{
  ℕ, zero, suc, ◌+◌, ◌%◌, ◌/◌, ◌≡◌, refl, List, [], ◌∷◌, ◌++◌, Bool, true, false, Option, none,
  some, ◌==◌, if◌then◌else◌, u8, ◌>>>◌, not,
}

-- `cpuid_result_t`.
pub record Result : Type 0 where
  pub eax : ℕ
  pub ebx : ℕ
  pub ecx : ℕ
  pub edx : ℕ

-- The features that `cpuid_init` reports, of `cpuid_features_t`.
pub data Feature : Type 0 where
  sse sse2 sse3 ssse3 sse41 sse42 fpu pae mmx vme apic acpi pse pse36 clflush : Feature

-- The characters of a register in memory.
abbrev bytes_of : ℕ → List ℕ
bytes_of word = word % 256 ∷ (word >>> 8) % 256 ∷ (word >>> 16) % 256 ∷ (word >>> 24) % 256 ∷ []

-- What `print("%s", buf)` shows of a buffer.
unfoldable pub until_zero : List ℕ → List ℕ
until_zero [] = []
until_zero (c ∷ s) = let rest = until_zero s in if c == 0 then [] else c ∷ rest

unfoldable cpuid_vendor : Result → List ℕ
cpuid_vendor res = until_zero (bytes_of res.ebx ++ (bytes_of res.edx ++ bytes_of res.ecx))

-- The loops of `cpuid_name`: the first, the one that prints spaces, and the one over the rest.
unfoldable pub skip_spaces : List ℕ → List ℕ
skip_spaces [] = []
skip_spaces (c ∷ s) = let rest = skip_spaces s in if c == 32 then rest else c ∷ s

unfoldable pub put_spaces : (spaces : ℕ) → List ℕ → List ℕ
put_spaces zero s = s
put_spaces (suc spaces) s = 32 ∷ put_spaces spaces s

unfoldable pub name_loop : (spaces : ℕ) → List ℕ → List ℕ
name_loop spaces [] = []
name_loop spaces (c ∷ s) =
    let counted = name_loop (u8 (spaces + 1)) s in
    let rest = name_loop 0 s in
    if c == 0 then [] else if c == 32 then counted else put_spaces spaces (c ∷ rest)

unfoldable pub cpuid_name : Result → List ℕ
cpuid_name res =
    name_loop 0 (
      skip_spaces
        (bytes_of res.eax ++ (bytes_of res.ebx ++ (bytes_of res.ecx ++ bytes_of res.edx))))

-- The bits of the registers ECX and EDX that stand for the features, in the order of the tests.
abbrev has_bit : (bit word : ℕ) → Bool
has_bit bit word = not ((word >>> bit) % 2 == 0)

unfoldable features : List (Feature × Bool) → List Feature
features [] = []
features ((feature, there) ∷ tests) =
    let rest = features tests in if there then feature ∷ rest else rest

abbrev feature_tests : Result → List (Feature × Bool)
feature_tests res =
    (sse, has_bit 25 res.edx)
    ∷ (sse2, has_bit 26 res.edx)
    ∷ (sse3, has_bit 0 res.ecx)
    ∷ (ssse3, has_bit 9 res.ecx)
    ∷ (sse41, has_bit 19 res.ecx)
    ∷ (sse42, has_bit 20 res.ecx)
    ∷ (fpu, has_bit 0 res.edx)
    ∷ (pae, has_bit 6 res.edx)
    ∷ (mmx, has_bit 23 res.edx)
    ∷ (vme, has_bit 1 res.edx)
    ∷ (apic, has_bit 9 res.edx)
    ∷ (acpi, has_bit 22 res.edx)
    ∷ (pse, has_bit 3 res.edx)
    ∷ (pse36, has_bit 17 res.edx)
    ∷ (clflush, has_bit 19 res.edx)
    ∷ []

-- What `cpuid_init` prints: the name, the vendor, the features, and the number of processors
-- where there is hyperthreading.
pub record Report : Type 0 where
  pub name : List ℕ
  pub vendor : List ℕ
  pub reported : List Feature
  pub processors : Option ℕ

-- `cpuid_init`, for the result of `cpuid_check`; `none` says that it prints that CPUID is not available.
unfoldable cpuid_init : (cpuid_check : Bool) (call : ℕ → Result) → Option Report
cpuid_init false call = none
cpuid_init true call =
    let res = call 1 in
    some (record {
      name =
          cpuid_name (call 2147483650)
          ++ (cpuid_name (call 2147483651) ++ cpuid_name (call 2147483652));
      vendor = cpuid_vendor (call 0);
      reported = features (feature_tests res);
      processors = if has_bit 28 res.edx then some ((res.ebx >>> 16) % 256) else none;
    })
