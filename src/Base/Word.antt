-- ===== src/Base/Word.antt =====
-- The machine words of `src/kernel` (stdint.h): `uint8_t`, `uint16_t` and `uint32_t` arithmetic
-- wraps, and is written out on the native numbers.
use Prim.Native.Nat.{ℕ, ◌+◌, ◌-◌, ◌*◌, ◌/◌, ◌%◌, ◌^◌}

abbrev pub u8 : ℕ → ℕ
u8 n = n % 256

abbrev pub u16 : ℕ → ℕ
u16 n = n % 65536

abbrev pub u32 : ℕ → ℕ
u32 n = n % 4294967296

-- `a - b` on `uint32_t` operands.
abbrev pub sub32 : ℕ → ℕ → ℕ
sub32 a b = u32 (a + 4294967296 - b)

-- `x >> k`, and `x << k` before the word cuts it off.
infixl 60 ◌>>>◌ ◌<<<◌
abbrev pub ◌>>>◌ : ℕ → ℕ → ℕ
x >>> k = x / 2 ^ k

abbrev pub ◌<<<◌ : ℕ → ℕ → ℕ
x <<< k = x * 2 ^ k

-- `~x` on a `uint32_t`.
abbrev pub not32 : ℕ → ℕ
not32 x = 4294967295 - x
