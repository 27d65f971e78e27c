-- ===== src/Pmm/Bitmap.antt =====
-- An entry of the memory bitmap reads back what was last stored in it: the bit operations of
-- `pmm_bitmap_set` and `pmm_bitmap_get` amount to an array of two-bit numbers.
use native.Mathlib.Nat.{pow-suc, div-div-eq-div-mul, pow-le-pow_right}
use unnamed_os.Base.{
  ℕ, suc, ◌+◌, ◌*◌, ◌/◌, ◌%◌, ◌^◌, ◌<◌, ◌≡◌, arith, bit_and, bit_or, ◌==◌, if◌then◌else◌, u32,
  not32, ◌∙◌,
}
use unnamed_os.Base.Bits.{
  bit_at, bit_at-or, bit_at-and, bit_at-pow, bit_at-not, bit_at-lt, bit_and-one, bit_and-three,
}
use unnamed_os.Pmm.{bitmap_set_bit, bitmap_clear_bit, bitmap_set, bitmap_get, bit_check}

-- Bit `g` of the whole bitmap.
abbrev bit_of : (ℕ → ℕ) → ℕ → ℕ
bit_of bitmap g = bit_at (bitmap (g / 32)) (g % 32)

-- `1 << k` fits a word.
one_shifted : (k : ℕ) → k < 32 → u32 (1 * 2 ^ k) ≡ 2 ^ k
one_shifted k h =
    omega (arith, pow-le-pow_right {n = 2} (omega arith) {i = k} {j = 31} (omega arith))

word_set :
    (w k j : ℕ)
    → k < 32
    → bit_at (bit_or w (u32 (1 * 2 ^ k))) j ≡ (if j == k then 1 else bit_at w j)
word_set w k j h =
    ground (arith, one_shifted k h, bit_at-or j w (2 ^ k), bit_at-pow k j, bit_at-lt w j)

word_clear :
    (w k j : ℕ)
    → k < 32
    → j < 32
    → bit_at (bit_and w (not32 (u32 (1 * 2 ^ k)))) j ≡ (if j == k then 0 else bit_at w j)
word_clear w k j h hj = ground (
  arith,
  one_shifted k h,
  bit_at-and j w (not32 (2 ^ k)),
  bit_at-not 32 j (2 ^ k)
      (omega (arith, pow-le-pow_right {n = 2} (omega arith) {i = k} {j = 31} (omega arith))) hj,
  bit_at-pow k j,
  bit_at-lt w j,
)

bit_of-set :
    (b : ℕ → ℕ) (g h : ℕ) → bit_of (bitmap_set_bit b g) h ≡ (if h == g then 1 else bit_of b h)
unfolding bitmap_set_bit
bit_of-set b g h = ground (arith, word_set (b (g / 32)) (g % 32) (h % 32))

bit_of-clear :
    (b : ℕ → ℕ) (g h : ℕ) → bit_of (bitmap_clear_bit b g) h ≡ (if h == g then 0 else bit_of b h)
unfolding bitmap_clear_bit
bit_of-clear b g h = ground (arith, word_clear (b (g / 32)) (g % 32) (h % 32))

low_two : (w k : ℕ) → w / 2 ^ k % 4 ≡ bit_at w k + 2 * bit_at w (suc k)
low_two w k = rw (pow-suc, ← div-div-eq-div-mul) (omega arith)

bitmap_get_bits :
    (b : ℕ → ℕ) (i : ℕ) → i < 1048576 → bitmap_get b i ≡ bit_of b (2 * i) + 2 * bit_of b (2 * i + 1)
unfolding bitmap_get
bitmap_get_bits b i h =
    let w : i * 2 % 4294967296 ≡ 2 * i = omega arith in
    let q : (2 * i + 1) / 32 ≡ 2 * i / 32 = omega arith in
    let r : (2 * i + 1) % 32 ≡ suc (2 * i % 32) = omega arith in
    rw (w, bit_and-three, q, r) (low_two (b (2 * i / 32)) (2 * i % 32))

-- One round of the loop in `pmm_bitmap_set`.
bit_of-store :
    (b : ℕ → ℕ) (x g h : ℕ)
    → bit_of (if bit_and x 1 == 0 then bitmap_clear_bit b g else bitmap_set_bit b g) h
      ≡ (if h == g then x % 2 else bit_of b h)
bit_of-store b x g h = ground (arith, bit_of-set b g h, bit_of-clear b g h, bit_and-one x)

bit_of-bitmap_set :
    (b : ℕ → ℕ) (i v h : ℕ)
    → i < 1048576
    → bit_of (bitmap_set b i v) h
      ≡ (if h == 2 * i then v % 2 else if h == 2 * i + 1 then v / 2 % 2 else bit_of b h)
unfolding bitmap_set
bit_of-bitmap_set b i v h hi =
    let g = u32 (i * 2) in
    let b1 = if bit_check v 0 == 0 then bitmap_clear_bit b (g + 0) else bitmap_set_bit b (g + 0) in
    bit_of-store b1 (v / 2 ^ 1) (g + 1) h ∙ ground (arith, bit_of-store b (v / 2 ^ 0) (g + 0) h)

-- Storing a flag in the entry of page `i` sets that entry and no other.
pub bitmap_get-set :
    (b : ℕ → ℕ) (i v j : ℕ)
    → i < 1048576
    → j < 1048576
    → v < 4
    → bitmap_get (bitmap_set b i v) j ≡ (if j == i then v else bitmap_get b j)
bitmap_get-set b i v j hi hj hv = ground (
  arith,
  bitmap_get_bits (bitmap_set b i v) j hj,
  bitmap_get_bits b j hj,
  bit_of-bitmap_set b i v (2 * j) hi,
  bit_of-bitmap_set b i v (2 * j + 1) hi,
)

bitmap_get-lt : (b : ℕ → ℕ) (i : ℕ) → bitmap_get b i < 4
unfolding bitmap_get
bitmap_get-lt b i = rw bit_and-three (omega arith)
