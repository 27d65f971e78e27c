-- ===== src/Base/Bits.antt =====
-- The bits of `a | b`, `a & b` and `~a`. A bit is read the way the kernel reads one, by a shift
-- and a mask of one.
use Prim.Native.Nat.{
  ℕ, zero, suc, ◌+◌, ◌-◌, ◌*◌, ◌/◌, ◌%◌, ◌^◌, ◌≤◌, ◌<◌, min, max, bit_and, bit_or, digits,
  bit_and-bitwise, bit_or-bitwise,
}
use mathlib.Core.Path.{◌≡◌, refl, ◌∙◌}
use native.Mathlib.Nat.{pow-suc, div-div-eq-div-mul, mul_comm}
use native.Mathlib.Omega.{arith}
use unnamed_os.Base.Tests.{◌==◌, if◌then◌else◌}

abbrev pub bit_at : ℕ → ℕ → ℕ
bit_at w k = w / 2 ^ k % 2

bit_at-suc : (w k : ℕ) → bit_at w (suc k) ≡ bit_at (w / 2) k
bit_at-suc w k = rw (div-div-eq-div-mul, pow-suc, mul_comm (2 ^ k) 2)

pub bit_at-lt : (w k : ℕ) → bit_at w k < 2
bit_at-lt w k = omega arith

module _ (last : ℕ → ℕ) (op : ℕ → ℕ → ℕ) where
  -- More rounds than the first number has digits change nothing.
  rounds_enough : (a b n m : ℕ) → a ≤ n → a ≤ m → digits last op n a b ≡ digits last op m a b
  rounds_enough zero b zero zero hn hm = refl
  rounds_enough zero b zero (suc m) hn hm = refl
  rounds_enough zero b (suc n) zero hn hm = refl
  rounds_enough zero b (suc n) (suc m) hn hm = refl
  rounds_enough (suc a) b zero m hn hm = absurd (omega arith)
  rounds_enough (suc a) b (suc n) zero hn hm = absurd (omega arith)
  rounds_enough (suc a) b (suc n) (suc m) hn hm =
      rw (rounds_enough (suc a / 2) (b / 2) n m (omega arith) (omega arith))

-- The equation for the lowest digit.
or_lowest : (a b : ℕ) → bit_or a b ≡ bit_or (a / 2) (b / 2) * 2 + max (a % 2) (b % 2)
or_lowest zero b = simp bit_or-bitwise (omega arith)
or_lowest (suc a) b = omega (
  arith,
  bit_or-bitwise (suc a) b,
  bit_or-bitwise (suc a / 2) (b / 2),
  rounds_enough (λ y. y) max (suc a / 2) (b / 2) a (suc a / 2) (omega arith) (omega arith),
)

and_lowest : (a b : ℕ) → bit_and a b ≡ bit_and (a / 2) (b / 2) * 2 + min (a % 2) (b % 2)
and_lowest zero b = simp bit_and-bitwise (omega arith)
and_lowest (suc a) b = omega (
  arith,
  bit_and-bitwise (suc a) b,
  bit_and-bitwise (suc a / 2) (b / 2),
  rounds_enough (λ _. 0) min (suc a / 2) (b / 2) a (suc a / 2) (omega arith) (omega arith),
)

pub bit_at-or : (k a b : ℕ) → bit_at (bit_or a b) k ≡ max (bit_at a k) (bit_at b k)
bit_at-or zero a b = omega (arith, or_lowest a b)
bit_at-or (suc k) a b =
    let half : bit_or a b / 2 ≡ bit_or (a / 2) (b / 2) = omega (arith, or_lowest a b) in
    rw (bit_at-suc, bit_at-suc, bit_at-suc, half) (bit_at-or k (a / 2) (b / 2))

pub bit_at-and : (k a b : ℕ) → bit_at (bit_and a b) k ≡ min (bit_at a k) (bit_at b k)
bit_at-and zero a b = omega (arith, and_lowest a b)
bit_at-and (suc k) a b =
    let half : bit_and a b / 2 ≡ bit_and (a / 2) (b / 2) = omega (arith, and_lowest a b) in
    rw (bit_at-suc, bit_at-suc, bit_at-suc, half) (bit_at-and k (a / 2) (b / 2))

bit_at-zero : (k : ℕ) → bit_at 0 k ≡ 0
bit_at-zero zero = refl
bit_at-zero (suc k) = rw bit_at-suc (bit_at-zero k)

pub bit_at-pow : (k j : ℕ) → bit_at (2 ^ k) j ≡ (if j == k then 1 else 0)
bit_at-pow zero zero = refl
bit_at-pow zero (suc j) = rw bit_at-suc (bit_at-zero j ∙ ground arith)
bit_at-pow (suc k) zero = ground (arith, pow-suc 2 k)
bit_at-pow (suc k) (suc j) =
    let half : 2 ^ suc k / 2 ≡ 2 ^ k = omega (arith, pow-suc 2 k) in
    rw (bit_at-suc, half) (bit_at-pow k j ∙ ground arith)

-- The complement in a word of `n` bits.
pub bit_at-not : (n k x : ℕ) → x < 2 ^ n → k < n → bit_at (2 ^ n - 1 - x) k ≡ 1 - bit_at x k
bit_at-not zero k x hx hk = absurd (omega arith)
bit_at-not (suc n) zero x hx hk = omega (arith, pow-suc 2 n)
bit_at-not (suc n) (suc k) x hx hk =
    let half : (2 ^ suc n - 1 - x) / 2 ≡ 2 ^ n - 1 - x / 2 = omega (arith, pow-suc 2 n) in
    rw (bit_at-suc, bit_at-suc, half)
      (bit_at-not n k (x / 2) (omega (arith, pow-suc 2 n)) (omega arith))

-- Masks of zero, one and two bits.
and-zero_below : (n a : ℕ) → a ≤ n → bit_and a 0 ≡ 0
and-zero_below zero a h = omega (arith, and_lowest a 0, bit_and-bitwise 0 0, zero_number a h)
  where
    zero_number : (a : ℕ) → a ≤ 0 → bit_and a 0 ≡ 0
    zero_number zero h = refl
    zero_number (suc a) h = absurd (omega arith)
and-zero_below (suc n) zero h = refl
and-zero_below (suc n) (suc a) h =
    omega (arith, and_lowest (suc a) 0, and-zero_below n (suc a / 2) (omega arith))

bit_and-zero : (a : ℕ) → bit_and a 0 ≡ 0
bit_and-zero a = and-zero_below a a (omega arith)

pub bit_and-one : (a : ℕ) → bit_and a 1 ≡ a % 2
bit_and-one a = omega (arith, and_lowest a 1, bit_and-zero (a / 2))

pub bit_and-three : (a : ℕ) → bit_and a 3 ≡ a % 4
bit_and-three a = omega (arith, and_lowest a 3, bit_and-one (a / 2))
