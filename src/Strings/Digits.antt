-- ===== src/Strings/Digits.antt =====
-- The digits that `io_putint` prints are those of the number, and fit its buffer.
use native.Mathlib.Nat.{
  div-add-mod, mul-div-le, mul-le-mul_right, mul_comm, mul_assoc, pow-succ', pow-zero, add-mul,
  mod-lt,
}
use unnamed_os.Base.{
  ℕ, zero, suc, ◌+◌, ◌*◌, ◌/◌, ◌%◌, ◌^◌, ◌≤◌, ◌<◌, ◌≡◌, ◌∙◌, ap, sym, arith, List, [], ◌∷◌, ◌++◌,
  replicate, ok, ℕ_discrete, ==-false, ltb-false,
}
use unnamed_os.Strings.{digits_loop, count, chars, putint, padding}

-- The number that digits stand for, the highest one first.
abbrev pub from_digits : (radix : ℕ) → List ℕ → ℕ
from_digits radix [] = 0
from_digits radix (d ∷ ds) = d * radix ^ count ds + from_digits radix ds

-- Every digit is one of the radix.
abbrev pub AreDigits : (radix : ℕ) → List ℕ → Type 0
AreDigits radix [] = Unit
AreDigits radix (d ∷ ds) = (d < radix) × AreDigits radix ds

shift_digit :
    (n radix c rest : ℕ)
    → n / radix * radix ^ suc c + (n % radix * radix ^ c + rest) ≡ n * radix ^ c + rest
shift_digit n radix c rest =
    let p = radix ^ c in
    let e : n * p ≡ (radix * (n / radix) + n % radix) * p =
      ap (λ x. x * p) (sym (div-add-mod n radix)) in
    let q = n / radix in
    let f : q * radix ^ suc c ≡ radix * q * p =
      ap (λ x. q * x) (pow-succ' radix c)
      ∙ sym (mul_assoc q radix p)
      ∙ ap (λ x. x * p) (mul_comm q radix) in
    omega (arith, e, f, add-mul (radix * q) (n % radix) p)

quotient_small : (n radix b : ℕ) → 2 ≤ radix → n < 2 * b → n / radix < b
quotient_small n radix b h hn =
    let bound : 2 * (n / radix) ≤ radix * (n / radix) = mul-le-mul_right (n / radix) h in
    omega (arith, bound, mul-div-le n radix)

-- What the loop returns.
record Written (left n radix : ℕ) (buf ds : List ℕ) : Type 0 where
  returns : digits_loop left n radix buf ≡ ok ds
  value : from_digits radix ds ≡ n * radix ^ count buf + from_digits radix buf
  fits : count ds ≤ left + count buf
  digits : AreDigits radix ds

digits_loop-Written :
    (left n radix : ℕ) (buf : List ℕ)
    → 2 ≤ radix
    → n < 2 ^ left
    → AreDigits radix buf
    → (ds : List ℕ) × Written left n radix buf ds
unfolding digits_loop
digits_loop-Written zero n radix buf h hn ok_buf = elim (ℕ_discrete n 0) [
  | yes e ↦ (
    buf,
    record { returns = rw e; value = rw e (omega arith); fits = omega arith; digits = ok_buf },
  )
  | no ne ↦ absurd (omega arith)
]
digits_loop-Written (suc left) n radix buf h hn ok_buf = elim (ℕ_discrete n 0) [
  | yes e ↦ (
    buf,
    record { returns = rw e; value = rw e (omega arith); fits = omega arith; digits = ok_buf },
  )
  | no ne ↦
      let small = quotient_small n radix (2 ^ left) h (omega (arith, pow-succ' 2 left)) in
      let (ds, d) =
        digits_loop-Written left (n / radix) radix (n % radix ∷ buf) h small
          (mod-lt n (omega arith), ok_buf) in
      (
        ds,
        record {
          returns = rw (==-false n 0 ne) d.returns;
          value = d.value ∙ shift_digit n radix (count buf) (from_digits radix buf);
          fits = omega (arith, d.fits);
          digits = d.digits;
        },
      )
]

-- For a radix from 2 to 36 `io_putint` prints the padding and then at most 32 digits, each below the radix,
-- which stand for the number; they never overrun its buffer.
pub putint-digits :
    (n radix pad pad_char : ℕ)
    → n < 4294967296
    → 2 ≤ radix
    → radix ≤ 36
    → (ds : List ℕ) × (putint n radix pad pad_char
        ≡ ok (replicate (padding pad (count ds)) pad_char ++ chars ds))
      × (from_digits radix ds ≡ n)
      × (count ds ≤ 32)
      × AreDigits radix ds
unfolding putint
putint-digits n radix pad pad_char hn lo hi = elim (ℕ_discrete n 0) [
  | yes e ↦ (
    0 ∷ [],
    rw (ltb-false radix 2 lo, ltb-false 36 radix hi, e),
    omega (arith, e),
    omega arith,
    (omega arith, tt),
  )
  | no ne ↦
      let (ds, d) = digits_loop-Written 32 n radix [] lo (omega arith) tt in
      (
        ds,
        rw (ltb-false radix 2 lo, ltb-false 36 radix hi, ==-false n 0 ne, d.returns),
        d.value ∙ rw (pow-zero radix) (omega arith),
        omega (arith, d.fits),
        d.digits,
      )
]
