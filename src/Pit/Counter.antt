-- ===== src/Pit/Counter.antt =====
-- The counter that `pit_init_channel` writes.
use native.Mathlib.Nat.{mul-div-le, lt-mul-div-succ, mul-le-mul, mul-le-mul_left}
use unnamed_os.Base.{dec_le, ℕ, ◌+◌, ◌*◌, ◌/◌, ◌%◌, ◌≤◌, ◌<◌, ◌≡◌, true, [], ◌∷◌, arith, ltb-false}
use unnamed_os.Pit.{init_channel, init_byte, pit_freq}

-- A quotient of the timer's frequency is at least 2 and fits a word.
quotient_fits :
    (f c : ℕ)
    → f * c ≤ 1193182
    → 1193182 < f * (c + 1)
    → 19 ≤ f
    → f ≤ 596591
    → (2 ≤ c) × (c < 65536)
quotient_fits f c lo hi h h' = (
  elim (dec_le 2 c) [
    | yes enough ↦ enough
    | no few ↦
        let below : c + 1 ≤ 2 = omega arith in
        let bound : f * (c + 1) ≤ f * 2 = mul-le-mul_left f below in absurd (omega (arith, bound))
  ],
  elim (dec_le 65536 c) [
    | yes many ↦ let bound : 19 * 65536 ≤ f * c = mul-le-mul h many in absurd (omega (arith, bound))
    | no small ↦ omega arith
  ],
)

-- Between 19 Hz and half the timer's frequency `pit_init_channel` succeeds, and the two bytes that
-- it writes to the channel make up the frequency's divisor, which is at least 2 and fits 16 bits.
pub init_channel-writes :
    (channel mode f : ℕ)
    → 19 ≤ f
    → f ≤ 596591
    → (lo : ℕ) × (hi : ℕ) × (init_channel channel mode f
        ≡ (true, (67, init_byte mode channel) ∷ (64 + channel, lo) ∷ (64 + channel, hi) ∷ []))
      × (lo + 256 * hi ≡ pit_freq / f)
      × (lo < 256)
      × (hi < 256)
      × (2 ≤ lo + 256 * hi)
unfolding init_channel
init_channel-writes channel mode f h h' =
    let c = 1193182 / f in
    let (enough, small) =
      quotient_fits f c (mul-div-le 1193182 f) (lt-mul-div-succ 1193182 (omega arith)) h h' in
    (
      c % 65536 % 256,
      c % 65536 / 256,
      rw (ltb-false f 19 h, ltb-false 596591 f h'),
      omega arith,
      omega arith,
      omega arith,
      omega arith,
    )
