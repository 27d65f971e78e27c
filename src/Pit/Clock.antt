-- ===== src/Pit/Clock.antt =====
-- The clock that the timer's interrupt keeps: it shows the whole seconds that have gone by.
use native.Mathlib.Nat.{
  div-add-mod, mul-add-div, mul-add-mod_self_left, mod-lt, div-eq_of_lt, mod-eq_of_lt, div_self,
  mod_self, div-le_self,
}
use unnamed_os.Base.{
  ℕ, ◌+◌, ◌*◌, ◌/◌, ◌%◌, ◌<◌, ◌≡◌, ◌≢◌, ◌∙◌, refl, ap, ◌⊎◌, inl, inr, true, false, arith, ◌==◌,
  Bool-cases, ==-false, eq_of_==, ok, u32, ℕ_discrete,
}
use unnamed_os.Pit.{Pit, tick, second_over, minute_over}

-- The quotient and the remainder of the next number.
div-suc :
    (t f : ℕ)
    → 0 < f
    → (((t + 1) % f == 0) ≡ true) × ((t + 1) / f ≡ t / f + 1)
      ⊎ (((t + 1) % f == 0) ≡ false) × ((t + 1) / f ≡ t / f)
div-suc t f h =
    let r = t % f + 1 in
    let e : t + 1 ≡ f * (t / f) + r = omega (arith, div-add-mod t f) in
    let d : (t + 1) / f ≡ t / f + r / f = ap (λ x. x / f) e ∙ mul-add-div h (t / f) r in
    let m : (t + 1) % f ≡ r % f = ap (λ x. x % f) e ∙ mul-add-mod_self_left f (t / f) r in
    elim (ℕ_discrete r f) [
      | yes full ↦ inl (
        ground (arith, m ∙ ap (λ x. x % f) full ∙ mod_self f),
        omega (arith, d, ap (λ x. x / f) full ∙ div_self h),
      )
      | no ne ↦
          let less : r < f = omega (arith, mod-lt t h) in
          inr (
            ==-false ((t + 1) % f) 0 (λ z. omega (arith, m, mod-eq_of_lt less, z)),
            omega (arith, d, div-eq_of_lt less),
          )
    ]

-- The clock shows the seconds that have gone by at `n` seconds.
pub record IsTime (p : Pit) (n : ℕ) : Type 0 where
  pub seconds : p.seconds < 60
  pub minutes : p.minutes < 60
  pub total : p.hours * 3600 + p.minutes * 60 + p.seconds ≡ n

minute_over-IsTime :
    (p : Pit) (n : ℕ)
    → p.seconds ≡ 59
    → IsTime p n
    → n < 4294967295
    → IsTime (minute_over p) (n + 1)
unfolding minute_over
minute_over-IsTime p n last h small = elim (Bool-cases ((p.minutes + 1) % 4294967296 % 60 == 0)) [
  | inl t ↦
      let z = eq_of_== _ 0 t in
      rw t (record {
        seconds = omega arith;
        minutes = omega arith;
        total = omega (arith, h.total, h.minutes, z, last);
      })
  | inr f ↦
      let less : p.minutes ≢ 59 = λ e. ground (arith, e, f) in
      rw f (record {
        seconds = omega arith;
        minutes = omega (arith, h.minutes, less);
        total = omega (arith, h.total, h.minutes, less, last);
      })
]

second_over-IsTime :
    (p : Pit) (n : ℕ) → IsTime p n → n < 4294967295 → IsTime (second_over p) (n + 1)
unfolding second_over
second_over-IsTime p n h small = elim (Bool-cases ((p.seconds + 1) % 4294967296 % 60 == 0)) [
  | inl t ↦
      let z = eq_of_== _ 0 t in rw t (minute_over-IsTime p n (omega (arith, h.seconds, z)) h small)
  | inr f ↦
      let less : p.seconds ≢ 59 = λ e. ground (arith, e, f) in
      rw f (record {
        seconds = omega (arith, h.seconds, less);
        minutes = h.minutes;
        total = omega (arith, h.total, h.seconds, less);
      })
]

second_over-keeps : (p : Pit) → ((second_over p).ticks ≡ p.ticks) × ((second_over p).freq ≡ p.freq)
unfolding second_over minute_over
second_over-keeps p = elim (Bool-cases ((p.seconds + 1) % 4294967296 % 60 == 0)) [
  | inr f ↦ rw f (refl, refl)
  | inl t ↦ elim (Bool-cases ((p.minutes + 1) % 4294967296 % 60 == 0)) [
    | inl t' ↦ rw (t, t') (refl, refl)
    | inr f ↦ rw (t, f) (refl, refl)
  ]
]

-- Each interrupt of the timer keeps the clock at the whole seconds that have gone by since it was
-- started, as long as the counter of ticks has not wrapped round.
pub tick-IsTime :
    (p : Pit)
    → 0 < p.freq
    → p.ticks + 1 < 4294967296
    → IsTime p (p.ticks / p.freq)
    → (p' : Pit) × (tick p ≡ ok p')
      × (p'.ticks ≡ p.ticks + 1)
      × (p'.freq ≡ p.freq)
      × IsTime p' ((p.ticks + 1) / p.freq)
unfolding tick
tick-IsTime p running small h =
    let e : u32 (p.ticks + 1) ≡ p.ticks + 1 = omega arith in
    let on = ==-false p.freq 0 (λ z. omega (arith, z)) in
    let p' = record p { ticks = p.ticks + 1 } in
    let few : p.ticks / p.freq < 4294967295 = omega (arith, div-le_self p.ticks p.freq) in
    elim (div-suc p.ticks p.freq running) [
      | inl (t, d) ↦
          let (same, same') = second_over-keeps p' in
          (
            second_over p',
            rw (on, e, t),
            same,
            same',
            rw d (
                second_over-IsTime p' (p.ticks / p.freq)
                  (record { seconds = h.seconds; minutes = h.minutes; total = h.total }) few),
          )
      | inr (f, d) ↦ (
        p',
        rw (on, e, f),
        refl,
        refl,
        rw d (record { seconds = h.seconds; minutes = h.minutes; total = h.total }),
      )
    ]
