-- ===== src/Strings/Copies.antt =====
-- What `memcpy` and `memset` leave in memory.
use unnamed_os.Base.{
  ℕ, zero, suc, ◌+◌, ◌-◌, ◌≤◌, ◌≡◌, ◌∙◌, ◌&&◌, arith, ltb, leb, if◌then◌else◌, update, u8, ◌⊎◌, inl,
  inr, ◌≢◌, ℕ_discrete, dec_lt, leb-true, leb-false, ltb-true, ltb-false, ==-refl, ==-false,
}
use unnamed_os.Strings.{memcpy, memset}

pub memset-range :
    (num ptr val a : ℕ) (m : ℕ → ℕ)
    → memset num ptr val m a ≡ (if leb ptr a && ltb a (ptr + num) then u8 val else m a)
unfolding memset
memset-range zero ptr val a m = ground arith
memset-range (suc num) ptr val a m = memset-range num (ptr + 1) val a _ ∙ ground arith

-- Where the destination does not begin inside the source, every byte of the source arrives, and no
-- other byte changes.
pub memcpy-range :
    (num dst src a : ℕ) (m : ℕ → ℕ)
    → (dst ≤ src) ⊎ (src + num ≤ dst)
    → memcpy num dst src m a ≡ (if leb dst a && ltb a (dst + num) then m (src + (a - dst)) else m a)
unfolding memcpy
memcpy-range zero dst src a m h = ground arith
memcpy-range (suc num) dst src a m h =
    let next : (dst + 1 ≤ src + 1) ⊎ (src + 1 + num ≤ dst + 1) = elim h [
      | inl before ↦ inl (omega arith)
      | inr behind ↦ inr (omega arith)
    ] in
    memcpy-range num (dst + 1) (src + 1) a (update m dst (m src)) next ∙ elim (ℕ_discrete a dst) [
      | yes e ↦
          let none_before : src + (a - dst) ≡ src = omega arith in
          rw (
            leb-false (dst + 1) a (omega arith),
            leb-true dst a (omega arith),
            ltb-true a (dst + suc num) (omega arith),
            none_before,
            e,
            ==-refl dst,
          )
      | no ne ↦ elim (dec_lt a dst) [
        | yes low ↦ rw (leb-false (dst + 1) a (omega arith), leb-false dst a low, ==-false a dst ne)
        | no high ↦ elim (dec_lt a (dst + suc num)) [
          | no past ↦ rw (
            leb-true (dst + 1) a (omega arith),
            leb-true dst a (omega arith),
            ltb-false a (dst + 1 + num) (omega arith),
            ltb-false a (dst + suc num) (omega arith),
            ==-false a dst ne,
          )
          | yes inside ↦
              let at : src + 1 + (a - (dst + 1)) ≡ src + (a - dst) = omega arith in
              let apart : src + (a - dst) ≢ dst =
                λ z. elim h [ inl before ↦ omega arith | inr behind ↦ omega arith ] in
              rw (
                leb-true (dst + 1) a (omega arith),
                leb-true dst a (omega arith),
                ltb-true a (dst + 1 + num) (omega arith),
                ltb-true a (dst + suc num) inside,
                at,
                ==-false (src + (a - dst)) dst apart,
              )
        ]
      ]
    ]
