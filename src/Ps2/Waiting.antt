-- ===== src/Ps2/Waiting.antt =====
-- The loops of `src/kernel/hardware/io/ps2.c` that wait for the controller end.
use unnamed_os.Base.{
  ℕ, zero, suc, ◌≤◌, ◌<◌, ◌≡◌, refl, Bool, true, false, not, Option, none, some, is_some, ltb-true,
  ltb-false, dec_lt, if◌then◌else◌, Bool-cases, inl, inr, arith,
}
use unnamed_os.Pit.{Pit, waiting_until_overflow, waiting_until_timeout, make_timeout, poll}
use unnamed_os.Ps2.{
  ◌>>=◌, Ps2, any_port, ps2_cmd, ps2_timeout, timeout_err, available, inbuf_full, wait_loop,
  wait_for, write, ps2_write, ps2_read, ps2_test,
}

bind-ends :
    {A B : Type 0} (r : Option A) (k : A → Option B)
    → is_some r ≡ true
    → ((a : A) → is_some (k a) ≡ true)
    → is_some (r >>= k) ≡ true
bind-ends none k e f = absurd (ground arith)
bind-ends (some a) k e f = f a

if-ends : {A : Type 0} (b : Bool) (x y : A) → is_some (if b then some x else some y) ≡ true
if-ends true x y = refl
if-ends false x y = refl

module _ {D : Type 0} (inb : ℕ → D → ℕ × D) (outb : ℕ → ℕ → D → D) (pit : D → Pit) (fuel : ℕ) where
  -- The world after the status has been read `n` times more, and its clock then.
  abbrev pub after : ℕ → D → D
  after zero d = d
  after (suc n) d = after n (inb ps2_cmd d).1

  abbrev pub clock : ℕ → D → ℕ
  clock n d = (pit (after (suc n) d)).ticks

  module _ (ready : ℕ → Bool) where
    out_in_time :
        (rounds j until : ℕ) (d : D)
        → j < rounds
        → until ≤ clock j d
        → is_some (
            wait_loop inb outb pit fuel ready rounds
              (record { wait_until = until; state = waiting_until_timeout })
              d)
          ≡ true
    unfolding wait_loop poll
    out_in_time zero j until d lt over = absurd (omega arith)
    out_in_time (suc rounds) zero until d lt over = elim (Bool-cases (ready (inb ps2_cmd d).0)) [
      | inl r ↦ rw r
      | inr waits ↦ rw (waits, ltb-false (pit (inb ps2_cmd d).1).ticks until over)
    ]
    out_in_time (suc rounds) (suc j) until d lt over =
        let d1 = (inb ps2_cmd d).1 in
        let now = (pit d1).ticks in
        elim (Bool-cases (ready (inb ps2_cmd d).0)) [
          | inl r ↦ rw r
          | inr waits ↦ elim (dec_lt now until) [
            | no reached ↦ rw (waits, ltb-false now until (omega arith))
            | yes early ↦
                rw (waits, ltb-true now until early)
                  (out_in_time rounds j until d1 (omega arith) over)
          ]
        ]

    -- A wait ends after `j` rounds and one if the clock is still at most the end of the timeout after
    -- some round before, and has reached it after round `j`, or earlier, when the controller is ready.
    wait_loop-ends :
        (rounds i j until : ℕ) (d : D)
        → i < j
        → j < rounds
        → clock i d ≤ until
        → until ≤ clock j d
        → is_some (
            wait_loop inb outb pit fuel ready rounds
              (record { wait_until = until; state = waiting_until_overflow })
              d)
          ≡ true
    unfolding wait_loop poll
    wait_loop-ends zero i j until d lt lt' under over = absurd (omega arith)
    wait_loop-ends (suc rounds) i zero until d lt lt' under over = absurd (omega arith)
    wait_loop-ends (suc rounds) zero (suc j) until d lt lt' under over =
        let d1 = (inb ps2_cmd d).1 in
        elim (Bool-cases (ready (inb ps2_cmd d).0)) [
          | inl r ↦ rw r
          | inr waits ↦
              rw (waits, ltb-false until (pit d1).ticks under)
                (out_in_time rounds j until d1 (omega arith) over)
        ]
    wait_loop-ends (suc rounds) (suc i) (suc j) until d lt lt' under over =
        let d1 = (inb ps2_cmd d).1 in
        elim (Bool-cases (ready (inb ps2_cmd d).0)) [
          | inl r ↦ rw r
          | inr waits ↦ elim (dec_lt until (pit d1).ticks) [
            | yes overflow ↦
                rw (waits, ltb-true until (pit d1).ticks overflow)
                  (wait_loop-ends rounds i j until d1 (omega arith) (omega arith) under over)
            | no reached ↦
                rw (waits, ltb-false until (pit d1).ticks (omega arith))
                  (out_in_time rounds j until d1 (omega arith) over)
          ]
        ]

  -- Where the clock, at most at the end of the timeout after some reading of the status, has reached
  -- it after reading `j`, `ps2_write` ends, within `j` rounds and one, whether the controller
  -- accepts the command or not.
  pub ps2_write-ends :
      (io_port command i j : ℕ) (s : Ps2 D)
      → i < j
      → j < fuel
      → clock i s.device ≤ (make_timeout ps2_timeout (pit s.device)).wait_until
      → (make_timeout ps2_timeout (pit s.device)).wait_until ≤ clock j s.device
      → is_some (ps2_write inb outb pit fuel io_port command s) ≡ true
  unfolding ps2_write wait_for make_timeout
  ps2_write-ends io_port command i j s lt lt' under over =
      bind-ends (wait_for inb outb pit fuel (λ status. not (inbuf_full status)) s.device) _
        (bind-ends
          (wait_loop inb outb pit fuel (λ status. not (inbuf_full status)) fuel
            (make_timeout ps2_timeout (pit s.device)) s.device)
          _
          (wait_loop-ends (λ status. not (inbuf_full status)) fuel i j
            (make_timeout ps2_timeout (pit s.device)).wait_until s.device lt lt' under over)
          (λ r. refl))
        (λ r. if-ends r.0 _ _)

  -- A port test whose answer does not come in time passes: the result of a read that times out is 0,
  -- which is the result that the test of a port expects.
  pub ps2_test-timeout :
      (command : ℕ) (s s1 : Ps2 D) (d : D)
      → write inb outb pit fuel ps2_cmd command s ≡ some s1
      → wait_for inb outb pit fuel (available any_port) s1.device ≡ some (true, d)
      → ps2_test inb outb pit fuel command 0 s
        ≡ some (true, record s1 { device = d; err = timeout_err })
  unfolding ps2_test ps2_read
  ps2_test-timeout command s s1 d written late = rw (written, late)
