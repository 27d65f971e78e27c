-- ===== src/Pit/Sleep.antt =====
-- Waiting for the timer, `src/kernel/hardware/pit.c`: `pit_sleep`, and the timeouts that its users
-- poll instead. The interrupt changes the ticks meanwhile: `clock n` is what the `n`-th reading of
-- the variables of the timer finds. The loops run on fuel; `none` says that one is still waiting.
use unnamed_os.Base.{
  ℕ, zero, suc, ◌+◌, ◌≡◌, refl, Option, none, some, ltb, ◌==◌, if◌then◌else◌, u32, Bool-cases, inl,
  inr,
}
use unnamed_os.Pit.{
  Pit, Timeout, waiting_until_overflow, waiting_until_timeout, ms_to_ticks, make_timeout,
  is_timed_out, poll,
}

module _ (clock : ℕ → Pit) where
  -- The two loops of `pit_sleep`, and the function: the number of the reading that ends it.
  unfoldable pub approach_loop : (fuel wait_until n : ℕ) → Option ℕ
  approach_loop zero wait_until n = none
  approach_loop (suc fuel) wait_until n =
      let rest = approach_loop fuel wait_until (n + 1) in
      if ltb (clock n).ticks wait_until then rest else some n

  unfoldable pub overflow_loop : (fuel wait_until n : ℕ) → Option ℕ
  overflow_loop zero wait_until n = none
  overflow_loop (suc fuel) wait_until n =
      let rest = overflow_loop fuel wait_until (n + 1) in
      if ltb wait_until (clock n).ticks then rest else approach_loop fuel wait_until (n + 1)

  unfoldable pub pit_sleep : (fuel ms : ℕ) → Pit → Option ℕ
  pit_sleep fuel ms p = overflow_loop fuel (u32 (p.ticks + ms_to_ticks ms p.freq)) 0

  -- The loop `while (!pit_timed_out(&timeout));` of the comment in `pit_sleep`.
  unfoldable pub poll_loop : (fuel : ℕ) → Timeout → (n : ℕ) → Option ℕ
  poll_loop zero t n = none
  poll_loop (suc fuel) t n =
      let (out, t') = is_timed_out t (clock n) in
      let rest = poll_loop fuel t' (n + 1) in if out == 0 then rest else some n

  approach_loop-poll :
      (fuel wait_until n : ℕ)
      → approach_loop fuel wait_until n
        ≡ poll_loop fuel (record { wait_until = wait_until; state = waiting_until_timeout }) n
  unfolding approach_loop poll_loop poll
  approach_loop-poll zero wait_until n = refl
  approach_loop-poll (suc fuel) wait_until n = elim (Bool-cases (ltb (clock n).ticks wait_until)) [
    | inl early ↦ rw early (approach_loop-poll fuel wait_until (n + 1))
    | inr reached ↦ rw reached
  ]

  overflow_loop-poll :
      (fuel wait_until n : ℕ)
      → overflow_loop fuel wait_until n
        ≡ poll_loop fuel (record { wait_until = wait_until; state = waiting_until_overflow }) n
  unfolding overflow_loop poll_loop poll
  overflow_loop-poll zero wait_until n = refl
  overflow_loop-poll (suc fuel) wait_until n = elim (Bool-cases (ltb wait_until (clock n).ticks)) [
    | inl overflow ↦ rw overflow (overflow_loop-poll fuel wait_until (n + 1))
    | inr reached ↦ rw reached (approach_loop-poll fuel wait_until (n + 1))
  ]

  -- Whatever the interrupt does to the ticks meanwhile, `pit_sleep` ends at the same reading of them as a
  -- loop that polls a timeout of the same length, or both wait still.
  pub pit_sleep-poll :
      (fuel ms : ℕ) (p : Pit) → pit_sleep fuel ms p ≡ poll_loop fuel (make_timeout ms p) 0
  unfolding pit_sleep make_timeout
  pit_sleep-poll fuel ms p = overflow_loop-poll fuel (u32 (p.ticks + ms_to_ticks ms p.freq)) 0
