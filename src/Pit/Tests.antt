-- ===== src/Pit/Tests.antt =====
-- Tests of the timer, at 100 Hz.
use unnamed_os.Base.{u32, some, ℕ, ◌+◌, ◌*◌, ◌/◌, ◌≤◌, ◌<◌, ◌≡◌, refl, true, [], ◌∷◌, arith, ok}
use unnamed_os.Pit.{Pit, init_channel, init_byte, pit_freq, tick, make_timeout, is_timed_out, poll}
use unnamed_os.Pit.Counter.{init_channel-writes}
use unnamed_os.Pit.Clock.{IsTime, tick-IsTime}
use unnamed_os.Pit.Sleep.{pit_sleep, overflow_loop, approach_loop, poll_loop, pit_sleep-poll}

init_channel-writes_example :
    (lo : ℕ) × (hi : ℕ) × (init_channel 0 2 100
      ≡ (true, (67, init_byte 2 0) ∷ (64 + 0, lo) ∷ (64 + 0, hi) ∷ []))
    × (lo + 256 * hi ≡ pit_freq / 100)
    × (lo < 256)
    × (hi < 256)
    × (2 ≤ lo + 256 * hi)
init_channel-writes_example = init_channel-writes 0 2 100 (omega arith) (omega arith)

-- One tick before one hour is over.
abbrev late : Pit
late = record { freq = 100; seconds = 59; minutes = 59; hours = 0; ticks = 359999 }

tick-IsTime_example :
    (p' : Pit) × (tick late ≡ ok p')
    × (p'.ticks ≡ 360000)
    × (p'.freq ≡ 100)
    × IsTime p' (360000 / 100)
tick-IsTime_example =
    tick-IsTime late (omega arith) (omega arith)
      (record { seconds = omega arith; minutes = omega arith; total = refl })

-- A timeout of one second.
waiting : (is_timed_out (is_timed_out (make_timeout 1000 late) late).1 late).0 ≡ 0
unfolding poll make_timeout
waiting = refl

-- A timer near the end of its range, which overflows at the second reading.
abbrev sleeping : Pit
sleeping = record { freq = 100; seconds = 0; minutes = 0; hours = 0; ticks = 4294967290 }

abbrev overflowing : ℕ → Pit
overflowing n = record sleeping { ticks = u32 (4294967290 + 4 * n) }

pit_sleep-poll_example :
    pit_sleep overflowing 10 100 sleeping ≡ poll_loop overflowing 10 (make_timeout 100 sleeping) 0
pit_sleep-poll_example = pit_sleep-poll overflowing 10 100 sleeping

sleeps : pit_sleep overflowing 10 100 sleeping ≡ some 3
unfolding pit_sleep overflow_loop approach_loop
sleeps = refl
