-- ===== src/Pit.antt =====
-- The timer, `src/kernel/hardware/pit.c`: the setting of a channel, the clock that its interrupt
-- keeps, and the timeouts that its users poll. The bytes written to ports are collected in a list.
-- `pit_sleep`, which waits in a loop for the interrupt to change the ticks, is in Sleep.
pub mod Counter
pub mod Clock
pub mod Sleep
pub mod Speaker
mod Tests
use unnamed_os.Base.{
  ℕ, ◌+◌, ◌-◌, ◌*◌, ◌/◌, ◌%◌, Bool, true, false, not, ◌||◌, List, [], ◌∷◌, ltb, ◌==◌, if◌then◌else◌,
  u8, u16, u32, ◌>>>◌, ◌<<<◌, Outcome, ok, fault, division_by_zero, ◌>>=◌,
}
use unnamed_os.Schedule.{Sched, schedule}

abbrev pub pit_freq : ℕ
pit_freq = 1193182

abbrev pub mode_rate : ℕ
mode_rate = 2

-- The static variables.
pub record Pit : Type 0 where
  pub freq : ℕ
  pub seconds : ℕ
  pub minutes : ℕ
  pub hours : ℕ
  pub ticks : ℕ

-- `pit_init_t`, whose fields fill a byte from the lowest bit on.
abbrev pub init_byte : (mode channel : ℕ) → ℕ
init_byte mode channel = ((mode % 8) <<< 1) + (3 <<< 4) + ((channel % 4) <<< 6)

-- `pit_init_channel`: whether the frequency is possible, and the writes, as port and byte.
unfoldable pub init_channel : (channel mode freq : ℕ) → Bool × List (ℕ × ℕ)
init_channel channel mode freq =
    if ltb freq 19 || ltb (pit_freq / 2) freq
    then (false, [])
    else (let counter = u16 (pit_freq / freq) in
        (
          true,
          (67, init_byte mode channel)
              ∷ (64 + channel, u8 counter)
              ∷ (64 + channel, counter >>> 8)
              ∷ [],
        ))

-- `pit_init`, without the registration of the interrupt.
unfoldable pub init : (new_freq : ℕ) → Pit → Pit × List (ℕ × ℕ)
init new_freq p =
    let (possible, writes) = init_channel 0 mode_rate new_freq in
    (if possible then record p { freq = new_freq } else p, writes)

-- The clock of `pit_handle_interrupt` when a second, and when a minute, is over.
unfoldable pub minute_over : Pit → Pit
minute_over p =
    let minutes = u32 (p.minutes + 1) in
    if minutes % 60 == 0
    then record p { seconds = 0; minutes = 0; hours = u32 (p.hours + 1) }
    else record p { seconds = 0; minutes = minutes }

unfoldable pub second_over : Pit → Pit
second_over p =
    let seconds = u32 (p.seconds + 1) in
    if seconds % 60 == 0 then minute_over p else record p { seconds = seconds }

unfoldable pub tick : Pit → Outcome Pit
tick p =
    let p' = record p { ticks = u32 (p.ticks + 1) } in
    if p.freq == 0
    then fault division_by_zero
    else if p'.ticks % p.freq == 0
    then ok (second_over p')
    else ok p'

-- `pit_handle_interrupt`.
unfoldable pub handle_interrupt :
    {V : Type 0} → (ℕ → V → V) → (cpu : ℕ) → Pit × Sched V → Outcome (ℕ × Pit × Sched V)
handle_interrupt load cpu (p, s) = do
  p' ← tick p
  (cpu', s') ← schedule load cpu s
  ok (cpu', p', s')

-- `pit_timeout_t`.
pub data TimeoutState : Type 0 where
  invalid waiting_until_overflow waiting_until_timeout timed_out : TimeoutState

pub record Timeout : Type 0 where
  pub wait_until : ℕ
  pub state : TimeoutState

-- `MS_TO_TICKS` and `pit_make_timeout`.
abbrev pub ms_to_ticks : (ms freq : ℕ) → ℕ
ms_to_ticks ms freq = u32 (freq * ms) / 1000

unfoldable pub make_timeout : (ms : ℕ) → Pit → Timeout
make_timeout ms p = record {
  wait_until = u32 (p.ticks + ms_to_ticks ms p.freq);
  state = waiting_until_overflow;
}

-- `pit_timed_out`: the answer, where 255 is the -1 of a `int8_t`, and the timeout.
unfoldable pub poll : TimeoutState → (wait_until : ℕ) → Pit → ℕ × Timeout
poll invalid wait_until p = (255, record { wait_until = wait_until; state = invalid })
poll waiting_until_overflow wait_until p =
    if ltb wait_until p.ticks
    then (0, record { wait_until = wait_until; state = waiting_until_overflow })
    else (0, record { wait_until = wait_until; state = waiting_until_timeout })
poll waiting_until_timeout wait_until p =
    if ltb p.ticks wait_until
    then (0, record { wait_until = wait_until; state = waiting_until_timeout })
    else (1, record { wait_until = wait_until; state = timed_out })
poll timed_out wait_until p = (1, record { wait_until = wait_until; state = timed_out })

abbrev pub is_timed_out : Timeout → Pit → ℕ × Timeout
is_timed_out t p = poll t.state t.wait_until p
