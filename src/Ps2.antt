-- ===== src/Ps2.antt =====
-- The controller of keyboard and mouse, `src/kernel/hardware/io/ps2.c`: commands with timeouts,
-- the set-up, and the interrupt.
-- The world outside is a parameter: `inb` and `outb` act on its state `D`, and `pit` reads the clock
-- of `src/kernel/hardware/pit.c` from it, which its interrupt advances meanwhile. The loops that
-- wait for the world run on fuel; `none` says that one is still waiting. The messages are left out.

pub mod Devices
pub mod Waiting
pub mod Interrupt
mod Tests
use unnamed_os.Base.{
  ℕ, zero, suc, ◌+◌, ◌-◌, ◌/◌, ◌%◌, Bool, true, false, not, ◌&&◌, ◌||◌, Option, none, some, ◌==◌,
  if◌then◌else◌,
}
use unnamed_os.Keyboard.{Keyboard}
use unnamed_os.Mouse.{Mouse}
use unnamed_os.Pit.{Pit, Timeout, make_timeout, is_timed_out}

infixl 5 ◌>>=◌
abbrev pub ◌>>=◌ : {A B : Type 0} → Option A → (A → Option B) → Option B
none >>= k = none
some a >>= k = k a

-- `PS2_DATA` and `PS2_CMD`.
abbrev pub ps2_data : ℕ
ps2_data = 96

abbrev pub ps2_cmd : ℕ
ps2_cmd = 100

-- `PS2_TIMEOUT` in milliseconds, and `ps2_error_t`.
abbrev pub ps2_timeout : ℕ
ps2_timeout = 1000

abbrev pub timeout_err : ℕ
timeout_err = 1

abbrev invalid_port_err : ℕ
invalid_port_err = 2

-- `DEVICE_ACK` and `DEVICE_TEST_PASSED`.
abbrev pub device_ack : ℕ
device_ack = 250

abbrev pub device_test_passed : ℕ
device_test_passed = 170

-- `ps2_port_t`.
pub data Port : Type 0 where
  any_port port_1 port_2 : Port

abbrev same_port : Port → Port → Bool
same_port any_port any_port = true
same_port port_1 port_1 = true
same_port port_2 port_2 = true
same_port _ _ = false

-- A bit of `ps2_status_t` or `ps2_config_t`, by its value, and the byte with the bit set or
-- cleared.
abbrev pub has_bit : (bit byte : ℕ) → Bool
has_bit bit byte = not (byte / bit % 2 == 0)

abbrev pub set_bit : (bit byte : ℕ) → ℕ
set_bit bit byte = if has_bit bit byte then byte else byte + bit

abbrev pub clear_bit : (bit byte : ℕ) → ℕ
clear_bit bit byte = if has_bit bit byte then byte - bit else byte

abbrev outbuf_full : ℕ → Bool
outbuf_full status = has_bit 1 status

abbrev pub inbuf_full : ℕ → Bool
inbuf_full status = has_bit 2 status

abbrev outbuf_port2 : ℕ → Bool
outbuf_port2 status = has_bit 32 status

-- What `ps2_available` makes of the status.
abbrev pub available : Port → (status : ℕ) → Bool
available any_port status = outbuf_full status
available port_1 status = outbuf_full status && not (outbuf_port2 status)
available port_2 status = outbuf_full status && outbuf_port2 status

-- The static variables, the world, and the two drivers that take the data.
pub record Ps2 (D : Type 0) : Type 0 where
  pub init_done : Bool
  pub port2_supported : Bool
  pub err : ℕ
  pub device : D
  pub keyboard : Keyboard
  pub mouse : Mouse

module _ {D : Type 0} (inb : ℕ → D → ℕ × D) (outb : ℕ → ℕ → D → D) (pit : D → Pit) (fuel : ℕ) where
  -- The loop `while (!ready && !pit_timed_out(&timeout));` for a test of the status.
  unfoldable pub wait_loop : (ready : ℕ → Bool) (rounds : ℕ) → Timeout → D → Option (Timeout × D)
  wait_loop ready zero t d = none
  wait_loop ready (suc rounds) t d =
      let (status, d1) = inb ps2_cmd d in
      let (out, t1) = is_timed_out t (pit d1) in
      let rest = wait_loop ready rounds t1 d1 in
      if ready status then some (t, d1) else if out == 0 then rest else some (t1, d1)

  -- The loop from a new timeout, and the test `if (pit_timed_out(&timeout))` behind it: whether
  -- there is a timeout.
  unfoldable pub wait_for : (ready : ℕ → Bool) → D → Option (Bool × D)
  wait_for ready d = do
    (t, d1) ← wait_loop ready fuel (make_timeout ps2_timeout (pit d)) d
    let (out, t1) = is_timed_out t (pit d1)
    some (not (out == 0), d1)

  -- `ps2_write`.
  unfoldable pub ps2_write : (io_port command : ℕ) → Ps2 D → Option (Bool × Ps2 D)
  ps2_write io_port command s = do
    (out, d) ← wait_for (λ status. not (inbuf_full status)) s.device
    if out
        then some (false, record s { device = d })
        else some (true, record s { device = outb io_port command d })

  -- A write whose result nobody reads.
  abbrev pub write : (io_port command : ℕ) → Ps2 D → Option (Ps2 D)
  write io_port command s = do (ok, s1) ← ps2_write io_port command s; some s1

  -- `ps2_read`: the byte, the error, and the state.
  unfoldable pub ps2_read : Port → Ps2 D → Option (ℕ × ℕ × Ps2 D)
  ps2_read port s = do
    (out, d) ← wait_for (available port) s.device
    let (byte, d1) = inb ps2_data d
    if out
        then some (0, timeout_err, record s { device = d })
        else some (byte, 0, record s { device = d1 })

  -- A read whose error goes to the static variable.
  abbrev pub read : Port → Ps2 D → Option (ℕ × Ps2 D)
  read port s = do (byte, err, s1) ← ps2_read port s; some (byte, record s1 { err = err })

  -- `ps2_read_config` and `ps2_write_config`.
  unfoldable pub ps2_read_config : Ps2 D → Option (ℕ × Ps2 D)
  ps2_read_config s = do s1 ← write ps2_cmd 32 s; read any_port s1

  unfoldable pub ps2_write_config : (config : ℕ) → Ps2 D → Option (Ps2 D)
  ps2_write_config config s = do s1 ← write ps2_cmd 96 s; write ps2_data config s1

  -- `ps2_test`.
  unfoldable pub ps2_test : (test_command expected_result : ℕ) → Ps2 D → Option (Bool × Ps2 D)
  ps2_test test_command expected_result s = do
    s1 ← write ps2_cmd test_command s
    (res, s2) ← read any_port s1
    some (res == expected_result, s2)

  -- `ps2_valid_port`.
  abbrev valid_port : Port → Ps2 D → Bool
  valid_port any_port s = false
  valid_port port_1 s = true
  valid_port port_2 s = s.port2_supported

  -- `ps2_flush`.
  unfoldable pub flush_loop : (rounds : ℕ) → Ps2 D → Option (Ps2 D)
  flush_loop zero s = none
  flush_loop (suc rounds) s =
      let (status, d) = inb ps2_cmd s.device in
      let s1 : Ps2 D = record s { device = d } in
      let rest = λ (r : ℕ × Ps2 D). flush_loop rounds r.1 in
      if outbuf_full status then read any_port s1 >>= rest else some s1

  abbrev pub ps2_flush : Ps2 D → Option (Ps2 D)
  ps2_flush s = flush_loop fuel s

  -- `ps2_write_device_no_ack`, `ps2_read_device` and `ps2_write_device`.
  unfoldable pub ps2_write_device_no_ack : Port → (command : ℕ) → Ps2 D → Option (Bool × Ps2 D)
  ps2_write_device_no_ack port command s =
      let selected = if same_port port port_2 then write ps2_cmd 212 s else some s in
      if not (valid_port port s)
      then some (false, s)
      else do s1 ← selected; s2 ← write ps2_data command s1; some (true, s2)

  unfoldable pub ps2_read_device : Port → Ps2 D → Option (ℕ × ℕ × Ps2 D)
  ps2_read_device port s =
      if not (valid_port port s) then some (0, invalid_port_err, s) else ps2_read port s

  unfoldable pub ps2_write_device : Port → (command : ℕ) → Ps2 D → Option (Bool × Ps2 D)
  ps2_write_device port command s = do
    (written, s1) ← ps2_write_device_no_ack port command s
    if written
        then (do
          (byte, err, s2) ← ps2_read_device port s1
          some (byte == device_ack, record s2 { err = err }))
        else some (false, s1)

  abbrev pub write_device : Port → (command : ℕ) → Ps2 D → Option (Ps2 D)
  write_device port command s = do (ok, s1) ← ps2_write_device port command s; some s1
