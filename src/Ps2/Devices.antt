-- ===== src/Ps2/Devices.antt =====
-- The set-up of the PS/2 controller and of its devices, and its interrupt,
-- `src/kernel/hardware/io/ps2.c`, with the initialisation of the drivers in
-- `src/kernel/hardware/io/keyboard.c` and `src/kernel/hardware/io/mouse.c`.
use unnamed_os.Base.{
  ℕ, zero, suc, Bool, true, false, not, ◌&&◌, Option, none, some, ◌==◌, if◌then◌else◌, List, [],
  ◌∷◌, Outcome, ok, fault,
}
use unnamed_os.Keyboard
use unnamed_os.Keyboard.{leds}
use unnamed_os.Mouse
use unnamed_os.Mouse.{resolution, sample_rate}
use unnamed_os.Pit.{Pit, Timeout, make_timeout, is_timed_out}
use unnamed_os.Ps2.{
  ◌>>=◌, Ps2, Port, port_1, port_2, ps2_cmd, ps2_data, ps2_timeout, device_ack, device_test_passed,
  has_bit, set_bit, clear_bit, write, ps2_read_config, ps2_write_config, ps2_test, ps2_flush,
  ps2_write_device_no_ack, ps2_read_device, write_device,
}

-- The bits of `ps2_config_t`.
abbrev port1_intr : ℕ
port1_intr = 1

abbrev port2_intr : ℕ
port2_intr = 2

abbrev port2_clock : ℕ
port2_clock = 32

abbrev port1_transl : ℕ
port1_transl = 64

-- The drivers in the controller's state.
abbrev with_keyboard : {D : Type 0} → Ps2 D → Outcome Keyboard.Keyboard → Outcome (Ps2 D)
with_keyboard s (ok k) = ok (record s { keyboard = k })
with_keyboard s (fault e) = fault e

abbrev pub with_mouse : {D : Type 0} → Ps2 D → Outcome Mouse.Mouse → Outcome (Ps2 D)
with_mouse s (ok m) = ok (record s { mouse = m })
with_mouse s (fault e) = fault e

module _ {D : Type 0} (inb : ℕ → D → ℕ × D) (outb : ℕ → ℕ → D → D) (pit : D → Pit) (fuel : ℕ) where
  -- The loop of `ps2_reset_device`.
  unfoldable reset_loop : Port → (rounds : ℕ) → Timeout → Ps2 D → Option (Timeout × Ps2 D)
  reset_loop port zero t s = none
  reset_loop port (suc rounds) t s =
      let again = λ (t1 : Timeout) (s1 : Ps2 D). reset_loop port rounds t1 s1 in
      do
        (byte, err, s1) ← ps2_read_device inb outb pit fuel port s
        let s2 : Ps2 D = record s1 { err = err }
        let (out, t1) = is_timed_out t (pit s2.device)
        if byte == device_test_passed
            then some (t, s2)
            else if out == 0
            then again t1 s2
            else some (t1, s2)

  -- `ps2_reset_device`: whether it passed its test in time.
  unfoldable ps2_reset_device : Port → Ps2 D → Option (Bool × Ps2 D)
  ps2_reset_device port s = do
    (written, s1) ← ps2_write_device_no_ack inb outb pit fuel port 255 s
    (t, s2) ← reset_loop port fuel (make_timeout ps2_timeout (pit s1.device)) s1
    let (out, t1) = is_timed_out t (pit s2.device)
    some (out == 0, s2)

  abbrev pub test : (test_command expected_result : ℕ) → Ps2 D → Option (Ps2 D)
  test test_command expected_result s = do
    (passed, s1) ← ps2_test inb outb pit fuel test_command expected_result s
    some s1

  -- A command that is written only if there is a second port.
  abbrev if_port_2 : (Ps2 D → Option (Ps2 D)) → Ps2 D → Option (Ps2 D)
  if_port_2 run s = let s1 = run s in if s.port2_supported then s1 else some s

  -- The part of `ps2_init_controller` that finds out by its clock whether there is a second port.
  unfoldable probe_port_2 : Ps2 D → Option (Ps2 D)
  probe_port_2 s = do
    s1 ← write inb outb pit fuel ps2_cmd 168 s
    (config, s2) ← ps2_read_config inb outb pit fuel s1
    let absent : Ps2 D = record s2 { port2_supported = false }
    let present = write inb outb pit fuel ps2_cmd 167 s2
    if has_bit port2_clock config then some absent else present

  -- The configuration that `ps2_init_controller` writes first: no interrupts and no translation.
  abbrev quiet_config : (config : ℕ) → ℕ
  quiet_config config = clear_bit port1_transl (clear_bit port2_intr (clear_bit port1_intr config))

  -- `ps2_init_controller`.
  unfoldable ps2_init_controller : Ps2 D → Option (Ps2 D)
  ps2_init_controller s = do
    s1 ← write inb outb pit fuel ps2_cmd 173 s
    s2 ← write inb outb pit fuel ps2_cmd 167 s1
    s3 ← ps2_flush inb outb pit fuel s2
    (config, s4) ← ps2_read_config inb outb pit fuel s3
    let s5 : Ps2 D = record s4 {
      port2_supported = s4.port2_supported && has_bit port2_clock config;
    }
    s6 ← ps2_write_config inb outb pit fuel (quiet_config config) s5
    s7 ← test 170 85 s6
    s8 ← if_port_2 probe_port_2 s7
    s9 ← test 171 0 s8
    s10 ← if_port_2 (test 169 0) s9
    s11 ← write inb outb pit fuel ps2_cmd 174 s10
    s12 ← if_port_2 (write inb outb pit fuel ps2_cmd 168) s11
    (config', s13) ← ps2_read_config inb outb pit fuel s12
    let enabled = set_bit port1_intr config'
    ps2_write_config inb outb pit fuel
        (if s13.port2_supported then set_bit port2_intr enabled else enabled) s13

  -- `keyboard_scancode_set`, for a set to write.
  unfoldable pub keyboard_scancode_set : (scancode_set : ℕ) → Ps2 D → Option (Ps2 D)
  keyboard_scancode_set scancode_set s = do
    s1 ← write_device inb outb pit fuel port_1 240 s
    s2 ← write_device inb outb pit fuel port_1 scancode_set s1
    (config, s3) ← ps2_read_config inb outb pit fuel s2
    ps2_write_config inb outb pit fuel (clear_bit port1_transl config) s3

  -- `keyboard_init`: the LEDs go off, and the scancode set is 2, untranslated. The keyboard's
  -- port is port 1.
  unfoldable pub keyboard_init : Ps2 D → Option (Ps2 D)
  keyboard_init s = do
    let keyboard = leds 7 0 s.keyboard
    s1 ← write_device inb outb pit fuel port_1 237 (record s { keyboard = keyboard })
    s2 ← write_device inb outb pit fuel port_1 keyboard.led_state s1
    keyboard_scancode_set 2 s2

  -- Bytes passed to `ps2_write_device` one after the other.
  unfoldable write_bytes : Port → List ℕ → Ps2 D → Option (Ps2 D)
  write_bytes port [] s = some s
  write_bytes port (b ∷ bs) s = do
    s1 ← write_device inb outb pit fuel port b s
    write_bytes port bs s1

  -- `mouse_init`; neither setting is read. The mouse's port is port 2.
  unfoldable mouse_init : Ps2 D → Option (Ps2 D)
  mouse_init s = do
    s1 ← write_bytes port_2 (resolution (0, 0) 4).1 s
    write_bytes port_2 (sample_rate (0, 0) 40).1 s1

  abbrev reset : Port → Ps2 D → Option (Ps2 D)
  reset port s = do (passed, s1) ← ps2_reset_device port s; some s1

  -- `ps2_init_devices`.
  unfoldable ps2_init_devices : Ps2 D → Option (Ps2 D)
  ps2_init_devices s = do
    s1 ← reset port_1 s
    s2 ← if_port_2 (reset port_2) s1
    s3 ← ps2_flush inb outb pit fuel s2
    s4 ← write_device inb outb pit fuel port_1 245 s3
    s5 ← ps2_flush inb outb pit fuel s4
    s6 ← if_port_2 (write_device inb outb pit fuel port_2 245) s5
    s7 ← ps2_flush inb outb pit fuel s6
    s8 ← keyboard_init s7
    s9 ← if_port_2 mouse_init s8
    s10 ← write_device inb outb pit fuel port_1 244 s9
    s11 ← if_port_2 (write_device inb outb pit fuel port_2 244) s10
    ps2_flush inb outb pit fuel (record s11 { init_done = true })

  -- `ps2_init`, without the registration of the interrupt.
  unfoldable ps2_init : Ps2 D → Option (Ps2 D)
  ps2_init s = do s1 ← ps2_init_controller s; ps2_init_devices s1

  -- `ps2_reboot`.
  abbrev ps2_reboot : Ps2 D → Option (Ps2 D)
  ps2_reboot s = write inb outb pit fuel ps2_cmd 254 s

  -- What `ps2_handle_interrupt` does with a byte that is no acknowledgement.
  abbrev pub dispatch : (intr byte : ℕ) → Ps2 D → Outcome (Ps2 D)
  dispatch intr byte s =
      if intr == 33
      then with_keyboard s (Keyboard.handle_data byte s.keyboard)
      else if intr == 44
      then with_mouse s (Mouse.handle_data byte s.mouse)
      else ok s

  -- `ps2_handle_interrupt`.
  unfoldable pub ps2_handle_interrupt : (intr : ℕ) → Ps2 D → Outcome (Ps2 D)
  ps2_handle_interrupt intr s =
      let (byte, d) = inb ps2_data s.device in
      let s1 : Ps2 D = record s { device = d } in
      if not s.init_done
      then ok s
      else if (intr == 44) && not s.port2_supported
      then ok s
      else if byte == device_ack
      then ok s1
      else dispatch intr byte s1
