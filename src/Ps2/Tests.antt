-- ===== src/Ps2/Tests.antt =====
-- The PS/2 controller in two worlds: one that never answers, and one that is a list of bytes.
use unnamed_os.Base.{ℕ, ◌+◌, ◌≡◌, refl, arith, true, false, some, is_some, [], ◌∷◌}
use unnamed_os.Keyboard.{Keyboard, start}
use unnamed_os.Mouse.{Mouse}
use unnamed_os.Pit.{Pit, make_timeout, poll}
use unnamed_os.Ps2.{
  Ps2, any_port, available, ps2_cmd, timeout_err, wait_loop, wait_for, write, ps2_write, ps2_test,
}
use unnamed_os.Ps2.Interrupt.{
  interrupts, set_up, mouse_of, mouse_bytes, without_ack, interrupts-without_ack,
}
use unnamed_os.Ps2.Waiting.{ps2_write-ends, ps2_test-timeout}

abbrev keyboard : Keyboard
keyboard = record {
  state = start;
  scancode_buf = λ _. 0;
  scancode_len = 0;
  event = record {
    keycode = 0;
    pressed = false;
    ascii = 0;
    flags = record {
      shift = false;
      ctrl = false;
      gui = false;
      alt = false;
      scroll_lock = false;
      num_lock = false;
      caps_lock = false;
    };
  };
  key_states = λ _. 0;
  led_state = 0;
  handler = true;
  written = [];
  delivered = [];
}

abbrev mouse : Mouse
mouse = record {
  packet_buf = λ _. 0;
  packet_len = 0;
  event = record {
    x = 0;
    y = 0;
    screen_x = 0;
    screen_y = 0;
    left = false;
    right = false;
    middle = false;
  };
  handler = true;
  delivered = [];
}

-- Every read takes a tick, of which there are 50 in a second.
abbrev clock_of : ℕ → Pit
clock_of ticks = record { freq = 50; seconds = 0; minutes = 0; hours = 0; ticks = ticks }

abbrev always : ℕ → ℕ → ℕ → ℕ × ℕ
always status port ticks = (status, ticks + 1)

abbrev ignore : ℕ → ℕ → ℕ → ℕ
ignore port value ticks = ticks

abbrev controller : Ps2 ℕ
controller = record {
  init_done = false;
  port2_supported = true;
  err = 0;
  device = 0;
  keyboard = keyboard;
  mouse = mouse;
}

-- The input buffer stays full.
ps2_write-ends_example : is_some (ps2_write (always 2) ignore clock_of 60 100 173 controller) ≡ true
unfolding make_timeout
ps2_write-ends_example =
    ps2_write-ends (always 2) ignore clock_of 60 100 173 0 49 controller (omega arith) (omega arith)
      (omega arith) (omega arith)

written :
    write (always 0) ignore clock_of 60 ps2_cmd 169 controller
    ≡ some (record controller { device = 1 })
unfolding ps2_write wait_for wait_loop poll make_timeout
written = refl

late : wait_for (always 0) ignore clock_of 60 (available any_port) 1 ≡ some (true, 51)
unfolding wait_for wait_loop poll make_timeout
late = refl

-- No answer comes to the test of port 2.
ps2_test-timeout_example :
    ps2_test (always 0) ignore clock_of 60 169 0 controller
    ≡ some (true, record controller { device = 51; err = timeout_err })
ps2_test-timeout_example =
    ps2_test-timeout (always 0) ignore clock_of 60 169 controller (record controller { device = 1 })
      51 written late

-- A packet whose third byte is 0xFA.
interrupts-without_ack_example :
    mouse_of (
      interrupts
        (λ p v d. d)
        (λ d. clock_of 0)
        (8 ∷ 3 ∷ 250 ∷ [])
        (set_up (8 ∷ 3 ∷ 250 ∷ []) 0 keyboard mouse))
    ≡ mouse_bytes (without_ack (8 ∷ 3 ∷ 250 ∷ [])) mouse
interrupts-without_ack_example =
    interrupts-without_ack (λ p v d. d) (λ d. clock_of 0) 0 keyboard (8 ∷ 3 ∷ 250 ∷ []) mouse
