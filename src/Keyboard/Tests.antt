-- ===== src/Keyboard/Tests.antt =====
-- Tests of the keyboard driver, on concrete keystrokes.
use unnamed_os.Base.{ℕ, ◌≡◌, refl, true, false, Bool, List, [], ◌∷◌, Outcome, ok}
use unnamed_os.Keyboard.{
  Keyboard, Event, Flags, start, special_received, handle_bytes, handle_data, get_keycode,
  get_keycode_from_scancode, get_key_pressed, set_key_pressed, is_lock, name_loop, keycode_loop,
  scancode_compare, process_scancode, dispatch, process_special_scancode, switch_state, modifiers,
  toggle_locks, leds,
}
use unnamed_os.Keyboard.Protocol.{IsFilled, handle_bytes-IsFilled}
use unnamed_os.Keyboard.KeyStates.{ready, keycode_of}
use unnamed_os.Keyboard.PrintScreen.{print_screen_release}

abbrev no_flags : Flags
no_flags = record {
  shift = false;
  ctrl = false;
  gui = false;
  alt = false;
  scroll_lock = false;
  num_lock = false;
  caps_lock = false;
}

-- The static initialisers.
abbrev initial : Keyboard
initial = record {
  state = start;
  scancode_buf = λ _. 0;
  scancode_len = 0;
  event = record { keycode = 0; pressed = false; ascii = 0; flags = no_flags };
  key_states = λ _. 0;
  led_state = 0;
  handler = true;
  written = [];
  delivered = [];
}

abbrev typed : Outcome Keyboard → List (ℕ × Bool × ℕ)
typed (ok s) = events s.delivered
  where
    events : List Event → List (ℕ × Bool × ℕ)
    events [] = []
    events (e ∷ es) = (e.keycode, e.pressed, e.ascii) ∷ events es
typed _ = []

-- The keycode of A is 129. With the shift key down it types A, and without it a.
shifted_a :
    typed (handle_bytes (18 ∷ 28 ∷ 240 ∷ 18 ∷ 240 ∷ 28 ∷ []) initial)
    ≡ (160, true, 0) ∷ (129, true, 65) ∷ (160, false, 0) ∷ (129, false, 97) ∷ []
unfolding handle_bytes handle_data get_keycode get_keycode_from_scancode get_key_pressed
    set_key_pressed name_loop keycode_loop scancode_compare process_scancode dispatch
    process_special_scancode switch_state modifiers toggle_locks leds
shifted_a = refl

handle_bytes-IsFilled_example :
    (s' : Keyboard) × (handle_bytes (225 ∷ 20 ∷ 119 ∷ 225 ∷ 240 ∷ 20 ∷ 240 ∷ 119 ∷ 224 ∷ []) initial
      ≡ ok s')
    × IsFilled s'
handle_bytes-IsFilled_example =
    handle_bytes-IsFilled (225 ∷ 20 ∷ 119 ∷ 225 ∷ 240 ∷ 20 ∷ 240 ∷ 119 ∷ 224 ∷ []) initial refl

letter : is_lock (keycode_of 28) ≡ false
unfolding get_keycode get_keycode_from_scancode name_loop keycode_loop scancode_compare
letter = refl

print_screen_release_example :
    (s1 : Keyboard) × (s2 : Keyboard) × (handle_bytes
        (224 ∷ 240 ∷ 124 ∷ 224 ∷ 240 ∷ 18 ∷ [])
        (ready initial)
      ≡ ok s1)
    × (s1.state ≡ special_received)
    × (handle_data 28 s1 ≡ ok s2)
    × (s2.state ≡ special_received)
    × (s2.key_states ≡ s1.key_states)
    × (s2.delivered ≡ s1.delivered)
print_screen_release_example = print_screen_release 28 initial
