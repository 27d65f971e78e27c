-- ===== src/Keyboard.antt =====
-- The keyboard driver, `src/kernel/hardware/io/keyboard.c`: the state machine that puts scancodes
-- together from the bytes that the keyboard sends, the table of keys, the bitmap of the keys that
-- are pressed, and the modifier keys.
-- The bytes that the driver passes to `ps2_write_device`, whose result it ignores, and the events
-- that it passes to its handler are collected in lists. `keyboard_scancode_set` and
-- `keyboard_init`, which only set the device up, are in Ps2.Devices.
mod Keymap
pub mod Protocol
pub mod KeyStates
pub mod PrintScreen
mod Tests
use Prim.Native.Nat.{bit_xor}
use Prim.Native.String.{String}
use text.Mathlib.Text.{◌==◌ as ◌=str=◌}
use unnamed_os.Base.{
  ℕ, zero, suc, ◌+◌, ◌-◌, ◌/◌, ◌%◌, Bool, true, false, not, ◌&&◌, ◌||◌, List, [], ◌∷◌, ◌++◌, get_or,
  ltb, leb, ◌==◌, if◌then◌else◌, update, bit_and, bit_or, sub32, u32, ◌>>>◌, ◌<<<◌, Outcome, ok,
  fault, out_of_bounds, ◌>>=◌,
}
use unnamed_os.Keyboard.Keymap.{Key, keys, plain_layout, shift_layout}

abbrev scancode_size : ℕ
scancode_size = 8

abbrev break_code : ℕ
break_code = 240

abbrev extended_code : ℕ
extended_code = 224

abbrev key_unknown : ℕ
key_unknown = 255

-- `keyboard_state`.
pub data State : Type 0 where
  start break_received extended_received special_received : State

-- `keyboard_flags_t` and `keyboard_event_t`.
pub record Flags : Type 0 where
  pub shift : Bool
  pub ctrl : Bool
  pub gui : Bool
  pub alt : Bool
  pub scroll_lock : Bool
  pub num_lock : Bool
  pub caps_lock : Bool

pub record Event : Type 0 where
  pub keycode : ℕ
  pub pressed : Bool
  pub ascii : ℕ
  pub flags : Flags

-- The static variables of keyboard.c, the bytes written to the device and the events delivered.
pub record Keyboard : Type 0 where
  pub state : State
  pub scancode_buf : ℕ → ℕ
  pub scancode_len : ℕ
  pub event : Event
  pub key_states : ℕ → ℕ
  pub led_state : ℕ
  pub handler : Bool
  pub written : List ℕ
  pub delivered : List Event

-- `scancode_compare`, over the bytes from `i` on; the buffer to compare with is filled up with 0.
unfoldable pub scancode_compare : (rounds i : ℕ) → (ℕ → ℕ) → List ℕ → Bool
scancode_compare zero i buf compare_buf = true
scancode_compare (suc rounds) i buf compare_buf =
    let rest = scancode_compare rounds (i + 1) buf compare_buf in
    if buf i == get_or compare_buf i 0 then rest else false

-- `keyboard_get_keycode_from_scancode` with a scancode, and with a length of 0, as
-- `keyboard_get_keycode` calls it with a name.
unfoldable pub keycode_loop : List Key → (buf : ℕ → ℕ) (len : ℕ) → ℕ
keycode_loop [] buf len = key_unknown
keycode_loop (k ∷ ks) buf len =
    let rest = keycode_loop ks buf len in
    if scancode_compare len 0 buf k.scancode then k.keycode else rest

unfoldable pub get_keycode_from_scancode : (buf : ℕ → ℕ) (len : ℕ) → ℕ
get_keycode_from_scancode buf len = keycode_loop keys buf len

unfoldable pub name_loop : List Key → String → ℕ
name_loop [] name = key_unknown
name_loop (k ∷ ks) name =
    let rest = name_loop ks name in if k.name =str= name then k.keycode else rest

unfoldable pub get_keycode : String → ℕ
get_keycode name = name_loop keys name

-- `keyboard_get_key_pressed` and `keyboard_set_key_pressed`, on the bitmap.
unfoldable pub get_key_pressed : (ℕ → ℕ) → (keycode : ℕ) → Bool
get_key_pressed key_states keycode = bit_and (key_states (keycode / 8) >>> (keycode % 8)) 1 == 1

unfoldable pub set_key_pressed : (keycode : ℕ) (value : Bool) → (ℕ → ℕ) → ℕ → ℕ
set_key_pressed keycode true key_states =
    update key_states (keycode / 8) (bit_or (key_states (keycode / 8)) (1 <<< (keycode % 8)))
set_key_pressed keycode false key_states =
    update key_states (keycode / 8)
      (bit_and (key_states (keycode / 8)) (255 - (1 <<< (keycode % 8))))

-- `keyboard_leds`: the `int8_t` argument is a byte, negative from 128 on.
unfoldable pub leds : (which value : ℕ) → Keyboard → Keyboard
leds which value s =
    let state =
      if leb 128 value
      then bit_xor s.led_state which
      else if ltb 0 value
      then bit_or s.led_state which
      else bit_and s.led_state (255 - which) in
    record s { led_state = state; written = s.written ++ (237 ∷ state ∷ []) }

-- `keyboard_leds_t`.
abbrev scroll : ℕ
scroll = 1

abbrev pub num : ℕ
num = 2

abbrev caps : ℕ
caps = 4

-- `keyboard_get_ascii_from_keycode`, with the layout in use.
abbrev get_ascii_from_keycode : (keycode : ℕ) → Flags → ℕ
get_ascii_from_keycode keycode flags =
    if flags.shift || flags.caps_lock
    then get_or shift_layout keycode 0
    else get_or plain_layout keycode 0

-- The keys whose state is not kept.
abbrev pub is_lock : (keycode : ℕ) → Bool
is_lock keycode =
    keycode == get_keycode "PAUSE"
    || keycode == get_keycode "SCROLL"
    || keycode == get_keycode "NUM"
    || keycode == get_keycode "CAPS"

-- `event.flags` after the modifier keys have been read off the bitmap.
unfoldable pub modifiers : (key_states : ℕ → ℕ) → Flags → Flags
modifiers key_states flags = record flags {
  shift =
      get_key_pressed key_states (get_keycode "L SHFT")
      || get_key_pressed key_states (get_keycode "R SHFT");
  ctrl =
      get_key_pressed key_states (get_keycode "L CTRL")
      || get_key_pressed key_states (get_keycode "R CTRL");
  gui =
      get_key_pressed key_states (get_keycode "L GUI")
      || get_key_pressed key_states (get_keycode "R GUI");
  alt =
      get_key_pressed key_states (get_keycode "L ALT")
      || get_key_pressed key_states (get_keycode "R ALT");
}

abbrev bit_of : Bool → ℕ
bit_of true = 1
bit_of false = 0

-- The toggling of a lock, and of its LED, by its key. `event.flags` is `flags`.
unfoldable pub toggle_locks : (keycode : ℕ) → Keyboard → Keyboard
toggle_locks keycode s =
    if keycode == get_keycode "SCROLL"
    then (let on = not s.event.flags.scroll_lock in
        let s' = leds scroll (bit_of on) s in
        record s' {
          event = record s'.event { flags = record s'.event.flags { scroll_lock = on } };
        })
    else if keycode == get_keycode "NUM"
    then (let on = not s.event.flags.num_lock in
        let s' = leds num (bit_of on) s in
        record s' { event = record s'.event { flags = record s'.event.flags { num_lock = on } } })
    else if keycode == get_keycode "CAPS"
    then (let on = not s.event.flags.caps_lock in
        let s' = leds caps (bit_of on) s in
        record s' { event = record s'.event { flags = record s'.event.flags { caps_lock = on } } })
    else s

-- `keyboard_process_scancode`.
unfoldable pub process_scancode : (is_makecode : Bool) → Keyboard → Keyboard
process_scancode is_makecode s =
    let keycode = get_keycode_from_scancode s.scancode_buf s.scancode_len in
    let key_states =
      if is_lock keycode then s.key_states else set_key_pressed keycode is_makecode s.key_states in
    let read = record s {
      event = record {
        keycode = keycode;
        pressed = is_makecode;
        ascii = get_ascii_from_keycode keycode s.event.flags;
        flags = modifiers key_states s.event.flags;
      };
      key_states = key_states;
    } in
    let locked = if is_makecode then toggle_locks keycode read else read in
    record locked {
      delivered =
          if locked.handler then locked.delivered ++ (locked.event ∷ []) else locked.delivered;
      state = start;
      scancode_len = 0;
    }

-- `keyboard_process_special_scancode`: whether the scancode is a special one, and the state.
unfoldable pub process_special_scancode :
    (condition : Bool) (len : ℕ) (is_breakcode : Bool) → Keyboard → Bool × Keyboard
process_special_scancode false len is_breakcode s = (false, s)
process_special_scancode true len is_breakcode s =
    let special = record s { state = special_received } in
    (true, if s.scancode_len == len then process_scancode is_breakcode special else special)

-- `IS_PAUSE_MK`, `IS_PR_SC_MK` and `IS_PR_BR_MK`.
abbrev pub is_pause : (buf : ℕ → ℕ) (len : ℕ) → Bool
is_pause buf len = leb 1 len && buf 0 == 225

abbrev pub is_print_screen : (buf : ℕ → ℕ) (len : ℕ) → Bool
is_print_screen buf len = leb 2 len && buf 0 == 224 && buf 1 == 18

abbrev pub is_print_screen_break : (buf : ℕ → ℕ) (len : ℕ) → Bool
is_print_screen_break buf len = leb 3 len && buf 0 == 224 && buf 1 == 240 && buf 2 == 124

-- The `switch` of `keyboard_handle_data`.
unfoldable pub switch_state : State → (byte : ℕ) → Keyboard → Keyboard
switch_state start byte s =
    if byte == break_code
    then record s { state = break_received }
    else if byte == extended_code
    then record s { state = extended_received }
    else process_scancode true s
switch_state break_received byte s = process_scancode false s
switch_state extended_received byte s =
    if byte == break_code then record s { state = break_received } else process_scancode true s
switch_state special_received byte s = s

-- `keyboard_handle_data` with the byte in the buffer.
unfoldable pub dispatch : (byte : ℕ) → Keyboard → Keyboard
dispatch byte s =
    let (pause, s1) = process_special_scancode (is_pause s.scancode_buf s.scancode_len) 8 true s in
    let (print_screen, s2) =
      process_special_scancode (is_print_screen s1.scancode_buf s1.scancode_len) 4 true s1 in
    let (break, s3) =
      process_special_scancode (is_print_screen_break s2.scancode_buf s2.scancode_len) 6 false s2 in
    if pause
    then s1
    else if print_screen
    then s2
    else if break
    then s3
    else switch_state s3.state byte s3

abbrev pub skip_break : State → ℕ → ℕ
skip_break break_received len = sub32 len 1
skip_break _ len = len

-- `keyboard_handle_data`. A store past the end of `scancode_buf` is a fault.
unfoldable pub handle_data : (byte : ℕ) → Keyboard → Outcome Keyboard
handle_data byte s =
    let len = skip_break s.state s.scancode_len in
    if ltb len scancode_size
    then ok (
        dispatch byte (record s {
          scancode_buf = update s.scancode_buf len byte;
          scancode_len = u32 (len + 1);
        }))
    else fault out_of_bounds

-- The bytes of a list, one after the other.
unfoldable pub handle_bytes : List ℕ → Keyboard → Outcome Keyboard
handle_bytes [] s = ok s
handle_bytes (byte ∷ bytes) s = do s' ← handle_data byte s; handle_bytes bytes s'
