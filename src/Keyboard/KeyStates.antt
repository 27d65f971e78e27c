-- ===== src/Keyboard/KeyStates.antt =====
-- The bitmap of the pressed keys, and what a keystroke does to it.
use native.Mathlib.Nat.{pow-le-pow_right}
use unnamed_os.Base.{
  ℕ, ◌-◌, ◌*◌, ◌/◌, ◌%◌, ◌^◌, ◌<◌, ◌≡◌, ◌∙◌, refl, ap, ◌≢◌, Bool, true, false, List, [], ◌∷◌, ◌==◌,
  if◌then◌else◌, update, arith, ok, ==-false, bit_and, bit_or, ◌>>>◌,
}
use unnamed_os.Base.Bits.{
  bit_at, bit_at-or, bit_at-and, bit_at-pow, bit_at-not, bit_and-one, bit_at-lt,
}
use unnamed_os.Keyboard.Keymap.{Key, keys}
use unnamed_os.Keyboard.{
  Keyboard, State, start, break_received, process_scancode, handle_data, handle_bytes,
  get_key_pressed, set_key_pressed, get_keycode_from_scancode, keycode_loop, is_lock, toggle_locks,
  leds, dispatch, scancode_compare, process_special_scancode, switch_state,
}

power_small : (i : ℕ) → i < 8 → 2 ^ i < 256
power_small i h =
    omega (arith, pow-le-pow_right {n = 2} (omega arith) {i = i} {j = 7} (omega arith))

byte_set : (w i j : ℕ) → bit_at (bit_or w (1 * 2 ^ i)) j ≡ (if j == i then 1 else bit_at w j)
byte_set w i j = ground (arith, bit_at-or j w (2 ^ i), bit_at-pow i j, bit_at-lt w j)

byte_clear :
    (w i j : ℕ)
    → i < 8
    → j < 8
    → bit_at (bit_and w (255 - (1 * 2 ^ i))) j ≡ (if j == i then 0 else bit_at w j)
byte_clear w i j hi hj = ground (
  arith,
  bit_at-and j w (255 - 2 ^ i),
  bit_at-not 8 j (2 ^ i) (power_small i hi) hj,
  bit_at-pow i j,
  bit_at-lt w j,
)

pressed_bit : (b : ℕ → ℕ) (k : ℕ) → get_key_pressed b k ≡ (bit_at (b (k / 8)) (k % 8) == 1)
unfolding get_key_pressed
pressed_bit b k = rw (bit_and-one (b (k / 8) >>> (k % 8)))

-- Setting the state of a key sets the state of that key and of no other.
get_key_pressed-set :
    (k j : ℕ) (v : Bool) (b : ℕ → ℕ)
    → get_key_pressed (set_key_pressed k v b) j ≡ (if j == k then v else get_key_pressed b j)
unfolding set_key_pressed
get_key_pressed-set k j true b =
    rw (pressed_bit, pressed_bit) (ground (arith, byte_set (b (k / 8)) (k % 8) (j % 8)))
get_key_pressed-set k j false b =
    rw (pressed_bit, pressed_bit) (ground (arith, byte_clear (b (k / 8)) (k % 8) (j % 8)))

toggle_locks-key_states : (k : ℕ) (s : Keyboard) → (toggle_locks k s).key_states ≡ s.key_states
unfolding toggle_locks leds
toggle_locks-key_states k s = ground arith

process_scancode-key_states :
    (m : Bool) (s : Keyboard)
    → is_lock (get_keycode_from_scancode s.scancode_buf s.scancode_len) ≡ false
    → (process_scancode m s).key_states
      ≡ set_key_pressed (get_keycode_from_scancode s.scancode_buf s.scancode_len) m s.key_states
unfolding process_scancode
process_scancode-key_states true s h = rw (toggle_locks-key_states, h)
process_scancode-key_states false s h = rw h

-- The driver between two scancodes.
abbrev pub ready : Keyboard → Keyboard
ready s = record s { state = start; scancode_len = 0 }

pub process_scancode-ready :
    (m : Bool) (s : Keyboard) → process_scancode m s ≡ ready (process_scancode m s)
unfolding process_scancode
process_scancode-ready m s = refl

-- The keycode of a scancode of one byte.
abbrev pub keycode_of : (byte : ℕ) → ℕ
keycode_of byte = get_keycode_from_scancode (λ _. byte) 1

first_byte :
    (ks : List Key) (b : ℕ) (buf : ℕ → ℕ)
    → keycode_loop ks (update buf 0 b) 1 ≡ keycode_loop ks (λ _. b) 1
unfolding keycode_loop scancode_compare
first_byte [] b buf = refl
first_byte (k ∷ ks) b buf = rw (first_byte ks b buf)

keycode-first : (b : ℕ) (buf : ℕ → ℕ) → get_keycode_from_scancode (update buf 0 b) 1 ≡ keycode_of b
unfolding get_keycode_from_scancode
keycode-first b buf = first_byte keys b buf

abbrev loaded : State → (byte : ℕ) → Keyboard → Keyboard
loaded st b s = record s { state = st; scancode_len = 1; scancode_buf = update s.scancode_buf 0 b }

module _ (b : ℕ) (not_break : b ≢ 240) (not_extended : b ≢ 224) (not_pause : b ≢ 225) where
  make : (s : Keyboard) → handle_data b (ready s) ≡ ok (process_scancode true (loaded start b s))
  unfolding handle_data dispatch process_special_scancode switch_state
  make s = rw (==-false b 225 not_pause, ==-false b 240 not_break, ==-false b 224 not_extended)

  one_byte :
      (s : Keyboard)
      → handle_bytes (b ∷ []) (ready s) ≡ ok (process_scancode true (loaded start b s))
  unfolding handle_bytes
  one_byte s = rw (make s)

  states :
      (m : Bool) (st : State) (s : Keyboard)
      → is_lock (keycode_of b) ≡ false
      → (process_scancode m (loaded st b s)).key_states
        ≡ set_key_pressed (keycode_of b) m s.key_states
  states m st s h =
      process_scancode-key_states m (loaded st b s) (rw (keycode-first b s.scancode_buf) h)
      ∙ rw (keycode-first b s.scancode_buf)

  break :
      (s : Keyboard)
      → handle_bytes (240 ∷ b ∷ []) (ready s)
        ≡ ok (
            process_scancode false
              (loaded break_received b (record s { scancode_buf = update s.scancode_buf 0 240 })))
  unfolding handle_bytes handle_data dispatch process_special_scancode switch_state
  break s = rw (==-false b 225 not_pause)

  -- A scancode of one byte presses its key, and the same byte after the break code releases it;
  -- no other key changes. Both leave the driver ready for the next scancode.
  press-release :
      (s : Keyboard)
      → is_lock (keycode_of b) ≡ false
      → (s1 : Keyboard) × (s2 : Keyboard) × (handle_bytes (b ∷ []) (ready s) ≡ ok (ready s1))
        × ((j : ℕ)
            → get_key_pressed s1.key_states j
              ≡ (if j == keycode_of b then true else get_key_pressed s.key_states j))
        × (handle_bytes (240 ∷ b ∷ []) (ready s1) ≡ ok (ready s2))
        × ((j : ℕ)
            → get_key_pressed s2.key_states j
              ≡ (if j == keycode_of b then false else get_key_pressed s.key_states j))
  press-release s h =
      let s1 = process_scancode true (loaded start b s) in
      let s1' = record s1 { scancode_buf = update s1.scancode_buf 0 240 } in
      let s2 = process_scancode false (loaded break_received b s1') in
      (
        s1,
        s2,
        one_byte s ∙ ap ok (process_scancode-ready true (loaded start b s)),
        λ j. rw (states true start s h) (get_key_pressed-set (keycode_of b) j true s.key_states),
        break s1 ∙ ap ok (process_scancode-ready false (loaded break_received b s1')),
        λ j.
            rw (states false break_received s1' h, states true start s h)
              (get_key_pressed-set (keycode_of b) j false
                  (set_key_pressed (keycode_of b) true s.key_states)
                ∙ ground (arith, get_key_pressed-set (keycode_of b) j true s.key_states)),
      )
