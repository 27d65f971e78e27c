-- ===== src/Keyboard/PrintScreen.antt =====
-- What the release of the print screen key, the bytes E0 F0 7C E0 F0 12, leaves behind. The test
-- that `keyboard_handle_data` makes for this scancode never succeeds, because the byte F0 does not
-- stay in the buffer.
use unnamed_os.Base.{
  ℕ, ◌≡◌, ◌∙◌, refl, ap, false, List, [], ◌∷◌, ◌++◌, Outcome, ok, fault, ◌>>=◌, update,
}
use unnamed_os.Keyboard.{
  Keyboard, break_received, special_received, process_scancode, handle_data, handle_bytes, dispatch,
  process_special_scancode, switch_state,
}
use unnamed_os.Keyboard.KeyStates.{ready, process_scancode-ready}

after :
    (f g h : Keyboard → Outcome Keyboard) (o : Outcome Keyboard)
    → ((s : Keyboard) → f s ≡ (g s >>= h))
    → (o >>= f) ≡ ((o >>= g) >>= h)
after f g h (ok s) e = e s
after f g h (fault x) e = refl

handle_bytes-append :
    (xs ys : List ℕ) (s : Keyboard)
    → handle_bytes (xs ++ ys) s ≡ (handle_bytes xs s >>= handle_bytes ys)
unfolding handle_bytes
handle_bytes-append [] ys s = refl
handle_bytes-append (x ∷ xs) ys s =
    after (handle_bytes (xs ++ ys)) (handle_bytes xs) (handle_bytes ys) (handle_data x s)
      (handle_bytes-append xs ys)

first_half : Keyboard → Keyboard
first_half s = process_scancode false (record s {
  state = break_received;
  scancode_len = 2;
  scancode_buf = update (update (update s.scancode_buf 0 224) 1 240) 1 124;
})

released :
    (s : Keyboard) → handle_bytes (224 ∷ 240 ∷ 124 ∷ []) (ready s) ≡ ok (ready (first_half s))
unfolding handle_bytes handle_data dispatch process_special_scancode switch_state first_half
released s = ap ok (
    process_scancode-ready false (record s {
      state = break_received;
      scancode_len = 2;
      scancode_buf = update (update (update s.scancode_buf 0 224) 1 240) 1 124;
    }))

waiting : Keyboard → Keyboard
waiting s = record s {
  state = special_received;
  scancode_len = 2;
  scancode_buf = update (update (update s.scancode_buf 0 224) 1 240) 1 18;
}

stuck : (s : Keyboard) → handle_bytes (224 ∷ 240 ∷ 18 ∷ []) (ready s) ≡ ok (waiting s)
unfolding handle_bytes handle_data dispatch process_special_scancode switch_state waiting
stuck s = refl

swallow :
    (byte : ℕ) (s : Keyboard)
    → handle_data byte (waiting s)
      ≡ ok (record (waiting s) {
        scancode_len = 3;
        scancode_buf = update (waiting s).scancode_buf 2 byte;
      })
unfolding handle_data dispatch process_special_scancode switch_state waiting
swallow byte s = refl

-- After the bytes of the release of print screen the driver still waits for two bytes of a special
-- scancode, and it swallows the byte that comes next: no key changes and no event is delivered.
pub print_screen_release :
    (byte : ℕ) (s : Keyboard)
    → (s1 : Keyboard) × (s2 : Keyboard) × (handle_bytes
          (224 ∷ 240 ∷ 124 ∷ 224 ∷ 240 ∷ 18 ∷ [])
          (ready s)
        ≡ ok s1)
      × (s1.state ≡ special_received)
      × (handle_data byte s1 ≡ ok s2)
      × (s2.state ≡ special_received)
      × (s2.key_states ≡ s1.key_states)
      × (s2.delivered ≡ s1.delivered)
unfolding waiting
print_screen_release byte s = (
  waiting (first_half s),
  record (waiting (first_half s)) {
    scancode_len = 3;
    scancode_buf = update (waiting (first_half s)).scancode_buf 2 byte;
  },
  handle_bytes-append (224 ∷ 240 ∷ 124 ∷ []) (224 ∷ 240 ∷ 18 ∷ []) (ready s)
      ∙ rw (released s) (stuck (first_half s)),
  refl,
  swallow byte (first_half s),
  refl,
  refl,
  refl,
)
