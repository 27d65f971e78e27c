-- ===== src/Keyboard/Protocol.antt =====
-- The state machine of `keyboard_handle_data`: how far the buffer is filled in each state, and so
-- that no byte is ever stored past its end.
use unnamed_os.Base.{
  ℕ, ◌+◌, ◌≤◌, ◌<◌, ◌≡◌, refl, ◌⊎◌, inl, inr, ◌≢◌, Bool, true, false, List, [], ◌∷◌, ◌==◌, update,
  u32, arith, ok, ltb-true, Bool-cases,
}
use unnamed_os.Keyboard.{
  Keyboard, State, start, break_received, extended_received, special_received, process_scancode,
  process_special_scancode, switch_state, dispatch, handle_data, handle_bytes, is_pause,
  is_print_screen, is_print_screen_break, skip_break,
}

-- What the buffer holds in each state.
abbrev Filled : State → (len : ℕ) (buf : ℕ → ℕ) → Type 0
Filled start len buf = len ≡ 0
Filled break_received len buf = (len ≡ 1) ⊎ ((len ≡ 2) × (buf 0 ≡ 224))
Filled extended_received len buf = (len ≡ 1) × (buf 0 ≡ 224)
Filled special_received len buf =
    ((buf 0 ≡ 225) × (1 ≤ len) × (len < 8)) ⊎ ((buf 0 ≡ 224) × (buf 1 ≡ 18) × (2 ≤ len) × (len < 4))

abbrev pub IsFilled : Keyboard → Type 0
IsFilled s = Filled s.state s.scancode_len s.scancode_buf

process_scancode-IsFilled : (m : Bool) (s : Keyboard) → IsFilled (process_scancode m s)
unfolding process_scancode
process_scancode-IsFilled m s = refl

-- What the buffer holds when a byte has just been stored in a state.
abbrev Stored : State → (byte len : ℕ) (buf : ℕ → ℕ) → Type 0
Stored start byte len buf = (len ≡ 1) × (buf 0 ≡ byte)
Stored break_received byte len buf = (len ≡ 1) ⊎ ((len ≡ 2) × (buf 0 ≡ 224))
Stored extended_received byte len buf = (len ≡ 2) × (buf 0 ≡ 224)
Stored special_received byte len buf =
    ((buf 0 ≡ 225) × (1 ≤ len) × (len ≤ 8)) ⊎ ((buf 0 ≡ 224) × (buf 1 ≡ 18) × (2 ≤ len) × (len ≤ 4))

abbrev put : State → (len : ℕ) (buf : ℕ → ℕ) → Keyboard → Keyboard
put st len buf s = record s { state = st; scancode_len = len; scancode_buf = buf }

switch-IsFilled :
    (st : State) (byte len : ℕ) (buf : ℕ → ℕ) (s : Keyboard)
    → Stored st byte len buf
    → is_pause buf len ≡ false
    → is_print_screen buf len ≡ false
    → IsFilled (switch_state st byte (put st len buf s))
unfolding switch_state
switch-IsFilled start byte len buf s (e, h) np ns = elim (Bool-cases (byte == 240)) [
  | inl t ↦ rw t (inl e)
  | inr f ↦ elim (Bool-cases (byte == 224)) [
    | inl t ↦ rw (f, t) (e, ground arith)
    | inr f' ↦ rw (f, f') (process_scancode-IsFilled true (put start len buf s))
  ]
]
switch-IsFilled break_received byte len buf s h np ns =
    process_scancode-IsFilled false (put break_received len buf s)
switch-IsFilled extended_received byte len buf s (e, h) np ns = elim (Bool-cases (byte == 240)) [
  | inl t ↦ rw t (inr (e, h))
  | inr f ↦ rw f (process_scancode-IsFilled true (put extended_received len buf s))
]
switch-IsFilled special_received byte len buf s (inl (e, h, k)) np ns = absurd (ground arith)
switch-IsFilled special_received byte len buf s (inr (e, h, k, l)) np ns = absurd (ground arith)

-- The bytes E0 F0 7C are never in the buffer together.
no_break :
    (st : State) (byte len : ℕ) (buf : ℕ → ℕ)
    → Stored st byte len buf
    → is_print_screen_break buf len ≡ false
no_break start byte len buf (e, h) = ground arith
no_break break_received byte len buf (inl e) = ground arith
no_break break_received byte len buf (inr (e, h)) = ground arith
no_break extended_received byte len buf (e, h) = ground arith
no_break special_received byte len buf (inl (e, h, k)) = ground arith
no_break special_received byte len buf (inr (e, h, k, l)) = ground arith

Stored-small : (st : State) (byte len : ℕ) (buf : ℕ → ℕ) → Stored st byte len buf → len ≤ 8
Stored-small start byte len buf (e, h) = omega arith
Stored-small break_received byte len buf (inl e) = omega arith
Stored-small break_received byte len buf (inr (e, h)) = omega arith
Stored-small extended_received byte len buf (e, h) = omega arith
Stored-small special_received byte len buf (inl (e, h, k)) = omega arith
Stored-small special_received byte len buf (inr (e, h, k, l)) = omega arith

print-small :
    (st : State) (byte len : ℕ) (buf : ℕ → ℕ)
    → Stored st byte len buf
    → is_print_screen buf len ≡ true
    → (buf 0 ≡ 224) × (buf 1 ≡ 18) × (2 ≤ len) × (len ≤ 4)
print-small start byte len buf (e, h) t = absurd (ground arith)
print-small break_received byte len buf (inl e) t = absurd (ground arith)
print-small break_received byte len buf (inr (e, h)) t =
    (ground arith, ground arith, omega arith, omega arith)
print-small extended_received byte len buf (e, h) t =
    (ground arith, ground arith, omega arith, omega arith)
print-small special_received byte len buf (inl (e, h, k)) t = absurd (ground arith)
print-small special_received byte len buf (inr (e, h, k, l)) t = (e, h, k, l)

special-IsFilled :
    (n len : ℕ) (m : Bool) (buf : ℕ → ℕ) (st : State) (s : Keyboard)
    → (len ≢ n → Filled special_received len buf)
    → IsFilled ((process_special_scancode true n m (put st len buf s)).1)
unfolding process_special_scancode
special-IsFilled n len m buf st s h = elim (Bool-cases (len == n)) [
  | inl t ↦ rw t (process_scancode-IsFilled m (put special_received len buf s))
  | inr f ↦ rw f (h (λ e. ground arith))
]

dispatch-IsFilled :
    (st : State) (byte len : ℕ) (buf : ℕ → ℕ) (s : Keyboard)
    → Stored st byte len buf
    → IsFilled (dispatch byte (put st len buf s))
unfolding dispatch process_special_scancode
dispatch-IsFilled st byte len buf s h = elim (Bool-cases (is_pause buf len)) [
  | inl t ↦ rw t (
      special-IsFilled 8 len true buf st s
        (λ ne. inl (ground arith, ground arith, ground (arith, Stored-small st byte len buf h))))
  | inr f ↦ elim (Bool-cases (is_print_screen buf len)) [
    | inl t ↦
        let (b0, b1, lo, hi) = print-small st byte len buf h t in
        rw (f, t) (special-IsFilled 4 len true buf st s (λ ne. inr (b0, b1, lo, ground arith)))
    | inr f' ↦ rw (f, f', no_break st byte len buf h) (switch-IsFilled st byte len buf s h f f')
  ]
]

store-Stored :
    (st : State) (byte len : ℕ) (buf : ℕ → ℕ)
    → Filled st len buf
    → (skip_break st len < 8)
      × Stored st byte (u32 (skip_break st len + 1)) (update buf (skip_break st len) byte)
store-Stored start byte len buf e = (ground arith, (ground arith, ground arith))
store-Stored break_received byte len buf (inl e) = (omega arith, inl (omega arith))
store-Stored break_received byte len buf (inr (e, h)) =
    (omega arith, inr (omega arith, ground arith))
store-Stored extended_received byte len buf (e, h) = (omega arith, (omega arith, ground arith))
store-Stored special_received byte len buf (inl (e, h, k)) =
    (k, inl (ground arith, omega arith, omega arith))
store-Stored special_received byte len buf (inr (e, h, k, l)) =
    (omega arith, inr (ground arith, ground arith, omega arith, omega arith))

-- Where the buffer is filled as the state says, a byte is stored inside of it, and the buffer is
-- again filled as the new state says.
handle_data-IsFilled :
    (byte : ℕ) (s : Keyboard)
    → IsFilled s
    → (s' : Keyboard) × (handle_data byte s ≡ ok s') × IsFilled s'
unfolding handle_data
handle_data-IsFilled byte s h =
    let (small, stored) = store-Stored s.state byte s.scancode_len s.scancode_buf h in
    let skip = skip_break s.state s.scancode_len in
    (
      dispatch byte (put s.state (u32 (skip + 1)) (update s.scancode_buf skip byte) s),
      rw (ltb-true skip 8 small),
      dispatch-IsFilled s.state byte (u32 (skip + 1)) (update s.scancode_buf skip byte) s stored,
    )

-- Whatever bytes arrive in whatever order, the driver never stores one past the end of its
-- eight-byte buffer, and leaves the buffer filled as its state says.
pub handle_bytes-IsFilled :
    (bytes : List ℕ) (s : Keyboard)
    → IsFilled s
    → (s' : Keyboard) × (handle_bytes bytes s ≡ ok s') × IsFilled s'
unfolding handle_bytes
handle_bytes-IsFilled [] s h = (s, refl, h)
handle_bytes-IsFilled (byte ∷ bytes) s h =
    let (s1, e, h1) = handle_data-IsFilled byte s h in
    let (s2, e2, h2) = handle_bytes-IsFilled bytes s1 h1 in (s2, rw e e2, h2)
