-- ===== src/Ps2/Interrupt.antt =====
-- Which bytes reach the mouse driver through `ps2_handle_interrupt`, `src/kernel/hardware/io/ps2.c`.
use unnamed_os.Base.{
  ℕ, ◌≡◌, refl, true, List, [], ◌∷◌, Outcome, ok, fault, ◌>>=◌, ◌==◌, if◌then◌else◌, Bool-cases,
  inl, inr,
}
use unnamed_os.Keyboard.{Keyboard}
use unnamed_os.Mouse
use unnamed_os.Mouse.{Mouse}
use unnamed_os.Pit.{Pit}
use unnamed_os.Ps2.{Ps2, device_ack}
use unnamed_os.Ps2.Devices.{ps2_handle_interrupt, with_mouse}

-- A world that only has bytes to read.
abbrev stream : ℕ → List ℕ → ℕ × List ℕ
stream port [] = (0, [])
stream port (b ∷ bs) = (b, bs)

-- The interrupt of the mouse, as often as there are bytes in the first list.
abbrev pub interrupts :
    (ℕ → ℕ → List ℕ → List ℕ) → (List ℕ → Pit) → List ℕ → Ps2 (List ℕ) → Outcome (Ps2 (List ℕ))
interrupts outb pit [] s = ok s
interrupts outb pit (b ∷ bs) s =
    ps2_handle_interrupt stream outb pit 0 44 s >>= λ s1. interrupts outb pit bs s1

-- The driver on bytes that it is given one after the other, and the bytes that are no
-- acknowledgement.
abbrev pub mouse_bytes : List ℕ → Mouse → Outcome Mouse
mouse_bytes [] m = ok m
mouse_bytes (b ∷ bs) m = Mouse.handle_data b m >>= λ m1. mouse_bytes bs m1

abbrev pub without_ack : List ℕ → List ℕ
without_ack [] = []
without_ack (b ∷ bs) = if b == device_ack then without_ack bs else b ∷ without_ack bs

abbrev pub mouse_of : Outcome (Ps2 (List ℕ)) → Outcome Mouse
mouse_of (ok s) = ok s.mouse
mouse_of (fault e) = fault e

-- The controller, set up with two ports, and the bytes that wait in it.
abbrev pub set_up : List ℕ → (err : ℕ) → Keyboard → Mouse → Ps2 (List ℕ)
set_up bs err keyboard mouse = record {
  init_done = true;
  port2_supported = true;
  err = err;
  device = bs;
  keyboard = keyboard;
  mouse = mouse;
}

module _ (outb : ℕ → ℕ → List ℕ → List ℕ) (pit : List ℕ → Pit) (err : ℕ) (keyboard : Keyboard) where
  handled :
      (bs : List ℕ) (r : Outcome Mouse)
      → ((m : Mouse)
          → mouse_of (interrupts outb pit bs (set_up bs err keyboard m))
            ≡ mouse_bytes (without_ack bs) m)
      → (m : Mouse)
      → mouse_of (with_mouse (set_up bs err keyboard m) r >>= λ s1. interrupts outb pit bs s1)
        ≡ (r >>= λ m1. mouse_bytes (without_ack bs) m1)
  handled bs (fault f) ih m = refl
  handled bs (ok m1) ih m = ih m1

  -- Once the controller is set up with two ports, interrupts of the mouse that read the bytes of a
  -- list leave its driver in the state that it has after those of the bytes that are not 0xFA: a
  -- byte 0xFA of a packet is lost.
  pub interrupts-without_ack :
      (bs : List ℕ) (mouse : Mouse)
      → mouse_of (interrupts outb pit bs (set_up bs err keyboard mouse))
        ≡ mouse_bytes (without_ack bs) mouse
  unfolding ps2_handle_interrupt
  interrupts-without_ack [] mouse = refl
  interrupts-without_ack (b ∷ bs) mouse = elim (Bool-cases (b == device_ack)) [
    | inl ack ↦ rw ack (interrupts-without_ack bs mouse)
    | inr other ↦
        rw other (handled bs (Mouse.handle_data b mouse) (interrupts-without_ack bs) mouse)
  ]
