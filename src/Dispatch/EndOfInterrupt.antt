-- ===== src/Dispatch/EndOfInterrupt.antt =====
-- Which interrupts are acknowledged, and how.
use unnamed_os.Base.{ℕ, ◌<◌, ◌≡◌, ap, ◌&&◌, some, [], ◌∷◌, arith, ok, ltb-true, leb, if◌then◌else◌}
use unnamed_os.Dispatch.{
  Frames, Tables, Handler, handle_interrupt, call_handler, send_eoi, is_irq, pic1_cmd, pic2_cmd,
  pic_eoi,
}

eoi_of :
    (n : ℕ)
    → n < 256
    → (if is_irq n then send_eoi n else []) ≡ (
        if leb 40 n && leb n 47
        then (pic2_cmd, pic_eoi) ∷ (pic1_cmd, pic_eoi) ∷ []
        else if leb 32 n && leb n 39
        then (pic1_cmd, pic_eoi) ∷ []
        else [])
unfolding send_eoi
eoi_of n h = ground arith

-- Whatever a registered handler does to the saved vector, an interrupt of a device is acknowledged
-- once it has returned, at the second controller too if it came from there, and no other
-- interrupt is.
pub handle_interrupt-eoi :
    (S : Type 0) (f : Frames S) (t : Tables S) (cpu cpu' : ℕ) (s s' : S) (handler : Handler S)
    → f.intr s cpu < 256
    → t.handlers (f.intr s cpu) ≡ some handler
    → handler cpu s ≡ ok (cpu', s')
    → handle_interrupt S f t cpu s
      ≡ ok (
        cpu',
        s',
        if leb 40 (f.intr s cpu) && leb (f.intr s cpu) 47
            then (pic2_cmd, pic_eoi) ∷ (pic1_cmd, pic_eoi) ∷ []
            else if leb 32 (f.intr s cpu) && leb (f.intr s cpu) 39
            then (pic1_cmd, pic_eoi) ∷ []
            else [],
      )
unfolding handle_interrupt call_handler
handle_interrupt-eoi S f t cpu cpu' s s' handler small registered returns =
    rw (ltb-true (f.intr s cpu) 256 small, registered, returns)
      (ap (λ w. ok (cpu', s', w)) (eoi_of (f.intr s cpu) small))
