-- ===== src/Mouse/Position.antt =====
-- The position stays on the screen, and packets fit their buffer.
use unnamed_os.Base.{
  ℕ, ◌+◌, ◌≤◌, ◌<◌, ◌≡◌, Bool, true, false, arith, ok, ltb-true, ◌==◌, if◌then◌else◌, Bool-cases,
  bit_and, update, ◌&&◌, ◌||◌, inl, inr, u32,
}
use unnamed_os.Mouse.{Mouse, moved, move_to, process_packet, handle_data, flag}

moved-le :
    (coord dcoord maximum : ℕ)
    → coord ≤ maximum
    → maximum ≤ 1000
    → moved coord dcoord maximum ≤ maximum
unfolding moved
moved-le coord dcoord maximum h small = ground arith

-- The position, the place on the screen and the buffer are within their bounds.
pub record IsPlaced (s : Mouse) : Type 0 where
  pub x_small : s.event.x ≤ 1000
  pub y_small : s.event.y ≤ 750
  pub screen_x_small : s.event.screen_x ≤ 79
  pub screen_y_small : s.event.screen_y ≤ 24
  pub len_small : s.packet_len < 3

move_to-IsPlaced : (flags dx dy : ℕ) (s : Mouse) → IsPlaced s → IsPlaced (move_to flags dx dy s)
unfolding move_to
move_to-IsPlaced flags dx dy s h =
    let hx = moved-le s.event.x dx 1000 h.x_small (omega arith) in
    let hy = moved-le s.event.y dy 750 h.y_small (omega arith) in
    record {
      x_small = hx;
      y_small = hy;
      screen_x_small = omega (arith, hx);
      screen_y_small = omega (arith, hy);
      len_small = h.len_small;
    }

process_packet-IsPlaced :
    (s : Mouse) → IsPlaced (record s { packet_len = 0 }) → IsPlaced (process_packet s)
unfolding process_packet
process_packet-IsPlaced s h =
    let flags = s.packet_buf 0 in
    let s' = record s { packet_len = 0 } in
    choose (flag flags 6 || flag flags 7) h (choose _ h (move_to-IsPlaced flags _ _ s' h))
  where
    choose :
        (b : Bool) {s1 s2 : Mouse} → IsPlaced s1 → IsPlaced s2 → IsPlaced (if b then s1 else s2)
    choose true h h' = h
    choose false h h' = h'

-- Whatever byte arrives, it is stored inside the three-byte buffer, and the position stays at most
-- 1000 by 750, and its place on the screen at most column 79 and line 24.
pub handle_data-IsPlaced :
    (byte : ℕ) (s : Mouse) → IsPlaced s → (s' : Mouse) × (handle_data byte s ≡ ok s') × IsPlaced s'
unfolding handle_data
handle_data-IsPlaced byte s h =
    let len =
      if u32 (s.packet_len + 1) == 1 && bit_and byte 8 == 0 then 0 else u32 (s.packet_len + 1) in
    let s1 = record s { packet_buf = update s.packet_buf s.packet_len byte; packet_len = len } in
    let placed : (n : ℕ) → n < 3 → IsPlaced (record s1 { packet_len = n }) = λ n small. record {
      x_small = h.x_small;
      y_small = h.y_small;
      screen_x_small = h.screen_x_small;
      screen_y_small = h.screen_y_small;
      len_small = small;
    } in
    (
      if len == 3 then process_packet s1 else s1,
      rw (ltb-true s.packet_len 3 h.len_small),
      elim (Bool-cases (len == 3)) [
        | inl t ↦ rw t (process_packet-IsPlaced s1 (placed 0 (omega arith)))
        | inr f ↦ rw f (placed len (ground (arith, h.len_small, f)))
      ],
    )
