-- ===== src/Mouse.antt =====
-- The mouse driver, `src/kernel/hardware/io/mouse.c`: the assembly of packets, the position, and
-- the settings. A movement is an `int16_t`, kept as a 16-bit pattern.
-- The bytes written to the device and the events delivered are collected in lists; what the device
-- answers is an argument.
pub mod Position
pub mod Resolution
mod Tests
use unnamed_os.Base.{
  ℕ, zero, suc, ◌+◌, ◌-◌, ◌*◌, ◌/◌, ◌%◌, Bool, true, false, not, ◌&&◌, ◌||◌, List, [], ◌∷◌, ◌++◌,
  ltb, leb, ◌==◌, if◌then◌else◌, update, u8, u16, u32, sub32, ◌>>>◌, ◌<<<◌, bit_and, bit_or,
  Outcome, ok, fault, out_of_bounds,
}

abbrev packet_size : ℕ
packet_size = 3

abbrev flag_always_one : ℕ
flag_always_one = 8

abbrev x_max : ℕ
x_max = 1000

abbrev y_max : ℕ
y_max = 750

abbrev screen_width : ℕ
screen_width = 79

abbrev screen_height : ℕ
screen_height = 24

-- `dx_max` and `dy_max`.
abbrev delta_max : ℕ
delta_max = 150

-- `mouse_event_t`.
pub record Event : Type 0 where
  pub x : ℕ
  pub y : ℕ
  pub screen_x : ℕ
  pub screen_y : ℕ
  pub left : Bool
  pub right : Bool
  pub middle : Bool

-- The static variables, and the events delivered.
pub record Mouse : Type 0 where
  pub packet_buf : ℕ → ℕ
  pub packet_len : ℕ
  pub event : Event
  pub handler : Bool
  pub delivered : List Event

-- `map`.
abbrev pub map_range : (x in_min in_max out_min out_max : ℕ) → ℕ
map_range x in_min in_max out_min out_max =
    u32 (u32 (sub32 x in_min * sub32 out_max out_min) / sub32 in_max in_min + out_min)

-- A 16-bit pattern read as a signed number, 32768 too large.
abbrev biased : ℕ → ℕ
biased d = u16 (d + 32768)

-- `-d`, and `ABS`, on an `int16_t`.
abbrev negate : ℕ → ℕ
negate d = u16 (65536 - d)

abbrev abs : ℕ → ℕ
abs d = if ltb d 32768 then d else 65536 - d

-- `SUM_TOO_LOW` with a minimum of 0, and `SUM_TOO_HIGH`.
abbrev sum_too_low : (coord dcoord : ℕ) → Bool
sum_too_low coord dcoord = ltb (biased coord + biased dcoord) 65536

abbrev sum_too_high : (coord dcoord maximum : ℕ) → Bool
sum_too_high coord dcoord maximum = ltb (65536 + maximum) (biased coord + biased dcoord)

-- A coordinate after a movement.
unfoldable pub moved : (coord dcoord maximum : ℕ) → ℕ
moved coord dcoord maximum =
    if sum_too_low coord dcoord
    then 0
    else if sum_too_high coord dcoord maximum
    then maximum
    else u16 (coord + dcoord)

-- A bit of the first byte of a packet, `mouse_packet_t`.
abbrev pub flag : (byte k : ℕ) → Bool
flag byte k = bit_and (byte >>> k) 1 == 1

-- `dx` and `dy`: the sign extends the byte of the movement, and the vertical one is flipped.
abbrev pub extended : (sign : Bool) (movement : ℕ) → ℕ
extended sign movement = if sign then bit_or movement 65280 else movement

-- The part of `mouse_process_packet` that follows the checks.
unfoldable pub move_to : (flags dx dy : ℕ) → Mouse → Mouse
move_to flags dx dy s =
    let x = moved s.event.x dx x_max in
    let y = moved s.event.y dy y_max in
    let e : Event = record {
      x = x;
      y = y;
      screen_x = u8 (map_range x 0 x_max 0 screen_width);
      screen_y = u8 (map_range y 0 y_max 0 screen_height);
      left = flag flags 0;
      right = flag flags 1;
      middle = flag flags 2;
    } in
    record s { event = e; delivered = if s.handler then s.delivered ++ (e ∷ []) else s.delivered }

-- `mouse_process_packet`.
unfoldable pub process_packet : Mouse → Mouse
process_packet s =
    let flags = s.packet_buf 0 in
    let dx = extended (flag flags 4) (s.packet_buf 1) in
    let dy = negate (extended (flag flags 5) (s.packet_buf 2)) in
    let s' = record s { packet_len = 0 } in
    if flag flags 6 || flag flags 7
    then s'
    else if ltb delta_max (abs dx) || ltb delta_max (abs dy)
    then s'
    else move_to flags dx dy s'

-- `mouse_handle_data`. A store past the end of the buffer is a fault.
unfoldable pub handle_data : (byte : ℕ) → Mouse → Outcome Mouse
handle_data byte s =
    let stored = u32 (s.packet_len + 1) in
    let len = if stored == 1 && bit_and byte flag_always_one == 0 then 0 else stored in
    let s' = record s { packet_buf = update s.packet_buf s.packet_len byte; packet_len = len } in
    if ltb s.packet_len packet_size
    then ok (if len == packet_size then process_packet s' else s')
    else fault out_of_bounds

-- The loop of `mouse_resolution` that counts how often a resolution can be halved; eight rounds
-- are enough for a byte.
unfoldable pub log_loop : (rounds resolution value : ℕ) → ℕ
log_loop zero resolution value = value
log_loop (suc rounds) resolution value =
    let rest = log_loop rounds (resolution / 2) (value + 1) in
    if resolution / 2 == 0 then value else rest

-- `mouse_resolution` and `mouse_sample_rate`: the result, and the bytes written. The answer of the
-- device to `GET_STATUS` is `status`: its second byte is an exponent, its third the sample rate.
unfoldable pub resolution : (status : ℕ × ℕ) (wanted : ℕ) → ℕ × List ℕ
resolution (exponent, rate) wanted =
    if wanted == 0
    then (u8 (1 <<< exponent), 233 ∷ [])
    else if wanted == 1 || wanted == 2 || wanted == 4 || wanted == 8
    then (0, 232 ∷ log_loop 8 wanted 0 ∷ [])
    else (0, [])

unfoldable pub sample_rate : (status : ℕ × ℕ) (wanted : ℕ) → ℕ × List ℕ
sample_rate (exponent, rate) wanted =
    if wanted == 0
    then (rate, 233 ∷ [])
    else if wanted == 10
        || wanted == 20
        || wanted == 40
        || wanted == 60
        || wanted == 80
        || wanted == 100
        || wanted == 200
    then (wanted, 243 ∷ wanted ∷ [])
    else (0, [])
