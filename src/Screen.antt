-- ===== src/Screen.antt =====
-- The text screen, `src/kernel/hardware/io/output.c`: the cursor, the attribute, and the video
-- memory, byte by byte. Logs go to a port, and are left out.
pub mod Cursor
mod Tests
use unnamed_os.Base.{
  ℕ, zero, suc, ◌+◌, ◌-◌, ◌*◌, ◌%◌, Bool, ltb, ◌==◌, if◌then◌else◌, update, u32, sub32,
}

abbrev io_cols : ℕ
io_cols = 80

abbrev io_rows : ℕ
io_rows = 25

abbrev io_chars : ℕ
io_chars = io_cols * io_rows

-- The static variables; `video` is the memory from `video` on.
pub record Screen : Type 0 where
  pub video : ℕ → ℕ
  pub attr : ℕ
  pub cursor : ℕ
  pub logging_enabled : Bool

-- `io_setchar` and `io_setattr`.
unfoldable pub setchar : (c pos : ℕ) → Screen → Screen
setchar c pos s = record s { video = update s.video (pos % io_chars * 2) c }

unfoldable pub setattr : (attr pos : ℕ) → Screen → Screen
setattr attr pos s = record s { video = update s.video (pos % io_chars * 2 + 1) attr }

-- `io_attr`, with the old attribute.
unfoldable set_attr : (new_attr : ℕ) → Screen → ℕ × Screen
set_attr new_attr s = (s.attr, record s { attr = new_attr })

-- `io_cursor`, with the old cursor; the argument is an `int32_t`, negative from 2 ^ 31 on.
unfoldable set_cursor : (new_cursor : ℕ) → Screen → ℕ × Screen
set_cursor new_cursor s =
    (s.cursor, if ltb new_cursor 2147483648 then record s { cursor = new_cursor } else s)

-- `io_putchar`; 10 ends the line.
unfoldable pub putchar : (c : ℕ) → Screen → Screen
putchar c s =
    if c == 10
    then record s { cursor = sub32 (u32 (s.cursor + io_cols)) (s.cursor % io_cols) }
    else (let shown = setattr s.attr s.cursor (setchar c s.cursor s) in
        record shown { cursor = u32 (s.cursor + 1) % io_chars })

-- `io_clear`, with `io_putchar` as its argument: the loop, and the function.
unfoldable clear_loop : (rounds : ℕ) → Screen → Screen
clear_loop zero s = s
clear_loop (suc rounds) s = clear_loop rounds (putchar 0 s)

unfoldable clear : Screen → Screen
clear s = clear_loop io_chars (set_cursor 0 s).1

-- `io_set_logging`.
abbrev set_logging : Bool → Screen → Screen
set_logging enabled s = record s { logging_enabled = enabled }
