-- ===== src/Screen/Cursor.antt =====
-- Characters go to the place of the cursor, inside the video memory.
use unnamed_os.Base.{
  ℕ, ◌+◌, ◌*◌, ◌%◌, ◌≤◌, ◌<◌, ◌≡◌, ◌≢◌, refl, arith, ◌==◌, if◌then◌else◌, ==-false,
}
use unnamed_os.Screen.{Screen, putchar, setchar, setattr}

-- While the cursor is at most one past the last cell, a character that does not end the line
-- appears with the current attribute at the cursor, or in the first cell if it is past the last
-- one, no other byte of the video memory changes, and the cursor moves on to a cell of the screen.
putchar-shows :
    (c a : ℕ) (s : Screen)
    → c ≢ 10
    → s.cursor ≤ 2000
    → ((putchar c s).video a ≡ (
        if a == s.cursor % 2000 * 2 + 1
        then s.attr
        else if a == s.cursor % 2000 * 2
        then c
        else s.video a))
      × ((putchar c s).cursor < 2000)
unfolding putchar setchar setattr
putchar-shows c a s ne small = rw (==-false c 10 ne) (refl, omega arith)
