-- ===== src/Screen/Tests.antt =====
-- Tests of the screen.
use unnamed_os.Base.{◌≡◌, refl, true}
use unnamed_os.Screen.{Screen, putchar}

abbrev last_line : Screen
last_line = record { video = λ _. 0; attr = 7; cursor = 1930; logging_enabled = true }

-- A line end on the last line moves the cursor one past the last cell.
past_the_end : (putchar 10 last_line).cursor ≡ 2000
unfolding putchar
past_the_end = refl
