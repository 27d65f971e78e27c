-- ===== src/Mouse/Tests.antt =====
-- Tests of the mouse driver.
use unnamed_os.Base.{◌≡◌, refl, true, false, [], arith, ok, update}
use unnamed_os.Mouse.{Mouse, handle_data, moved}
use unnamed_os.Mouse.Position.{IsPlaced, handle_data-IsPlaced}

-- The last byte of a packet that moves the mouse by 10 to the right and by 5 down.
abbrev moving : Mouse
moving = record {
  packet_buf = update (update (λ _. 0) 0 40) 1 10;
  packet_len = 2;
  event = record {
    x = 995;
    y = 3;
    screen_x = 78;
    screen_y = 0;
    left = false;
    right = false;
    middle = false;
  };
  handler = true;
  delivered = [];
}

handle_data-IsPlaced_example : (s' : Mouse) × (handle_data 251 moving ≡ ok s') × IsPlaced s'
handle_data-IsPlaced_example = handle_data-IsPlaced 251 moving (record {
  x_small = omega arith;
  y_small = omega arith;
  screen_x_small = omega arith;
  screen_y_small = omega arith;
  len_small = omega arith;
})

-- The right edge stops the mouse.
edge : moved 995 10 1000 ≡ 1000
unfolding moved
edge = refl

-- A movement of -5 at 3.
corner : moved 3 65531 750 ≡ 0
unfolding moved
corner = refl
