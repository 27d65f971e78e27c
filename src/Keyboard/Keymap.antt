-- ===== src/Keyboard/Keymap.antt =====
-- The tables of `src/kernel/hardware/io/keyboard.c`: the keys of scancode set 2, in the order in
-- which `keyboard_get_keycode_from_scancode` tries them, and the German layout.
use Prim.Native.String.{String}
use unnamed_os.Base.{ℕ, List, [], ◌∷◌, ◌++◌, bit_or, ◌<<<◌, replicate}

-- `KEYCODE`.
abbrev make_keycode : (row col : ℕ) → ℕ
make_keycode row col = bit_or (row <<< 5) col

-- The arguments of one `MAKE_KEYCODE`.
pub record Key : Type 0 where
  pub name : String
  pub keycode : ℕ
  pub scancode : List ℕ

abbrev key : String → (row col : ℕ) → List ℕ → Key
key name row col scancode = record {
  name = name;
  keycode = make_keycode row col;
  scancode = scancode;
}

abbrev pub keys : List Key
keys =
    key "POWER" 0 0 (224 ∷ 55 ∷ [])
    ∷ key "ESC" 1 0 (118 ∷ [])
    ∷ key "SLEEP" 0 1 (224 ∷ 63 ∷ [])
    ∷ key "F1" 1 1 (5 ∷ [])
    ∷ key "WAKE" 0 2 (224 ∷ 94 ∷ [])
    ∷ key "F2" 1 2 (6 ∷ [])
    ∷ key "NEXT TRCK" 0 3 (224 ∷ 77 ∷ [])
    ∷ key "F3" 1 3 (4 ∷ [])
    ∷ key "PREV TRCK" 0 4 (224 ∷ 21 ∷ [])
    ∷ key "F4" 1 4 (12 ∷ [])
    ∷ key "STOP" 0 5 (224 ∷ 59 ∷ [])
    ∷ key "F5" 1 5 (3 ∷ [])
    ∷ key "PLAY" 0 6 (224 ∷ 52 ∷ [])
    ∷ key "F6" 1 6 (11 ∷ [])
    ∷ key "MUTE" 0 7 (224 ∷ 35 ∷ [])
    ∷ key "F7" 1 7 (131 ∷ [])
    ∷ key "VOL UP" 0 8 (224 ∷ 50 ∷ [])
    ∷ key "F8" 1 8 (10 ∷ [])
    ∷ key "VOL DN" 0 9 (224 ∷ 33 ∷ [])
    ∷ key "F9" 1 9 (1 ∷ [])
    ∷ key "MEDIA SEL" 0 10 (224 ∷ 80 ∷ [])
    ∷ key "F10" 1 10 (9 ∷ [])
    ∷ key "MAIL" 0 11 (224 ∷ 72 ∷ [])
    ∷ key "F11" 1 11 (120 ∷ [])
    ∷ key "CALC" 0 12 (224 ∷ 43 ∷ [])
    ∷ key "F12" 1 12 (7 ∷ [])
    ∷ key "COMPUTER" 0 13 (224 ∷ 64 ∷ [])
    ∷ key "PRNT SCRN" 1 13 (224 ∷ 18 ∷ 224 ∷ 124 ∷ [])
    ∷ key "WWW SRCH" 0 14 (224 ∷ 16 ∷ [])
    ∷ key "SCROLL" 1 14 (126 ∷ [])
    ∷ key "WWW HOME" 0 15 (224 ∷ 58 ∷ [])
    ∷ key "PAUSE" 1 15 (225 ∷ 20 ∷ 119 ∷ 225 ∷ 240 ∷ 20 ∷ 240 ∷ 119 ∷ [])
    ∷ key "WWW BACK" 0 16 (224 ∷ 56 ∷ [])
    ∷ key "WWW FORW" 0 17 (224 ∷ 48 ∷ [])
    ∷ key "WWW STOP" 0 18 (224 ∷ 40 ∷ [])
    ∷ key "WWW REFR" 0 19 (224 ∷ 32 ∷ [])
    ∷ key "WWW FAVR" 0 20 (224 ∷ 24 ∷ [])
    ∷ key "`" 2 0 (14 ∷ [])
    ∷ key "TAB" 3 0 (13 ∷ [])
    ∷ key "1" 2 1 (22 ∷ [])
    ∷ key "Q" 3 1 (21 ∷ [])
    ∷ key "2" 2 2 (30 ∷ [])
    ∷ key "W" 3 2 (29 ∷ [])
    ∷ key "3" 2 3 (38 ∷ [])
    ∷ key "E" 3 3 (36 ∷ [])
    ∷ key "4" 2 4 (37 ∷ [])
    ∷ key "R" 3 4 (45 ∷ [])
    ∷ key "5" 2 5 (46 ∷ [])
    ∷ key "T" 3 5 (44 ∷ [])
    ∷ key "6" 2 6 (54 ∷ [])
    ∷ key "Y" 3 6 (53 ∷ [])
    ∷ key "7" 2 7 (61 ∷ [])
    ∷ key "U" 3 7 (60 ∷ [])
    ∷ key "8" 2 8 (62 ∷ [])
    ∷ key "I" 3 8 (67 ∷ [])
    ∷ key "9" 2 9 (70 ∷ [])
    ∷ key "O" 3 9 (68 ∷ [])
    ∷ key "0" 2 10 (69 ∷ [])
    ∷ key "P" 3 10 (77 ∷ [])
    ∷ key "-" 2 11 (78 ∷ [])
    ∷ key "[" 3 11 (84 ∷ [])
    ∷ key "=" 2 12 (85 ∷ [])
    ∷ key "]" 3 12 (91 ∷ [])
    ∷ key "BKSP" 2 13 (102 ∷ [])
    ∷ key "\\" 3 13 (93 ∷ [])
    ∷ key "INSERT" 2 14 (224 ∷ 112 ∷ [])
    ∷ key "DELETE" 3 14 (224 ∷ 113 ∷ [])
    ∷ key "HOME" 2 15 (224 ∷ 108 ∷ [])
    ∷ key "END" 3 15 (224 ∷ 105 ∷ [])
    ∷ key "PG UP" 2 16 (224 ∷ 125 ∷ [])
    ∷ key "PG DN" 3 16 (224 ∷ 122 ∷ [])
    ∷ key "NUM" 2 17 (119 ∷ [])
    ∷ key "KP 7" 3 17 (108 ∷ [])
    ∷ key "KP /" 2 18 (224 ∷ 74 ∷ [])
    ∷ key "KP 8" 3 18 (117 ∷ [])
    ∷ key "KP *" 2 19 (124 ∷ [])
    ∷ key "KP 9" 3 19 (125 ∷ [])
    ∷ key "KP -" 2 20 (123 ∷ [])
    ∷ key "KP +" 3 20 (121 ∷ [])
    ∷ key "CAPS" 4 0 (88 ∷ [])
    ∷ key "L SHFT" 5 0 (18 ∷ [])
    ∷ key "A" 4 1 (28 ∷ [])
    ∷ key "<" 5 1 (97 ∷ [])
    ∷ key "S" 4 2 (27 ∷ [])
    ∷ key "Z" 5 2 (26 ∷ [])
    ∷ key "D" 4 3 (35 ∷ [])
    ∷ key "X" 5 3 (34 ∷ [])
    ∷ key "F" 4 4 (43 ∷ [])
    ∷ key "C" 5 4 (33 ∷ [])
    ∷ key "G" 4 5 (52 ∷ [])
    ∷ key "V" 5 5 (42 ∷ [])
    ∷ key "H" 4 6 (51 ∷ [])
    ∷ key "B" 5 6 (50 ∷ [])
    ∷ key "J" 4 7 (59 ∷ [])
    ∷ key "N" 5 7 (49 ∷ [])
    ∷ key "K" 4 8 (66 ∷ [])
    ∷ key "M" 5 8 (58 ∷ [])
    ∷ key "L" 4 9 (75 ∷ [])
    ∷ key "," 5 9 (65 ∷ [])
    ∷ key ";" 4 10 (76 ∷ [])
    ∷ key "." 5 10 (73 ∷ [])
    ∷ key "'" 4 11 (82 ∷ [])
    ∷ key "/" 5 11 (74 ∷ [])
    ∷ key "ENTER" 4 12 (90 ∷ [])
    ∷ key "R SHFT" 5 12 (89 ∷ [])
    ∷ key "KP 4" 4 13 (107 ∷ [])
    ∷ key "U ARROW" 5 13 (224 ∷ 117 ∷ [])
    ∷ key "KP 5" 4 14 (115 ∷ [])
    ∷ key "KP 1" 5 14 (105 ∷ [])
    ∷ key "KP 6" 4 15 (116 ∷ [])
    ∷ key "KP 2" 5 15 (114 ∷ [])
    ∷ key "KP 3" 5 16 (122 ∷ [])
    ∷ key "KP EN" 5 17 (224 ∷ 90 ∷ [])
    ∷ key "L CTRL" 6 0 (20 ∷ [])
    ∷ key "R CTRL" 6 7 (224 ∷ 20 ∷ [])
    ∷ key "L GUI" 6 1 (224 ∷ 31 ∷ [])
    ∷ key "L ARROW" 6 8 (224 ∷ 107 ∷ [])
    ∷ key "L ALT" 6 2 (17 ∷ [])
    ∷ key "D ARROW" 6 9 (224 ∷ 114 ∷ [])
    ∷ key "SPACE" 6 3 (41 ∷ [])
    ∷ key "R ARROW" 6 10 (224 ∷ 116 ∷ [])
    ∷ key "R ALT" 6 4 (224 ∷ 17 ∷ [])
    ∷ key "KP 0" 6 11 (112 ∷ [])
    ∷ key "R GUI" 6 5 (224 ∷ 39 ∷ [])
    ∷ key "KP ." 6 12 (113 ∷ [])
    ∷ key "APPS" 6 6 (224 ∷ 47 ∷ [])
    ∷ []

-- `qwertz_layout`: what each row of 32 keycodes types, without and with the shift key. The array
-- has 256 entries; C fills the ones that it does not list with 0.
abbrev pub plain_layout : List ℕ
plain_layout =
    replicate 32 0
    ++ replicate 32 0
    ++ (94 ∷ 49 ∷ 50 ∷ 51 ∷ 52 ∷ 53 ∷ 54 ∷ 55 ∷ 56 ∷ 57 ∷ 48 ∷ 0 ∷ 0 ∷ 0 ∷ 0 ∷ 0 ∷ 0 ∷ 0 ∷ 47 ∷ 42
        ∷ 45 ∷ [])
    ++ replicate 11 0
    ++ (9 ∷ 113 ∷ 119 ∷ 101 ∷ 114 ∷ 116 ∷ 122 ∷ 117 ∷ 105 ∷ 111 ∷ 112 ∷ 0 ∷ 43 ∷ 35 ∷ 0 ∷ 0 ∷ 0 ∷ 55
        ∷ 56 ∷ 57 ∷ 43 ∷ [])
    ++ replicate 11 0
    ++ (0 ∷ 97 ∷ 115 ∷ 100 ∷ 102 ∷ 103 ∷ 104 ∷ 106 ∷ 107 ∷ 108 ∷ 0 ∷ 0 ∷ 10 ∷ 52 ∷ 53 ∷ 54 ∷ [])
    ++ replicate 16 0
    ++ (0 ∷ 60 ∷ 121 ∷ 120 ∷ 99 ∷ 118 ∷ 98 ∷ 110 ∷ 109 ∷ 44 ∷ 46 ∷ 45 ∷ 0 ∷ 0 ∷ 49 ∷ 50 ∷ 51 ∷ 10
        ∷ [])
    ++ replicate 14 0
    ++ (0 ∷ 0 ∷ 0 ∷ 32 ∷ 0 ∷ 0 ∷ 0 ∷ 0 ∷ 0 ∷ 0 ∷ 0 ∷ 48 ∷ 46 ∷ [])
    ++ replicate 19 0
    ++ replicate 32 0

abbrev pub shift_layout : List ℕ
shift_layout =
    replicate 32 0
    ++ replicate 32 0
    ++ (0 ∷ 33 ∷ 34 ∷ 0 ∷ 36 ∷ 37 ∷ 38 ∷ 47 ∷ 40 ∷ 41 ∷ 61 ∷ 63 ∷ 0 ∷ 0 ∷ 0 ∷ 0 ∷ 0 ∷ 0 ∷ 47 ∷ 42
        ∷ 45 ∷ [])
    ++ replicate 11 0
    ++ (9 ∷ 81 ∷ 87 ∷ 69 ∷ 82 ∷ 84 ∷ 90 ∷ 85 ∷ 73 ∷ 79 ∷ 80 ∷ 0 ∷ 42 ∷ 39 ∷ 0 ∷ 0 ∷ 0 ∷ 55 ∷ 56 ∷ 57
        ∷ 43 ∷ [])
    ++ replicate 11 0
    ++ (0 ∷ 65 ∷ 83 ∷ 68 ∷ 70 ∷ 71 ∷ 72 ∷ 74 ∷ 75 ∷ 76 ∷ 0 ∷ 0 ∷ 10 ∷ 52 ∷ 53 ∷ 54 ∷ [])
    ++ replicate 16 0
    ++ (0 ∷ 62 ∷ 89 ∷ 88 ∷ 67 ∷ 86 ∷ 66 ∷ 78 ∷ 77 ∷ 59 ∷ 58 ∷ 95 ∷ 0 ∷ 0 ∷ 49 ∷ 50 ∷ 51 ∷ 10 ∷ [])
    ++ replicate 14 0
    ++ (0 ∷ 0 ∷ 0 ∷ 32 ∷ 0 ∷ 0 ∷ 0 ∷ 0 ∷ 0 ∷ 0 ∷ 0 ∷ 48 ∷ 46 ∷ [])
    ++ replicate 19 0
    ++ replicate 32 0
