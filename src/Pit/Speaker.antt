-- ===== src/Pit/Speaker.antt =====
-- The speaker, `src/kernel/hardware/io/speaker.c`. The state of its port is an argument; the writes
-- are collected in a list.
use unnamed_os.Base.{ℕ, List, [], ◌∷◌, ◌++◌, bit_or, bit_and, if◌then◌else◌}
use unnamed_os.Pit.{init_channel}

abbrev speaker_port : ℕ
speaker_port = 97

-- `speaker_on`: channel 2 makes a square wave, and the port connects it.
unfoldable speaker_on : (freq state : ℕ) → List (ℕ × ℕ)
speaker_on freq state =
    let (possible, writes) = init_channel 2 3 freq in
    if possible then writes ++ ((speaker_port, bit_or (bit_or state 1) 2) ∷ []) else []

-- `speaker_off`: the complement of the two bits, in a byte.
unfoldable speaker_off : (state : ℕ) → List (ℕ × ℕ)
speaker_off state = (speaker_port, bit_and state 252) ∷ []
