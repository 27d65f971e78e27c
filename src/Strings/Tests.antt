-- ===== src/Strings/Tests.antt =====
-- Tests of the strings and the printing.
use unnamed_os.Base.{ℕ, ◌≡◌, ◌≤◌, refl, List, [], ◌∷◌, ◌++◌, replicate, arith, ok}
use unnamed_os.Strings.{putint, digits_loop, padding, count, chars}
use unnamed_os.Strings.Digits.{AreDigits, from_digits, putint-digits}

-- The format "%04x" prints 00FF for 255.
hexadecimal : putint 255 16 4 48 ≡ ok (48 ∷ 48 ∷ 70 ∷ 70 ∷ [])
unfolding putint digits_loop
hexadecimal = refl

putint-digits_example :
    (ds : List ℕ) × (putint 4294967295 2 0 32
      ≡ ok (replicate (padding 0 (count ds)) 32 ++ chars ds))
    × (from_digits 2 ds ≡ 4294967295)
    × (count ds ≤ 32)
    × AreDigits 2 ds
putint-digits_example = putint-digits 4294967295 2 0 32 (omega arith) (omega arith) (omega arith)
