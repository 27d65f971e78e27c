-- ===== src/Strings.antt =====
-- The library's strings and printing, `src/lib/string.c` and `src/lib/io.c`. Memory is a function
-- from address to byte, and what is printed is a list of characters. The counts that the printing
-- functions return are the sums of what `putchar_func` returns, and are left out.
pub mod Digits
pub mod Copies
pub mod Format
mod Tests
mod FormatTests
use unnamed_os.Base.{
  ℕ, zero, suc, ◌+◌, ◌-◌, ◌*◌, ◌/◌, ◌%◌, Bool, true, false, ◌&&◌, ◌||◌, List, [], ◌∷◌, ◌++◌,
  replicate, ltb, leb, ◌==◌, if◌then◌else◌, update, u8, u32, sub32, Outcome, ok, fault,
  out_of_bounds, ◌>>=◌, Option, none, some,
}

-- `strcmp`, with `rounds` characters left at most; none are needed past the end of the first
-- string.
unfoldable pub strcmp_loop : (memory : ℕ → ℕ) (rounds s1 s2 : ℕ) → ℕ
strcmp_loop memory zero s1 s2 = sub32 (memory s1) (memory s2)
strcmp_loop memory (suc rounds) s1 s2 =
    let rest = strcmp_loop memory rounds (s1 + 1) (s2 + 1) in
    if memory s1 == 0
    then sub32 (memory s1) (memory s2)
    else if memory s1 == memory s2
    then rest
    else sub32 (memory s1) (memory s2)

-- The loop of `strlen`, `s` counted from the start of the string; `none` says that it is running
-- still after `fuel` rounds.
unfoldable pub strlen_loop : (memory : ℕ → ℕ) (str : ℕ) (fuel s : ℕ) → Option ℕ
strlen_loop memory str zero s = none
strlen_loop memory str (suc fuel) s =
    let rest = strlen_loop memory str fuel (s + 1) in if memory (str + s) == 0 then some s else rest

abbrev pub strlen : (memory : ℕ → ℕ) (fuel str : ℕ) → Option ℕ
strlen memory fuel str = strlen_loop memory str fuel 0

-- `memcpy`, byte by byte from the first on, and `memset`.
unfoldable pub memcpy : (num dst src : ℕ) → (ℕ → ℕ) → ℕ → ℕ
memcpy zero dst src memory = memory
memcpy (suc num) dst src memory = memcpy num (dst + 1) (src + 1) (update memory dst (memory src))

unfoldable pub memset : (num ptr val : ℕ) → (ℕ → ℕ) → ℕ → ℕ
memset zero ptr val memory = memory
memset (suc num) ptr val memory = memset num (ptr + 1) val (update memory ptr (u8 val))

-- The character of a digit.
abbrev digit_char : ℕ → ℕ
digit_char d = if ltb d 10 then 48 + d else 55 + d

-- The buffer of `io_putint` has room for 32 characters and the end of the string.
abbrev room : ℕ
room = 32

-- The loop of `io_putint` that puts the digits in front of those that are there; `left` is the
-- room for more. A character too many is a fault.
unfoldable pub digits_loop : (left n radix : ℕ) (buf : List ℕ) → Outcome (List ℕ)
digits_loop zero n radix buf = if n == 0 then ok buf else fault out_of_bounds
digits_loop (suc left) n radix buf =
    let rest = digits_loop left (n / radix) radix (n % radix ∷ buf) in
    if n == 0 then ok buf else rest

-- How many padding characters are put: `pad` is an `int8_t`, which the digits have counted down.
abbrev pub padding : (pad digits : ℕ) → ℕ
padding pad digits = let left = u8 (pad + 256 - digits) in if ltb left 128 then left else 0

abbrev pub chars : List ℕ → List ℕ
chars [] = []
chars (d ∷ ds) = digit_char d ∷ chars ds

abbrev pub count : List ℕ → ℕ
count [] = 0
count (d ∷ ds) = suc (count ds)

-- The message "radix invalid".
abbrev radix_invalid : List ℕ
radix_invalid = 114 ∷ 97 ∷ 100 ∷ 105 ∷ 120 ∷ 32 ∷ 105 ∷ 110 ∷ 118 ∷ 97 ∷ 108 ∷ 105 ∷ 100 ∷ []

-- `io_putint`: the characters that it prints.
unfoldable pub putint : (n radix pad pad_char : ℕ) → Outcome (List ℕ)
putint n radix pad pad_char =
    if ltb radix 2 || ltb 36 radix
    then ok radix_invalid
    else if n == 0
    then ok (replicate (padding pad 1) pad_char ++ chars (0 ∷ []))
    else digits_loop room n radix []
      >>= (λ ds. ok (replicate (padding pad (count ds)) pad_char ++ chars ds))
