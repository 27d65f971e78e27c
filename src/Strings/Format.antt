-- ===== src/Strings/Format.antt =====
-- The formats of `vprint`, `src/lib/io.c`. The strings that arguments point to are lists of
-- characters without the terminator; `text` gives the string at an address. What is printed is
-- a list of characters and attribute changes. Reading an argument that is not there is a fault.
use mathlib.Core.List.{append_assoc}
use unnamed_os.Base.{
  false, ◌∙◌, ap, ℕ, ◌+◌, ◌-◌, ◌*◌, ◌≡◌, refl, sym, Bool, ◌&&◌, ◌||◌, not, List, [], ◌∷◌, ◌++◌, leb,
  ◌==◌, if◌then◌else◌, u8, sub32, arith, Outcome, ok, fault, out_of_bounds, ok-injective, ◌>>=◌,
}
use unnamed_os.Strings.{putint}

pub data Printed : Type 0 where
  char : ℕ → Printed
  attribute : ℕ → Printed

abbrev chars_of : List ℕ → List Printed
chars_of [] = []
chars_of (c ∷ cs) = char c ∷ chars_of cs

-- Where the loop stands in the format: in the text, behind `%`, or behind the digits of a
-- specifier.
pub data Place : Type 0 where
  in_text : Place
  at_specifier : Place
  in_digits : (pad pad_char : ℕ) → Place

-- What is printed, where the loop stands then, and the arguments that are left.
pub record Progress : Type 0 where
  pub printed : List Printed
  pub place : Place
  pub args : List ℕ

abbrev is_digit : ℕ → Bool
is_digit c = leb 48 c && leb c 57

-- The specifiers that take a number: its radix, or 0.
abbrev radix_of : (specifier : ℕ) → ℕ
radix_of c =
    if c == 117
    then 10
    else if c == 120
    then 16
    else if c == 98
    then 2
    else if c == 111
    then 8
    else 0

-- The characters of `io_putint`, with others in front of them, and the text behind them.
abbrev pub number : List Printed → (args : List ℕ) → Outcome (List ℕ) → Outcome Progress
number before args (ok cs) =
    ok (record { printed = before ++ chars_of cs; place = in_text; args = args })
number before args (fault e) = fault e

-- `%d`: a negative number is printed behind a minus sign, which takes one of the columns.
abbrev decimal : (n pad pad_char : ℕ) (args : List ℕ) → Outcome Progress
decimal n pad pad_char args =
    if leb 2147483648 n
    then number (char 45 ∷ []) args (putint (sub32 0 n) 10 (u8 (pad + 255)) pad_char)
    else number [] args (putint n 10 pad pad_char)

-- `IO_DEFAULT`.
abbrev io_default : ℕ
io_default = 7

-- No character of the format is the terminator.
abbrev IsText : List ℕ → Type 0
IsText [] = Unit
IsText (c ∷ cs) = ((c == 0) ≡ false) × IsText cs

abbrev pub terminated : List ℕ → List ℕ
terminated fmt = fmt ++ (0 ∷ [])

module _ (text : ℕ → List ℕ) where
  -- The specifiers that take an argument.
  abbrev with_argument : (specifier pad pad_char : ℕ) → List ℕ → Outcome Progress
  with_argument c pad pad_char [] = fault out_of_bounds
  with_argument c pad pad_char (n ∷ args) =
      if c == 100
      then decimal n pad pad_char args
      else if c == 99
      then ok (record { printed = char (u8 n) ∷ []; place = in_text; args = args })
      else if c == 115
      then ok (record { printed = chars_of (text n); place = in_text; args = args })
      else number [] args (putint n (radix_of c) pad pad_char)

  -- The `switch`. A character that is no specifier prints nothing.
  unfoldable pub specify : (specifier pad pad_char : ℕ) → List ℕ → Outcome Progress
  specify c pad pad_char args =
      if c == 97
      then ok (record {
        printed = attribute (if pad == 0 then io_default else pad) ∷ [];
        place = in_text;
        args = args;
      })
      else if c == 37
      then ok (record { printed = char 37 ∷ []; place = in_text; args = args })
      else if c == 100 || c == 99 || c == 115 || not (radix_of c == 0)
      then with_argument c pad pad_char args
      else ok (record { printed = []; place = in_text; args = args })

  abbrev digit_or_specifier : (c pad pad_char : ℕ) → List ℕ → Outcome Progress
  digit_or_specifier c pad pad_char args =
      if is_digit c
      then ok (record {
        printed = [];
        place = in_digits (u8 (pad * 10 + (c - 48))) pad_char;
        args = args;
      })
      else specify c pad pad_char args

  -- One character of the format.
  unfoldable pub format_step : (c : ℕ) → Place → List ℕ → Outcome Progress
  format_step c in_text args =
      if c == 37
      then ok (record { printed = []; place = at_specifier; args = args })
      else ok (record { printed = char c ∷ []; place = in_text; args = args })
  format_step c at_specifier args =
      if c == 48
      then ok (record { printed = []; place = in_digits 0 48; args = args })
      else digit_or_specifier c 0 32 args
  format_step c (in_digits pad pad_char) args = digit_or_specifier c pad pad_char args

  abbrev print_before :
      List Printed → Outcome (List Printed × List ℕ) → Outcome (List Printed × List ℕ)
  print_before before (ok (after, args)) = ok (before ++ after, args)
  print_before before (fault e) = fault e

  -- `vprint`: what it prints, and the arguments that are left. The format is the memory from its start on:
  -- the loop ends at a zero, unless it stands behind a `%`, and steps over that one as over any character. Where
  -- the list ends, nothing is known of the memory.
  unfoldable pub format_loop : (fmt : List ℕ) → Place → List ℕ → Outcome (List Printed × List ℕ)
  format_loop [] place args = fault out_of_bounds
  format_loop (c ∷ cs) in_text args =
      let rest = λ (p : Progress). format_loop cs p.place p.args in
      if c == 0
      then ok ([], args)
      else format_step c in_text args >>= λ p. print_before p.printed (rest p)
  format_loop (c ∷ cs) at_specifier args =
      let rest = λ (p : Progress). format_loop cs p.place p.args in
      format_step c at_specifier args >>= λ p. print_before p.printed (rest p)
  format_loop (c ∷ cs) (in_digits pad pad_char) args =
      let rest = λ (p : Progress). format_loop cs p.place p.args in
      format_step c (in_digits pad pad_char) args >>= λ p. print_before p.printed (rest p)

  abbrev pub vprint : (fmt args : List ℕ) → Outcome (List Printed × List ℕ)
  vprint fmt args = format_loop fmt in_text args

  print_before-nil : (r : Outcome (List Printed × List ℕ)) → print_before [] r ≡ r
  print_before-nil (ok r) = refl
  print_before-nil (fault e) = refl

  print_before-append :
      (xs ys : List Printed) (r : Outcome (List Printed × List ℕ))
      → print_before xs (print_before ys r) ≡ print_before (xs ++ ys) r
  print_before-append xs ys (ok r) = rw append_assoc
  print_before-append xs ys (fault e) = refl

  -- What a run prints behind a run that ended.
  abbrev pub continue : (fmt : List ℕ) → List Printed × List ℕ → Outcome (List Printed × List ℕ)
  continue fmt (before, args) = print_before before (vprint fmt args)

  print_before-ok :
      (xs : List Printed) (q : Outcome (List Printed × List ℕ)) (r : List Printed × List ℕ)
      → print_before xs q ≡ ok r
      → (r' : List Printed × List ℕ) × (q ≡ ok r') × ((xs ++ r'.0, r'.1) ≡ r)
  print_before-ok xs (ok r') r e = (r', refl, ok-injective e)
  print_before-ok xs (fault f) r e = absurd (ground arith)

  bind-ok :
      (s : Outcome Progress) (k : Progress → Outcome (List Printed × List ℕ))
      (r : List Printed × List ℕ)
      → (s >>= k) ≡ ok r
      → (p : Progress) × (s ≡ ok p) × (k p ≡ ok r)
  bind-ok (ok p) k r e = (p, refl, e)
  bind-ok (fault f) k r e = absurd (ground arith)

  -- A run over a character that does not end the format.
  format_loop-step :
      (c : ℕ) (cs : List ℕ) (place : Place) (args : List ℕ)
      → (c == 0) ≡ false
      → format_loop (c ∷ cs) place args
        ≡ (format_step c place args >>= λ p. print_before p.printed (format_loop cs p.place p.args))
  unfolding format_loop
  format_loop-step c cs in_text args e = rw e refl
  format_loop-step c cs at_specifier args e = refl
  format_loop-step c cs (in_digits pad pad_char) args e = refl

  -- A terminator inside a specifier leads on to what is behind it.
  no_end :
      (printed : List Printed) (r : List Printed × List ℕ)
      → ¬ (print_before printed (fault out_of_bounds) ≡ ok r)
  no_end printed r e = ground arith

  format_loop-append :
      (fmt more : List ℕ) (place : Place) (args : List ℕ) (r : List Printed × List ℕ)
      → IsText fmt
      → format_loop (terminated fmt) place args ≡ ok r
      → format_loop (fmt ++ more) place args ≡ continue more r
  unfolding format_loop format_step specify
  format_loop-append [] more in_text args r text_only e =
      rw (sym (ok-injective e)) (sym (print_before-nil (format_loop more in_text args)))
  format_loop-append [] more at_specifier args r text_only e = absurd (no_end [] r e)
  format_loop-append [] more (in_digits pad pad_char) args r text_only e = absurd (no_end [] r e)
  format_loop-append (c ∷ cs) more place args r text_only e =
      let run_c = sym (format_loop-step c (terminated cs) place args text_only.0) ∙ e in
      let (p, step, run) =
        bind-ok (format_step c place args)
          (λ p. print_before p.printed (format_loop (terminated cs) p.place p.args)) r run_c in
      let (r', rest, same) =
        print_before-ok p.printed (format_loop (terminated cs) p.place p.args) r run in
      format_loop-step c (cs ++ more) place args text_only.0
      ∙ rw (step, format_loop-append cs more p.place p.args r' text_only.1 rest, sym same)
          (print_before-append p.printed r'.0 (format_loop more in_text r'.1))

  -- Behind a format that `vprint` prints to its end, a last `%` makes it step over the terminator: it goes on and
  -- prints the memory behind the format as another one, with the arguments that are left.
  pub vprint-open :
      (fmt behind args : List ℕ) (r : List Printed × List ℕ)
      → IsText fmt
      → vprint (terminated fmt) args ≡ ok r
      → vprint (fmt ++ (37 ∷ 0 ∷ behind)) args ≡ continue behind r
  unfolding format_loop format_step specify
  vprint-open fmt behind args r text_only e =
      format_loop-append fmt (37 ∷ 0 ∷ behind) in_text args r text_only e
      ∙ ap (print_before r.0) (
          print_before-nil (print_before [] (vprint behind r.1))
          ∙ print_before-nil (vprint behind r.1))
