-- ===== src/Strings/FormatTests.antt =====
-- Formats of `src/lib/io.c`.
use unnamed_os.Base.{ℕ, ◌≡◌, refl, List, [], ◌∷◌, ◌++◌, ok}
use unnamed_os.Strings.{putint, digits_loop}
use unnamed_os.Strings.Format.{
  char, attribute, vprint, format_loop, format_step, specify, terminated, continue, vprint-open,
}

abbrev no_text : ℕ → List ℕ
no_text a = []

abbrev warning : List ℕ
warning = 37 ∷ 52 ∷ 97 ∷ 37 ∷ 100 ∷ []

-- The format "%4a%d" and the number -7.
warned :
    vprint no_text (terminated warning) (4294967289 ∷ [])
    ≡ ok (attribute 4 ∷ char 45 ∷ char 55 ∷ [], [])
unfolding format_loop format_step specify putint digits_loop
warned = refl

-- Behind the format stands the string "Hi".
vprint-open_example :
    vprint no_text (warning ++ (37 ∷ 0 ∷ 72 ∷ 105 ∷ 0 ∷ [])) (4294967289 ∷ [])
    ≡ continue no_text (72 ∷ 105 ∷ 0 ∷ []) (attribute 4 ∷ char 45 ∷ char 55 ∷ [], [])
vprint-open_example =
    vprint-open no_text warning (72 ∷ 105 ∷ 0 ∷ []) (4294967289 ∷ []) _
      (refl, (refl, (refl, (refl, (refl, tt))))) warned
