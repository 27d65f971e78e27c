-- ===== src/Cpuid/Names.antt =====
-- The name of the processor, `cpuid_name` in `src/kernel/hardware/cpu/cpuid.c`: what it trims.
use unnamed_os.Base.{
  ℕ, zero, suc, ◌+◌, ◌<◌, ◌≡◌, ◌≢◌, ◌∙◌, refl, sym, ap, List, [], ◌∷◌, ◌++◌, ◌==◌, arith,
  Bool-cases, inl, inr, u8, length, ==-false, eq_of_==,
}
use unnamed_os.Cpuid.{name_loop, put_spaces}

-- A space at the end of a part of the name is not printed.
name_loop-trailing :
    (spaces : ℕ) (s : List ℕ) → name_loop spaces (s ++ (32 ∷ [])) ≡ name_loop spaces s
unfolding name_loop
name_loop-trailing spaces [] = refl
name_loop-trailing spaces (c ∷ s) =
    rw (name_loop-trailing (u8 (spaces + 1)) s, name_loop-trailing 0 s)

-- Whether no character is the zero that ends a string.
abbrev NoZero : List ℕ → Type 0
NoZero [] = Unit
NoZero (c ∷ s) = (c ≢ 0) × NoZero s

put_spaces-suc : (spaces : ℕ) (s : List ℕ) → put_spaces (suc spaces) s ≡ put_spaces spaces (32 ∷ s)
unfolding put_spaces
put_spaces-suc zero s = refl
put_spaces-suc (suc spaces) s = ap (λ r. 32 ∷ r) (put_spaces-suc spaces s)

-- A text that ends in a character that is no space is printed whole, with its spaces.
name_loop-whole :
    (spaces : ℕ) (s : List ℕ) (c : ℕ)
    → NoZero s
    → c ≢ 0
    → c ≢ 32
    → spaces + length s < 256
    → name_loop spaces (s ++ (c ∷ [])) ≡ put_spaces spaces (s ++ (c ∷ []))
unfolding name_loop put_spaces
name_loop-whole spaces [] c nz hz hs lt = rw (==-false c 0 hz, ==-false c 32 hs)
name_loop-whole spaces (x ∷ s) c nz hz hs lt = elim (Bool-cases (x == 32)) [
  | inl e ↦
      let small : u8 (spaces + 1) ≡ suc spaces = omega arith in
      let text = s ++ (c ∷ []) in
      rw (==-false x 0 nz.0, e)
        (name_loop-whole (u8 (spaces + 1)) s c nz.1 hz hs (omega arith)
          ∙ ap (λ n. put_spaces n text) small
          ∙ put_spaces-suc spaces text
          ∙ ap (λ y. put_spaces spaces (y ∷ text)) (sym (eq_of_== x 32 e)))
  | inr f ↦
      rw (==-false x 0 nz.0, f)
        (ap (λ r. put_spaces spaces (x ∷ r)) (name_loop-whole 0 s c nz.1 hz hs (omega arith)))
]
