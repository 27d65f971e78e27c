-- ===== src/Vm86/FarPointers.antt =====
-- A far pointer stands for the address that it was made from.
use unnamed_os.Base.{ℕ, ◌≤◌, ◌<◌, ◌≡◌, arith, leb-true, leb-false}
use unnamed_os.Vm86.{
  Machine, get_farptr, get_address, lower_memory, stack_address, code_address, set_stack, set_code,
}

-- An address in the first megabyte becomes a far pointer, whose two halves are words, and which
-- points back to it.
pub get_address-get_farptr :
    (addr : ℕ)
    → addr < lower_memory
    → (get_address (get_farptr addr) ≡ addr)
      × ((get_farptr addr).offset < 65536)
      × ((get_farptr addr).segment < 65536)
unfolding get_address get_farptr
get_address-get_farptr addr h =
    rw (leb-false 1048576 addr h) (omega arith, omega arith, omega arith)

-- An address past the first megabyte becomes the null pointer.
get_farptr-large : (addr : ℕ) → lower_memory ≤ addr → get_address (get_farptr addr) ≡ 0
unfolding get_address get_farptr
get_farptr-large addr h = rw (leb-true 1048576 addr h)

module _ {P : Type 0} where
  -- SS:SP and CS:IP after an address has been written to them.
  pub stack_address-set_stack :
      (a : ℕ) (s : Machine P) → a < lower_memory → stack_address (set_stack (get_farptr a) s) ≡ a
  unfolding set_stack get_address
  stack_address-set_stack a s h =
      let (e, o, g) = get_address-get_farptr a h in omega (arith, e, o, g)

  code_address-set_code :
      (a : ℕ) (s : Machine P) → a < lower_memory → code_address (set_code (get_farptr a) s) ≡ a
  unfolding set_code get_address
  code_address-set_code a s h = let (e, o, g) = get_address-get_farptr a h in omega (arith, e, o, g)
