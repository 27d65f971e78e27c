-- ===== src/Vm86/Interrupts.antt =====
-- A call of the BIOS by INT, and the return from it by IRET.
use unnamed_os.Base.{ℕ, ◌+◌, ◌-◌, ◌≤◌, ◌<◌, ◌≡◌, refl, arith, u16, u32, ◌∙◌, sym}
use unnamed_os.Vm86.{
  Farptr, Machine, get_farptr, get_address, lower_memory, stack_address, code_address, set_stack,
  set_code, push, pop, load16, store16, emulate_int, emulate_iret,
}
use unnamed_os.Vm86.FarPointers.{get_address-get_farptr}
use unnamed_os.Vm86.Stack.{push-at, pop-at, load16-store16, load16-store16_other}

-- The three words that INT pushes below `b + 6`.
abbrev frame : (memory : ℕ → ℕ) (b flags : ℕ) → Farptr → ℕ → ℕ
frame memory b flags p =
    store16 (store16 (store16 memory (b + 4) (u16 flags)) (b + 2) (u16 p.segment)) b (u16 p.offset)

module _ {P : Type 0} where
  int-frame :
      (eip b : ℕ) (s : Machine P)
      → stack_address s ≡ b + 6
      → b + 6 ≤ lower_memory
      → ((emulate_int eip s).memory ≡ frame s.memory b s.eflags (get_farptr (u32 (eip + 2))))
        × (stack_address (emulate_int eip s) ≡ b)
  unfolding emulate_int set_code
  int-frame eip b s at hi =
      let p = get_farptr (u32 (eip + 2)) in
      let s1 = push s.eflags s in
      let (m1, a1) = push-at s.eflags (b + 4) s.memory s refl (omega (arith, at)) (omega arith) in
      let (m2, a2) = push-at p.segment (b + 2) _ s1 m1 (omega (arith, a1)) (omega arith) in
      push-at p.offset b _ (push p.segment s1) m2 a2 (omega arith)

  iret-frame :
      (a : ℕ) (m : ℕ → ℕ) (s : Machine P)
      → s.memory ≡ m
      → stack_address s ≡ a
      → a + 6 < lower_memory
      → ((emulate_iret s).eip ≡ load16 m a)
        × ((emulate_iret s).cs ≡ load16 m (a + 2))
        × ((emulate_iret s).memory ≡ m)
        × (stack_address (emulate_iret s) ≡ a + 6)
  unfolding emulate_iret pop set_stack
  iret-frame a m s em ea hi =
      let (v1, m1, a1) = pop-at a m s em ea (omega arith) in
      let s1 = record (pop s).1 { eip = (pop s).0 } in
      let (v2, m2, a2) = pop-at (a + 2) m s1 m1 a1 (omega arith) in
      let s2 = record (pop s1).1 { cs = (pop s1).0 } in
      let (v3, m3, a3) = pop-at (a + 4) m s2 m2 (a2 ∙ omega arith) (omega arith) in
      (v1, v2, m3, a3 ∙ omega arith)

  -- A BIOS routine that is called by INT, and that comes to its IRET with the stack and the memory
  -- as INT left them, returns to the instruction after the INT, with the stack where it was.
  pub iret-int :
      (eip : ℕ) (s s' : Machine P)
      → 6 ≤ stack_address s
      → stack_address s < lower_memory
      → eip + 2 < lower_memory
      → s'.memory ≡ (emulate_int eip s).memory
      → stack_address s' ≡ stack_address (emulate_int eip s)
      → (code_address (emulate_iret s') ≡ eip + 2)
        × (stack_address (emulate_iret s') ≡ stack_address s)
        × ((emulate_iret s').memory ≡ s'.memory)
  unfolding get_address
  iret-int eip s s' lo hi small same-memory same-stack =
      let b = stack_address s - 6 in
      let p = get_farptr (u32 (eip + 2)) in
      let (e, o, g) = get_address-get_farptr (u32 (eip + 2)) (omega arith) in
      let (m, a) = int-frame eip b s (omega arith) (omega arith) in
      let (ip, cs, m', a') =
        iret-frame b (frame s.memory b s.eflags p) s' (same-memory ∙ m) (same-stack ∙ a)
          (omega arith) in
      let ip' = ip ∙ load16-store16 _ b (u16 p.offset) (omega arith) (omega arith) in
      let cs' =
        cs
        ∙ load16-store16_other _ (b + 2) b (u16 p.offset) (omega arith) (omega arith) (omega arith)
        ∙ load16-store16 _ (b + 2) (u16 p.segment) (omega arith) (omega arith) in
      (omega (arith, ip', cs', e, o, g), a' ∙ omega arith, m' ∙ sym m ∙ sym same-memory)
