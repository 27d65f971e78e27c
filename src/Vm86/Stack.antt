-- ===== src/Vm86/Stack.antt =====
-- The emulated stack: what is pushed is popped again.
use unnamed_os.Base.{ℕ, ◌+◌, ◌-◌, ◌≤◌, ◌<◌, ◌≡◌, refl, arith, ap, u16, u32, sub32, ◌∙◌}
use unnamed_os.Vm86.{Machine, lower_memory, stack_address, set_stack, push, pop, load16, store16}
use unnamed_os.Vm86.FarPointers.{stack_address-set_stack}

-- A word that was stored reads back, and a word elsewhere stays.
pub load16-store16 :
    (m : ℕ → ℕ) (a v : ℕ) → a < 4294967295 → v < 65536 → load16 (store16 m a v) a ≡ v
unfolding load16 store16
load16-store16 m a v h hv = ground arith

pub load16-store16_other :
    (m : ℕ → ℕ) (a b v : ℕ)
    → a < 4294967295
    → b < 4294967295
    → b + 2 ≤ a
    → load16 (store16 m b v) a ≡ load16 m a
unfolding load16 store16
load16-store16_other m a b v ha hb h = ground arith

module _ {P : Type 0} where
  -- Where the stack lies after a push and after a pop, and the memory.
  push-stack :
      (v : ℕ) (s : Machine P)
      → 2 ≤ stack_address s
      → stack_address s ≤ lower_memory
      → stack_address (push v s) ≡ stack_address s - 2
  unfolding push
  push-stack v s lo hi =
      stack_address-set_stack (sub32 (stack_address s) 2) _ (omega arith) ∙ omega arith

  push-memory :
      (v : ℕ) (s : Machine P)
      → 2 ≤ stack_address s
      → stack_address s ≤ lower_memory
      → (push v s).memory ≡ store16 s.memory (stack_address s - 2) (u16 v)
  unfolding push set_stack
  push-memory v s lo hi =
      let e : sub32 (stack_address s) 2 ≡ stack_address s - 2 = omega arith in rw e

  pop-stack :
      (s : Machine P)
      → stack_address s + 2 < lower_memory
      → stack_address (pop s).1 ≡ stack_address s + 2
  unfolding pop
  pop-stack s hi = stack_address-set_stack (u32 (stack_address s + 2)) _ (omega arith) ∙ omega arith

  pop-memory : (s : Machine P) → (pop s).1.memory ≡ s.memory
  unfolding pop set_stack
  pop-memory s = refl

  pop-value : (s : Machine P) → (pop s).0 ≡ load16 s.memory (stack_address s)
  unfolding pop
  pop-value s = refl

  -- What is pushed is popped again, and the stack is where it was.
  pop-push :
      (v : ℕ) (s : Machine P)
      → 2 ≤ stack_address s
      → stack_address s < lower_memory
      → ((pop (push v s)).0 ≡ u16 v) × (stack_address (pop (push v s)).1 ≡ stack_address s)
  pop-push v s lo hi =
      let at : stack_address (push v s) ≡ stack_address s - 2 = push-stack v s lo (omega arith) in
      (
        pop-value (push v s)
            ∙ rw (at, push-memory v s lo (omega arith))
                (load16-store16 s.memory (stack_address s - 2) (u16 v) (omega arith) (omega arith)),
        pop-stack (push v s) (omega arith) ∙ omega (arith, at),
      )

  -- The same, with the stack and the memory given.
  pub push-at :
      (v b : ℕ) (m : ℕ → ℕ) (s : Machine P)
      → s.memory ≡ m
      → stack_address s ≡ b + 2
      → b + 2 ≤ lower_memory
      → ((push v s).memory ≡ store16 m b (u16 v)) × (stack_address (push v s) ≡ b)
  push-at v b m s em ea hi =
      let there : stack_address s - 2 ≡ b = omega (arith, ea) in
      (
        push-memory v s (omega (arith, ea)) (omega (arith, ea))
            ∙ ap (λ x. store16 x (stack_address s - 2) (u16 v)) em
            ∙ ap (λ x. store16 m x (u16 v)) there,
        push-stack v s (omega (arith, ea)) (omega (arith, ea)) ∙ there,
      )

  pub pop-at :
      (a : ℕ) (m : ℕ → ℕ) (s : Machine P)
      → s.memory ≡ m
      → stack_address s ≡ a
      → a + 2 < lower_memory
      → ((pop s).0 ≡ load16 m a) × ((pop s).1.memory ≡ m) × (stack_address (pop s).1 ≡ a + 2)
  pop-at a m s em ea hi = (
    pop-value s ∙ ap (λ x. load16 x (stack_address s)) em ∙ ap (load16 m) ea,
    pop-memory s ∙ em,
    pop-stack s (omega (arith, ea)) ∙ omega (arith, ea),
  )
