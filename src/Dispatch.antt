-- ===== src/Dispatch.antt =====
-- The dispatch of interrupts and system calls, `src/kernel/interrupts/isr.c`, and the interrupt
-- controller, `src/kernel/interrupts/pic.c`. The bytes written to the controller are collected,
-- as port and byte. Handlers are functions on the stack pointer and a state that is a parameter,
-- which gives the fields of the CPU state that a stack pointer points to.
pub mod EndOfInterrupt
pub mod Init
mod Tests
use unnamed_os.Base.{
  ℕ, ◌+◌, ◌-◌, Bool, true, false, ◌&&◌, Option, none, some, List, [], ◌∷◌, ◌++◌, ltb, leb, ◌==◌,
  if◌then◌else◌, update, u8, is_some, Outcome, ok, fault, out_of_bounds, panic, ◌>>=◌,
}

abbrev idt_entries : ℕ
idt_entries = 256

abbrev syscall_number : ℕ
syscall_number = 32

abbrev pub pic1_cmd : ℕ
pic1_cmd = 32

abbrev pub pic2_cmd : ℕ
pic2_cmd = 160

abbrev pub pic_eoi : ℕ
pic_eoi = 32

-- `IS_EXCEPTION` and `IS_IRQ`.
abbrev is_exception : (intr : ℕ) → Bool
is_exception intr = leb intr 31

abbrev pub is_irq : (intr : ℕ) → Bool
is_irq intr = leb 32 intr && leb intr 47

-- `pic_init`: the bytes written to the controllers.
abbrev pub pic_init : List (ℕ × ℕ)
pic_init =
    (32, 17)
    ∷ (33, 32)
    ∷ (33, 4)
    ∷ (33, 1)
    ∷ (33, 0)
    ∷ (160, 17)
    ∷ (161, 40)
    ∷ (161, 2)
    ∷ (161, 1)
    ∷ (161, 0)
    ∷ []

-- `pic_send_eoi`. The difference is an `int`, negative for an exception.
unfoldable pub send_eoi : (intr : ℕ) → List (ℕ × ℕ)
send_eoi intr =
    if leb 40 (u8 intr)
    then (pic2_cmd, pic_eoi) ∷ (pic1_cmd, pic_eoi) ∷ []
    else (pic1_cmd, pic_eoi) ∷ []

module _ (S : Type 0) where
  -- `isr_handler_t`: the stack pointer that it returns, and the state.
  abbrev pub Handler : Type 0
  Handler = ℕ → S → Outcome (ℕ × S)

  -- `isr_syscall_t`, on its five arguments and the stack pointer: its result, the stack pointer
  -- that it leaves, and the state.
  abbrev pub Syscall : Type 0
  Syscall = (ebx ecx edx esi edi cpu : ℕ) → S → Outcome (ℕ × ℕ × S)

  -- The two tables.
  pub record Tables : Type 0 where
    pub handlers : ℕ → Option Handler
    pub syscalls : ℕ → Option Syscall

  -- `isr_register_handler` and `isr_register_syscall`.
  unfoldable pub register_handler : (intr : ℕ) → Option Handler → Tables → Tables
  register_handler intr handler t =
      if leb idt_entries intr then t else record t { handlers = update t.handlers intr handler }

  unfoldable pub register_syscall : (id : ℕ) → Option Syscall → Tables → Tables
  register_syscall id syscall t =
      if leb syscall_number id then t else record t { syscalls = update t.syscalls id syscall }

  -- What a handler sees of the CPU state: the vector and the registers, at a stack pointer, and
  -- the store of the register EAX.
  pub record Frames : Type 0 where
    pub intr : S → ℕ → ℕ
    pub eax : S → ℕ → ℕ
    pub ebx : S → ℕ → ℕ
    pub ecx : S → ℕ → ℕ
    pub edx : S → ℕ → ℕ
    pub esi : S → ℕ → ℕ
    pub edi : S → ℕ → ℕ
    pub set_eax : (cpu value : ℕ) → S → S

  -- The call of a handler by `isr_handle_interrupt`, or what it does without one.
  unfoldable pub call_handler : Option Handler → (intr cpu : ℕ) → S → Outcome (ℕ × S)
  call_handler (some handler) intr cpu s = handler cpu s
  call_handler none intr cpu s = if is_exception intr then fault panic else ok (cpu, s)

  -- `isr_handle_interrupt`: the stack pointer, the state, and the writes to the controller.
  unfoldable pub handle_interrupt : Frames → Tables → (cpu : ℕ) → S → Outcome (ℕ × S × List (ℕ × ℕ))
  handle_interrupt f t cpu s =
      let intr = f.intr s cpu in
      if ltb intr idt_entries
      then call_handler (t.handlers intr) intr cpu s
        >>= (λ r. ok (r.0, r.1, if is_irq intr then send_eoi intr else []))
      else fault out_of_bounds

  -- The call of a system call by `isr_handle_syscall`. EAX takes the result unless the call has
  -- switched tasks.
  unfoldable pub call_syscall : Frames → Option Syscall → (cpu : ℕ) → S → Outcome (ℕ × S)
  call_syscall f none cpu s = ok (cpu, s)
  call_syscall f (some syscall) cpu s = do
    (ret, cpu', s') ←
        syscall (f.ebx s cpu) (f.ecx s cpu) (f.edx s cpu) (f.esi s cpu) (f.edi s cpu) cpu s
    ok (cpu', if cpu' == cpu then f.set_eax cpu' ret s' else s')

  -- `isr_handle_syscall`.
  unfoldable pub handle_syscall : Frames → Tables → (cpu : ℕ) → S → Outcome (ℕ × S)
  handle_syscall f t cpu s =
      let id = f.eax s cpu in
      call_syscall f (if ltb id syscall_number then t.syscalls id else none) cpu s
