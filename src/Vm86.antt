-- ===== src/Vm86.antt =====
-- The monitor of virtual 8086 tasks, `src/kernel/tasks/vm86.c`: far pointers, the emulated stack,
-- and the emulation of the instructions that fault.
-- The ports (`inb` and its kin, which are assembly) are parameters, with the state that they act
-- on.
pub mod FarPointers
pub mod Stack
pub mod Interrupts
pub mod Create
mod Bios
mod Tests
mod BiosTests
use unnamed_os.Base.{
  ℕ, ◌+◌, ◌-◌, ◌*◌, ◌/◌, Bool, true, false, leb, ◌==◌, if◌then◌else◌, update, u8, u16, u32, sub32,
  ◌>>>◌, ◌<<<◌, Outcome, ok, fault, panic, ◌>>=◌, bit_or, ◌||◌,
}
use unnamed_os.Task.{Tasks, get_vm86}

abbrev pub lower_memory : ℕ
lower_memory = 1048576

-- `vm86_farptr_t`.
pub record Farptr : Type 0 where
  pub offset : ℕ
  pub segment : ℕ

-- `vm86_get_farptr`; `& 0xFFFF` keeps the lower word.
unfoldable pub get_farptr : (addr : ℕ) → Farptr
get_farptr addr =
    if leb lower_memory addr
    then record { offset = 0; segment = 0 }
    else record { offset = u16 addr; segment = u16 ((addr - u16 addr) >>> 4) }

-- `vm86_get_address`.
unfoldable pub get_address : Farptr → ℕ
get_address p = (p.segment <<< 4) + p.offset

-- What the monitor reads and writes of the CPU state, the memory of the task, byte by byte, and
-- what the ports act on.
pub record Machine (P : Type 0) : Type 0 where
  pub eax : ℕ
  pub edx : ℕ
  pub eip : ℕ
  pub cs : ℕ
  pub eflags : ℕ
  pub user_esp : ℕ
  pub user_ss : ℕ
  pub memory : ℕ → ℕ
  pub ports : P

-- Reads and writes of a `uint16_t`.
unfoldable pub load16 : (ℕ → ℕ) → ℕ → ℕ
load16 memory a = memory a + 256 * memory (u32 (a + 1))

unfoldable pub store16 : (ℕ → ℕ) → (a value : ℕ) → ℕ → ℕ
store16 memory a value = update (update memory a (u8 value)) (u32 (a + 1)) (u8 (value / 256))

-- The entry of the interrupt vector table for a vector, at address 0.
abbrev ivt : (ℕ → ℕ) → (vector : ℕ) → Farptr
ivt memory vector = record {
  offset = load16 memory (4 * vector);
  segment = load16 memory (4 * vector + 2);
}

-- A register after a store to its lower half, or to its lowest byte.
abbrev low_half : (register value : ℕ) → ℕ
low_half register value = register / 65536 * 65536 + u16 value

abbrev low_byte : (register value : ℕ) → ℕ
low_byte register value = register / 256 * 256 + u8 value

module _ {P : Type 0} where
  -- The address that SS:SP points to, and the one that CS:IP points to.
  abbrev pub stack_address : Machine P → ℕ
  stack_address s = get_address (record { offset = u16 s.user_esp; segment = u16 s.user_ss })

  abbrev pub code_address : Machine P → ℕ
  code_address s = get_address (record { offset = u16 s.eip; segment = s.cs })

  -- `vm86_write_farptr` to SS:SP, and to CS:IP.
  unfoldable pub set_stack : Farptr → Machine P → Machine P
  set_stack p s = record s {
    user_ss = low_half s.user_ss p.segment;
    user_esp = low_half s.user_esp p.offset;
  }

  unfoldable pub set_code : Farptr → Machine P → Machine P
  set_code p s = record s { cs = p.segment; eip = low_half s.eip p.offset }

  -- `vm86_push` and `vm86_pop`.
  unfoldable pub push : (value : ℕ) → Machine P → Machine P
  push value s =
      let new_esp = sub32 (stack_address s) 2 in
      set_stack (get_farptr new_esp) (record s { memory = store16 s.memory new_esp (u16 value) })

  unfoldable pub pop : Machine P → ℕ × Machine P
  pop s =
      let esp = stack_address s in (load16 s.memory esp, set_stack (get_farptr (u32 (esp + 2))) s)

  -- `vm86_increment_eip`.
  unfoldable pub increment_eip : (inc : ℕ) → Machine P → Machine P
  increment_eip inc s = set_code (get_farptr (u32 (code_address s + inc))) s

  -- The cases of `vm86_monitor` for PUSHF, POPF, INT and IRET. `eip` is the address of the
  -- instruction.
  unfoldable pub emulate_pushf : Machine P → Machine P
  emulate_pushf s = increment_eip 1 (push s.eflags s)

  unfoldable pub emulate_popf : Machine P → Machine P
  emulate_popf s = increment_eip 1 (pop s).1

  unfoldable pub emulate_int : (eip : ℕ) → Machine P → Machine P
  emulate_int eip s =
      let csip = get_farptr (u32 (eip + 2)) in
      let s1 = push s.eflags s in
      let s2 = push csip.segment s1 in
      let s3 = push csip.offset s2 in set_code (ivt s3.memory (s3.memory (u32 (eip + 1)))) s3

  unfoldable pub emulate_iret : Machine P → Machine P
  emulate_iret s =
      let (ip, s1) = pop s in
      let (segment, s2) = pop (record s1 { eip = ip }) in (pop (record s2 { cs = segment })).1

-- How `vm86_monitor` ends: it does not handle the fault, it has emulated the instruction, or it
-- has called `sys_exit`, which does not come back.
pub data Handled (P : Type 0) : Type 0 where
  not_handled : Handled P
  emulated exited : Machine P → Handled P

module _ {P : Type 0} (input : (bytes port : ℕ) → P → ℕ × P)
    (output : (bytes port value : ℕ) → P → P) where
  -- `CASE_IN` and `CASE_OUT`, for accesses of one, two and four bytes.
  abbrev pub received : (bytes register value : ℕ) → ℕ
  received bytes register value =
      if bytes == 1
      then low_byte register value
      else if bytes == 2
      then low_half register value
      else u32 value

  abbrev pub sent : (bytes register : ℕ) → ℕ
  sent bytes register =
      if bytes == 1 then u8 register else if bytes == 2 then u16 register else register

  unfoldable pub case_in : (bytes operand inc : ℕ) → Machine P → Machine P
  case_in bytes operand inc s =
      let (value, ports) = input bytes (u16 operand) s.ports in
      increment_eip inc (record s { eax = received bytes s.eax value; ports = ports })

  unfoldable pub case_out : (bytes operand inc : ℕ) → Machine P → Machine P
  case_out bytes operand inc s =
      increment_eip inc (record s { ports = output bytes (u16 operand) (sent bytes s.eax) s.ports })

  -- The cases of the `switch` of `vm86_monitor` that read a port, and those that write one. An
  -- opcode after an operand size prefix, 0x66, is 26112 more than without it.
  unfoldable pub execute_in : (opcode eip : ℕ) → Machine P → Outcome (Handled P)
  execute_in opcode eip s =
      if opcode == 228
      then ok (emulated (case_in 1 (s.memory (u32 (eip + 1))) 2 s))
      else if opcode == 229
      then ok (emulated (case_in 2 (s.memory (u32 (eip + 1))) 2 s))
      else if opcode == 26341
      then ok (emulated (case_in 4 (s.memory (u32 (eip + 2))) 3 s))
      else if opcode == 236
      then ok (emulated (case_in 1 s.edx 1 s))
      else if opcode == 237
      then ok (emulated (case_in 2 s.edx 1 s))
      else if opcode == 26349
      then ok (emulated (case_in 4 s.edx 2 s))
      else fault panic

  unfoldable pub execute_out : (opcode eip : ℕ) → Machine P → Outcome (Handled P)
  execute_out opcode eip s =
      if opcode == 230
      then ok (emulated (case_out 1 (s.memory (u32 (eip + 1))) 2 s))
      else if opcode == 231
      then ok (emulated (case_out 2 (s.memory (u32 (eip + 1))) 2 s))
      else if opcode == 26343
      then ok (emulated (case_out 4 (s.memory (u32 (eip + 2))) 3 s))
      else if opcode == 238
      then ok (emulated (case_out 1 s.edx 1 s))
      else if opcode == 239
      then ok (emulated (case_out 2 s.edx 1 s))
      else if opcode == 26351
      then ok (emulated (case_out 4 s.edx 2 s))
      else execute_in opcode eip s

  -- The `switch` of `vm86_monitor`: PUSHF, POPF, INT 3, INT, IRET, CLI, STI, and the rest.
  unfoldable pub execute : (opcode eip : ℕ) → Machine P → Outcome (Handled P)
  execute opcode eip s =
      if opcode == 156
      then ok (emulated (emulate_pushf s))
      else if opcode == 157
      then ok (emulated (emulate_popf s))
      else if opcode == 204
      then ok (exited s)
      else if opcode == 205
      then ok (emulated (emulate_int eip s))
      else if opcode == 207
      then ok (emulated (emulate_iret s))
      else if opcode == 250 || opcode == 251
      then ok (emulated (increment_eip 1 s))
      else execute_out opcode eip s

  -- The opcode at an address.
  abbrev pub opcode_at : (ℕ → ℕ) → (eip : ℕ) → ℕ
  opcode_at memory eip =
      if memory eip == 102 then bit_or (102 <<< 8) (memory (u32 (eip + 1))) else memory eip

  -- `vm86_monitor`, with the task list and the current task.
  unfoldable pub monitor : Tasks → (current_task : ℕ) → Machine P → Outcome (Handled P)
  monitor tasks current_task s = do
    vm86 ← get_vm86 tasks current_task
    if vm86
        then execute (opcode_at s.memory (code_address s)) (code_address s) s
        else ok not_handled

  -- `vm86_handle_gpf`.
  unfoldable pub handle_gpf : Tasks → (current_task : ℕ) → Machine P → Outcome (Handled P)
  handle_gpf tasks current_task s = do
    handled ← monitor tasks current_task s
    elim handled [
      | not_handled ↦ fault panic
      | emulated s' ↦ ok (emulated s')
      | exited s' ↦ ok (exited s')
    ]
