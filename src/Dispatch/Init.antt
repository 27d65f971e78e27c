-- ===== src/Dispatch/Init.antt =====
-- What is registered at boot: `isr_init` of `src/kernel/interrupts/isr.c` and `syscall_init` of
-- `src/kernel/interrupts/syscall.c`.
use unnamed_os.Base.{ℕ, some}
use unnamed_os.Dispatch.{Handler, Syscall, Tables, register_handler, register_syscall}

-- The four system calls of `syscalls.h`, and `isr_handle_syscall`.
pub record Calls (S : Type 0) : Type 0 where
  pub exit : Syscall S
  pub getpid : Syscall S
  pub io_putchar : Syscall S
  pub io_attr : Syscall S
  pub handle_syscall : Handler S

abbrev isr_syscall : ℕ
isr_syscall = 48

module _ {S : Type 0} (c : Calls S) where
  -- `syscall_init`.
  unfoldable pub syscall_init : Tables S → Tables S
  syscall_init t = register_syscall S 3 (some c.io_attr) (
      register_syscall S 2 (some c.io_putchar)
        (register_syscall S 1 (some c.getpid) (register_syscall S 0 (some c.exit) t)))

  -- `isr_init`; enabling the interrupts is left to the processor.
  unfoldable pub isr_init : Tables S → Tables S
  isr_init t = syscall_init (register_handler S isr_syscall (some c.handle_syscall) t)
