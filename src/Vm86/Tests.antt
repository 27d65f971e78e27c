-- ===== src/Vm86/Tests.antt =====
-- Tests of the virtual 8086 monitor, at a task whose stack ends at address 1536.
use unnamed_os.Base.{ℕ, ◌≡◌, refl, arith, ok}
use unnamed_os.Vm86.{
  Machine, get_farptr, get_address, stack_address, code_address, emulate_int, emulate_iret,
  emulated, execute, increment_eip, set_code,
}
use unnamed_os.Vm86.Interrupts.{iret-int}

abbrev task : Machine ℕ
task = record {
  eax = 0;
  edx = 0;
  eip = 1280;
  cs = 0;
  eflags = 131584;
  user_esp = 1536;
  user_ss = 0;
  memory = λ a. a;
  ports = 0;
}

iret-int_example :
    (code_address (emulate_iret (emulate_int 1280 task)) ≡ 1282)
    × (stack_address (emulate_iret (emulate_int 1280 task)) ≡ stack_address task)
    × ((emulate_iret (emulate_int 1280 task)).memory ≡ (emulate_int 1280 task).memory)
unfolding get_address
iret-int_example =
    iret-int 1280 task (emulate_int 1280 task) (omega arith) (omega arith) (omega arith) refl refl

-- STI is skipped.
sti :
    execute (λ _ _ p. (0, p)) (λ _ _ _ p. p) 251 1280 task
    ≡ ok (emulated (record task { eip = 1281 }))
unfolding execute increment_eip get_address get_farptr set_code
sti = refl
