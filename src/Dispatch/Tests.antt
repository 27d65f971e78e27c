-- ===== src/Dispatch/Tests.antt =====
-- Tests of the dispatch, with a state that is the vector of the interrupt.
use unnamed_os.Base.{
  ℕ, ◌+◌, ◌≡◌, refl, none, some, [], ◌∷◌, ◌&&◌, leb, if◌then◌else◌, arith, ok, update,
}
use unnamed_os.Dispatch.{
  Frames, Tables, Handler, handle_interrupt, pic1_cmd, pic2_cmd, pic_eoi, handle_syscall,
  call_syscall,
}
use unnamed_os.Dispatch.EndOfInterrupt.{handle_interrupt-eoi}

abbrev vector_only : Frames ℕ
vector_only = record {
  intr = λ s cpu. s;
  eax = λ s cpu. 2;
  ebx = λ s cpu. 65;
  ecx = λ s cpu. 0;
  edx = λ s cpu. 0;
  esi = λ s cpu. 0;
  edi = λ s cpu. 0;
  set_eax = λ cpu value s. value;
}

-- Moves the stack pointer on, and forgets the vector.
abbrev next_frame : Handler ℕ
next_frame cpu s = ok (cpu + 92, 0)

abbrev one_handler : Tables ℕ
one_handler = record {
  handlers = update (λ _. none) 44 (some next_frame);
  syscalls = update (λ _. none) 2 (some (λ ebx ecx edx esi edi cpu s. ok (ebx + 1, cpu, s)));
}

handle_interrupt-eoi_example :
    handle_interrupt ℕ vector_only one_handler 4096 44
    ≡ ok (
      4188,
      0,
      if leb 40 44 && leb 44 47
          then (pic2_cmd, pic_eoi) ∷ (pic1_cmd, pic_eoi) ∷ []
          else if leb 32 44 && leb 44 39
          then (pic1_cmd, pic_eoi) ∷ []
          else [],
    )
handle_interrupt-eoi_example =
    handle_interrupt-eoi ℕ vector_only one_handler 4096 4188 44 0 next_frame (omega arith) refl refl

-- A system call that switches no task leaves its result in EAX.
result : handle_syscall ℕ vector_only one_handler 4096 0 ≡ ok (4096, 66)
unfolding handle_syscall call_syscall
result = refl
