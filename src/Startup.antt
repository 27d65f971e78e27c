-- ===== src/Startup.antt =====
-- The boot of the kernel, `main` of `src/kernel/boot/main.c`: the order in which the parts are
-- initialised. The messages, the screen and the two handlers for key and mouse events are left out,
-- and `cpuid_init` only prints.
pub mod Memory
pub mod Started
pub mod Examples
mod Tests
mod StartedTests
use unnamed_os.Base.{ℕ, true, Option, none, some, List, ◌++◌, Outcome, ok, ◌>>=◌}
use unnamed_os.Boot.{Boot, Symbols, multiboot_init, pmm_init}
use unnamed_os.Descriptors.{Idt, gdt_init, idt_init}
use unnamed_os.Descriptors.Tss.{Tss, tss_init}
use unnamed_os.Dispatch.{Handler, Tables, register_handler, pic_init}
use unnamed_os.Dispatch.Init.{Calls, isr_init}
use unnamed_os.Elf.{Loader}
use unnamed_os.Mmu.{mmu_init}
use unnamed_os.Pit
use unnamed_os.Pit.{Pit}
use unnamed_os.Task.Create.{Kernel, enable_interrupts, task_create_kernel}
use unnamed_os.Vmm.{Vmm}
use unnamed_os.Vmm.Init.{vmm_init}

-- The addresses of the kernel's image: the symbols of the linker script, the task state segment, the
-- routine of each interrupt vector, and `main2`.
pub record Image : Type 0 where
  pub symbols : Symbols
  pub tss : ℕ
  pub isr : ℕ → ℕ
  pub main2 : ℕ

-- The functions that are registered: `mmu_handle_page_fault`, `pit_handle_interrupt`,
-- `vm86_handle_gpf`, and the system calls.
pub record Routines (S : Type 0) : Type 0 where
  pub page_fault : Handler S
  pub timer : Handler S
  pub general_protection : Handler S
  pub calls : Calls S

-- The state of all parts. `ports` holds what was written to the ports so far.
pub record System (S : Type 0) : Type 0 where
  pub mb_info : ℕ
  pub video : ℕ
  pub kernel : Kernel
  pub tss : Tss
  pub idt : Idt
  pub tables : Tables S
  pub pit : Pit
  pub ports : List (ℕ × ℕ)

-- `STACK_SIZE`.
abbrev pub stack_size : ℕ
stack_size = 16384

module _ {S : Type 0} where
  abbrev pub vmm_of : System S → Vmm
  vmm_of m = m.kernel.loader.vmm.1

  -- What the boot of the memory managers reads.
  abbrev pub boot_of : System S → Boot
  boot_of m = record { mb_info = m.mb_info; memory = m.kernel.loader.memory; pmm = (vmm_of m).pmm }

  -- `vmm_init` with the physical memory manager and the memory that `pmm_init` leaves.
  abbrev pub paging_from : Routines S → System S → Boot → System S
  paging_from h m b =
      let (video, s) = vmm_init m.video (record (vmm_of m) { pmm = b.pmm }) in
      let k = m.kernel in
      record m {
        mb_info = b.mb_info;
        video = video;
        kernel = record k { loader = record { vmm = (k.loader.vmm.0, s); memory = b.memory } };
        tables = mmu_init h.page_fault m.tables;
      }

  abbrev pub paging_after : Routines S → System S → Option Boot → Option (System S)
  paging_after h m none = none
  paging_after h m (some b) = some (paging_from h m b)

  -- `multiboot_init`, `pmm_init` and `vmm_init`, in this order.
  unfoldable pub memory_init :
      Image → Routines S → (strings fuel mb_info : ℕ) → System S → Option (System S)
  memory_init image h strings fuel mb_info m =
      paging_after h m (pmm_init image.symbols strings fuel (multiboot_init mb_info (boot_of m)))

  -- `vm86_init`.
  abbrev vm86_init : (handler : Handler S) → Tables S → Tables S
  vm86_init handler t = register_handler S 13 (some handler) t

  -- `pit_init` with the registration of its interrupt.
  abbrev pub pit_init : (handler : Handler S) → (new_freq : ℕ) → System S → System S
  pit_init handler new_freq m =
      let (pit, writes) = Pit.init new_freq m.pit in
      record m {
        tables = register_handler S 32 (some handler) m.tables;
        pit = pit;
        ports = m.ports ++ writes;
      }

  -- `gdt_init`, which calls `tss_init`, and `idt_init` and `pic_init`.
  abbrev interrupts_init : Image → System S → System S
  interrupts_init image m =
      let (gdt, tss) = tss_init image.tss (gdt_init m.kernel.gdt) m.tss in
      record m {
        kernel = record (m.kernel) { gdt = gdt };
        tss = tss;
        idt = idt_init gdt image.isr m.idt;
        ports = m.ports ++ pic_init;
      }

  -- `isr_init`, which enables interrupts.
  abbrev start_interrupts : Calls S → System S → System S
  start_interrupts calls m =
      let k = m.kernel in
      record m {
        tables = isr_init calls m.tables;
        kernel = record k {
          loader = record k.loader { vmm = (enable_interrupts true k.loader.vmm).1 };
        };
      }

  -- The calls of `main` from `gdt_init` to `isr_init`.
  unfoldable pub devices_init : Image → Routines S → System S → System S
  devices_init image h m =
      let m' = pit_init h.timer 50 (interrupts_init image m) in
      start_interrupts h.calls (record m' { tables = vm86_init h.general_protection m'.tables })

  -- The call of `task_create_kernel`.
  unfoldable pub create_main2 : Image → System S → Outcome (ℕ × System S)
  create_main2 image m = do
    (pid, k) ← task_create_kernel image.main2 0 stack_size m.kernel
    ok (pid, record m { kernel = k })

  -- What `main` does with the end of `memory_init`.
  abbrev pub after_memory : Image → Routines S → Option (System S) → Option (Outcome (ℕ × System S))
  after_memory image h none = none
  after_memory image h (some m) = some (create_main2 image (devices_init image h m))

  -- `main`, up to the `hlt` that ends it: the PID of `main2`, and the state.
  unfoldable pub main :
      Image → Routines S → (strings fuel mb_info : ℕ) → System S → Option (Outcome (ℕ × System S))
  main image h strings fuel mb_info m =
      after_memory image h (memory_init image h strings fuel mb_info m)
