-- ===== src/Startup/Examples.antt =====
-- A machine that is turned on, with the boot loader's structures of `Boot.Examples`.
use unnamed_os.Base.{ℕ, ◌+◌, false, Option, some, none, ok, []}
use unnamed_os.Boot.{Boot}
use unnamed_os.Boot.Examples.{at_boot, two_pages, boot_memory}
use unnamed_os.Descriptors.{empty_entry}
use unnamed_os.Dispatch.{Handler, Syscall}
use unnamed_os.Startup.{Image, Routines, System}
use unnamed_os.Task.Examples.{fresh_kernel}
use unnamed_os.Vmm.{Vmm, absent}

abbrev pub same_state : Handler ℕ
same_state cpu s = ok (cpu, s)

abbrev no_result : Syscall ℕ
no_result ebx ecx edx esi edi cpu s = ok (0, cpu, s)

abbrev pub routines : Routines ℕ
routines = record {
  page_fault = same_state;
  timer = same_state;
  general_protection = same_state;
  calls = record {
    exit = no_result;
    getpid = no_result;
    io_putchar = no_result;
    io_attr = no_result;
    handle_syscall = same_state;
  };
}

abbrev pub image : Image
image = record { symbols = two_pages; tss = 4198400; isr = λ n. 4194304 + n; main2 = 4195328 }

abbrev unpaged : Vmm
unpaged = record {
  entries = λ _ _. absent;
  directory = 0;
  old_directory = 0;
  domain_check_enabled = false;
  paging = false;
  faulted = false;
  pmm = at_boot.pmm;
}

abbrev pub turned_on : System ℕ
turned_on = record {
  mb_info = 0;
  video = 753664;
  kernel = record (fresh_kernel (λ _. none)) {
    loader = record {
      vmm = (record { enabled = false; old_interrupts = false }, unpaged);
      memory = boot_memory;
    };
    gdt = λ _. empty_entry;
  };
  tss = record { esp0 = 0; ss0 = 0 };
  idt = λ _. record {
    func0_15 = 0;
    selector = 0;
    reserved = 0;
    gate = 0;
    st = 0;
    dpl = 0;
    pr = 0;
    func16_31 = 0;
  };
  tables = record { handlers = λ _. none; syscalls = λ _. none };
  pit = record { freq = 0; seconds = 0; minutes = 0; hours = 0; ticks = 0 };
  ports = [];
}

abbrev pub unwrap : Option Boot → Boot
unwrap none = at_boot
unwrap (some b) = b
