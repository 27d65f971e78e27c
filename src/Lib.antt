-- ===== src/Lib.antt =====
-- UnnamedOS, a small operating system for x86: a model of parts of its kernel, and theorems about
-- them. The sources are C, under src/kernel and src/lib from the repository's root.
--
-- How the parts interact. The physical memory manager (PMM) hands out page frames. The virtual
-- memory manager (VMM) takes page tables and memory from it and keeps the mappings of the current
-- page directory. Tasks are kept in an array indexed by PID; the scheduler, which the timer's
-- interrupt calls, asks it for the next running task, saves and loads CPU states, and changes the
-- address space. A task ends by a system call that stops it and switches to another one. The
-- drivers of the keyboard and the mouse receive bytes from the interrupt of the PS/2 controller.
-- All interrupts come in through one dispatcher. At boot main initialises the parts in this order,
-- first the PMM from the boot loader's memory map, then the VMM, which maps the kernel to itself
-- and turns paging on. The virtual 8086 monitor runs in the general protection faults of a task in
-- that mode.
--
-- - Base: what the modules share: tests on numbers, lists, machine words, the bits of a word, and
--   the faults that C leaves undefined or that halt the machine (out of bounds, null dereference,
--   panic), in the type Outcome.
--
-- - Pmm: src/kernel/mem/pmm.c. The bitmap is a function from word index to word. pmm_use is
--   use_range, pmm_alloc is alloc, pmm_free is free, pmm_find_free is find_free. Children: Bitmap,
--   Range, FirstFit, Alloc, Kernel, Spare.
--
-- - Boot: src/kernel/boot/multiboot.c, and pmm_init of src/kernel/mem/pmm.c, which asks it for the
--   memory map. Children: Pages, KernelPages, Layout.
--
-- - Startup: src/kernel/boot/main.c, the boot in its order, with a record of the state of all
--   parts. Startup.Memory is about the two memory managers together, Startup.Started about the end
--   of main.
--
-- - Lists: src/kernel/lib/list.c and src/kernel/lib/queue.c. Nodes stand in a heap; the address of
--   a new node is an argument. Chain, Ends, Unlink and Walk hold what the operations do to a chain
--   of nodes, Refinement and Runs compare them with a sequence of items, Queue holds the queue.
--
-- - Vmm: src/kernel/mem/vmm.c. The entries of directories and tables are a function from page
--   frame and index to entry. vmm_map is map_page, vmm_unmap is unmap_page,
--   vmm_get_physical_address is get_physical_address. Vmm.Memory holds the search for unmapped
--   pages and the allocation, Vmm.Directories the page directories, Vmm.Init the initialisation.
--   An access to an address that is not mapped while paging is on, where the code does not test
--   that it has mapped it, sets the field faulted; the tasks and the scheduler then panic. Walk,
--   Separated, Translate, Unmap and Ranges hold what mapping and unmapping do to the translation
--   of addresses, FindFree and Allocation the search and vmm_alloc, Identity, VideoMemory,
--   Initialised, Spare and Suffices what vmm_init does and needs, Freeing and NullPage two errors.
--
-- - Mmu: src/kernel/mem/mmu.c, the control registers and the handler of page faults.
--
-- - Task: src/kernel/tasks/task.c. A slot of the array holds the task or none. task_get_next_task
--   is get_next_task, and so on. Task.Create holds task_create_detailed and task_destroy, whose
--   state is the record Kernel: the list, the memory manager, the CPU states in memory. Children:
--   Fields, Scan, Add, Round, Find, Effects, Create, Lifecycle.
--
-- - Schedule: src/kernel/tasks/schedule.c, and syscall_exit and syscall_getpid of
--   src/kernel/interrupts/syscall.c. The state is the record Sched; the change of the address
--   space is a parameter. Schedule.Finalize holds schedule_finalize_tasks, which destroys the
--   tasks that stopped. Reachable holds the steps of the scheduler over the life of the kernel and
--   what holds after any sequence of them. Children: Switch, Paths, RoundRobin, Reachable, Exit,
--   Finalize, Finalized.
--
-- - Keyboard: src/kernel/hardware/io/keyboard.c. keyboard_handle_data is handle_data; a store past
--   the end of its buffer is a fault. Children: Keymap, Protocol, KeyStates, PrintScreen.
--
-- - Vm86: src/kernel/tasks/vm86.c, the monitor and what it calls. The ports are parameters.
--   Vm86.Create and Vm86.Bios hold the creation of tasks and vm86_call_bios. Children:
--   FarPointers, Stack, Interrupts, Create, Bios.
--
-- - Pit: src/kernel/hardware/pit.c. pit_init_channel is init_channel; the clock of
--   pit_handle_interrupt is tick. Pit.Sleep holds pit_sleep, Pit.Speaker
--   src/kernel/hardware/io/speaker.c. Children: Counter, Clock, Sleep, Speaker.
--
-- - Ps2: src/kernel/hardware/io/ps2.c. The ports and the clock are parameters. Ps2.Devices holds
--   the set-up of the devices, with keyboard_init and mouse_init, and the interrupt. Children:
--   Devices, Waiting, Interrupt.
--
-- - Mouse: src/kernel/hardware/io/mouse.c. mouse_handle_data is handle_data, mouse_process_packet
--   is process_packet. Children: Position, Resolution.
--
-- - Dispatch: src/kernel/interrupts/isr.c and src/kernel/interrupts/pic.c. isr_handle_interrupt is
--   handle_interrupt, pic_send_eoi is send_eoi. Dispatch.Init holds what is registered at boot,
--   with syscall_init of src/kernel/interrupts/syscall.c. Children: EndOfInterrupt, Init.
--
-- - Descriptors: src/kernel/mem/gdt.c and src/kernel/interrupts/idt.c, and src/kernel/tasks/tss.c.
--   Children: Encoding, Tss.
--
-- - Cpuid: src/kernel/hardware/cpu/cpuid.c. The instruction is a parameter. Child: Names.
--
-- - Screen: src/kernel/hardware/io/output.c. io_putchar is putchar. Child: Cursor.
--
-- - Elf: src/kernel/tasks/elf.c. Memory is one function from address to byte. Reach holds the page
--   faults of writing to segments. Children: Segments, Reach, Loading, Tasks.
--
-- - Strings: src/lib/string.c and the printing of numbers and formats in src/lib/io.c. Children:
--   Digits, Copies, Format.
--
-- - Tests, a child of each part: runs on concrete states, and the theorems applied to them.
--
-- Numbers are natural numbers; the wrap-around of a machine word is written out (u8, u16, u32,
-- sub32) where the code computes in one. Loops are recursion on the rounds that are left: the
-- number of pages or of frames to go through in Pmm and Vmm, where the loop has a fixed bound, the
-- slots of the array in the scans of the task list, and one round more than there are slots in the
-- search by state, which the code itself bounds. The loop that prints digits has the room of its
-- buffer, 32 characters, which a number of 32 bits never exceeds. The loop over the segments of an
-- executable has 65536 rounds, more than the 16-bit number of segments. The walks over a list of
-- nodes have one round more than there are nodes, schedule_finalize_tasks has 1024 rounds, as many
-- as slots, the walk over the memory map one round more than it has bytes, and the loops that wait
-- for the PS/2 controller as many as it takes the clock to reach the timeout. The theorems on the
-- scans and searches show that these are enough.
--
-- Not modelled: messages and logs; assembly (entry code, port access, the loading of tables, the
-- TLB); main2 of src/kernel/boot/main.c, which creates the first tasks and shows the clock, and
-- the two handlers there for events.
pub mod Base
pub mod Pmm
pub mod Vmm
pub mod Boot
pub mod Lists
pub mod Task
pub mod Schedule
pub mod Keyboard
pub mod Vm86
pub mod Pit
pub mod Mouse
pub mod Ps2
pub mod Dispatch
pub mod Descriptors
pub mod Strings
pub mod Screen
pub mod Elf
pub mod Cpuid
pub mod Mmu
pub mod Startup
