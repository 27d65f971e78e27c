-- ===== src/Descriptors/Tss.antt =====
-- The task state segment, `src/kernel/tasks/tss.c`. Loading it is assembly.
use unnamed_os.Base.{ℕ, update}
use unnamed_os.Descriptors.{Gdt, init_entry, get_selector}

-- The fields of `tss_t` that are used.
pub record Tss : Type 0 where
  pub esp0 : ℕ
  pub ss0 : ℕ

-- `sizeof(tss_t)`.
abbrev tss_size : ℕ
tss_size = 104

-- `tss_init` with the address of the segment.
unfoldable pub tss_init : (address : ℕ) → Gdt → Tss → Gdt × Tss
tss_init address gdt tss =
    let gdt1 = init_entry 5 address tss_size gdt in
    let gdt2 = update gdt1 5 (record (gdt1 5) {
      ac = 1;
      rw = 0;
      dc = 0;
      ex = 1;
      dt = 0;
      dpl = 3;
      pr = 1;
      sz = 1;
      gr = 0;
    }) in
    (gdt2, record tss { ss0 = get_selector gdt2 2 })

-- `tss_set_stack`.
abbrev tss_set_stack : (stack_pointer : ℕ) → Tss → Tss
tss_set_stack stack_pointer tss = record tss { esp0 = stack_pointer }
