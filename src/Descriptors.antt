-- ===== src/Descriptors.antt =====
-- The descriptor tables, `src/kernel/mem/gdt.c` and `src/kernel/interrupts/idt.c`: the encoding of
-- segments and of interrupt gates, the selectors, and the initial contents of both tables. The
-- loading of the tables, which is assembly, is left out. The task state segment is in Tss.
pub mod Encoding
pub mod Tss
mod Tests
use unnamed_os.Base.{
  ℕ, zero, suc, ◌+◌, ◌*◌, ◌/◌, ◌%◌, Bool, true, false, ◌==◌, if◌then◌else◌, update, ◌>>>◌, ◌<<<◌,
}

-- `gdt_entry_t`.
pub record GdtEntry : Type 0 where
  pub limit0_15 : ℕ
  pub base0_23 : ℕ
  pub ac : ℕ
  pub rw : ℕ
  pub dc : ℕ
  pub ex : ℕ
  pub dt : ℕ
  pub dpl : ℕ
  pub pr : ℕ
  pub limit16_19 : ℕ
  pub reserved : ℕ
  pub sz : ℕ
  pub gr : ℕ
  pub base24_31 : ℕ

-- `gdt`, by index; it starts as zeroes.
abbrev pub Gdt : Type 0
Gdt = ℕ → GdtEntry

abbrev pub empty_entry : GdtEntry
empty_entry = record {
  limit0_15 = 0;
  base0_23 = 0;
  ac = 0;
  rw = 0;
  dc = 0;
  ex = 0;
  dt = 0;
  dpl = 0;
  pr = 0;
  limit16_19 = 0;
  reserved = 0;
  sz = 0;
  gr = 0;
  base24_31 = 0;
}

-- `gdt_init_entry`. A mask of the lowest bits is a remainder.
unfoldable pub init_entry : (entry base limit : ℕ) → Gdt → Gdt
init_entry entry base limit gdt = update gdt entry (record (gdt entry) {
  base0_23 = base % 16777216;
  base24_31 = (base >>> 24) % 256;
  limit0_15 = limit % 65536;
  limit16_19 = (limit >>> 16) % 16;
  reserved = 0;
})

-- The fields that `gdt_init` sets in a segment of the flat memory model.
abbrev flat : (entry ex dpl : ℕ) → Gdt → Gdt
flat entry ex dpl gdt = update gdt entry (record (gdt entry) {
  ac = 0;
  rw = 1;
  dc = 0;
  ex = ex;
  dt = 1;
  dpl = dpl;
  pr = 1;
  sz = 1;
  gr = 1;
})

-- `gdt_init`; the call of `tss_init` that follows is in Tss.
unfoldable pub gdt_init : Gdt → Gdt
gdt_init gdt =
    let limits = init_entry 4 0 1048575 (
      init_entry 3 0 1048575
        (init_entry 2 0 1048575 (init_entry 1 0 1048575 (init_entry 0 0 0 gdt)))) in
    let null = update limits 0 (record (limits 0) {
      ac = 0;
      rw = 0;
      dc = 0;
      ex = 0;
      dt = 0;
      dpl = 0;
      pr = 0;
      sz = 0;
      gr = 0;
    }) in
    flat 4 0 3 (flat 3 1 3 (flat 2 0 0 (flat 1 1 0 null)))

-- `gdt_get_selector`: the fields of `gdt_selector_t`, from the lowest bit on.
unfoldable pub get_selector : Gdt → (entry : ℕ) → ℕ
get_selector gdt entry = (gdt entry).dpl % 4 + (entry % 8192) * 8

-- `idt_entry_t`.
pub record IdtEntry : Type 0 where
  pub func0_15 : ℕ
  pub selector : ℕ
  pub reserved : ℕ
  pub gate : ℕ
  pub st : ℕ
  pub dpl : ℕ
  pub pr : ℕ
  pub func16_31 : ℕ

abbrev pub Idt : Type 0
Idt = ℕ → IdtEntry

-- `INTR_32`.
abbrev pub intr_32 : ℕ
intr_32 = 14

-- `idt_init_entry`.
unfoldable pub idt_init_entry : (entry func selector gate st dpl pr : ℕ) → Idt → Idt
idt_init_entry entry func selector gate st dpl pr idt = update idt entry (record {
  func0_15 = func % 65536;
  func16_31 = (func >>> 16) % 65536;
  selector = selector % 65536;
  reserved = 0;
  gate = gate % 16;
  st = st % 2;
  dpl = dpl % 4;
  pr = pr % 2;
})

-- `idt_init_entry_isr`.
unfoldable pub idt_init_entry_isr : Gdt → (entry func dpl : ℕ) → Idt → Idt
idt_init_entry_isr gdt entry func dpl idt =
    idt_init_entry entry func (get_selector gdt 1) intr_32 0 dpl 1 idt

-- The lines of `idt_init` for the vectors below `rounds`, in their order. `isr` gives the address
-- of the routine for a vector.
unfoldable pub init_vectors : Gdt → (isr : ℕ → ℕ) → (rounds : ℕ) → Idt → Idt
init_vectors gdt isr zero idt = idt
init_vectors gdt isr (suc rounds) idt =
    idt_init_entry_isr gdt rounds (isr rounds) 0 (init_vectors gdt isr rounds idt)

-- `idt_init`.
unfoldable pub idt_init : Gdt → (isr : ℕ → ℕ) → Idt → Idt
idt_init gdt isr idt = idt_init_entry_isr gdt 48 (isr 48) 3 (init_vectors gdt isr 48 idt)
