-- ===== src/Descriptors/Encoding.antt =====
-- The processor reads back from a descriptor what was put into it.
use unnamed_os.Base.{
  ℕ, zero, suc, ◌+◌, ◌*◌, ◌≤◌, ◌<◌, ◌≡◌, ◌≢◌, refl, arith, ◌==◌, if◌then◌else◌, ==-refl, ==-false,
  ℕ_discrete,
}
use unnamed_os.Descriptors.{
  Gdt, GdtEntry, init_entry, Idt, IdtEntry, idt_init, init_vectors, idt_init_entry_isr,
  idt_init_entry, intr_32,
}

-- How the processor puts the parts of a descriptor together.
abbrev base_of : GdtEntry → ℕ
base_of e = e.base0_23 + e.base24_31 * 16777216

abbrev limit_of : GdtEntry → ℕ
limit_of e = e.limit0_15 + e.limit16_19 * 65536

abbrev func_of : IdtEntry → ℕ
func_of e = e.func0_15 + e.func16_31 * 65536

-- A segment's base, a word, and its limit, of 20 bits, are those that it was given, its other
-- fields stay, and so do the other segments.
init_entry-segment :
    (entry base limit other : ℕ) (gdt : Gdt)
    → base < 4294967296
    → limit < 1048576
    → other ≢ entry
    → (base_of (init_entry entry base limit gdt entry) ≡ base)
      × (limit_of (init_entry entry base limit gdt entry) ≡ limit)
      × ((init_entry entry base limit gdt entry).dpl ≡ (gdt entry).dpl)
      × (init_entry entry base limit gdt other ≡ gdt other)
unfolding init_entry
init_entry-segment entry base limit other gdt hb hl ne =
    rw (==-refl entry, ==-false other entry ne) (omega arith, omega arith, refl, refl)

-- An interrupt gate of `idt_init`, for the routine at `func`.
pub record IsGate (e : IdtEntry) (func level : ℕ) : Type 0 where
  pub to : func_of e ≡ func
  pub gate : e.gate ≡ intr_32
  pub dpl : e.dpl ≡ level
  pub present : e.pr ≡ 1

idt_init_entry_isr-IsGate :
    (gdt : Gdt) (entry func d : ℕ) (idt : Idt)
    → func < 4294967296
    → d < 4
    → IsGate (idt_init_entry_isr gdt entry func d idt entry) func d
unfolding idt_init_entry_isr idt_init_entry
idt_init_entry_isr-IsGate gdt entry func d idt h hd =
    rw (==-refl entry) (record { to = omega arith; gate = refl; dpl = omega arith; present = refl })

idt_init_entry_isr-other :
    (gdt : Gdt) (entry func d other : ℕ) (idt : Idt)
    → other ≢ entry
    → idt_init_entry_isr gdt entry func d idt other ≡ idt other
unfolding idt_init_entry_isr idt_init_entry
idt_init_entry_isr-other gdt entry func d other idt ne = rw (==-false other entry ne)

init_vectors-IsGate :
    (gdt : Gdt) (isr : ℕ → ℕ) (rounds v : ℕ) (idt : Idt)
    → ((v : ℕ) → isr v < 4294967296)
    → v < rounds
    → IsGate (init_vectors gdt isr rounds idt v) (isr v) 0
unfolding init_vectors
init_vectors-IsGate gdt isr zero v idt h lt = absurd (omega arith)
init_vectors-IsGate gdt isr (suc rounds) v idt h lt = elim (ℕ_discrete v rounds) [
  | yes e ↦ rw e (idt_init_entry_isr-IsGate gdt rounds (isr rounds) 0 _ (h rounds) (omega arith))
  | no ne ↦
      rw (idt_init_entry_isr-other gdt rounds (isr rounds) 0 v (init_vectors gdt isr rounds idt) ne)
        (init_vectors-IsGate gdt isr rounds v idt h (omega arith))
]

-- After `idt_init` each of the vectors 0 to 48 leads to its routine through a present 32-bit
-- interrupt gate, and only the vector 48, of the system calls, may be called from user space.
idt_init-IsGate :
    (gdt : Gdt) (isr : ℕ → ℕ) (idt : Idt) (v : ℕ)
    → ((v : ℕ) → isr v < 4294967296)
    → v ≤ 48
    → IsGate (idt_init gdt isr idt v) (isr v) (if v == 48 then 3 else 0)
unfolding idt_init
idt_init-IsGate gdt isr idt v h le = elim (ℕ_discrete v 48) [
  | yes e ↦ rw e (
      idt_init_entry_isr-IsGate gdt 48 (isr 48) 3 (init_vectors gdt isr 48 idt) (h 48)
        (omega arith))
  | no ne ↦
      rw
        (
          ==-false v 48 ne,
          idt_init_entry_isr-other gdt 48 (isr 48) 3 v (init_vectors gdt isr 48 idt) ne,
        )
        (init_vectors-IsGate gdt isr 48 v idt h (omega arith))
]
