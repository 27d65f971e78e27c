-- ===== src/Mmu.antt =====
-- The memory management unit, `src/kernel/mem/mmu.c`: the control registers, which assembly statements
-- read and write, and the handler of page faults. Flushing the TLB leaves no trace in the registers.
mod Tests
use unnamed_os.Base.{
  ℕ, ◌+◌, ◌-◌, ◌*◌, ◌/◌, ◌%◌, ◌^◌, ◌<◌, ◌≡◌, ◌≢◌, refl, arith, ◌∙◌, Bool, true, false, not, ◌==◌,
  if◌then◌else◌, bit_and, bit_or, ◌>>>◌, u32, ==-false, ℕ_discrete, Outcome, fault, panic, Option,
  some,
}
use unnamed_os.Base.Bits.{bit_at, bit_at-or, bit_at-and, bit_at-pow, bit_at-not, bit_at-lt}
use unnamed_os.Dispatch.{Handler, Tables, register_handler}

-- CR0, CR2 and CR3.
pub record Control : Type 0 where
  pub cr0 : ℕ
  pub cr2 : ℕ
  pub cr3 : ℕ

-- `mmu_load_page_directory` and `mmu_enable_paging`, with the masks 0x80000000 and 0x7FFFFFFF.
abbrev mmu_load_page_directory : (page_directory : ℕ) → Control → Control
mmu_load_page_directory page_directory c = record c { cr3 = page_directory }

unfoldable pub mmu_enable_paging : (page_directory : ℕ) → Control → Control
mmu_enable_paging page_directory c =
    if page_directory == 0
    then record c { cr0 = bit_and c.cr0 2147483647 }
    else record (mmu_load_page_directory page_directory c) { cr0 = bit_or c.cr0 2147483648 }

-- `mmu_get_paging`.
abbrev pub mmu_get_paging : Control → ℕ
mmu_get_paging c = u32 c.cr0 >>> 31

-- What `mmu_handle_page_fault` prints, of `mmu_page_fault_error_t` and CR2.
pub record PageFault : Type 0 where
  pub address : ℕ
  pub violation : Bool
  pub writing : Bool
  pub in_user_space : Bool
  pub reserved_write : Bool
  pub instruction_fetch : Bool

abbrev error_bit : (bit error : ℕ) → Bool
error_bit bit error = not ((error >>> bit) % 2 == 0)

abbrev page_fault : Control → (error : ℕ) → PageFault
page_fault c error = record {
  address = c.cr2;
  violation = error_bit 0 error;
  writing = error_bit 1 error;
  in_user_space = error_bit 2 error;
  reserved_write = error_bit 3 error;
  instruction_fetch = error_bit 4 error;
}

-- `mmu_handle_page_fault`: the report, and that the kernel does not go on.
abbrev mmu_handle_page_fault : {A : Type 0} → Control → (error : ℕ) → PageFault × Outcome A
mmu_handle_page_fault c error = (page_fault c error, fault panic)

-- `mmu_init`; `handler` is `mmu_handle_page_fault` on the state of the kernel.
abbrev pub mmu_init : {S : Type 0} (handler : Handler S) → Tables S → Tables S
mmu_init {S} handler t = register_handler S 14 (some handler) t

top_bit : (w : ℕ) → u32 w >>> 31 ≡ bit_at w 31
top_bit w = omega arith

set_bits : (w k : ℕ) → bit_at (bit_or w 2147483648) k ≡ (if k == 31 then 1 else bit_at w k)
set_bits w k = ground (arith, bit_at-or k w 2147483648, bit_at-pow 31 k, bit_at-lt w k)

clear_bits :
    (w k : ℕ) → k < 32 → bit_at (bit_and w 2147483647) k ≡ (if k == 31 then 0 else bit_at w k)
clear_bits w k small =
    let mask : bit_at 2147483647 k ≡ 1 - bit_at 2147483648 k =
      bit_at-not 32 k 2147483648 (omega arith) small in
    ground (arith, bit_at-and k w 2147483647, bit_at-pow 31 k, mask, bit_at-lt w k)

-- What `mmu_get_paging` reads is what `mmu_enable_paging` set: 1 for a page directory, which is then
-- in CR3, and 0 for none. The other bits of CR0 keep their values.
pub mmu_get_paging-enable :
    (page_directory : ℕ) (c : Control)
    → (mmu_get_paging (mmu_enable_paging page_directory c) ≡ (if page_directory == 0 then 0 else 1))
      × ((mmu_enable_paging page_directory c).cr3
          ≡ (if page_directory == 0 then c.cr3 else page_directory))
      × ((k : ℕ) → k < 31 → bit_at (mmu_enable_paging page_directory c).cr0 k ≡ bit_at c.cr0 k)
unfolding mmu_enable_paging
mmu_get_paging-enable page_directory c = elim (ℕ_discrete page_directory 0) [
  | yes e ↦ rw (e) (
    top_bit (bit_and c.cr0 2147483647) ∙ clear_bits c.cr0 31 (omega arith),
    refl,
    λ k lt. clear_bits c.cr0 k (omega arith) ∙ rw (==-false k 31 (λ z. omega arith)),
  )
  | no ne ↦ rw (==-false page_directory 0 ne) (
    top_bit (bit_or c.cr0 2147483648) ∙ set_bits c.cr0 31,
    refl,
    λ k lt. set_bits c.cr0 k ∙ rw (==-false k 31 (λ z. omega arith)),
  )
]
