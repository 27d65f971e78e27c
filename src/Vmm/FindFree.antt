-- ===== src/Vmm/FindFree.antt =====
-- `vmm_find_free` of `src/kernel/mem/vmm.c`, and the unmapped pages.
use unnamed_os.Base.{
  ℕ, zero, suc, ◌+◌, ◌-◌, ◌≤◌, ◌<◌, ◌≡◌, refl, arith, ℕ_discrete, dec_le, ==-false, leb-true,
  leb-false,
}
use unnamed_os.Pmm.{get_page, get_address, pages_of}
use unnamed_os.Vmm.{
  Vmm, Domain, domain_start, domain_end, kernel_domain, user_domain, get_physical_address,
}
use unnamed_os.Vmm.Memory.{find_loop, find_free}

-- Page `p` leads nowhere.
abbrev pub IsUnmapped : Vmm → ℕ → Type 0
IsUnmapped s p = get_physical_address s (get_address p 0) ≡ 0

-- What a search for `pages` pages among those from `lo` to `hi` returns: the address of a run of pages that
-- are unmapped, or 0.
pub data Found (s : Vmm) (pages lo hi r : ℕ) : Type 0 where
  found :
      (first : ℕ)
      → lo ≤ first
      → first + pages ≤ hi
      → r ≡ get_address first 0
      → ((p : ℕ) → first ≤ p → p < first + pages → IsUnmapped s p)
      → Found s pages lo hi r
  not_found : r ≡ 0 → Found s pages lo hi r

module _ (s : Vmm) (pages lo hi : ℕ) (positive : 0 < pages) where
  find_loop-Found :
      (rounds i free : ℕ)
      → i + rounds ≡ hi
      → lo + free ≤ i
      → ((p : ℕ) → i ≤ p + free → p < i → IsUnmapped s p)
      → Found s pages lo hi (find_loop s pages rounds i free)
  unfolding find_loop
  find_loop-Found zero i free e start run = not_found refl
  find_loop-Found (suc rounds) i free e start run =
      elim (ℕ_discrete (get_physical_address s (get_address i 0)) 0) [
        | no used ↦
            rw
              (
                ==-false (get_physical_address s (get_address i 0)) 0 used,
                leb-false pages 0 positive,
              )
              (find_loop-Found rounds (i + 1) 0 (omega arith) (omega arith)
                (λ p le lt. absurd (omega arith)))
        | yes unmapped ↦
            let longer : (p : ℕ) → i + 1 ≤ p + (free + 1) → p < i + 1 → IsUnmapped s p = λ p le lt.
              elim (ℕ_discrete p i) [
                | yes at ↦ rw at unmapped
                | no ne ↦ run p (omega arith) (omega arith)
              ] in
            elim (dec_le pages (free + 1)) [
              | yes enough ↦
                  rw (unmapped, leb-true pages (free + 1) enough)
                    (found (i + 1 - (free + 1)) (omega arith) (omega arith) refl
                      (λ p le lt. longer p (omega arith) (omega arith)))
              | no short ↦
                  rw (unmapped, leb-false pages (free + 1) (omega arith))
                    (find_loop-Found rounds (i + 1) (free + 1) (omega arith) (omega arith) longer)
            ]
      ]

-- The first and the last page of a domain.
abbrev pub first_page : Domain → ℕ
first_page domain = get_page (domain_start domain) 0

abbrev pub last_page : Domain → ℕ
last_page domain = get_page (domain_end domain) 0

domain-positive : (domain : Domain) → first_page domain ≤ last_page domain
domain-positive kernel_domain = omega arith
domain-positive user_domain = omega arith

pub find_free-Found :
    (len : ℕ) (domain : Domain) (s : Vmm)
    → 0 < len
    → Found s (pages_of len) (first_page domain) (last_page domain + 1) (find_free len domain s)
unfolding find_free
find_free-Found len domain s positive = rw (==-false len 0 (λ e. omega arith)) (
    find_loop-Found s (pages_of len) (first_page domain) (last_page domain + 1) (ground arith)
      (last_page domain + 1 - first_page domain) (first_page domain) 0
      (omega (arith, domain-positive domain)) (omega arith) (λ p le lt. absurd (omega arith)))
