-- ===== src/Elf/LoadingTests.antt =====
-- A file of one segment at address 4096, whose 8 bytes go to 1 GiB, with 8 zeroes behind them.
use unnamed_os.Base.{
  ℕ, none, ◌-◌, List, [], ◌∷◌, get_or, replicate, ◌++◌, if◌then◌else◌, ltb, leb, ◌&&◌,
}
use unnamed_os.Task.Examples.{fresh_kernel}
use unnamed_os.Elf.{Loader}
use unnamed_os.Pmm
use unnamed_os.Vmm
use unnamed_os.Vmm.Memory
use unnamed_os.Vmm.Directories

abbrev header : List ℕ
header =
    (127 ∷ 69 ∷ 76 ∷ 70 ∷ 1 ∷ 1 ∷ 1 ∷ [])
    ++ (replicate 9 0
        ++ (2 ∷ 0 ∷ 3 ∷ 0 ∷ 1 ∷ 0 ∷ 0 ∷ 0 ∷ 0 ∷ 0 ∷ 0 ∷ 64 ∷ 52 ∷ 0 ∷ 0 ∷ 0 ∷ [])
        ++ (replicate 12 0 ++ (1 ∷ []))
        ++ replicate 7 0)

abbrev program_header : List ℕ
program_header =
    (1 ∷ 0 ∷ 0 ∷ 0 ∷ 84 ∷ 0 ∷ 0 ∷ 0 ∷ 0 ∷ 0 ∷ 0 ∷ 64 ∷ [])
    ++ (replicate 4 0 ++ (8 ∷ 0 ∷ 0 ∷ 0 ∷ 16 ∷ 0 ∷ 0 ∷ 0 ∷ 2 ∷ 0 ∷ 0 ∷ 0 ∷ []) ++ replicate 4 0)

abbrev file : List ℕ
file = header ++ (program_header ++ (11 ∷ 12 ∷ 13 ∷ 14 ∷ 15 ∷ 16 ∷ 17 ∷ 18 ∷ []))

abbrev memory : ℕ → ℕ
memory a = if leb 4096 a && ltb a 4188 then get_or file (a - 4096) 0 else 255

abbrev loader : Loader
loader = record (fresh_kernel (λ _. none)).loader { memory = memory }
