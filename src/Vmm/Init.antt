-- ===== src/Vmm/Init.antt =====
-- The initialisation of the virtual memory manager, `vmm_init` in `src/kernel/mem/vmm.c`, and the
-- mapping of the video memory by `src/kernel/hardware/io/output.c`.
use unnamed_os.Base.{ℕ, zero, suc, ◌+◌, true, ◌||◌, ◌==◌, if◌then◌else◌}
use unnamed_os.Pmm.{get_page, get_address, check, get_highest_kernel_page, unused, reserved}
use unnamed_os.Vmm.{Vmm, vmm_kernel, map_page}
use unnamed_os.Vmm.Directories.{create_page_directory, load_page_directory}
use unnamed_os.Vmm.Memory.{enable_domain_check, use_physical_memory}

-- One round of the loop of `vmm_init`: a page frame that is in use is mapped to itself.
unfoldable pub identity_page : (i : ℕ) → Vmm → Vmm
identity_page i s =
    let addr = get_address i 0 in
    if check s.pmm addr == unused || check s.pmm addr == reserved
    then s
    else (map_page addr addr vmm_kernel s).1

-- The loop from page `i` on.
unfoldable pub identity_loop : (rounds i : ℕ) → Vmm → Vmm
identity_loop zero i s = s
identity_loop (suc rounds) i s = identity_loop rounds (i + 1) (identity_page i s)

-- `io_use_video_memory`: the new value of `video`, and the state.
abbrev pub use_video_memory : (video : ℕ) → Vmm → ℕ × Vmm
use_video_memory video s = use_physical_memory video 4000 vmm_kernel s

-- What `vmm_init` does with its new directory, without the handler of page faults.
unfoldable pub fill_directory : (video dir : ℕ) → Vmm → ℕ × Vmm
fill_directory video dir s =
    let s' = identity_loop (get_highest_kernel_page s.pmm + 1) 0 s in
    let (_, loaded) = load_page_directory dir (enable_domain_check true s') in
    use_video_memory video loaded

-- `vmm_init`: where the video memory is, and the state.
unfoldable pub vmm_init : (video : ℕ) → Vmm → ℕ × Vmm
vmm_init video s =
    let (dir, s1) = create_page_directory s in
    fill_directory video dir (record s1 { directory = get_page dir 0 })
