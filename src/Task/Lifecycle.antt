-- ===== src/Task/Lifecycle.antt =====
-- What a new task starts with, and what the destruction of a task leaves.
use unnamed_os.Base.{
  ◌⊎◌, inl, inr, true, fault, panic, Bool-cases, ==-false, ==-refl, ltb-true, ℕ, ◌+◌, ◌<◌, ◌≡◌, ◌≢◌,
  refl, ap, arith, some, none, Bool, false, update, ok, u32, sub32,
}
use unnamed_os.Vmm.{Vmm}
use unnamed_os.Vmm.Directories.{Interrupts, modified_page_directory}
use unnamed_os.Task.{Task, stopped, running, max_tasks, remove}
use unnamed_os.Descriptors.{get_selector}
use unnamed_os.Task.Add.{add-lowest}
use unnamed_os.Task.Round.{get_of_some}
use unnamed_os.Task.Scan.{Used, Vacant}
use unnamed_os.Task.Create.{
  Kernel, TaskMemory, task_memory, new_task, cpu_at, enable_interrupts, initial_cpu, initial_eflags,
  task_create_detailed, enlist, task_destroy, release, CpuState,
}

-- The memory that a new task gets in the state `k`.
abbrev pub memory_for : (page_directory kernel_stack_len user_stack_len : ℕ) → Kernel → TaskMemory
memory_for page_directory kernel_stack_len user_stack_len k =
    task_memory page_directory kernel_stack_len user_stack_len
      (enable_interrupts false k.loader.vmm).1

-- In `k'` the task `pid` runs, with a CPU state that enters the given code.
pub record Starts (k k' : Kernel) (pid entry_point code data_selector : ℕ) : Type 0 where
  pub task : Task
  pub slot : k'.tasks pid ≡ some task
  pub is_running : task.state ≡ running
  pub others : (q : ℕ) → q ≢ pid → k'.tasks q ≡ k.tasks q
  pub enters : (k'.cpu_states task.cpu).eip ≡ entry_point
  pub in_segment : (k'.cpu_states task.cpu).cs ≡ code
  pub on_segment : (k'.cpu_states task.cpu).user_ss ≡ data_selector
  pub interruptible : (k'.cpu_states task.cpu).eflags ≡ initial_eflags
  pub on_stack :
      (k'.cpu_states task.cpu).user_esp ≡ sub32 (u32 (task.user_stack + task.user_stack_len)) 1
  pub restored : k'.loader.vmm.0.enabled ≡ k.loader.vmm.0.enabled

-- The state with the task `t`, at the address `task`, in the slot `pid`.
abbrev pub enlisted : (pid task : ℕ) → Task → Bool → Interrupts × Vmm → Kernel → Kernel
enlisted pid task t old_interrupts vmm k = record k {
  tasks = update k.tasks pid (some t);
  task_at = update k.task_at pid task;
  loader = record k.loader {
    vmm = (enable_interrupts old_interrupts (modified_page_directory vmm)).1;
  };
}

pub update-other : {A : Type 0} (f : ℕ → A) (i : ℕ) (a : A) (q : ℕ) → q ≢ i → update f i a q ≡ f q
update-other f i a q ne = ground arith

pub update-same : {A : Type 0} (f : ℕ → A) (i : ℕ) (a : A) → update f i a i ≡ a
update-same f i a = ground (arith, ==-refl i)

module _ (pid : ℕ) (k : Kernel) (pos : 0 < pid) (small : pid < max_tasks)
    (vacant : Vacant k.tasks pid) (below : (p : ℕ) → 0 < p → p < pid → Used k.tasks p) where
  pub enlist-enlisted :
      (t : Task) (task : ℕ) (old_interrupts : Bool) (vmm : Interrupts × Vmm) (states : ℕ → CpuState)
      → (modified_page_directory vmm).1.faulted ≡ false
      → enlist t task old_interrupts vmm (record k { cpu_states = states })
        ≡ ok (pid, enlisted pid task t old_interrupts vmm (record k { cpu_states = states }))
  unfolding enlist
  enlist-enlisted t task old_interrupts vmm states reached =
      rw (add-lowest k.tasks t pid pos small vacant below, reached)

  -- Where the task list has a slot, the two allocations that the kernel writes to do not fail, and the page
  -- directories that it changes between can be mapped, so that no page fault occurs,
  -- `task_create_detailed` returns the lowest free PID; the task of that PID runs, and its CPU state
  -- enters the entry point in the given segments with interrupts enabled and the stack pointer
  -- at the last byte of the user stack. No other slot changes, and the interrupt flag is what it was.
  pub task_create_detailed-Starts :
      (entry_point page_directory kernel_stack_len user_stack_len elf code_segment data_segment : ℕ)
      → (memory_for page_directory kernel_stack_len user_stack_len k).task ≢ 0
      → (memory_for page_directory kernel_stack_len user_stack_len k).kernel_stack ≢ 0
      → (modified_page_directory
          (memory_for page_directory kernel_stack_len user_stack_len k).vmm).1.faulted
        ≡ false
      → (k' : Kernel) × (task_create_detailed entry_point page_directory kernel_stack_len
            user_stack_len elf code_segment data_segment k
          ≡ ok (pid, k'))
        × Starts k k' pid entry_point
            (get_selector k.gdt code_segment)
            (get_selector k.gdt data_segment)
  unfolding task_create_detailed
  task_create_detailed-Starts entry_point page_directory kernel_stack_len user_stack_len elf
        code_segment data_segment ht hk reached =
      let m = memory_for page_directory kernel_stack_len user_stack_len k in
      let cpu = cpu_at m.kernel_stack kernel_stack_len in
      let t = new_task m kernel_stack_len user_stack_len elf (k.stale_ticks m.task) in
      let state =
        initial_cpu (get_selector k.gdt code_segment) (get_selector k.gdt data_segment) entry_point
          (sub32 (u32 (m.user_stack + user_stack_len)) 1) (k.cpu_states cpu) in
      let states = update k.cpu_states cpu state in
      let there : states cpu ≡ state = update-same k.cpu_states cpu state in
      (
        enlisted pid m.task t k.loader.vmm.0.enabled m.vmm (record k { cpu_states = states }),
        rw (==-false m.task 0 ht, ==-false m.kernel_stack 0 hk)
            (enlist-enlisted t m.task k.loader.vmm.0.enabled m.vmm states reached),
        record {
          task = t;
          slot = update-same k.tasks pid (some t);
          is_running = refl;
          others = update-other k.tasks pid (some t);
          enters = ap (λ c. c.eip) there;
          in_segment = ap (λ c. c.cs) there;
          on_segment = ap (λ c. c.user_ss) there;
          interruptible = ap (λ c. c.eflags) there;
          on_stack = ap (λ c. c.user_esp) there;
          restored = refl;
        },
      )

-- What `task_destroy` leaves for a task that was stopped.
pub record Destroyed (k k' : Kernel) (pid : ℕ) : Type 0 where
  pub gone : k'.tasks pid ≡ none
  pub others : (q : ℕ) → q ≢ pid → k'.tasks q ≡ k.tasks q
  pub restored : k'.loader.vmm.0.enabled ≡ k.loader.vmm.0.enabled
  pub reached : k'.loader.vmm.1.faulted ≡ false

module _ (pid : ℕ) (k : Kernel) (small : pid < max_tasks) (t : Task)
    (slot : k.tasks pid ≡ some t) where
  -- What `task_destroy` gives back.
  abbrev pub released : Interrupts × Vmm
  released = release t (k.task_at pid) (enable_interrupts false k.loader.vmm).1

  -- `task_destroy` empties the slot of a task that was stopped, changes no other slot, and restores the
  -- interrupt flag. It panics instead if giving back the memory of the task leads to a page fault.
  pub task_destroy-Destroyed :
      t.state ≡ stopped
      → ((k' : Kernel) × (task_destroy pid k ≡ ok k') × Destroyed k k' pid)
        ⊎ ((released.1.faulted ≡ true) × (task_destroy pid k ≡ fault panic))
  unfolding task_destroy remove release
  task_destroy-Destroyed e = elim (Bool-cases released.1.faulted) [
    | inl f ↦ inr (f, rw (get_of_some k.tasks pid small slot, e, ltb-true pid max_tasks small, f))
    | inr reached ↦ inl (
      record k {
        tasks = update k.tasks pid none;
        loader = record k.loader { vmm = (enable_interrupts k.loader.vmm.0.enabled released).1 };
      },
      rw (get_of_some k.tasks pid small slot, e, ltb-true pid max_tasks small, reached),
      record {
        gone = update-same k.tasks pid none;
        others = update-other k.tasks pid none;
        restored = refl;
        reached = reached;
      },
    )
  ]

  -- For a task that is running, `task_destroy` destroys nothing, but returns with interrupts disabled.
  pub task_destroy-running :
      t.state ≡ running
      → (k' : Kernel) × (task_destroy pid k ≡ ok k')
        × (k'.tasks ≡ k.tasks)
        × (k'.loader.vmm.0.enabled ≡ false)
  unfolding task_destroy
  task_destroy-running e = (
    record k { loader = record k.loader { vmm = (enable_interrupts false k.loader.vmm).1 } },
    rw (get_of_some k.tasks pid small slot, e),
    refl,
    refl,
  )
