-- ===== src/Task/Add.antt =====
-- `task_add`: which PID a new task gets, and what happens when there is none.
use unnamed_os.Base.{
  dec_lt, ==-false, ltb-true, ltb-false, ℕ_discrete, ℕ, zero, suc, ◌+◌, ◌≤◌, ◌<◌, ◌≡◌, arith, some,
  update, ok, fault, out_of_bounds,
}
use unnamed_os.Task.{Tasks, Task, max_tasks, read, add_loop, add}
use unnamed_os.Task.Scan.{Used, Vacant}

module _ (tasks : Tasks) where
  read_in_bounds : (pid : ℕ) → pid < max_tasks → read tasks pid ≡ ok (tasks pid)
  unfolding read
  read_in_bounds pid h = rw (ltb-true pid max_tasks h)

  -- The loop finds a slot that is known to be the first vacant one.
  add_loop-first :
      (fuel from pid : ℕ)
      → from ≤ pid
      → pid < max_tasks
      → pid < from + fuel
      → Vacant tasks pid
      → ((p : ℕ) → from ≤ p → p < pid → Used tasks p)
      → add_loop tasks fuel from ≡ ok pid
  unfolding add_loop
  add_loop-first zero from pid lo hi enough vacant below = absurd (omega arith)
  add_loop-first (suc fuel) from pid lo hi enough vacant below = elim (ℕ_discrete from pid) [
    | yes e ↦ rw (e, ltb-true pid max_tasks hi, vacant)
    | no ne ↦
        rw (ltb-true from max_tasks (omega arith), below from (omega arith) (omega arith))
          (add_loop-first fuel (from + 1) pid (omega arith) hi (omega arith) vacant
            (λ p lo' hi'. below p (omega arith) hi'))
  ]

  -- With every slot in use the loop reads on past the last one.
  add_loop-full :
      (fuel from : ℕ)
      → from ≤ max_tasks
      → max_tasks < from + fuel
      → ((p : ℕ) → from ≤ p → p < max_tasks → Used tasks p)
      → add_loop tasks fuel from ≡ fault out_of_bounds
  unfolding add_loop
  add_loop-full zero from lo enough full = absurd (omega arith)
  add_loop-full (suc fuel) from lo enough full = elim (dec_lt from max_tasks) [
    | yes more ↦
        rw (ltb-true from max_tasks more, full from (omega arith) more)
          (add_loop-full fuel (from + 1) (omega arith) (omega arith)
            (λ p lo' hi'. full p (omega arith) hi'))
    | no last ↦ rw (ltb-false from max_tasks (omega arith))
  ]

  -- `task_add` gives a new task the lowest free PID from 1 on, and changes no other slot.
  pub add-lowest :
      (t : Task) (pid : ℕ)
      → 0 < pid
      → pid < max_tasks
      → Vacant tasks pid
      → ((p : ℕ) → 0 < p → p < pid → Used tasks p)
      → add tasks t ≡ ok (pid, update tasks pid (some t))
  unfolding add
  add-lowest t pid lo hi vacant below = rw (
    add_loop-first max_tasks 1 pid lo hi (omega arith) vacant below,
    ==-false pid max_tasks (omega arith),
  )

  -- With all 1023 PIDs in use `task_add` reads the array one slot past its end, before it can
  -- notice that the list is full.
  add-full :
      (t : Task)
      → ((p : ℕ) → 0 < p → p < max_tasks → Used tasks p)
      → add tasks t ≡ fault out_of_bounds
  unfolding add
  add-full t full = rw (add_loop-full max_tasks 1 (omega arith) (omega arith) full)
