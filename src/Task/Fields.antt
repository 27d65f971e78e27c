-- ===== src/Task/Fields.antt =====
-- The accessors of a task's fields, on a PID whose slot holds a task and on one whose slot is
-- empty.
use unnamed_os.Base.{
  ==-false, ◌≢◌, ==-refl, ltb-true, ℕ, ◌<◌, ◌≡◌, Option, some, none, update, ok, fault,
  null_dereference,
}
use unnamed_os.Task.{
  Tasks, Task, max_tasks, stopped, get, get_ticks, set_ticks, get_cpu, set_cpu, get_page_directory,
  stop,
}

-- The slot of a PID holds the given task.
pub record Holds (tasks : Tasks) (pid : ℕ) (t : Task) : Type 0 where
  pub small : pid < max_tasks
  pub slot : tasks pid ≡ some t

pub Holds-update :
    {tasks : Tasks} {pid : ℕ} {t : Task} (t' : Task)
    → Holds tasks pid t
    → Holds (update tasks pid (some t')) pid t'
Holds-update {pid} t' h = record { small = h.small; slot = rw (==-refl pid) }

module _ {tasks : Tasks} {pid : ℕ} {t : Task} (h : Holds tasks pid t) where
  pub get_ticks-ok : get_ticks tasks pid ≡ ok t.ticks
  unfolding get_ticks
  get_ticks-ok = rw (ltb-true pid max_tasks h.small, h.slot)

  pub set_ticks-ok :
      (n : ℕ)
      → set_ticks tasks pid n ≡ ok (t.ticks, update tasks pid (some (record t { ticks = n })))
  unfolding set_ticks
  set_ticks-ok n = rw (ltb-true pid max_tasks h.small, h.slot)

  pub get_cpu-ok : get_cpu tasks pid ≡ ok t.cpu
  unfolding get_cpu
  get_cpu-ok = rw (ltb-true pid max_tasks h.small, h.slot)

  pub set_cpu-ok :
      (cpu : ℕ) → set_cpu tasks pid cpu ≡ ok (update tasks pid (some (record t { cpu = cpu })))
  unfolding set_cpu
  set_cpu-ok cpu = rw (ltb-true pid max_tasks h.small, h.slot)

  pub get_page_directory-ok : get_page_directory tasks pid ≡ ok t.page_directory
  unfolding get_page_directory
  get_page_directory-ok = rw (ltb-true pid max_tasks h.small, h.slot)

  pub stop-ok : stop tasks pid ≡ ok (update tasks pid (some (record t { state = stopped })))
  unfolding stop
  stop-ok = rw (ltb-true pid max_tasks h.small, h.slot)

pub Holds-update_ne :
    {tasks : Tasks} {pid : ℕ} {t : Task} (other : ℕ) (o : Option Task)
    → pid ≢ other
    → Holds tasks pid t
    → Holds (update tasks other o) pid t
Holds-update_ne {pid} other o ne h = record {
  small = h.small;
  slot = rw (==-false pid other ne) h.slot;
}

-- Where a slot is empty, the caller of `task_get` follows the null pointer that it returns.
get-empty :
    (tasks : Tasks) (pid : ℕ)
    → pid < max_tasks
    → tasks pid ≡ none
    → get tasks pid ≡ fault null_dereference
unfolding get
get-empty tasks pid small e = rw (ltb-true pid max_tasks small, e)
