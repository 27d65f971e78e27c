-- ===== src/Task/Effects.antt =====
-- What `task_add` and `task_remove` have done to the list where they return, and the states of
-- tasks.
use unnamed_os.Base.{
  ok-injective, ltb-true, ℕ, ◌<◌, ◌≡◌, inl, inr, sym, ap, ◌∙◌, true, Bool-cases, some, none, update,
  Outcome, ok, fault, panic, ◌>>=◌, ◌==◌, if◌then◌else◌,
}
use unnamed_os.Task.{
  Tasks, Task, TaskState, running, stopped, same_state, max_tasks, add, add_loop, remove,
}
use unnamed_os.Task.Round.{HasState}

-- What a store of a new task that succeeds has done.
abbrev store_at : Tasks → Task → ℕ → Outcome (ℕ × Tasks)
store_at tasks t pid = if pid == max_tasks then fault panic else ok (pid, update tasks pid (some t))

stored :
    (tasks tasks' : Tasks) (t : Task) (pid : ℕ) (r : Outcome ℕ)
    → (r >>= store_at tasks t) ≡ ok (pid, tasks')
    → tasks' ≡ update tasks pid (some t)
stored tasks tasks' t pid (fault f) e = cc
stored tasks tasks' t pid (ok p) e = elim (Bool-cases (p == max_tasks)) [
  | inl y ↦ cc (rw y at e)
  | inr n ↦
      let same = ok-injective (rw n at e) in
      sym (ap (λ (x : ℕ × Tasks). x.1) same)
      ∙ ap (λ (p : ℕ). update tasks p (some t)) (ap (λ (x : ℕ × Tasks). x.0) same)
]

pub added :
    (tasks : Tasks) (t : Task) {pid : ℕ} {tasks' : Tasks}
    → add tasks t ≡ ok (pid, tasks')
    → tasks' ≡ update tasks pid (some t)
unfolding add
added tasks t {pid} {tasks'} e = stored tasks tasks' t pid (add_loop tasks max_tasks 1) e

one_state :
    (state : TaskState) → same_state state running ≡ true → ¬ (same_state state stopped ≡ true)
one_state stopped e e' = cc e
one_state running e e' = cc e'

pub not_both : (tasks : Tasks) (pid : ℕ) → HasState tasks running pid → ¬ HasState tasks stopped pid
not_both tasks pid r h =
    let same : r.task ≡ h.task = cc (r.slot, h.slot) in
    one_state r.task.state r.in_state (rw same h.in_state)

pub removed :
    (tasks : Tasks) (pid : ℕ) {tasks' : Tasks}
    → pid < max_tasks
    → remove tasks pid ≡ ok tasks'
    → tasks' ≡ update tasks pid none
unfolding remove
removed tasks pid small e = sym (ok-injective (rw (ltb-true pid max_tasks small) at e))
