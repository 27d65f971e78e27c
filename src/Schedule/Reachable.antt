-- ===== src/Schedule/Reachable.antt =====
-- The scheduler over the life of the kernel: timer interrupts, exits, new tasks and the removal of
-- stopped ones, in any order.
use mathlib.Core.Path.{subst}
use unnamed_os.Base.{
  ==-false, ==-refl, ok-injective, ℕ_discrete, dec_le, ℕ, ◌≤◌, ◌<◌, ◌≡◌, ◌≢◌, ◌⊎◌, inl, inr, refl,
  sym, ap, ◌∙◌, arith, true, some, none, update, Outcome, ok,
}
use unnamed_os.Task.{Tasks, Task, running, stopped, same_state, max_tasks, add, remove}
use unnamed_os.Task.Fields.{Holds, Holds-update_ne}
use unnamed_os.Task.Round.{HasState}
use unnamed_os.Task.Effects.{added, not_both, removed}
use unnamed_os.Task.Find.{
  dec_HasState, HasState-Holds, HasState-update_ne, HasState-put, Holds-in_state,
}
use unnamed_os.Schedule.{Sched, schedule, syscall_exit}
use unnamed_os.Schedule.Switch.{switched, left, ticked}
use unnamed_os.Schedule.Paths.{schedule-idle, schedule-first, schedule-tick, schedule-over}
use unnamed_os.Schedule.Exit.{exited, syscall_exit-switch}

-- There is no current task yet, or it is running.
pub record IsScheduled {V : Type 0} (s : Sched V) : Type 0 where
  pub small : s.current_task < max_tasks
  pub current : (s.current_task ≡ 0) ⊎ HasState s.tasks running s.current_task

module _ {V : Type 0} (load : ℕ → V → V) where
  -- One event: an interrupt of the timer, the exit of a task while another one is running, the entry
  -- of a new task, and the removal of one that has stopped.
  pub data Step (s s' : Sched V) : Type 0 where
    interrupt : (cpu cpu' : ℕ) → schedule load cpu s ≡ ok (cpu', s') → Step s s'
    exit :
        (q cpu' : ℕ)
        → s.current_task ≢ 0
        → HasState s.tasks running q
        → q ≢ s.current_task
        → syscall_exit load s ≡ ok (cpu', s')
        → Step s s'
    create :
        (t : Task) (pid : ℕ) (tasks : Tasks)
        → t.state ≡ running
        → add s.tasks t ≡ ok (pid, tasks)
        → s' ≡ record s { tasks = tasks }
        → Step s s'
    destroy :
        (pid : ℕ) (tasks : Tasks)
        → HasState s.tasks stopped pid
        → remove s.tasks pid ≡ ok tasks
        → s' ≡ record s { tasks = tasks }
        → Step s s'

  -- The states that events lead to.
  pub data Reach (s : Sched V) : Sched V → Type 0 where
    here : Reach s s
    next : {t u : Sched V} → Reach s t → Step t u → Reach s u

  -- `schedule` returned, in a state in which a task is running, unless there is none.
  pub record Resumes (s : Sched V) (r : Outcome (ℕ × Sched V)) : Type 0 where
    pub cpu : ℕ
    pub final : Sched V
    pub returns : r ≡ ok (cpu, final)
    pub keeps : IsScheduled final
    pub runs :
        HasState final.tasks running final.current_task
        ⊎ (((q : ℕ) → ¬ HasState s.tasks running q) × (final ≡ s))

  resumed :
      {s : Sched V} {r : Outcome (ℕ × Sched V)} (cpu : ℕ) (s' : Sched V)
      → r ≡ ok (cpu, s')
      → HasState s'.tasks running s'.current_task
      → Resumes s r
  resumed cpu s' e has = record {
    cpu = cpu;
    final = s';
    returns = e;
    keeps = record { small = has.small; current = inr has };
    runs = inl has;
  }

  -- After a switch to a running task.
  switched-running :
      (s : Sched V) (r : ℕ) (n : Task)
      → HasState s.tasks running r
      → Holds s.tasks r n
      → HasState (switched load r n s).tasks running r
  switched-running s r n has holds =
      HasState-put s.tasks running has r _ (Holds-in_state s.tasks running has holds)

  module _ (cpu : ℕ) (s : Sched V) (inv : IsScheduled s) where
    from_start : s.current_task ≡ 0 → Resumes s (schedule load cpu s)
    from_start z = elim (dec_HasState s.tasks running) [
      | inr no_such ↦ record {
        cpu = cpu;
        final = s;
        returns = schedule-idle load cpu s inv.small no_such;
        keeps = inv;
        runs = inr (no_such, refl);
      }
      | inl (q, has) ↦
          let (r, n, up, e) = schedule-first load cpu s q z has in
          resumed n.cpu (switched load r n s) e (switched-running s r n up.nearest.has up.holds)
    ]

    module _ (has : HasState s.tasks running s.current_task) where
      holds : Holds s.tasks s.current_task has.task
      holds = HasState-Holds s.tasks running has

      busy : s.current_task ≢ 0
      busy = λ e. omega (arith, has.positive)

      kept :
          (o : Task) {q : ℕ}
          → same_state o.state running ≡ true
          → HasState s.tasks running q
          → HasState (update s.tasks s.current_task (some o)) running q
      kept o e h = HasState-put s.tasks running h s.current_task o e

      left-running :
          {q : ℕ} → HasState s.tasks running q → HasState (left has.task cpu s).tasks running q
      left-running h =
          HasState-put (ticked has.task s).tasks running (kept _ has.in_state h) s.current_task _
            has.in_state

      over : has.task.ticks ≤ 1 → Resumes s (schedule load cpu s)
      over h =
          let (r, n, up, e) = schedule-over load cpu s has.task s.current_task busy holds has h in
          elim (ℕ_discrete r s.current_task) [
            | yes same ↦
                resumed cpu (left has.task cpu s) (e ∙ rw (same, ==-refl s.current_task))
                  (left-running has)
            | no ne ↦
                resumed n.cpu (switched load r n (left has.task cpu s))
                  (e ∙ rw (==-false r s.current_task ne))
                  (switched-running (left has.task cpu s) r n (left-running up.nearest.has) (
                    Holds-update_ne s.current_task _ ne
                      (Holds-update_ne s.current_task _ ne up.holds)))
          ]

      from_task : Resumes s (schedule load cpu s)
      from_task = elim (dec_le has.task.ticks 1) [
        | yes h ↦ over h
        | no more ↦
            resumed cpu (ticked has.task s)
              (schedule-tick load cpu s has.task s.current_task busy holds has
                (omega (arith, more)))
              (kept _ has.in_state has)
      ]

    schedule-Resumes : Resumes s (schedule load cpu s)
    schedule-Resumes = elim inv.current [ inl z ↦ from_start z | inr has ↦ from_task has ]

  with_tasks :
      (s : Sched V) (tasks : Tasks)
      → IsScheduled s
      → (HasState s.tasks running s.current_task → HasState tasks running s.current_task)
      → IsScheduled (record s { tasks = tasks })
  with_tasks s tasks inv keeps = record {
    small = inv.small;
    current = elim inv.current [ inl z ↦ inl z | inr has ↦ inr (keeps has) ];
  }

  same_outcome :
      {s1 s2 : Sched V} {cpu1 cpu2 : ℕ} {r : Outcome (ℕ × Sched V)}
      → r ≡ ok (cpu1, s1)
      → r ≡ ok (cpu2, s2)
      → s1 ≡ s2
  same_outcome e e' = ap (λ (p : ℕ × Sched V). p.1) (ok-injective (sym e ∙ e'))

  exit-IsScheduled :
      (s s' : Sched V) (q cpu' : ℕ)
      → IsScheduled s
      → s.current_task ≢ 0
      → HasState s.tasks running q
      → q ≢ s.current_task
      → syscall_exit load s ≡ ok (cpu', s')
      → IsScheduled s'
  exit-IsScheduled s s' q cpu' inv busy has other e = elim inv.current [
    | inl z ↦ absurd (busy z)
    | inr current ↦
        let t = current.task in
        let (r, n, up, ne, e') =
          syscall_exit-switch load s t (HasState-Holds s.tasks running current) q has other in
        let still = HasState-update_ne s.tasks running up.nearest.has s.current_task _ ne in
        let runs =
          switched-running (exited t s) r n still (Holds-update_ne s.current_task _ ne up.holds) in
        subst IsScheduled (same_outcome e' e) (record { small = runs.small; current = inr runs })
  ]

  Step-IsScheduled : {s s' : Sched V} → Step s s' → IsScheduled s → IsScheduled s'
  Step-IsScheduled {s} (interrupt cpu cpu' e) inv =
      let r = schedule-Resumes cpu s inv in subst IsScheduled (same_outcome r.returns e) r.keeps
  Step-IsScheduled {s} {s'} (exit q cpu' occupied has other e) inv =
      exit-IsScheduled s s' q cpu' inv occupied has other e
  Step-IsScheduled {s} (create t pid tasks st e same) inv = subst IsScheduled (sym same) (
      with_tasks s tasks inv (λ has.
        subst (λ ts. HasState ts running s.current_task) (sym (added s.tasks t e))
          (HasState-put s.tasks running has pid t (rw st refl))))
  Step-IsScheduled {s} (destroy pid tasks has e same) inv = subst IsScheduled (sym same) (
      with_tasks s tasks inv (λ runs.
        let apart = λ (z : s.current_task ≡ pid). not_both s.tasks s.current_task runs (rw z has) in
        subst (λ ts. HasState ts running s.current_task) (sym (removed s.tasks pid has.small e))
          (HasState-update_ne s.tasks running runs pid none apart)))

  Reach-IsScheduled : {s s' : Sched V} → IsScheduled s → Reach s s' → IsScheduled s'
  Reach-IsScheduled inv here = inv
  Reach-IsScheduled inv (next r st) = Step-IsScheduled st (Reach-IsScheduled inv r)

  -- Whatever events have led there, the timer interrupt returns from `schedule`, and a running task is
  -- current after it, unless no task is running: then it changes nothing. The events are timer interrupts,
  -- exits of tasks while another one is running, new tasks, and the removal of stopped ones.
  pub schedule-safe :
      (s s' : Sched V) (cpu : ℕ) → IsScheduled s → Reach s s' → Resumes s' (schedule load cpu s')
  schedule-safe s s' cpu inv r = schedule-Resumes cpu s' (Reach-IsScheduled inv r)
