-- ===== src/Schedule/RoundRobin.antt =====
-- The round robin of the scheduler is fair: every running task becomes the current one within as
-- many timer interrupts as it lies ahead in the round of PIDs, and the current task has ticks left.
use unnamed_os.Base.{
  inl, inr, ==-false, ==-refl, ℕ_discrete, dec_le, ℕ, zero, suc, ◌+◌, ◌≤◌, ◌<◌, ◌≡◌, ◌≢◌, ◌⊎◌, refl,
  arith, ◌∙◌, some, update, sub32, Outcome, ok, ◌>>=◌, List, [], ◌∷◌, ◌++◌, length,
}
use unnamed_os.Task.{Tasks, Task, TaskState, max_tasks, running}
use unnamed_os.Task.Fields.{Holds, Holds-update, Holds-update_ne}
use unnamed_os.Task.Round.{HasState, distance, distance-pos, closer, far}
use unnamed_os.Schedule.{Sched, schedule}
use unnamed_os.Schedule.Switch.{switched, left, ticked}
use unnamed_os.Schedule.Paths.{schedule-first, schedule-over, schedule-tick}

-- Timer interrupts, one after the other; each comes with the CPU state that was interrupted.
unfoldable pub interrupts : {V : Type 0} → (ℕ → V → V) → List ℕ → Sched V → Outcome (Sched V)
interrupts load [] s = ok s
interrupts load (cpu ∷ cpus) s = schedule load cpu s >>= λ r. interrupts load cpus r.1

-- Slices are one tick long, as the static initialiser sets them, and the current task, if there is one,
-- has at most `wait` ticks left before its last one. A task that is alone is not given a new slice, so that
-- it has 2^32 - 1 ticks after the two that follow its switch.
pub record IsFair {V : Type 0} (wait : ℕ) (s : Sched V) : Type 0 where
  pub slice : s.ticks_per_time_slice ≡ 1
  pub small : s.current_task < max_tasks
  pub current :
      (s.current_task ≡ 0) ⊎ ((t : Task) × Holds s.tasks s.current_task t × (t.ticks ≤ suc wait))

HasState-update :
    {tasks : Tasks} {state : TaskState} {q p : ℕ} {t : Task} (t' : Task)
    → Holds tasks p t
    → t'.state ≡ t.state
    → HasState tasks state q
    → HasState (update tasks p (some t')) state q
HasState-update {tasks} {state} {q} {p} {t} t' h same has = elim (ℕ_discrete q p) [
  | yes e ↦ record {
    task = t';
    positive = has.positive;
    small = has.small;
    slot = rw (e, ==-refl p);
    in_state = let et : t ≡ has.task = cc (h.slot, has.slot, e) in rw (same, et) has.in_state;
  }
  | no ne ↦ record {
    task = has.task;
    positive = has.positive;
    small = has.small;
    slot = rw (==-false q p ne) has.slot;
    in_state = has.in_state;
  }
]

module _ {V : Type 0} (load : ℕ → V → V) where
  -- One interrupt brings the scheduler to `q`, or nearer to it.
  record Nearer (s : Sched V) (q : ℕ) (s' : Sched V) : Type 0 where
    fair : IsFair 0 s'
    has : HasState s'.tasks running q
    nearer : (s'.current_task ≡ q) ⊎ (distance s'.current_task q < distance s.current_task q)

  -- The scheduler reaches `q` after some of the interrupts.
  pub record Reaches (cpus : List ℕ) (s : Sched V) (q : ℕ) : Type 0 where
    pub done : List ℕ
    pub rest : List ℕ
    pub split : cpus ≡ done ++ rest
    pub final : Sched V
    pub runs : interrupts load done s ≡ ok final
    pub arrived : final.current_task ≡ q

  -- A switch to the nearest running task.
  switched-Nearer :
      (s s1 : Sched V) (q r : ℕ) (n : Task)
      → s1.ticks_per_time_slice ≡ 1
      → HasState s1.tasks running q
      → Holds s1.tasks r n
      → 0 < r
      → s.current_task < max_tasks
      → s.current_task ≢ q
      → distance s.current_task r ≤ distance s.current_task q
      → Nearer s q (switched load r n s1)
  switched-Nearer s s1 q r n slice has holds pos small ne near = record {
    fair = record {
      slice = slice;
      small = holds.small;
      current = inr (
        record n { ticks = s1.ticks_per_time_slice },
        Holds-update _ holds,
        omega (arith, slice),
      );
    };
    has = HasState-update _ holds refl has;
    nearer = elim (ℕ_discrete r q) [
      | yes e ↦ inl e
      | no ne' ↦
          inr (closer s.current_task r q small holds.small has.small pos has.positive ne ne' near)
    ];
  }

  -- One interrupt.
  step :
      (cpu : ℕ) (s : Sched V) (q : ℕ)
      → IsFair 0 s
      → HasState s.tasks running q
      → s.current_task ≢ q
      → (cpu' : ℕ) × (s' : Sched V) × (schedule load cpu s ≡ ok (cpu', s')) × Nearer s q s'
  step cpu s q fair has ne = elim (ℕ_discrete s.current_task 0) [
    | yes e ↦
        let (r, n, up, eq) = schedule-first load cpu s q e has in
        (
          n.cpu,
          switched load r n s,
          eq,
          switched-Nearer s s q r n fair.slice has up.holds up.positive fair.small ne
              (up.nearest.nearest q has),
        )
    | no busy ↦ elim fair.current [
      | inl e ↦ absurd (busy e)
      | inr (t, holds, over) ↦
          let (r, n, up, eq) = schedule-over load cpu s t q busy holds has over in
          let close = up.nearest.nearest q has in
          let other : r ≢ s.current_task = λ e.
            absurd (far s.current_task q r e busy fair.small has.positive has.small ne close) in
          let ticked-t = record t { ticks = sub32 t.ticks 1 } in
          let there = Holds-update ticked-t holds in
          (
            n.cpu,
            switched load r n (left t cpu s),
            eq ∙ rw (==-false r s.current_task other),
            switched-Nearer s (left t cpu s) q r n fair.slice
                (HasState-update _ there refl (HasState-update _ holds refl has))
                (Holds-update_ne s.current_task _ other
                  (Holds-update_ne s.current_task _ other up.holds))
                up.positive fair.small ne close,
          )
    ]
  ]

  later :
      (cpu : ℕ) (cpus : List ℕ) (s s' : Sched V) (q cpu' : ℕ)
      → schedule load cpu s ≡ ok (cpu', s')
      → Reaches cpus s' q
      → Reaches (cpu ∷ cpus) s q
  unfolding interrupts
  later cpu cpus s s' q cpu' eq reached = record {
    done = cpu ∷ reached.done;
    rest = reached.rest;
    split = rw (← reached.split);
    final = reached.final;
    runs = rw eq reached.runs;
    arrived = reached.arrived;
  }

  after :
      (cpu : ℕ) (cpus : List ℕ) (s s' : Sched V) (q cpu' : ℕ)
      → schedule load cpu s ≡ ok (cpu', s')
      → (s'.current_task ≡ q) ⊎ (distance s'.current_task q < distance s.current_task q)
      → (distance s'.current_task q < distance s.current_task q → Reaches cpus s' q)
      → Reaches (cpu ∷ cpus) s q
  unfolding interrupts
  after cpu cpus s s' q cpu' eq (inl e) go = record {
    done = cpu ∷ [];
    rest = cpus;
    split = refl;
    final = s';
    runs = rw eq;
    arrived = e;
  }
  after cpu cpus s s' q cpu' eq (inr d) go = later cpu cpus s s' q cpu' eq (go d)

  -- The slice of the current task is over, or the current task keeps the processor for a tick.
  data Slice (wait : ℕ) (s : Sched V) : Type 0 where
    over : IsFair 0 s → Slice wait s
    lasting :
        (rest : ℕ) (t : Task)
        → wait ≡ suc rest
        → s.current_task ≢ 0
        → Holds s.tasks s.current_task t
        → 1 < t.ticks
        → t.ticks ≤ suc wait
        → Slice wait s

  IsFair-Slice : (wait : ℕ) (s : Sched V) → IsFair wait s → Slice wait s
  IsFair-Slice zero s fair = over fair
  IsFair-Slice (suc rest) s fair = elim fair.current [
    | inl e ↦ over (record { slice = fair.slice; small = fair.small; current = inl e })
    | inr (t, holds, few) ↦ elim (ℕ_discrete s.current_task 0) [
      | yes e ↦ over (record { slice = fair.slice; small = fair.small; current = inl e })
      | no busy ↦ elim (dec_le t.ticks 1) [
        | yes last ↦
            over (record { slice = fair.slice; small = fair.small; current = inr (t, holds, last) })
        | no many ↦ lasting rest t refl busy holds (omega (arith, many)) few
      ]
    ]
  ]

  -- A tick that the current task keeps the processor for.
  ticked-IsFair :
      (rest : ℕ) (t : Task) (s : Sched V)
      → s.ticks_per_time_slice ≡ 1
      → Holds s.tasks s.current_task t
      → 1 < t.ticks
      → t.ticks ≤ suc (suc rest)
      → IsFair rest (ticked t s)
  ticked-IsFair rest t s slice holds many few = record {
    slice = slice;
    small = holds.small;
    current = inr (record t { ticks = sub32 t.ticks 1 }, Holds-update _ holds, omega arith);
  }

  -- Where time slices are one tick long and the current task, if there is one, has at most `wait` ticks
  -- left before its last one: within `wait` interrupts and as many more as a running task lies ahead of
  -- the current one in the round of PIDs, the scheduler comes to that task, whatever CPU states it saves
  -- on the way.
  pub round_robin :
      (cpus : List ℕ) (s : Sched V) (q wait : ℕ)
      → IsFair wait s
      → HasState s.tasks running q
      → wait + distance s.current_task q ≤ length cpus
      → Reaches cpus s q
  unfolding interrupts
  round_robin [] s q wait fair has enough =
      absurd (omega (arith, distance-pos s.current_task q fair.small has.positive))
  round_robin (cpu ∷ cpus) s q wait fair has enough = elim (ℕ_discrete s.current_task q) [
    | yes e ↦ record {
      done = [];
      rest = cpu ∷ cpus;
      split = refl;
      final = s;
      runs = refl;
      arrived = e;
    }
    | no ne ↦ elim (IsFair-Slice wait s fair) [
      | over last ↦
          let (cpu', s', eq, near) = step cpu s q last has ne in
          after cpu cpus s s' q cpu' eq near.nearer
            (λ d. round_robin cpus s' q 0 near.fair near.has (omega (arith, d, enough)))
      | lasting rest t e busy holds many few ↦
          later cpu cpus s (ticked t s) q cpu (schedule-tick load cpu s t q busy holds has many) (
            round_robin cpus (ticked t s) q rest
              (ticked-IsFair rest t s fair.slice holds many (omega (arith, e, few)))
              (HasState-update _ holds refl has) (omega (arith, e, enough)))
    ]
  ]
