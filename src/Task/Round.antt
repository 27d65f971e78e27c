-- ===== src/Task/Round.antt =====
-- `task_get_next_task_with_state` goes once round the task list: it finds the nearest task that
-- has the state, and there is no such task if it finds none.
use unnamed_os.Base.{
  Option-cases, ltb-true, dec_le, Bool-cases, inl, inr, ℕ_discrete, ==-false, leb-true, ℕ, zero,
  suc, ◌+◌, ◌-◌, ◌≤◌, ◌<◌, ◌≡◌, ◌≢◌, ◌⊎◌, refl, arith, Bool, true, false, some, ltb, leb, ◌==◌,
  if◌then◌else◌, Outcome, ok,
}
use unnamed_os.Task.{
  Tasks, Task, TaskState, same_state, max_tasks, get, get_next_task, with_state_loop,
  get_next_task_with_state,
}
use unnamed_os.Task.Scan.{Used, Vacant, Next, later, wrapped, nobody, get_next_task-Next}

-- How far `q` lies from `p` in the round of the PIDs 1 to 1023.
abbrev pub distance : ℕ → ℕ → ℕ
distance p q = if ltb p q then q - p else q + 1023 - p

-- The slot of `pid` holds a task in the given state.
pub record HasState (tasks : Tasks) (state : TaskState) (pid : ℕ) : Type 0 where
  pub task : Task
  pub positive : 0 < pid
  pub small : pid < max_tasks
  pub slot : tasks pid ≡ some task
  pub in_state : same_state task.state state ≡ true

-- `r` is the nearest of the PIDs after `p` that have the state.
pub record Nearest (tasks : Tasks) (state : TaskState) (p r : ℕ) : Type 0 where
  pub has : HasState tasks state r
  pub nearest : (q : ℕ) → HasState tasks state q → distance p r ≤ distance p q

pub distance-pos : (p q : ℕ) → p < max_tasks → 0 < q → 0 < distance p q
distance-pos p q hp hq = ground arith

distance-le : (p q : ℕ) → p < max_tasks → 0 < q → q < max_tasks → distance p q ≤ 1023
distance-le p q hp hq hq' = ground arith

-- Going on to `r` brings `q` nearer.
pub closer :
    (c r q : ℕ)
    → c < max_tasks
    → r < max_tasks
    → q < max_tasks
    → 0 < r
    → 0 < q
    → c ≢ q
    → r ≢ q
    → distance c r ≤ distance c q
    → distance r q < distance c q
closer c r q hc hr hq pr pq ne ne' near = ground arith

-- The task itself is the last one that the search comes to.
pub far :
    (c q r : ℕ)
    → r ≡ c
    → c ≢ 0
    → c < max_tasks
    → 0 < q
    → q < max_tasks
    → c ≢ q
    → ¬ (distance c r ≤ distance c q)
far c q r e busy hc pq hq ne near = ground arith

-- The task `r` that follows `p` lies on the way from `p` to `q`.
record OnTheWay (tasks : Tasks) (p r q : ℕ) : Type 0 where
  positive : 0 < r
  small : r < max_tasks
  used : Used tasks r
  reached : (r ≡ q) ⊎ (distance p r + distance r q ≡ distance p q)
  closer : distance p r ≤ distance p q

module _ (tasks : Tasks) where
  not_between :
      (lo hi q : ℕ) → ((p : ℕ) → lo < p → p < hi → Vacant tasks p) → Used tasks q → lo < q → hi ≤ q
  not_between lo hi q gap used above = elim (dec_le hi q) [
    | yes h ↦ h
    | no h ↦ absurd (cc (gap q above (omega arith), used))
  ]

  Next-OnTheWay :
      (p r q : ℕ)
      → p < max_tasks
      → Next tasks p r
      → 0 < q
      → q < max_tasks
      → Used tasks q
      → OnTheWay tasks p r q
  Next-OnTheWay p r q hp (later above small used gap) lo hi uq =
      let out : p < q → r ≤ q = not_between p r q gap uq in ground arith
  Next-OnTheWay p r q hp (wrapped pos le used gap gap') lo hi uq =
      let out : p < q → max_tasks ≤ q = not_between p max_tasks q gap uq in
      let out' : 0 < q → r ≤ q = not_between 0 r q gap' uq in ground arith
  Next-OnTheWay p r q hp (nobody e gap) lo hi uq =
      absurd (omega (arith, not_between 0 max_tasks q gap uq lo))

  used_task : (pid : ℕ) → Used tasks pid → (t : Task) × (tasks pid ≡ some t)
  used_task pid used = elim (Option-cases (tasks pid)) [ inl e ↦ cc | inr found ↦ found ]

  pub get_of_some :
      {t : Task} (pid : ℕ) → pid < max_tasks → tasks pid ≡ some t → get tasks pid ≡ ok t
  unfolding get
  get_of_some pid small e = rw (ltb-true pid max_tasks small, e)

module _ (tasks : Tasks) (state : TaskState) where
  HasState-Used : {q : ℕ} → HasState tasks state q → Used tasks q
  HasState-Used h = rw h.slot

  on_the_way :
      (p q : ℕ)
      → p < max_tasks
      → HasState tasks state q
      → OnTheWay tasks p (get_next_task tasks p) q
  on_the_way p q hp h =
      Next-OnTheWay tasks p (get_next_task tasks p) q hp (get_next_task-Next tasks p hp) h.positive
        h.small (HasState-Used h)

  -- A task in another state is passed by.
  passed :
      {t : Task} (p q : ℕ)
      → p < max_tasks
      → tasks (get_next_task tasks p) ≡ some t
      → same_state t.state state ≡ false
      → HasState tasks state q
      → distance p (get_next_task tasks p) + distance (get_next_task tasks p) q ≡ distance p q
  passed {t} p q hp slot miss h = elim ((on_the_way p q hp h).reached) [
    | inr d ↦ d
    | inl e ↦ let same : t ≡ h.task = cc (h.slot, slot, e) in cc (same, miss, h.in_state)
  ]

  with_state_loop-Nearest :
      (fuel p pids q : ℕ)
      → p < max_tasks
      → HasState tasks state q
      → pids + distance p q ≤ max_tasks
      → distance p q ≤ fuel
      → (r : ℕ) × (with_state_loop tasks state fuel p pids ≡ ok r) × Nearest tasks state p r
  unfolding with_state_loop
  with_state_loop-Nearest zero p pids q hp has bound enough = absurd (ground (arith, has.positive))
  with_state_loop-Nearest (suc fuel) p pids q hp has bound enough =
      let n = get_next_task tasks p in
      let way = on_the_way p q hp has in
      let (t, slot) = used_task tasks n way.used in
      let nonzero : (n == 0) ≡ false = ==-false n 0 (omega (arith, way.positive)) in
      let within : leb (pids + 1) max_tasks ≡ true =
        leb-true (pids + 1) max_tasks (omega (arith, bound, distance-pos p q hp has.positive)) in
      let got : get tasks n ≡ ok t = get_of_some tasks n way.small slot in
      elim (Bool-cases (same_state t.state state)) [
        | inl hit ↦ (
          n,
          rw (nonzero, within, got, hit),
          record {
            has = record {
              task = t;
              positive = way.positive;
              small = way.small;
              slot = slot;
              in_state = hit;
            };
            nearest = λ q' h'. (on_the_way p q' hp h').closer;
          },
        )
        | inr miss ↦
            let d = passed p q hp slot miss has in
            let (r, e, near) =
              with_state_loop-Nearest fuel n (pids + 1) q way.small has
                (omega (arith, bound, d, distance-pos p n hp way.positive))
                (omega (arith, enough, d, distance-pos p n hp way.positive)) in
            (
              r,
              rw (nonzero, within, got, miss) e,
              record {
                has = near.has;
                nearest = λ q' h'. omega (
                  arith,
                  near.nearest q' h',
                  passed p q' hp slot miss h',
                  passed p r hp slot miss near.has,
                );
              },
            )
      ]

  Next-used : (p r : ℕ) → p < max_tasks → Next tasks p r → r ≢ 0 → (r < max_tasks) × Used tasks r
  Next-used p r hp (later above small used gap) ne = (small, used)
  Next-used p r hp (wrapped pos le used gap gap') ne = (omega arith, used)
  Next-used p r hp (nobody e gap) ne = absurd (ne e)

  with_state_loop-none :
      (fuel p pids : ℕ)
      → p < max_tasks
      → ((q : ℕ) → ¬ HasState tasks state q)
      → with_state_loop tasks state fuel p pids ≡ ok 0
  unfolding with_state_loop
  with_state_loop-none zero p pids hp no_such = refl
  with_state_loop-none (suc fuel) p pids hp no_such = elim (ℕ_discrete (get_next_task tasks p) 0) [
    | yes e ↦ rw e
    | no ne ↦
        let n = get_next_task tasks p in
        let (small, used) = Next-used p n hp (get_next_task-Next tasks p hp) ne in
        let (t, slot) = used_task tasks n used in
        let got : get tasks n ≡ ok t = get_of_some tasks n small slot in
        let other : same_state t.state state ≡ false =
          elim (Bool-cases (same_state t.state state)) [
            | inl hit ↦ absurd (
                no_such n (record {
                  task = t;
                  positive = omega arith;
                  small = small;
                  slot = slot;
                  in_state = hit;
                }))
            | inr miss ↦ miss
          ] in
        rw (==-false n 0 ne, got, other)
          (either (leb (pids + 1) max_tasks) (with_state_loop-none fuel n (pids + 1) small no_such))
  ]
    where
      either : (b : Bool) {r : Outcome ℕ} → r ≡ ok 0 → (if b then r else ok 0) ≡ ok 0
      either true e = e
      either false e = refl

  -- If some task has the state, the search returns the one that is nearest after `pid` in the
  -- round of PIDs, `pid` itself being the last.
  pub get_next_task_with_state-Nearest :
      (pid q : ℕ)
      → pid < max_tasks
      → HasState tasks state q
      → (r : ℕ) × (get_next_task_with_state tasks pid state ≡ ok r) × Nearest tasks state pid r
  unfolding get_next_task_with_state
  get_next_task_with_state-Nearest pid q small has =
      let d = distance-le pid q small has.positive has.small in
      with_state_loop-Nearest (max_tasks + 1) pid 0 q small has (omega (arith, d))
        (omega (arith, d))

  -- If no task has the state, the search ends, and returns 0.
  pub get_next_task_with_state-none :
      (pid : ℕ)
      → pid < max_tasks
      → ((q : ℕ) → ¬ HasState tasks state q)
      → get_next_task_with_state tasks pid state ≡ ok 0
  unfolding get_next_task_with_state
  get_next_task_with_state-none pid small no_such =
      with_state_loop-none (max_tasks + 1) pid 0 small no_such
