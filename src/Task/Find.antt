-- ===== src/Task/Find.antt =====
-- Whether the task list has a task in a given state, and what a store into a slot leaves of that.
use unnamed_os.Base.{
  ==-false, ==-refl, ℕ_discrete, ℕ, zero, suc, ◌≤◌, ◌<◌, ◌≡◌, ◌≢◌, ◌⊎◌, inl, inr, refl, arith, Bool,
  true, false, Bool-cases, Option, none, some, update,
}
use unnamed_os.Task.{Tasks, Task, TaskState, same_state, max_tasks}
use unnamed_os.Task.Fields.{Holds}
use unnamed_os.Task.Round.{HasState}

module _ (tasks : Tasks) (state : TaskState) where
  abbrev in_state : Option Task → Bool
  in_state none = false
  in_state (some t) = same_state t.state state

  found :
      (q : ℕ) (slot : Option Task)
      → 0 < q
      → q < max_tasks
      → tasks q ≡ slot
      → in_state slot ≡ true
      → HasState tasks state q
  found q none pos small s e = absurd (ground arith)
  found q (some t) pos small s e = record {
    task = t;
    positive = pos;
    small = small;
    slot = s;
    in_state = e;
  }

  missed : (q : ℕ) → in_state (tasks q) ≡ false → ¬ HasState tasks state q
  missed q e h = cc (rw h.slot at e, h.in_state)

  search :
      (n : ℕ)
      → n < max_tasks
      → ((q : ℕ) × HasState tasks state q) ⊎ ((q : ℕ) → q ≤ n → ¬ HasState tasks state q)
  search zero small = inr (λ q le h. omega (arith, h.positive))
  search (suc n) small = elim (Bool-cases (in_state (tasks (suc n)))) [
    | inl e ↦ inl (suc n, found (suc n) (tasks (suc n)) (omega arith) small refl e)
    | inr e ↦ elim (search n (omega arith)) [
      | inl there ↦ inl there
      | inr no_such ↦ inr (λ q le h. elim (ℕ_discrete q (suc n)) [
        | yes eq ↦ missed q (rw eq e) h
        | no ne ↦ no_such q (omega arith) h
      ])
    ]
  ]

  pub dec_HasState : ((q : ℕ) × HasState tasks state q) ⊎ ((q : ℕ) → ¬ HasState tasks state q)
  dec_HasState = elim (search 1023 (omega arith)) [
    | inl there ↦ inl there
    | inr no_such ↦ inr (λ q h. no_such q (omega (arith, h.small)) h)
  ]

  module _ {q : ℕ} (has : HasState tasks state q) where
    pub HasState-Holds : Holds tasks q has.task
    HasState-Holds = record { small = has.small; slot = has.slot }

    -- A store into another slot.
    pub HasState-update_ne : (p : ℕ) (o : Option Task) → q ≢ p → HasState (update tasks p o) state q
    HasState-update_ne p o ne = record {
      task = has.task;
      positive = has.positive;
      small = has.small;
      slot = rw (==-false q p ne) has.slot;
      in_state = has.in_state;
    }

    -- A store of a task in the state.
    pub HasState-put :
        (p : ℕ) (t : Task)
        → same_state t.state state ≡ true
        → HasState (update tasks p (some t)) state q
    HasState-put p t e = elim (ℕ_discrete q p) [
      | yes eq ↦ record {
        task = t;
        positive = has.positive;
        small = has.small;
        slot = rw (eq, ==-refl p);
        in_state = e;
      }
      | no ne ↦ HasState-update_ne p (some t) ne
    ]

    pub Holds-in_state : {t : Task} → Holds tasks q t → same_state t.state state ≡ true
    Holds-in_state {t} h = let e : t ≡ has.task = cc (h.slot, has.slot) in rw e has.in_state
