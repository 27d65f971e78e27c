-- ===== src/Task/Scan.antt =====
-- The two linear searches over the array of tasks.
use unnamed_os.Base.{
  dec_le, Bool-cases, inl, inr, ltb-true, ltb-false, dec_lt, ℕ_discrete, ==-false, ℕ, zero, suc,
  ◌+◌, ◌≤◌, ◌<◌, ◌≡◌, refl, arith, true, false, ◌==◌, if◌then◌else◌, is_some, u32,
}
use unnamed_os.Task.{Tasks, max_tasks, scan_used, get_next_task}

abbrev pub Used : Tasks → ℕ → Type 0
Used tasks pid = is_some (tasks pid) ≡ true

abbrev pub Vacant : Tasks → ℕ → Type 0
Vacant tasks pid = is_some (tasks pid) ≡ false

-- Where the search for a used slot stops.
pub record Scanned (tasks : Tasks) (from r : ℕ) : Type 0 where
  pub lower : from ≤ r
  pub upper : r ≤ max_tasks
  pub gap : (p : ℕ) → from ≤ p → p < r → Vacant tasks p
  pub stop : r < max_tasks → Used tasks r

module _ (tasks : Tasks) where
  scan_used-Scanned :
      (fuel from : ℕ)
      → from ≤ max_tasks
      → max_tasks ≤ from + fuel
      → Scanned tasks from (scan_used tasks fuel from)
  unfolding scan_used
  scan_used-Scanned zero from small enough = record {
    lower = omega arith;
    upper = omega arith;
    gap = λ p lo hi. absurd (omega arith);
    stop = λ h. absurd (omega arith);
  }
  scan_used-Scanned (suc fuel) from small enough = elim (dec_lt from max_tasks) [
    | no last ↦ rw (ltb-false from max_tasks (omega arith)) (record {
      lower = omega arith;
      upper = omega arith;
      gap = λ p lo hi. absurd (omega arith);
      stop = λ h. absurd (omega arith);
    })
    | yes more ↦ rw (ltb-true from max_tasks more) (elim (Bool-cases (is_some (tasks from))) [
      | inl here ↦ rw here (record {
        lower = omega arith;
        upper = omega arith;
        gap = λ p lo hi. absurd (omega arith);
        stop = λ h. here;
      })
      | inr vacant ↦
          rw vacant (skip vacant (scan_used-Scanned fuel (from + 1) (omega arith) (omega arith)))
    ])
  ]
    where
      skip : {r : ℕ} → Vacant tasks from → Scanned tasks (from + 1) r → Scanned tasks from r
      skip vacant s = record {
        lower = omega (arith, s.lower);
        upper = s.upper;
        gap = λ p lo hi. elim (ℕ_discrete p from) [
          | yes e ↦ rw e vacant
          | no ne ↦ s.gap p (omega arith) hi
        ];
        stop = s.stop;
      }

-- The task that follows `pid` in the round.
pub data Next (tasks : Tasks) (pid r : ℕ) : Type 0 where
  later :
      pid < r
      → r < max_tasks
      → Used tasks r
      → ((p : ℕ) → pid < p → p < r → Vacant tasks p)
      → Next tasks pid r
  wrapped :
      0 < r
      → r ≤ pid
      → Used tasks r
      → ((p : ℕ) → pid < p → p < max_tasks → Vacant tasks p)
      → ((p : ℕ) → 0 < p → p < r → Vacant tasks p)
      → Next tasks pid r
  nobody : r ≡ 0 → ((p : ℕ) → 0 < p → p < max_tasks → Vacant tasks p) → Next tasks pid r

choose :
    (tasks : Tasks) (pid after first : ℕ)
    → pid < max_tasks
    → Scanned tasks (pid + 1) after
    → Scanned tasks 1 first
    → Next tasks pid
        (if after == max_tasks then (if first == max_tasks then 0 else first) else after)
choose tasks pid after first small a f = elim (ℕ_discrete after max_tasks) [
  | no ne ↦ rw (==-false _ _ ne) (
      later (omega (arith, a.lower)) (omega (arith, a.upper)) (a.stop (omega (arith, a.upper)))
        (λ p lo hi. a.gap p (omega arith) hi))
  | yes e ↦ rw e (elim (ℕ_discrete first max_tasks) [
    | yes e' ↦ rw e' (nobody refl (λ p lo hi. f.gap p (omega arith) (omega arith)))
    | no ne' ↦
        let found : first < max_tasks = omega (arith, f.upper) in
        rw (==-false _ _ ne') (
          wrapped (omega (arith, f.lower)) (before found e) (f.stop found)
            (λ p lo hi. a.gap p (omega arith) (omega arith)) (λ p lo hi. f.gap p (omega arith) hi))
  ])
]
  where
    before : first < max_tasks → after ≡ max_tasks → first ≤ pid
    before found e = elim (dec_le first pid) [
      | yes h ↦ h
      | no h ↦ absurd (cc (a.gap first (omega arith) (omega arith), f.stop found))
    ]

-- `task_get_next_task` returns the first used PID above the given one, else the first used PID
-- from 1 on, else 0.
pub get_next_task-Next :
    (tasks : Tasks) (pid : ℕ) → pid < max_tasks → Next tasks pid (get_next_task tasks pid)
unfolding get_next_task
get_next_task-Next tasks pid small =
    let w : u32 (pid + 1) ≡ pid + 1 = omega arith in
    rw w (
      choose tasks pid (scan_used tasks max_tasks (pid + 1)) (scan_used tasks max_tasks 1) small
        (scan_used-Scanned tasks max_tasks (pid + 1) (omega arith) (omega arith))
        (scan_used-Scanned tasks max_tasks 1 (omega arith) (omega arith)))
