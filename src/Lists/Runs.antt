-- ===== src/Lists/Runs.antt =====
-- Runs of several operations of src/kernel/lib/list.c, one after the other.
use unnamed_os.Base.{
  ℕ, suc, ◌+◌, ◌<◌, ◌≤◌, ◌≡◌, refl, Option, none, some, List, [], ◌∷◌, ◌++◌, arith, Outcome, ok,
  fault, ◌>>=◌, length,
}
use unnamed_os.Lists.{ListState, and_then}
use unnamed_os.Lists.Walk.{without}
use unnamed_os.Lists.Refinement.{
  ListOp, push_front, push_back, pop_front, pop_back, front, back, empty, size, find, remove,
  Answer, step, abstract_step, Represents, Agrees, returned, faulted, Allocates, step-Agrees,
  without_last,
}

abbrev proceed : {A B : Type 0} → Option (Outcome A) → (A → Option (Outcome B)) → Option (Outcome B)
proceed none k = none
proceed (some (ok a)) k = k a
proceed (some (fault e)) k = some (fault e)

abbrev pub run : ℕ → List ListOp → ListState → Option (Outcome (List Answer × ListState))
run fuel [] s = some (ok ([], s))
run fuel (op ∷ ops) s =
    proceed (step fuel op s) λ r. and_then (run fuel ops r.1) λ q. ok (r.0 ∷ q.0, q.1)

abbrev pub abstract_run : List ListOp → List ℕ → Outcome (List Answer × List ℕ)
abstract_run [] xs = ok ([], xs)
abstract_run (op ∷ ops) xs =
    abstract_step op xs >>= λ r. abstract_run ops r.1 >>= λ q. ok (r.0 ∷ q.0, q.1)

abbrev Continues : Option (Outcome (Answer × ListState)) → (ListState → Type 0) → Type 0
Continues none P = Unit
Continues (some (ok (a, s))) P = P s
Continues (some (fault e)) P = Unit

-- vmm_alloc finds memory for every push of the run.
abbrev AllAllocate : ℕ → List ListOp → ListState → Type 0
AllAllocate fuel [] s = Unit
AllAllocate fuel (op ∷ ops) s = Allocates op s × Continues (step fuel op s) (AllAllocate fuel ops)

length_after : Outcome (Answer × List ℕ) → ℕ
length_after (ok (a, xs)) = length xs
length_after (fault e) = 0

length-append-one : (xs : List ℕ) (y : ℕ) → length (xs ++ (y ∷ [])) ≡ suc (length xs)
length-append-one [] y = refl
length-append-one (x ∷ xs) y = rw (length-append-one xs y)

length-without : (item : ℕ) (xs : List ℕ) → length (without item xs) ≤ length xs
length-without item [] = omega arith
length-without item (x ∷ xs) = ground (arith, length-without item xs)

length-without_last : (x : ℕ) (xs : List ℕ) → length (without_last x xs) ≡ length xs
length-without_last x [] = refl
length-without_last x (y ∷ xs) = rw (length-without_last y xs)

step_grows : (op : ListOp) (xs : List ℕ) → length_after (abstract_step op xs) ≤ suc (length xs)
unfolding length_after
step_grows (push_front page item) xs = omega arith
step_grows (push_back page item) xs = omega (arith, length-append-one xs item)
step_grows pop_front [] = omega arith
step_grows pop_front (x ∷ xs) = omega arith
step_grows pop_back [] = omega arith
step_grows pop_back (x ∷ xs) = omega (arith, length-without_last x xs)
step_grows front [] = omega arith
step_grows front (x ∷ xs) = omega arith
step_grows back [] = omega arith
step_grows back (x ∷ xs) = omega arith
step_grows empty xs = omega arith
step_grows size xs = omega arith
step_grows (find item) xs = omega arith
step_grows (remove item) xs = omega (arith, length-without item xs)

module _ (fuel : ℕ) (ops : List ListOp) where
  answer_first :
      (a : Answer) {r : Option (Outcome (List Answer × ListState))}
      {q : Outcome (List Answer × List ℕ)}
      → Agrees r q
      → Agrees (and_then r λ q. ok (a ∷ q.0, q.1)) (q >>= λ q. ok (a ∷ q.0, q.1))
  answer_first a (returned rep) = returned rep
  answer_first a faulted = faulted

  run_on :
      ((s : ListState) (xs : List ℕ)
        → Represents s xs
        → AllAllocate fuel ops s
        → length xs + length ops < fuel
        → Agrees (run fuel ops s) (abstract_run ops xs))
      → {r : Option (Outcome (Answer × ListState))} {q : Outcome (Answer × List ℕ)} → Agrees r q
      → Continues r (AllAllocate fuel ops)
      → length_after q + length ops < fuel
      → Agrees
          (proceed r λ r. and_then (run fuel ops r.1) λ q. ok (r.0 ∷ q.0, q.1))
          (q >>= λ r. abstract_run ops r.1 >>= λ q. ok (r.0 ∷ q.0, q.1))
  unfolding length_after
  run_on ih (returned {a} {s} {xs} rep) al lt = answer_first a (ih s xs rep al lt)
  run_on ih faulted al lt = faulted

-- From a list that stands for the sequence `xs`, any run of list_push_front, list_push_back,
-- list_pop_front, list_pop_back, list_front, list_back, list_empty, list_size, list_find and
-- list_remove, for whose pushes vmm_alloc finds memory that is not null and not in use, gives the
-- answers of the same run on `xs` and ends in a list that stands for the sequence that run ends
-- in, or dereferences null where that run pops or reads the end of an empty sequence. Fuel above
-- the length of `xs` and of the run is enough for its loops.
pub run-Agrees :
    (fuel : ℕ) (ops : List ListOp) (s : ListState) (xs : List ℕ)
    → Represents s xs
    → AllAllocate fuel ops s
    → length xs + length ops < fuel
    → Agrees (run fuel ops s) (abstract_run ops xs)
run-Agrees fuel [] s xs rep al lt = returned rep
run-Agrees fuel (op ∷ ops) s xs rep al lt =
    run_on fuel ops (run-Agrees fuel ops) (step-Agrees fuel op rep al.0 (omega arith)) al.1
      (omega (arith, step_grows op xs))
