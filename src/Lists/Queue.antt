-- ===== src/Lists/Queue.antt =====
-- The queue of src/kernel/lib/queue.c, which only gives the list's operations other names.
use mathlib.Core.List.{append-nil, append_assoc}
use unnamed_os.Base.{
  ℕ, ◌≡◌, refl, Bool, true, false, Option, none, List, [], ◌∷◌, ◌++◌, Outcome, ok, ◌>>=◌, ◌==◌,
  ==-refl, eq_of_==, Bool-cases, inl, inr, ap, ◌∙◌, arith,
}
use unnamed_os.Lists.{
  Heap, ListState, list_state, list_create, list_destroy, list_empty, list_size, list_front,
  list_push_back, list_pop_front, list_find, list_remove,
}
use unnamed_os.Lists.Chain.{Cells, nil, has, has-append, Linked, items, not-has_of_none}
use unnamed_os.Lists.Unlink.{listed, list_push_back-ok, list_pop_front-ok}

abbrev pub queue_create : Heap → ListState
queue_create h = list_create h

abbrev queue_destroy : (fuel queue : ℕ) → ListState → Option (Outcome Heap)
queue_destroy fuel queue s = list_destroy fuel queue s

abbrev queue_empty : ListState → Bool
queue_empty queue = list_empty queue

abbrev queue_size : ℕ → ListState → Option (Outcome ℕ)
queue_size fuel queue = list_size fuel queue

abbrev queue_front : ListState → Outcome ℕ
queue_front queue = list_front queue

abbrev queue_enqueue : ℕ → ℕ → ListState → Outcome ListState
queue_enqueue page item queue = list_push_back page item queue

abbrev queue_dequeue : ListState → Outcome (ℕ × ListState)
queue_dequeue queue = list_pop_front queue

abbrev queue_find : ℕ → ℕ → ListState → Option (Outcome Bool)
queue_find fuel item queue = list_find fuel item queue

abbrev queue_remove : ℕ → ℕ → ListState → Option (Outcome ListState)
queue_remove fuel item queue = list_remove fuel item queue

-- The items enqueued one after the other, each in a page of its own.
abbrev pub enqueue_all : List (ℕ × ℕ) → ListState → Outcome ListState
enqueue_all [] queue = ok queue
enqueue_all ((page, item) ∷ rest) queue = queue_enqueue page item queue >>= enqueue_all rest

-- As many items dequeued as the list has elements.
abbrev pub dequeue_all : List (ℕ × ℕ) → ListState → Outcome (List ℕ × ListState)
dequeue_all [] queue = ok ([], queue)
dequeue_all (x ∷ rest) queue =
    queue_dequeue queue >>= λ r. dequeue_all rest r.1 >>= λ q. ok (r.0 ∷ q.0, q.1)

-- The pages are not null, not in use and different.
abbrev Unused : Heap → List (ℕ × ℕ) → Type 0
Unused h [] = Unit
Unused h ((page, item) ∷ rest) =
    ((page == 0) ≡ false) × (h page ≡ none) × (has page rest ≡ false) × Unused h rest

Unused-heap :
    (h g : Heap) (xs : Cells) → Unused h xs → ((q : ℕ) → has q xs ≡ true → g q ≡ h q) → Unused g xs
Unused-heap h g [] u same = tt
Unused-heap h g ((p, i) ∷ xs) (ne, e, out, u) same =
    (ne, same p (rw (==-refl p)) ∙ e, out, Unused-heap h g xs u λ q j. same q (ground arith))

Unused-is_none : (h : Heap) (q : ℕ) (xs : Cells) → Unused h xs → has q xs ≡ true → h q ≡ none
Unused-is_none h q [] u i = absurd (ground arith)
Unused-is_none h q ((p, i) ∷ xs) (ne, e, out, u) j = elim (Bool-cases (q == p)) [
  | inl eq ↦ ap h (eq_of_== q p eq) ∙ e
  | inr ne2 ↦ Unused-is_none h q xs u (ground arith)
]

enqueued :
    (h : Heap) (xs ys : Cells)
    → Linked h 0 0 xs
    → Unused h ys
    → (g : Heap) × (enqueue_all ys (listed xs h) ≡ ok (listed (xs ++ ys) g))
      × Linked g 0 0 (xs ++ ys)
enqueued h xs [] c u = (h, rw append-nil, rw append-nil c)
enqueued h xs ((p, i) ∷ ys) c (ne, e, out, u) =
    let r = list_push_back-ok c p i ne e in
    let u2 = Unused-heap h r.heap ys u (λ q j. r.spares q (
      ground
        (arith, has-append q xs ((p, i) ∷ []), not-has_of_none q c (Unused-is_none h q ys u j)))) in
    let rest = enqueued r.heap (xs ++ ((p, i) ∷ [])) ys r.chain u2 in
    (rest.0, rw (r.runs, rest.1, append_assoc), rw append_assoc at rest.2)

dequeued :
    (h : Heap) (xs : Cells)
    → Linked h 0 0 xs
    → (g : Heap) × (dequeue_all xs (listed xs h) ≡ ok (items xs, list_state 0 0 g))
dequeued h [] c = (h, refl)
dequeued h ((p, i) ∷ xs) c =
    let r = list_pop_front-ok p i h xs c in
    let rest = dequeued r.reaches.heap xs r.reaches.chain in (rest.0, rw (r.reaches.runs, rest.1))

-- Items enqueued one after the other into an empty queue, each in a page that is not null, not in
-- use and of its own, are dequeued in that order, and leave the queue empty.
pub queue_dequeue-enqueue :
    (h : Heap) (xs : List (ℕ × ℕ))
    → Unused h xs
    → (g : Heap) × ((enqueue_all xs (queue_create h) >>= dequeue_all xs)
        ≡ ok (items xs, queue_create g))
queue_dequeue-enqueue h xs u =
    let e = enqueued h [] xs nil u in let d = dequeued e.0 xs e.2 in (d.0, rw (e.1, d.1))
