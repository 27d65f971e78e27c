-- ===== src/Lists.antt =====
-- The doubly linked list of src/kernel/lib/list.c and the queue of src/kernel/lib/queue.c made of it.
-- A `ListState` is a `list_t` with the memory its nodes stand in: a heap from addresses to nodes,
-- where the null pointer is 0. Each node stands in a page of its own that vmm_alloc found; the
-- address of the page is an argument of the operations that allocate, and vmm_free clears it.
-- Reading through the null pointer, which is what list_check leads to, is a fault. The loops over
-- the nodes run on fuel, since nothing in memory says that a chain of nodes ends: `none` says that
-- the loop is still running.

mod Chain
mod Ends
mod Unlink
mod Walk
mod Refinement
mod Runs
mod Queue
mod Tests
use unnamed_os.Base.{
  ℕ, zero, suc, ◌+◌, Bool, true, false, not, Option, none, some, Outcome, ok, fault, Fault,
  null_dereference, out_of_bounds, ◌>>=◌, ◌==◌, if◌then◌else◌,
}

pub record Node : Type 0 where
  pub item : ℕ
  pub prev : ℕ
  pub next : ℕ

abbrev pub node : ℕ → ℕ → ℕ → Node
node item prev next = record { item = item; prev = prev; next = next }

abbrev pub Heap : Type 0
Heap = ℕ → Option Node

pub record ListState : Type 0 where
  pub head : ℕ
  pub tail : ℕ
  pub heap : Heap

abbrev pub list_state : ℕ → ℕ → Heap → ListState
list_state head tail heap = record { head = head; tail = tail; heap = heap }

abbrev pub write : Heap → ℕ → Option Node → Heap
write h p c q = if q == p then c else h q

-- What a pointer points to.
unfoldable stored : Option Node → Outcome Node
stored none = fault out_of_bounds
stored (some n) = ok n

unfoldable load : ℕ → Heap → Outcome Node
load p h = if p == 0 then fault null_dereference else stored (h p)

unfoldable set_next : ℕ → ℕ → Heap → Outcome Heap
set_next p q h = load p h >>= λ n. ok (write h p (some (node n.item n.prev q)))

unfoldable set_prev : ℕ → ℕ → Heap → Outcome Heap
set_prev p q h = load p h >>= λ n. ok (write h p (some (node n.item q n.next)))

-- The same under the guard `if (p)`.
unfoldable link_next : ℕ → ℕ → Heap → Outcome Heap
link_next p q h = if p == 0 then ok h else set_next p q h

unfoldable link_prev : ℕ → ℕ → Heap → Outcome Heap
link_prev p q h = if p == 0 then ok h else set_prev p q h

unfoldable list_create_node : ℕ → ℕ → ℕ → ℕ → Heap → Outcome Heap
list_create_node p item prev next h =
    if p == 0 then fault null_dereference else ok (write h p (some (node item prev next)))

abbrev pub list_create : Heap → ListState
list_create h = list_state 0 0 h

unfoldable list_empty : ListState → Bool
list_empty s = s.head == 0

unfoldable list_front : ListState → Outcome ℕ
list_front s = load s.head s.heap >>= λ n. ok n.item

unfoldable list_back : ListState → Outcome ℕ
list_back s = load s.tail s.heap >>= λ n. ok n.item

unfoldable list_push_front : ℕ → ℕ → ListState → Outcome ListState
list_push_front p item s = list_create_node p item 0 s.head s.heap >>= λ h. load p h >>= λ n.
    link_prev n.next p h >>= λ h. ok (list_state p (if s.tail == 0 then p else s.tail) h)

unfoldable list_push_back : ℕ → ℕ → ListState → Outcome ListState
list_push_back p item s = list_create_node p item s.tail 0 s.heap >>= λ h. load p h >>= λ n.
    link_next n.prev p h >>= λ h. ok (list_state (if s.head == 0 then p else s.head) p h)

unfoldable list_pop_front : ListState → Outcome (ℕ × ListState)
list_pop_front s = load s.head s.heap >>= λ n.
    link_prev n.next 0 (write s.heap s.head none) >>= λ h.
    ok (n.item, list_state n.next (if n.next == 0 then 0 else s.tail) h)

unfoldable list_pop_back : ListState → Outcome (ℕ × ListState)
list_pop_back s = load s.tail s.heap >>= λ n. link_next n.prev 0 (write s.heap s.tail none) >>= λ h.
    ok (n.item, list_state (if n.prev == 0 then 0 else s.head) n.prev h)

-- What follows a step that can fault, in code that can run out of fuel.
abbrev and_run : {A B : Type 0} → Outcome A → (A → Option (Outcome B)) → Option (Outcome B)
and_run (ok a) k = k a
and_run (fault e) k = some (fault e)

abbrev pub and_then : {A B : Type 0} → Option (Outcome A) → (A → Outcome B) → Option (Outcome B)
and_then none k = none
and_then (some r) k = some (r >>= k)

-- The nodes from `p` on, counted on top of `num`.
unfoldable size_loop : ℕ → ℕ → ℕ → Heap → Option (Outcome ℕ)
size_loop zero num p h = none
size_loop (suc fuel) num p h =
    let rest = λ (n : Node). size_loop fuel (num + 1) n.next h in
    if p == 0 then some (ok num) else and_run (load p h) rest

unfoldable list_size : ℕ → ListState → Option (Outcome ℕ)
list_size fuel s = size_loop fuel 0 s.head s.heap

-- The loop that list_find and list_remove share: the node from `p` on that holds `item`, or null.
unfoldable find_loop : ℕ → ℕ → ℕ → Heap → Option (Outcome ℕ)
find_loop zero item p h = none
find_loop (suc fuel) item p h =
    let rest = λ (n : Node). find_loop fuel item n.next h in
    if p == 0
    then some (ok 0)
    else and_run (load p h) (λ n. if n.item == item then some (ok p) else rest n)

unfoldable list_find : ℕ → ℕ → ListState → Option (Outcome Bool)
list_find fuel item s = and_then (find_loop fuel item s.head s.heap) λ p. ok (not (p == 0))

-- Takes the node out of the chain. Its page is not freed.
unfoldable unlink : Node → ListState → Outcome ListState
unlink n s = link_next n.prev n.next s.heap >>= λ h. link_prev n.next n.prev h >>= λ h.
    ok (
      list_state (if n.prev == 0 then n.next else s.head) (if n.next == 0 then n.prev else s.tail)
        h)

unfoldable list_remove : ℕ → ℕ → ListState → Option (Outcome ListState)
list_remove fuel item s =
    and_then (find_loop fuel item s.head s.heap)
      λ p. if p == 0 then ok s else (load p s.heap >>= λ n. unlink n s)

-- The loop of `list_destroy`, which takes out the nodes.
unfoldable destroy_loop : ℕ → ListState → Option (Outcome Heap)
destroy_loop zero s = none
destroy_loop (suc fuel) s =
    let rest = λ (popped : ℕ × ListState). destroy_loop fuel popped.1 in
    if list_empty s then some (ok s.heap) else and_run (list_pop_front s) rest

-- `list_destroy`, which then gives back the page of the `list_t` at the address `list`.
abbrev give_back_list : ℕ → Option (Outcome Heap) → Option (Outcome Heap)
give_back_list list none = none
give_back_list list (some (ok h)) = some (ok (write h list none))
give_back_list list (some (fault e)) = some (fault e)

abbrev list_destroy : (fuel list : ℕ) → ListState → Option (Outcome Heap)
list_destroy fuel list s = give_back_list list (destroy_loop fuel s)
