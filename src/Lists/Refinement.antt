-- ===== src/Lists/Refinement.antt =====
-- The list of src/kernel/lib/list.c against the sequence of items it stands for: runs of its
-- operations and the same runs on sequences.
use mathlib.Core.Path.{subst}
use unnamed_os.Base.{
  ℕ, suc, ◌<◌, ◌≡◌, refl, ap, sym, Bool, true, false, Option, none, some, List, [], ◌∷◌, ◌++◌, ◌==◌,
  Outcome, ok, fault, null_dereference, ◌>>=◌, length, Fault,
}
use unnamed_os.Lists.{
  Heap, ListState, load, list_empty, list_front, list_back, list_push_front, list_push_back,
  list_pop_front, list_pop_back, list_size, list_find, list_remove, and_then,
}
use unnamed_os.Lists.Chain.{Cells, items, Linked, items-append}
use unnamed_os.Lists.Unlink.{
  listed, node_at, Reaches, Pops, list_push_front-ok, list_push_back-ok, list_pop_front-ok,
  list_pop_back-ok,
}
use unnamed_os.Lists.Walk.{
  contains, without, list_remove-Removes, list_size-length, list_find-contains, list_front-first,
  list_back-last,
}

-- The operations, the pushes with the page that vmm_alloc finds for the new node.
pub data ListOp : Type 0 where
  push_front push_back : (page item : ℕ) → ListOp
  pop_front pop_back front back empty size : ListOp
  find remove : (item : ℕ) → ListOp

pub data Answer : Type 0 where
  done : Answer
  number : ℕ → Answer
  flag : Bool → Answer

abbrev answer_item : ℕ × ListState → Outcome (Answer × ListState)
answer_item (x, s) = ok (number x, s)

abbrev pub step : ℕ → ListOp → ListState → Option (Outcome (Answer × ListState))
step fuel (push_front page item) s = some (list_push_front page item s >>= λ s. ok (done, s))
step fuel (push_back page item) s = some (list_push_back page item s >>= λ s. ok (done, s))
step fuel pop_front s = some (list_pop_front s >>= answer_item)
step fuel pop_back s = some (list_pop_back s >>= answer_item)
step fuel front s = some (list_front s >>= λ x. ok (number x, s))
step fuel back s = some (list_back s >>= λ x. ok (number x, s))
step fuel empty s = some (ok (flag (list_empty s), s))
step fuel size s = and_then (list_size fuel s) λ n. ok (number n, s)
step fuel (find item) s = and_then (list_find fuel item s) λ b. ok (flag b, s)
step fuel (remove item) s = and_then (list_remove fuel item s) λ s. ok (done, s)

-- The same on sequences.
abbrev last_item : ℕ → List ℕ → ℕ
last_item x [] = x
last_item x (y ∷ xs) = last_item y xs

abbrev pub without_last : ℕ → List ℕ → List ℕ
without_last x [] = []
without_last x (y ∷ xs) = x ∷ without_last y xs

abbrev is_empty : List ℕ → Bool
is_empty [] = true
is_empty (x ∷ xs) = false

abbrev pub abstract_step : ListOp → List ℕ → Outcome (Answer × List ℕ)
abstract_step (push_front page item) xs = ok (done, item ∷ xs)
abstract_step (push_back page item) xs = ok (done, xs ++ (item ∷ []))
abstract_step pop_front [] = fault null_dereference
abstract_step pop_front (x ∷ xs) = ok (number x, xs)
abstract_step pop_back [] = fault null_dereference
abstract_step pop_back (x ∷ xs) = ok (number (last_item x xs), without_last x xs)
abstract_step front [] = fault null_dereference
abstract_step front (x ∷ xs) = ok (number x, x ∷ xs)
abstract_step back [] = fault null_dereference
abstract_step back (x ∷ xs) = ok (number (last_item x xs), x ∷ xs)
abstract_step empty xs = ok (flag (is_empty xs), xs)
abstract_step size xs = ok (number (length xs), xs)
abstract_step (find item) xs = ok (flag (contains item xs), xs)
abstract_step (remove item) xs = ok (done, without item xs)

-- A list_t and memory that stand for a sequence.
pub data Represents : ListState → List ℕ → Type 0 where
  represents : {h : Heap} (xs : Cells) → Linked h 0 0 xs → Represents (listed xs h) (items xs)

-- Both runs give the same answer and end in a list and the sequence it stands for, or both fault.
pub data Agrees {A : Type 0}
    : Option (Outcome (A × ListState)) → Outcome (A × List ℕ) → Type 0 where
  returned :
      {a : A} {s : ListState} {xs : List ℕ}
      → Represents s xs
      → Agrees (some (ok (a, s))) (ok (a, xs))
  faulted : {e : Fault} → Agrees (some (fault e)) (fault e)

-- vmm_alloc finds memory for the node that is not null and not in use.
abbrev pub Allocates : ListOp → ListState → Type 0
Allocates (push_front page item) s = ((page == 0) ≡ false) × (s.heap page ≡ none)
Allocates (push_back page item) s = ((page == 0) ≡ false) × (s.heap page ≡ none)
Allocates pop_front s = Unit
Allocates pop_back s = Unit
Allocates front s = Unit
Allocates back s = Unit
Allocates empty s = Unit
Allocates size s = Unit
Allocates (find item) s = Unit
Allocates (remove item) s = Unit

length-items : (xs : Cells) → length (items xs) ≡ length xs
length-items [] = refl
length-items (x ∷ xs) = ap suc (length-items xs)

record Backwards (xs : Cells) : Type 0 where
  front : Cells
  page : ℕ
  item : ℕ
  splits : front ++ ((page, item) ∷ []) ≡ xs

backwards : (p i : ℕ) (xs : Cells) → Backwards ((p, i) ∷ xs)
backwards p i [] = record { front = []; page = p; item = i; splits = refl }
backwards p i ((q, j) ∷ xs) =
    let b = backwards q j xs in
    record {
      front = (p, i) ∷ b.front;
      page = b.page;
      item = b.item;
      splits = ap (λ c. (p, i) ∷ c) b.splits;
    }

last_item-append : (x : ℕ) (ys : List ℕ) (y : ℕ) → last_item x (ys ++ (y ∷ [])) ≡ y
last_item-append x [] y = refl
last_item-append x (z ∷ ys) y = last_item-append z ys y

without_last-append : (x : ℕ) (ys : List ℕ) (y : ℕ) → without_last x (ys ++ (y ∷ [])) ≡ x ∷ ys
without_last-append x [] y = refl
without_last-append x (z ∷ ys) y = ap (λ c. x ∷ c) (without_last-append z ys y)

pop_back-append :
    (ys : List ℕ) (y : ℕ) → abstract_step pop_back (ys ++ (y ∷ [])) ≡ ok (number y, ys)
pop_back-append [] y = refl
pop_back-append (x ∷ ys) y = rw (last_item-append x ys y, without_last-append x ys y)

back-append :
    (ys : List ℕ) (y : ℕ) → abstract_step back (ys ++ (y ∷ [])) ≡ ok (number y, ys ++ (y ∷ []))
back-append [] y = refl
back-append (x ∷ ys) y = rw (last_item-append x ys y)

null_load : (h : Heap) → load 0 h ≡ fault null_dereference
unfolding load
null_load h = refl

Represents-as :
    {h : Heap} {zs : List ℕ} (ys : Cells)
    → Linked h 0 0 ys
    → items ys ≡ zs
    → Represents (listed ys h) zs
Represents-as ys c e = rw (sym e) (represents ys c)

Agrees-reach :
    {A : Type 0} {h : Heap} {touched new : Cells} {r : Outcome (A × ListState)} {xs : List ℕ}
    (a : A)
    → Reaches (λ s. (a, s)) h touched new r
    → items new ≡ xs
    → Agrees (some r) (ok (a, xs))
Agrees-reach {new = new} a r e = rw r.runs (returned (Represents-as new r.chain e))

Agrees-push :
    {h : Heap} {touched new : Cells} {r : Outcome ListState} {xs : List ℕ}
    → Reaches (λ s. s) h touched new r
    → items new ≡ xs
    → Agrees (some (r >>= λ s. ok (done, s))) (ok (done, xs))
Agrees-push {new = new} r e = rw r.runs (returned (Represents-as new r.chain e))

Agrees-pop :
    {h : Heap} {old new : Cells} {r : Outcome (ℕ × ListState)} {p x : ℕ}
    → Pops p x h old new r
    → Agrees (some (r >>= answer_item)) (ok (number x, items new))
Agrees-pop {new = new} r = rw r.reaches.runs (returned (represents new r.reaches.chain))

module _ {h : Heap} (fuel : ℕ) where
  pop_back-Agrees :
      (p i : ℕ) (xs : Cells)
      → Linked h 0 0 ((p, i) ∷ xs)
      → Agrees
          (step fuel pop_back (listed ((p, i) ∷ xs) h))
          (abstract_step pop_back (items ((p, i) ∷ xs)))
  pop_back-Agrees p i xs c =
      let b = backwards p i xs in
      let chain : Linked h 0 0 (b.front ++ ((b.page, b.item) ∷ [])) = rw b.splits c in
      subst (λ ys. Agrees (step fuel pop_back (listed ys h)) (abstract_step pop_back (items ys)))
        b.splits
        (rw (items-append b.front ((b.page, b.item) ∷ []), pop_back-append)
          (Agrees-pop (list_pop_back-ok b.page b.item h b.front chain)))

  back-Agrees :
      (p i : ℕ) (xs : Cells)
      → Linked h 0 0 ((p, i) ∷ xs)
      → Agrees (step fuel back (listed ((p, i) ∷ xs) h)) (abstract_step back (items ((p, i) ∷ xs)))
  back-Agrees p i xs c =
      let b = backwards p i xs in
      let chain : Linked h 0 0 (b.front ++ ((b.page, b.item) ∷ [])) = rw b.splits c in
      subst (λ ys. Agrees (step fuel back (listed ys h)) (abstract_step back (items ys))) b.splits
        (rw
          (
            items-append b.front ((b.page, b.item) ∷ []),
            back-append,
            list_back-last b.page b.item h b.front chain,
          )
          (returned (Represents-as _ chain (items-append b.front ((b.page, b.item) ∷ [])))))

pub step-Agrees :
    {s : ListState} {xs : List ℕ} (fuel : ℕ) (op : ListOp)
    → Represents s xs
    → Allocates op s
    → length xs < fuel
    → Agrees (step fuel op s) (abstract_step op xs)
unfolding list_pop_front list_pop_back list_front list_back list_empty
step-Agrees fuel (push_front page item) (represents xs c) a lt =
    Agrees-push (list_push_front-ok c page item a.0 a.1) refl
step-Agrees fuel (push_back page item) (represents xs c) a lt =
    Agrees-push (list_push_back-ok c page item a.0 a.1) (items-append xs ((page, item) ∷ []))
step-Agrees fuel pop_front (represents {h} [] c) a lt = rw (null_load h) faulted
step-Agrees fuel pop_front (represents {h} ((p, i) ∷ xs) c) a lt =
    Agrees-pop (list_pop_front-ok p i h xs c)
step-Agrees fuel pop_back (represents {h} [] c) a lt = rw (null_load h) faulted
step-Agrees fuel pop_back (represents ((p, i) ∷ xs) c) a lt = pop_back-Agrees fuel p i xs c
step-Agrees fuel front (represents {h} [] c) a lt = rw (null_load h) faulted
step-Agrees fuel front (represents {h} ((p, i) ∷ xs) c) a lt =
    rw (list_front-first p i h xs c) (returned (represents ((p, i) ∷ xs) c))
step-Agrees fuel back (represents {h} [] c) a lt = rw (null_load h) faulted
step-Agrees fuel back (represents ((p, i) ∷ xs) c) a lt = back-Agrees fuel p i xs c
step-Agrees fuel empty (represents [] c) a lt = returned (represents [] c)
step-Agrees fuel empty (represents ((p, i) ∷ xs) c) a lt =
    rw ((node_at p i xs c).0) (returned (represents ((p, i) ∷ xs) c))
step-Agrees fuel size (represents {h} xs c) a lt =
    rw (list_size-length fuel h xs c (rw (length-items xs) at lt), length-items xs)
      (returned (represents xs c))
step-Agrees fuel (find item) (represents {h} xs c) a lt =
    rw (list_find-contains fuel item h xs c (rw (length-items xs) at lt))
      (returned (represents xs c))
step-Agrees fuel (remove item) (represents {h} xs c) a lt =
    let r = list_remove-Removes fuel item h xs c (rw (length-items xs) at lt) in
    rw r.ends (Agrees-push r.reaches r.leaves)
