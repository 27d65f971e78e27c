-- ===== src/Lists/Walk.antt =====
-- The loops of src/kernel/lib/list.c: list_size, list_find, list_remove and list_destroy end after
-- one round for each node and one more.
use mathlib.Core.Path.{subst}
use unnamed_os.Base.{
  ◌≢◌, ==-false, ==-refl, ℕ, zero, suc, ◌+◌, ◌<◌, ◌≡◌, refl, ap, ◌∙◌, sym, Bool, true, false, ◌||◌,
  not, Option, none, some, List, [], ◌∷◌, ◌++◌, arith, ◌==◌, if◌then◌else◌, Outcome, ok, length,
  eq_of_==, Bool-cases, inl, inr,
}
use unnamed_os.Lists.{
  node, Heap, ListState, list_empty, list_front, list_back, unlink, size_loop, list_size, find_loop,
  list_find, list_remove, list_destroy, destroy_loop, give_back_list, write,
}
use unnamed_os.Lists.Chain.{
  Cells, has, items, first_of, last_of, Linked, cons, last_of-append, right_part,
}
use unnamed_os.Lists.Ends.{load-ok}
use unnamed_os.Lists.Unlink.{listed, Reaches, unlink-ok, list_pop_front-ok, node_at}

abbrev pub contains : ℕ → List ℕ → Bool
contains item [] = false
contains item (x ∷ xs) = (x == item) || contains item xs

-- the sequence without the first `item`
abbrev pub without : ℕ → List ℕ → List ℕ
without item [] = []
without item (x ∷ xs) = if x == item then xs else x ∷ without item xs

-- The address of the first node that holds `item`, or null.
address_of : ℕ → Cells → ℕ
address_of item [] = 0
address_of item ((p, i) ∷ xs) = if i == item then p else address_of item xs

size_loop-counts :
    (fuel num : ℕ) {b : ℕ} (h : Heap) (xs : Cells)
    → Linked h 0 b xs
    → length xs < fuel
    → size_loop fuel num (first_of xs 0) h ≡ some (ok (num + length xs))
unfolding size_loop
size_loop-counts zero num h xs s lt = absurd (omega arith)
size_loop-counts (suc fuel) num h [] s lt = ground arith
size_loop-counts (suc fuel) num {b} h ((p, item) ∷ xs) (cons ne e out s) lt =
    rw (ne, load-ok p h (node item b (first_of xs 0)) ne e)
      (size_loop-counts fuel (num + 1) h xs s (omega arith) ∙ ap (λ n. some (ok n)) (omega arith))

find_loop-finds :
    (fuel item : ℕ) {b : ℕ} (h : Heap) (xs : Cells)
    → Linked h 0 b xs
    → length xs < fuel
    → find_loop fuel item (first_of xs 0) h ≡ some (ok (address_of item xs))
unfolding find_loop address_of
find_loop-finds zero item h xs s lt = absurd (omega arith)
find_loop-finds (suc fuel) item h [] s lt = refl
find_loop-finds (suc fuel) item {b} h ((p, i) ∷ xs) (cons ne e out s) lt =
    rw
      (
        ne,
        load-ok p h (node i b (first_of xs 0)) ne e,
        find_loop-finds fuel item h xs s (omega arith),
      )
      (ground arith)

address_of-contains :
    (item : ℕ) {h : Heap} {b : ℕ} (xs : Cells)
    → Linked h 0 b xs
    → not (address_of item xs == 0) ≡ contains item (items xs)
unfolding address_of
address_of-contains item [] s = refl
address_of-contains item ((p, i) ∷ xs) (cons ne e out s) =
    ground (arith, address_of-contains item xs s)

-- Where the first node that holds `item` stands, and what is left without it.
record Occurrence (item : ℕ) (xs : Cells) : Type 0 where
  before : Cells
  address : ℕ
  after : Cells
  splits : before ++ ((address, item) ∷ after) ≡ xs
  found : address_of item xs ≡ address
  leaves : items (before ++ after) ≡ without item (items xs)

locate : (item : ℕ) (xs : Cells) → contains item (items xs) ≡ true → Occurrence item xs
unfolding address_of
locate item [] i = absurd (ground arith)
locate item ((p, x) ∷ xs) i = elim (Bool-cases (x == item)) [
  | inl e ↦ record {
    before = [];
    address = p;
    after = xs;
    splits = rw (eq_of_== x item e);
    found = rw e;
    leaves = rw e;
  }
  | inr e ↦
      let o = locate item xs (ground arith) in
      record {
        before = (p, x) ∷ o.before;
        address = o.address;
        after = o.after;
        splits = ap (λ c. (p, x) ∷ c) o.splits;
        found = rw (e, o.found);
        leaves = rw (e, o.leaves);
      }
]

without-absent : (item : ℕ) (xs : List ℕ) → contains item xs ≡ false → without item xs ≡ xs
without-absent item [] e = refl
without-absent item (x ∷ xs) e = ground (arith, without-absent item xs)

-- The run `r` of list_remove ended in a list without the first `item`, and changed nothing but
-- its nodes.
pub record Removes (item : ℕ) (h : Heap) (xs : Cells) (r : Option (Outcome ListState))
    : Type 0 where
  pub rest : Cells
  pub leaves : items rest ≡ without item (items xs)
  pub outcome : Outcome ListState
  pub ends : r ≡ some outcome
  pub reaches : Reaches (λ s. s) h rest rest outcome

-- With fuel above the number of its nodes, `list_remove` ends without a fault on a well-linked list, and
-- leaves a well-linked list without the first occurrence of the item. The heap outside the nodes that stay
-- is as it was: the page of the removed node is not given back.
pub list_remove-Removes :
    (fuel item : ℕ) (h : Heap) (xs : Cells)
    → Linked h 0 0 xs
    → length xs < fuel
    → Removes item h xs (list_remove fuel item (listed xs h))
unfolding list_remove
list_remove-Removes fuel item h xs s lt = elim (Bool-cases (contains item (items xs))) [
  | inl i ↦ remove_occurrence (locate item xs i)
  | inr i ↦ record {
    rest = xs;
    leaves = sym (without-absent item (items xs) i);
    outcome = ok (listed xs h);
    ends = rw (find_loop-finds fuel item h xs s lt) (ground (arith, address_of-contains item xs s));
    reaches = record { heap = h; runs = refl; chain = s; spares = λ q o. refl };
  }
]
  where
    remove_occurrence : Occurrence item xs → Removes item h xs (list_remove fuel item (listed xs h))
    remove_occurrence o =
        let split : Linked h 0 0 (o.before ++ ((o.address, item) ∷ o.after)) = rw o.splits s in
        let at = node_at o.address item o.after (right_part o.before _ split) in
        record {
          rest = o.before ++ o.after;
          leaves = o.leaves;
          outcome = unlink (node item (last_of 0 o.before) (first_of o.after 0)) (listed xs h);
          ends = rw (
            find_loop-finds fuel item h xs s lt,
            o.found,
            at.0,
            load-ok o.address h (node item (last_of 0 o.before) (first_of o.after 0)) at.0 at.1,
          );
          reaches =
              subst
                (λ ys.
                  Reaches (λ s. s) h (o.before ++ o.after) (o.before ++ o.after)
                    (unlink (node item (last_of 0 o.before) (first_of o.after 0)) (listed ys h)))
                o.splits (unlink-ok o.address item h o.before o.after split);
        }

-- A run ends and leaves no node of the list.
pub record Destroys (h : Heap) (xs : Cells) (r : Option (Outcome Heap)) : Type 0 where
  pub heap : Heap
  pub ends : r ≡ some (ok heap)
  pub spares : (q : ℕ) → has q xs ≡ false → heap q ≡ h q
  pub frees : (q : ℕ) → has q xs ≡ true → heap q ≡ none

destroy_loop-Destroys :
    (fuel : ℕ) (h : Heap) (xs : Cells)
    → Linked h 0 0 xs
    → length xs < fuel
    → Destroys h xs (destroy_loop fuel (listed xs h))
unfolding destroy_loop list_empty
destroy_loop-Destroys zero h xs s lt = absurd (omega arith)
destroy_loop-Destroys (suc fuel) h [] s lt = record {
  heap = h;
  ends = refl;
  spares = λ q o. refl;
  frees = λ q i. absurd (ground arith);
}
destroy_loop-Destroys (suc fuel) h ((p, item) ∷ xs) s lt =
    let pop = list_pop_front-ok p item h xs s in
    let rest = destroy_loop-Destroys fuel pop.reaches.heap xs pop.reaches.chain (omega arith) in
    record {
      heap = rest.heap;
      ends = rw ((node_at p item xs s).0, pop.reaches.runs) rest.ends;
      spares = λ q o. rest.spares q (ground arith) ∙ pop.reaches.spares q o;
      frees = λ q i. elim (Bool-cases (has q xs)) [
        | inl j ↦ rest.frees q j
        | inr j ↦ rest.spares q j ∙ ap pop.reaches.heap (eq_of_== q p (ground arith)) ∙ pop.frees
      ];
    }

-- The run of list_destroy ends, and of the list and its nodes nothing is left in memory.
pub record Gone (h : Heap) (list : ℕ) (xs : Cells) (r : Option (Outcome Heap)) : Type 0 where
  pub heap : Heap
  pub ends : r ≡ some (ok heap)
  pub spares : (q : ℕ) → q ≢ list → has q xs ≡ false → heap q ≡ h q
  pub frees : (q : ℕ) → has q xs ≡ true → heap q ≡ none
  pub own : heap list ≡ none

-- With fuel above the number of its nodes, `list_destroy` ends without a fault and gives back the page
-- of every node of a well-linked list and that of the list itself. The rest of the heap is as it was.
pub list_destroy-Destroys :
    (fuel list : ℕ) (h : Heap) (xs : Cells)
    → Linked h 0 0 xs
    → length xs < fuel
    → Gone h list xs (list_destroy fuel list (listed xs h))
list_destroy-Destroys fuel list h xs s lt =
    let d = destroy_loop-Destroys fuel h xs s lt in
    record {
      heap = write d.heap list none;
      ends = ap (give_back_list list) d.ends;
      spares = λ q ne o. rw (==-false q list ne) (d.spares q o);
      frees =
          λ q i. elim (Bool-cases (q == list)) [ inl e ↦ rw e refl | inr e ↦ rw e (d.frees q i) ];
      own = rw (==-refl list) refl;
    }

pub list_size-length :
    (fuel : ℕ) (h : Heap) (xs : Cells)
    → Linked h 0 0 xs
    → length xs < fuel
    → list_size fuel (listed xs h) ≡ some (ok (length xs))
unfolding list_size
list_size-length fuel h xs s lt =
    size_loop-counts fuel 0 h xs s lt ∙ ap (λ n. some (ok n)) (omega arith)

pub list_find-contains :
    (fuel item : ℕ) (h : Heap) (xs : Cells)
    → Linked h 0 0 xs
    → length xs < fuel
    → list_find fuel item (listed xs h) ≡ some (ok (contains item (items xs)))
unfolding list_find
list_find-contains fuel item h xs s lt =
    rw (find_loop-finds fuel item h xs s lt, address_of-contains item xs s)

pub list_front-first :
    (p item : ℕ) (h : Heap) (xs : Cells)
    → Linked h 0 0 ((p, item) ∷ xs)
    → list_front (listed ((p, item) ∷ xs) h) ≡ ok item
unfolding list_front
list_front-first p item h xs s =
    rw (load-ok p h (node item 0 (first_of xs 0)) (node_at p item xs s).0 (node_at p item xs s).1)

pub list_back-last :
    (p item : ℕ) (h : Heap) (ys : Cells)
    → Linked h 0 0 (ys ++ ((p, item) ∷ []))
    → list_back (listed (ys ++ ((p, item) ∷ [])) h) ≡ ok item
unfolding list_back
list_back-last p item h ys s =
    let at = node_at p item [] (right_part ys ((p, item) ∷ []) s) in
    rw (last_of-append 0 ys ((p, item) ∷ []), load-ok p h (node item (last_of 0 ys) 0) at.0 at.1)
