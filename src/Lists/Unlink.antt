-- ===== src/Lists/Unlink.antt =====
-- The operations of src/kernel/lib/list.c on a list whose nodes are linked as they should be.
use unnamed_os.Base.{
  ℕ, ◌≡◌, refl, ap, ◌∙◌, true, false, none, some, [], ◌∷◌, ◌++◌, arith, ◌==◌, ==-refl, Outcome, ok,
}
use unnamed_os.Lists.{
  node, Heap, ListState, list_state, write, list_create_node, list_push_front, list_push_back,
  list_pop_front, list_pop_back, unlink,
}
use unnamed_os.Lists.Chain.{
  Cells, has, first_of, last_of, Linked, nil, cons, frame, frame-write, join, left_part, right_part,
  parts_apart, not-has_of_none, first_of-append, last_of-append, has-append,
}
use mathlib.Core.List.{append_assoc}
use unnamed_os.Lists.Ends.{
  relink_next, relink_prev, load-ok, first_guard, first_default, last_guard, last_default,
}

-- the list_t of the chain `xs`: it points at both ends
abbrev pub listed : Cells → Heap → ListState
listed xs h = list_state (first_of xs 0) (last_of 0 xs) h

-- The run `r` from the heap `h` ended in a list of the chain `new`, with which it returned
-- `result`, and changed the heap at addresses of `touched` only.
pub record Reaches {A : Type 0} (result : ListState → A) (h : Heap) (touched new : Cells)
    (r : Outcome A) : Type 0 where
  pub heap : Heap
  pub runs : r ≡ ok (result (listed new heap))
  pub chain : Linked heap 0 0 new
  pub spares : (q : ℕ) → has q touched ≡ false → heap q ≡ h q

-- The run `r` took the node at `p` off the chain `old` and freed its page.
pub record Pops (p item : ℕ) (h : Heap) (old new : Cells) (r : Outcome (ℕ × ListState))
    : Type 0 where
  pub reaches : Reaches (λ s. (item, s)) h old new r
  pub frees : reaches.heap p ≡ none

module _ {h : Heap} {xs : Cells} (chain : Linked h 0 0 xs) where
  pub list_push_back-ok :
      (p item : ℕ)
      → (p == 0) ≡ false
      → h p ≡ none
      → Reaches
          (λ s. s)
          h
          (xs ++ ((p, item) ∷ []))
          (xs ++ ((p, item) ∷ []))
          (list_push_back p item (listed xs h))
  unfolding list_push_back list_create_node
  list_push_back-ok p item ne unused =
      let out = not-has_of_none p chain unused in
      let n = node item (last_of 0 xs) 0 in
      let fresh = write h p (some n) in
      let r = relink_next fresh 0 p xs (frame-write p (some n) chain out) in
      record {
        heap = r.heap;
        runs =
            rw (ne, load-ok p fresh n ne (rw (==-refl p)), r.runs)
              (rw (first_default chain p, first_of-append, last_of-append));
        chain = join r.chain (cons ne (r.spares p out ∙ rw (==-refl p)) refl nil) (ground arith);
        spares = λ q n.
            r.spares q (ground (arith, has-append q xs ((p, item) ∷ [])))
            ∙ ground (arith, has-append q xs ((p, item) ∷ []));
      }

  pub list_push_front-ok :
      (p item : ℕ)
      → (p == 0) ≡ false
      → h p ≡ none
      → Reaches (λ s. s) h ((p, item) ∷ xs) ((p, item) ∷ xs) (list_push_front p item (listed xs h))
  unfolding list_push_front list_create_node
  list_push_front-ok p item ne unused =
      let out = not-has_of_none p chain unused in
      let n = node item 0 (first_of xs 0) in
      let fresh = write h p (some n) in
      let r = relink_prev fresh 0 p xs (frame-write p (some n) chain out) in
      record {
        heap = r.heap;
        runs =
            rw (ne, load-ok p fresh n ne (rw (==-refl p)), r.runs)
              (ap (λ z. ok (list_state p z r.heap)) (last_default chain p));
        chain = cons ne (r.spares p out ∙ rw (==-refl p)) out r.chain;
        spares = λ q n. r.spares q (ground arith) ∙ ground arith;
      }

-- The node between `ys` and `zs` is taken out.
pub unlink-ok :
    (p item : ℕ) (h : Heap) (ys zs : Cells)
    → Linked h 0 0 (ys ++ ((p, item) ∷ zs))
    → Reaches
        (λ s. s)
        h
        (ys ++ zs)
        (ys ++ zs)
        (unlink (node item (last_of 0 ys) (first_of zs 0)) (listed (ys ++ ((p, item) ∷ zs)) h))
unfolding unlink
unlink-ok p item h ys zs chain =
    let apart : (q : ℕ) → has q ys ≡ true → has q zs ≡ false =
      λ q i. ground (arith, parts_apart ys ((p, item) ∷ zs) chain q) in
    let apart_rev : (q : ℕ) → has q zs ≡ true → has q ys ≡ false = λ q i. ground (arith, apart q) in
    let after = right_part (ys ++ ((p, item) ∷ [])) zs (rw append_assoc chain) in
    let before = left_part ys ((p, item) ∷ zs) chain in
    let l = relink_next h p (first_of zs 0) ys before in
    let after_l = frame after (λ q i. l.spares q (apart_rev q i)) in
    let r = relink_prev l.heap (last_of 0 (ys ++ ((p, item) ∷ []))) (last_of 0 ys) zs after_l in
    let before_r = frame l.chain (λ q i. r.spares q (apart q i)) in
    record {
      heap = r.heap;
      runs = rw (
        l.runs,
        r.runs,
        first_of-append ys ((p, item) ∷ zs) 0,
        last_of-append 0 ys ((p, item) ∷ zs),
        first_of-append ys zs 0,
        last_of-append 0 ys zs,
        first_guard after (last_of 0 ys) p,
        last_guard before (first_of zs 0) p,
      );
      chain = join before_r r.chain apart;
      spares = λ q n.
          r.spares q (ground (arith, has-append q ys zs))
          ∙ l.spares q (ground (arith, has-append q ys zs));
    }

-- The first node is popped, and its page freed.
pub list_pop_front-ok :
    (p item : ℕ) (h : Heap) (xs : Cells)
    → Linked h 0 0 ((p, item) ∷ xs)
    → Pops p item h ((p, item) ∷ xs) xs (list_pop_front (listed ((p, item) ∷ xs) h))
unfolding list_pop_front
list_pop_front-ok p item h xs (cons ne e out s) =
    let r = relink_prev (write h p none) p 0 xs (frame-write p none s out) in
    record {
      reaches = record {
        heap = r.heap;
        runs = rw (load-ok p h (node item 0 (first_of xs 0)) ne e, r.runs, first_guard s 0 p);
        chain = r.chain;
        spares = λ q o. r.spares q (ground arith) ∙ ground arith;
      };
      frees = r.spares p out ∙ rw (==-refl p);
    }

pub node_at :
    {h : Heap} {b : ℕ} (p item : ℕ) (zs : Cells)
    → Linked h 0 b ((p, item) ∷ zs)
    → ((p == 0) ≡ false) × (h p ≡ some (node item b (first_of zs 0)))
node_at p item zs (cons ne e out s) = (ne, e)

-- The last node is popped, and its page freed.
pub list_pop_back-ok :
    (p item : ℕ) (h : Heap) (ys : Cells)
    → Linked h 0 0 (ys ++ ((p, item) ∷ []))
    → Pops p item h (ys ++ ((p, item) ∷ [])) ys (list_pop_back (listed (ys ++ ((p, item) ∷ [])) h))
unfolding list_pop_back
list_pop_back-ok p item h ys chain =
    let out : has p ys ≡ false =
      ground (arith, parts_apart ys ((p, item) ∷ []) chain p, ==-refl p) in
    let at = node_at p item [] (right_part ys ((p, item) ∷ []) chain) in
    let before = left_part ys ((p, item) ∷ []) chain in
    let r = relink_next (write h p none) p 0 ys (frame-write p none before out) in
    record {
      reaches = record {
        heap = r.heap;
        runs = rw (
          last_of-append 0 ys ((p, item) ∷ []),
          first_of-append ys ((p, item) ∷ []) 0,
          load-ok p h (node item (last_of 0 ys) 0) at.0 at.1,
          r.runs,
          last_guard before 0 p,
        );
        chain = r.chain;
        spares = λ q o.
            r.spares q (ground (arith, has-append q ys ((p, item) ∷ [])))
            ∙ ground (arith, has-append q ys ((p, item) ∷ []));
      };
      frees = r.spares p out ∙ rw (==-refl p);
    }
