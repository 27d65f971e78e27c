-- ===== src/Lists/Ends.antt =====
-- What `list->tail->prev->next = …` and its mirror image do to a chain: the outer link of a chain
-- is set and nothing else changes (src/kernel/lib/list.c).
use unnamed_os.Base.{
  ℕ, ◌≡◌, ◌≢◌, refl, ◌∙◌, true, false, some, [], ◌∷◌, arith, ◌==◌, if◌then◌else◌, ==-false, ==-refl,
  Outcome, ok,
}
use unnamed_os.Lists.{
  Node, node, Heap, write, load, stored, set_next, set_prev, link_next, link_prev,
}
use unnamed_os.Lists.Chain.{Cells, has, first_of, last_of, Linked, nil, cons, frame-write, not_null}

pub load-ok : (p : ℕ) (h : Heap) (n : Node) → (p == 0) ≡ false → h p ≡ some n → load p h ≡ ok n
unfolding load stored
load-ok p h n ne e = rw (ne, e)

-- The run `r` from the heap `h` turned the chain `xs` into one between `b` and `a` and left the
-- rest of the heap alone.
pub record Relinked (h : Heap) (b a : ℕ) (xs : Cells) (r : Outcome Heap) : Type 0 where
  pub heap : Heap
  pub runs : r ≡ ok heap
  pub chain : Linked heap a b xs
  pub spares : (q : ℕ) → has q xs ≡ false → heap q ≡ h q

last_of-has : (b p item : ℕ) (xs : Cells) → has (last_of b ((p, item) ∷ xs)) ((p, item) ∷ xs) ≡ true
last_of-has b p item [] = rw (==-refl p)
last_of-has b p item ((q, i) ∷ xs) = ground (arith, last_of-has p q i xs)

module _ (h : Heap) where
  set_last :
      (a b a' p item : ℕ) (xs : Cells)
      → Linked h a b ((p, item) ∷ xs)
      → Relinked h b a' ((p, item) ∷ xs) (set_next (last_of p xs) a' h)
  unfolding set_next
  set_last a b a' p item [] (cons ne e out s) = record {
    heap = write h p (some (node item b a'));
    runs = rw (load-ok p h (node item b a) ne e);
    chain = cons ne (rw (==-refl p)) refl nil;
    spares = λ q i. ground arith;
  }
  set_last a b a' p item ((q, i) ∷ xs) (cons ne e out s) =
      let rest = set_last a p a' q i xs s in
      record {
        heap = rest.heap;
        runs = rest.runs;
        chain = cons ne (rest.spares p out ∙ e) out rest.chain;
        spares = λ r j. rest.spares r (ground arith);
      }

  last_of-ne :
      {b : ℕ} (a p item : ℕ) (xs : Cells) → Linked h a b ((p, item) ∷ xs) → last_of p xs ≢ 0
  last_of-ne a p item xs s e = absurd (ground (arith, not_null s, last_of-has 0 p item xs))

  pub relink_next :
      (a a' : ℕ) (xs : Cells) → Linked h a 0 xs → Relinked h 0 a' xs (link_next (last_of 0 xs) a' h)
  unfolding link_next
  relink_next a a' [] s = record { heap = h; runs = refl; chain = nil; spares = λ q i. refl }
  relink_next a a' ((p, item) ∷ xs) s =
      let rest = set_last a 0 a' p item xs s in
      record {
        heap = rest.heap;
        runs = rw (==-false (last_of p xs) 0 (last_of-ne a p item xs s)) rest.runs;
        chain = rest.chain;
        spares = rest.spares;
      }

  pub relink_prev :
      (b b' : ℕ) (xs : Cells)
      → Linked h 0 b xs
      → Relinked h b' 0 xs (link_prev (first_of xs 0) b' h)
  unfolding link_prev set_prev
  relink_prev b b' [] s = record { heap = h; runs = refl; chain = nil; spares = λ q i. refl }
  relink_prev b b' ((p, item) ∷ xs) (cons ne e out s) = record {
    heap = write h p (some (node item b' (first_of xs 0)));
    runs = rw (ne, load-ok p h (node item b (first_of xs 0)) ne e);
    chain = cons ne (rw (==-refl p)) out (frame-write p _ s out);
    spares = λ q i. ground arith;
  }

-- What the guards on the ends of a list decide: whether the chain is empty.
module _ {h : Heap} {a b : ℕ} {xs : Cells} (chain : Linked h a b xs) where
  pub first_guard : (c d : ℕ) → (if first_of xs 0 == 0 then c else last_of d xs) ≡ last_of c xs
  first_guard c d = first_guard_lem chain
    where
      first_guard_lem :
          {b : ℕ} {xs : Cells}
          → Linked h a b xs
          → (if first_of xs 0 == 0 then c else last_of d xs) ≡ last_of c xs
      first_guard_lem nil = refl
      first_guard_lem (cons ne e out s) = rw ne

  pub first_default : (c : ℕ) → (if first_of xs 0 == 0 then c else first_of xs 0) ≡ first_of xs c
  first_default c = first_default_lem chain
    where
      first_default_lem :
          {b : ℕ} {xs : Cells}
          → Linked h a b xs
          → (if first_of xs 0 == 0 then c else first_of xs 0) ≡ first_of xs c
      first_default_lem nil = refl
      first_default_lem (cons ne e out s) = rw ne

  pub last_guard : (c d : ℕ) → (if last_of 0 xs == 0 then c else first_of xs d) ≡ first_of xs c
  last_guard c d = last_guard_lem xs chain
    where
      last_guard_lem :
          (xs : Cells)
          → Linked h a b xs
          → (if last_of 0 xs == 0 then c else first_of xs d) ≡ first_of xs c
      last_guard_lem [] s = refl
      last_guard_lem ((p, i) ∷ xs) s = rw (==-false (last_of p xs) 0 (last_of-ne h a p i xs s))

  pub last_default : (c : ℕ) → (if last_of 0 xs == 0 then c else last_of 0 xs) ≡ last_of c xs
  last_default c = last_default_lem xs chain
    where
      last_default_lem :
          (xs : Cells)
          → Linked h a b xs
          → (if last_of 0 xs == 0 then c else last_of 0 xs) ≡ last_of c xs
      last_default_lem [] s = refl
      last_default_lem ((p, i) ∷ xs) s = rw (==-false (last_of p xs) 0 (last_of-ne h a p i xs s))
