-- ===== src/Lists/Chain.antt =====
-- What the nodes of src/kernel/lib/list.c stand for: chains of cells, linked both ways.
use mathlib.Core.Bool.{or_assoc}
use unnamed_os.Base.{
  ℕ, ◌≡◌, refl, ◌∙◌, sym, Bool, true, false, ◌||◌, Option, none, some, List, [], ◌∷◌, ◌++◌, arith,
  ◌==◌, ==-refl,
}
use unnamed_os.Lists.{Node, node, Heap, write}

-- address and item of each node, in order
abbrev pub Cells : Type 0
Cells = List (ℕ × ℕ)

abbrev pub has : ℕ → Cells → Bool
has q [] = false
has q ((p, _) ∷ xs) = (q == p) || has q xs

-- the items alone: the sequence the list stands for
abbrev pub items : Cells → List ℕ
items [] = []
items ((_, item) ∷ xs) = item ∷ items xs

-- the address a chain starts at when `after` follows it, and the one it ends at after `before`
abbrev pub first_of : Cells → ℕ → ℕ
first_of [] after = after
first_of ((p, _) ∷ xs) after = p

abbrev pub last_of : ℕ → Cells → ℕ
last_of before [] = before
last_of before ((p, _) ∷ xs) = last_of p xs

-- The nodes of `xs` stand in the heap at distinct addresses, none of them null, each linked to
-- its neighbours, the outer ones to `before` and `after`.
pub data Linked (h : Heap) (after : ℕ) : ℕ → Cells → Type 0 where
  nil : {before : ℕ} → Linked h after before []
  cons :
      {before p item : ℕ} {xs : Cells}
      → (p == 0) ≡ false
      → h p ≡ some (node item before (first_of xs after))
      → has p xs ≡ false
      → Linked h after p xs
      → Linked h after before ((p, item) ∷ xs)

pub has-append : (q : ℕ) (xs ys : Cells) → has q (xs ++ ys) ≡ (has q xs || has q ys)
has-append q [] ys = refl
has-append q (x ∷ xs) ys = rw (has-append q xs ys, or_assoc)

pub first_of-append :
    (xs ys : Cells) (after : ℕ) → first_of (xs ++ ys) after ≡ first_of xs (first_of ys after)
first_of-append [] ys after = refl
first_of-append (x ∷ xs) ys after = refl

pub last_of-append : (b : ℕ) (xs ys : Cells) → last_of b (xs ++ ys) ≡ last_of (last_of b xs) ys
last_of-append b [] ys = refl
last_of-append b ((p, _) ∷ xs) ys = last_of-append p xs ys

pub items-append : (xs ys : Cells) → items (xs ++ ys) ≡ items xs ++ items ys
items-append [] ys = refl
items-append ((_, item) ∷ xs) ys = rw (items-append xs ys)

module _ {h : Heap} {after : ℕ} where
  -- a chain survives any change that spares its addresses
  pub frame :
      {g : Heap} {b : ℕ} {xs : Cells}
      → Linked h after b xs
      → ((q : ℕ) → has q xs ≡ true → g q ≡ h q)
      → Linked g after b xs
  frame nil same = nil
  frame (cons {p = p} ne e out s) same =
      cons ne (same p (rw (==-refl p)) ∙ e) out (frame s λ q i. same q (ground arith))

  pub frame-write :
      {b : ℕ} {xs : Cells} (p : ℕ) (c : Option Node)
      → Linked h after b xs
      → has p xs ≡ false
      → Linked (write h p c) after b xs
  frame-write p c s out = frame s (ground arith)

  pub not-has_of_none :
      {b : ℕ} {xs : Cells} (q : ℕ) → Linked h after b xs → h q ≡ none → has q xs ≡ false
  not-has_of_none q nil unused = refl
  not-has_of_none q (cons ne e out s) unused = ground (arith, not-has_of_none q s unused)

  pub not_null : {b : ℕ} {xs : Cells} → Linked h after b xs → has 0 xs ≡ false
  not_null nil = refl
  not_null (cons ne e out s) = ground (arith, not_null s)

  pub join :
      {ys : Cells} {b : ℕ} {xs : Cells}
      → Linked h (first_of ys after) b xs
      → Linked h after (last_of b xs) ys
      → ((q : ℕ) → has q xs ≡ true → has q ys ≡ false)
      → Linked h after b (xs ++ ys)
  join nil t apart = t
  join {ys = ys} (cons {p = p} {xs = xs} ne e out s) t apart =
      cons ne (rw (first_of-append xs ys after) e)
        (rw (has-append p xs ys, out) (apart p (rw (==-refl p))))
        (join s t λ q i. apart q (ground arith))

  pub left_part :
      {b : ℕ} (xs ys : Cells) → Linked h after b (xs ++ ys) → Linked h (first_of ys after) b xs
  left_part [] ys s = nil
  left_part ((p, _) ∷ xs) ys (cons ne e out s) =
      cons ne (rw (sym (first_of-append xs ys after)) e) (ground (arith, has-append p xs ys))
        (left_part xs ys s)

  pub right_part :
      {b : ℕ} (xs ys : Cells) → Linked h after b (xs ++ ys) → Linked h after (last_of b xs) ys
  right_part [] ys s = s
  right_part ((p, _) ∷ xs) ys (cons ne e out s) = right_part xs ys s

  pub parts_apart :
      {b : ℕ} (xs ys : Cells)
      → Linked h after b (xs ++ ys)
      → (q : ℕ) → has q xs ≡ true
      → has q ys ≡ false
  parts_apart ((p, _) ∷ xs) ys (cons ne e out s) q i =
      ground (arith, has-append p xs ys, parts_apart xs ys s q)
  parts_apart [] ys s q i = absurd (ground arith)
