-- ===== src/Vma/Insert.antt =====
-- Insertion into the tree (`insert_node`, `vma_insert` in src/kernel/mm/vma.c) is insertion into
-- the sorted list of areas, and keeps the tree balanced.
use cosmo_rt.Common.{
  ℕ, ◌+◌, ◌≤◌, ◌<◌, ◌≡◌, refl, sym, ap, true, false, List, [], ◌∷◌, ◌++◌, arith, ltb, ltb→lt,
  ltb→ge, Bool-cases, inl, inr,
}
use cosmo_rt.Vma.{Area, Tree, leaf, node, height, insert_node}
use cosmo_rt.Vma.Spec
use cosmo_rt.Vma.Spec.{in_order, areas, addrs, Chain}
use cosmo_rt.Vma.Order.{in_order-rebalance}
use cosmo_rt.Vma.Balance.{IsAvl, rebalance-Restored}

-- A chain splits at each of its areas, and two chains that meet there join.
pub Chain-split :
    (lo hi : ℕ) (xs : List Area) (v : Area) (ys : List Area)
    → Chain lo hi (xs ++ v ∷ ys)
    → Chain lo v.start xs × (v.start < v.end) × Chain v.end hi ys
Chain-split lo hi [] v ys h = h
Chain-split lo hi (x ∷ xs) v ys h =
    let rest = Chain-split x.end hi xs v ys h.2 in ((h.0, h.1, rest.0), rest.1, rest.2)

pub Chain-join :
    (lo hi : ℕ) (xs : List Area) (v : Area) (ys : List Area)
    → Chain lo v.start xs
    → v.start < v.end
    → Chain v.end hi ys
    → Chain lo hi (xs ++ v ∷ ys)
Chain-join lo hi [] v ys p q r = (p, q, r)
Chain-join lo hi (x ∷ xs) v ys p q r = (p.0, p.1, Chain-join x.end hi xs v ys p.2 q r)

pub Chain-le : (lo hi : ℕ) (xs : List Area) → Chain lo hi xs → lo ≤ hi
Chain-le lo hi [] h = h
Chain-le lo hi (x ∷ xs) h = omega (arith, Chain-le x.end hi xs h.2)

insert_before :
    (x : Area) (xs : List Area) (v : Area) (ys : List Area)
    → ltb x.start v.start ≡ true
    → Spec.insert x (xs ++ v ∷ ys) ≡ Spec.insert x xs ++ v ∷ ys
unfolding Spec.insert
insert_before x [] v ys e = rw e
insert_before x (u ∷ xs) v ys e = elim (Bool-cases (ltb x.start u.start)) [
  | inl f ↦ rw f
  | inr f ↦ rw f (ap (λ zs. u ∷ zs) (insert_before x xs v ys e))
]

insert_after :
    (lo : ℕ) (x : Area) (xs : List Area) (v : Area) (ys : List Area)
    → Chain lo v.start xs
    → ltb x.start v.start ≡ false
    → Spec.insert x (xs ++ v ∷ ys) ≡ xs ++ v ∷ Spec.insert x ys
unfolding Spec.insert
insert_after lo x [] v ys c e = rw e
insert_after lo x (u ∷ xs) v ys c e = elim (Bool-cases (ltb x.start u.start)) [
  | inl f ↦ absurd (
      omega
        (arith, ltb→lt x.start u.start f, ltb→ge x.start v.start e, Chain-le u.end v.start xs c.2))
  | inr f ↦ rw f (ap (λ zs. u ∷ zs) (insert_after u.end x xs v ys c.2 e))
]

-- On a tree whose areas follow one another without overlap, the areas after `insert_node` are those
-- before with the new one put in by its start address.
pub areas-insert_node :
    (lo hi : ℕ) (t : Tree) (a : ℕ) (x : Area)
    → Chain lo hi (areas t)
    → areas (insert_node t a x) ≡ Spec.insert x (areas t)
unfolding insert_node Spec.insert
areas-insert_node lo hi leaf a x c = refl
areas-insert_node lo hi (node b v h l r) a x c =
    let parts = Chain-split lo hi (areas l) v (areas r) c in
    elim (Bool-cases (ltb x.start v.start)) [
      | inl e ↦
          rw (e, insert_node, in_order-rebalance, areas-insert_node lo v.start l a x parts.0)
            (sym (insert_before x (areas l) v (areas r) e))
      | inr e ↦
          rw (e, insert_node, in_order-rebalance, areas-insert_node v.end hi r a x parts.2)
            (sym (insert_after lo x (areas l) v (areas r) parts.0 e))
    ]

-- The tree after an insertion is an AVL tree, at most one level higher.
pub insert_node-IsAvl :
    (t : Tree) (a : ℕ) (x : Area)
    → IsAvl t
    → IsAvl (insert_node t a x)
      × (height t ≤ height (insert_node t a x))
      × (height (insert_node t a x) ≤ height t + 1)
unfolding insert_node
insert_node-IsAvl leaf a x p = omega arith
insert_node-IsAvl (node b v h l r) a x p = elim (Bool-cases (ltb x.start v.start)) [
  | inl e ↦
      let ih = insert_node-IsAvl l a x p.0 in
      let q = rebalance-Restored b v h (insert_node l a x) r ih.0 p.1 (omega arith) (omega arith) in
      rw e (q.0, omega arith, omega arith)
  | inr e ↦
      let ih = insert_node-IsAvl r a x p.1 in
      let q = rebalance-Restored b v h l (insert_node r a x) p.0 ih.0 (omega arith) (omega arith) in
      rw e (q.0, omega arith, omega arith)
]
