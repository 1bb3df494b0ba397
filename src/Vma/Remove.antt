-- ===== src/Vma/Remove.antt =====
-- Removal from the tree (`remove_node`, `vma_remove` in src/kernel/mm/vma.c) against removal from
-- the list of areas, and the balance of what is left.
use cosmo_rt.Common.{ℕ, ◌+◌, ◌≤◌, Option, arith, ltb, Bool-cases, inl, inr, ◌==◌}
use cosmo_rt.Vma.{
  Area, Tree, leaf, node, height, min_node, remove_left, remove_right, replace, remove_here,
  remove_node,
}
use cosmo_rt.Vma.Balance.{IsAvl, rebalance-Restored}

-- What a removal does to the height.
abbrev Shrunk : Tree → Tree → Type 0
Shrunk t u = IsAvl u × (height u ≤ height t) × (height t ≤ height u + 1)

module _ (b : ℕ) (v : Area) (h : ℕ) (l r : Tree) (p : IsAvl (node b v h l r)) where
  left-Shrunk :
      (q : Tree × Option ℕ) → Shrunk l q.0 → Shrunk (node b v h l r) (remove_left b v h r q).0
  unfolding remove_left
  left-Shrunk (l', freed) s =
      let w = rebalance-Restored b v h l' r s.0 p.1 (omega arith) (omega arith) in
      (w.0, omega arith, omega arith)

  right-Shrunk :
      (q : Tree × Option ℕ) → Shrunk r q.0 → Shrunk (node b v h l r) (remove_right b v h l q).0
  unfolding remove_right
  right-Shrunk (r', freed) s =
      let w = rebalance-Restored b v h l r' p.0 s.0 (omega arith) (omega arith) in
      (w.0, omega arith, omega arith)

  replace-Shrunk :
      (d : ℕ) (x : Area) (q : Tree × Option ℕ)
      → Shrunk r q.0
      → Shrunk (node b v h l r) (replace b x h l d q).0
  unfolding replace
  replace-Shrunk d x (r', freed) s =
      let w = rebalance-Restored b x h l r' p.0 s.0 (omega arith) (omega arith) in
      (w.0, omega arith, omega arith)

here-Shrunk :
    (b : ℕ) (v : Area) (h : ℕ) (l r : Tree) (k : ℕ → Area → Tree × Option ℕ)
    → IsAvl (node b v h l r)
    → ((d : ℕ) (x : Area) → Shrunk (node b v h l r) (k d x).0)
    → Shrunk (node b v h l r) (remove_here b l r k).0
unfolding remove_here
here-Shrunk b v h leaf r k p s = (p.1, omega arith, omega arith)
here-Shrunk b v h (node c w g ll lr) leaf k p s = (p.0, omega arith, omega arith)
here-Shrunk b v h (node c w g ll lr) (node e y i rl rr) k p s =
    s (min_node e y rl).0 (min_node e y rl).1

-- The tree after a removal is an AVL tree, of the same height or one less.
pub remove_node-IsAvl :
    (t : Tree) (a s : ℕ)
    → IsAvl t
    → IsAvl (remove_node t a s).0
      × (height (remove_node t a s).0 ≤ height t)
      × (height t ≤ height (remove_node t a s).0 + 1)
unfolding remove_node
remove_node-IsAvl leaf a s p = omega arith
remove_node-IsAvl (node b v h l r) a s p = elim (Bool-cases (ltb s v.start)) [
  | inl e ↦ rw e (left-Shrunk b v h l r p (remove_node l a s) (remove_node-IsAvl l a s p.0))
  | inr e ↦ elim (Bool-cases (ltb v.start s)) [
    | inl f ↦ rw (e, f) (right-Shrunk b v h l r p (remove_node r a s) (remove_node-IsAvl r a s p.1))
    | inr f ↦ elim (Bool-cases (b == a)) [
      | inl g ↦
          rw (e, f, g)
            (here-Shrunk b v h l r (λ d x. replace b x h l d (remove_node r d x.start)) p
              (λ d x.
                replace-Shrunk b v h l r p d x (remove_node r d x.start)
                  (remove_node-IsAvl r d x.start p.1)))
      | inr g ↦
          rw (e, f, g) (right-Shrunk b v h l r p (remove_node r a s) (remove_node-IsAvl r a s p.1))
    ]
  ]
]
