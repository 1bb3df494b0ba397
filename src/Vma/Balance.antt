-- ===== src/Vma/Balance.antt =====
-- The AVL condition, and that `rebalance` restores it (src/kernel/mm/vma.c).
use cosmo_rt.Common.{
  ℕ, ◌+◌, ◌≤◌, ◌<◌, ◌≡◌, ◌⊎◌, max, arith, ltb, ltb→lt, ltb→ge, Bool-cases, inl, inr, if◌then◌else◌,
}
use cosmo_rt.Vma.{
  Area, Tree, leaf, node, height, taller, update_height, rotate_left, rotate_right, rebalance,
  leans_left, leans_right,
}

-- Every stored height is the height, and the heights of two siblings differ by at most one.
abbrev pub IsAvl : Tree → Type 0
IsAvl leaf = Unit
IsAvl (node a v h l r) =
    IsAvl l
    × IsAvl r
    × (h ≡ max (height l) (height r) + 1)
    × (height l ≤ height r + 1)
    × (height r ≤ height l + 1)

-- A rebalanced node over subtrees of height at most `m` is an AVL tree of height `m` or `m + 1`,
-- the latter where it does not rotate.
abbrev pub Restored : Tree → Tree → Tree → Type 0
Restored l r t =
    IsAvl t
    × (height t ≤ max (height l) (height r) + 1)
    × (max (height l) (height r) ≤ height t)
    × ((height t ≡ max (height l) (height r) + 1)
        ⊎ (height l ≡ height r + 2)
        ⊎ (height r ≡ height l + 2))

taller-eq-max : (l r : Tree) → taller l r ≡ max (height l) (height r)
unfolding taller
taller-eq-max l r = ground arith

abbrev Rotated : ℕ → Tree → Type 0
Rotated m t = IsAvl t × (height t ≤ m + 1) × (m ≤ height t)

-- `rebalance` at a node whose left subtree is two levels higher.
left_heavy :
    (a : ℕ) (v : Area) (h : ℕ) (l r : Tree)
    → IsAvl l
    → IsAvl r
    → height l ≡ height r + 2
    → Rotated
        (height l)
        (rotate_right (update_height (node a v h (if leans_right l then rotate_left l else l) r)))
unfolding rotate_left rotate_right
left_heavy a v h leaf r p q e = absurd (omega arith)
left_heavy a v h (node b w g ll leaf) r p q e = elim (Bool-cases (ltb (height ll) 0)) [
  | inl f ↦ absurd (omega (arith, ltb→lt _ _ f))
  | inr f ↦
      rw f (
        ground
          (arith, taller-eq-max leaf r, taller-eq-max ll (node a v (taller leaf r + 1) leaf r)))
]
left_heavy a v h (node b w g ll (node c x k s t)) r p q e = elim (Bool-cases (ltb (height ll) k)) [
  | inl f ↦
      let deep : height ll < k = ltb→lt _ _ f in
      rw f (
        ground (
          arith,
          taller-eq-max ll s,
          taller-eq-max t r,
          taller-eq-max (node b w (taller ll s + 1) ll s) (node a v (taller t r + 1) t r),
        ))
  | inr f ↦
      let shallow : k ≤ height ll = ltb→ge _ _ f in
      rw f (
        ground (
          arith,
          taller-eq-max (node c x k s t) r,
          taller-eq-max ll (node a v (taller (node c x k s t) r + 1) (node c x k s t) r),
        ))
]

-- `rebalance` at a node whose right subtree is two levels higher.
right_heavy :
    (a : ℕ) (v : Area) (h : ℕ) (l r : Tree)
    → IsAvl l
    → IsAvl r
    → height r ≡ height l + 2
    → Rotated
        (height r)
        (rotate_left (update_height (node a v h l (if leans_left r then rotate_right r else r))))
unfolding rotate_left rotate_right
right_heavy a v h l leaf p q e = absurd (omega arith)
right_heavy a v h l (node b w g leaf rr) p q e = elim (Bool-cases (ltb (height rr) 0)) [
  | inl f ↦ absurd (omega (arith, ltb→lt _ _ f))
  | inr f ↦
      rw f (
        ground
          (arith, taller-eq-max l leaf, taller-eq-max (node a v (taller l leaf + 1) l leaf) rr))
]
right_heavy a v h l (node b w g (node c x k s t) rr) p q e = elim (Bool-cases (ltb (height rr) k)) [
  | inl f ↦
      let deep : height rr < k = ltb→lt _ _ f in
      rw f (
        ground (
          arith,
          taller-eq-max l s,
          taller-eq-max t rr,
          taller-eq-max (node a v (taller l s + 1) l s) (node b w (taller t rr + 1) t rr),
        ))
  | inr f ↦
      let shallow : k ≤ height rr = ltb→ge _ _ f in
      rw f (
        ground (
          arith,
          taller-eq-max l (node c x k s t),
          taller-eq-max (node a v (taller l (node c x k s t) + 1) l (node c x k s t)) rr,
        ))
]

pub rebalance-Restored :
    (a : ℕ) (v : Area) (h : ℕ) (l r : Tree)
    → IsAvl l
    → IsAvl r
    → height l ≤ height r + 2
    → height r ≤ height l + 2
    → Restored l r (rebalance (node a v h l r))
unfolding rebalance
rebalance-Restored a v h l r p q m n = elim (Bool-cases (ltb (height r + 1) (height l))) [
  | inl u ↦
      let far : height r + 1 < height l = ltb→lt _ _ u in
      let t = left_heavy a v h l r p q (omega arith) in
      rw u (t.0, omega arith, omega arith, omega arith)
  | inr u ↦ elim (Bool-cases (ltb (height l + 1) (height r))) [
    | inl w ↦
        let far : height l + 1 < height r = ltb→lt _ _ w in
        let t = right_heavy a v h l r p q (omega arith) in
        rw (u, w) (t.0, omega arith, omega arith, omega arith)
    | inr w ↦
        let near_left : height l ≤ height r + 1 = ltb→ge _ _ u in
        let near_right : height r ≤ height l + 1 = ltb→ge _ _ w in
        rw (u, w) (ground (arith, taller-eq-max l r))
  ]
]
