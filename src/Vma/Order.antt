-- ===== src/Vma/Order.antt =====
-- Rotations keep the order of the areas, and a chain splits at each of its areas
-- (src/kernel/mm/vma.c).
use cosmo_rt.Common.{
  ℕ, ◌+◌, ◌≡◌, refl, sym, ap, ◌∷◌, ◌++◌, append_assoc, ltb, Bool-cases, inl, inr, if◌then◌else◌,
}
use cosmo_rt.Vma.{
  Area, Tree, leaf, node, height, rotate_left, rotate_right, rebalance, leans_left, leans_right,
}
use cosmo_rt.Vma.Spec.{in_order}

-- `f` reads a node; the statements are used at its area and at its address.
module _ {A : Type 0} (f : ℕ → Area → A) where
  in_order-rotate_right : (t : Tree) → in_order f (rotate_right t) ≡ in_order f t
  unfolding rotate_right
  in_order-rotate_right leaf = refl
  in_order-rotate_right (node a v h leaf r) = refl
  in_order-rotate_right (node a v h (node b w g ll lr) r) =
      sym (append_assoc (in_order f ll) (f b w ∷ in_order f lr) (f a v ∷ in_order f r))

  in_order-rotate_left : (t : Tree) → in_order f (rotate_left t) ≡ in_order f t
  unfolding rotate_left
  in_order-rotate_left leaf = refl
  in_order-rotate_left (node a v h l leaf) = refl
  in_order-rotate_left (node a v h l (node b w g rl rr)) =
      append_assoc (in_order f l) (f a v ∷ in_order f rl) (f b w ∷ in_order f rr)

  in_order_lean_left :
      (l : Tree) → in_order f (if leans_right l then rotate_left l else l) ≡ in_order f l
  in_order_lean_left l = elim (Bool-cases (leans_right l)) [
    | inl e ↦ rw e (in_order-rotate_left l)
    | inr e ↦ rw e
  ]

  in_order_lean_right :
      (r : Tree) → in_order f (if leans_left r then rotate_right r else r) ≡ in_order f r
  in_order_lean_right r = elim (Bool-cases (leans_left r)) [
    | inl e ↦ rw e (in_order-rotate_right r)
    | inr e ↦ rw e
  ]

  -- Rebalancing a node keeps its nodes and their order.
  pub in_order-rebalance : (t : Tree) → in_order f (rebalance t) ≡ in_order f t
  unfolding rebalance
  in_order-rebalance leaf = refl
  in_order-rebalance (node a v h l r) = elim (Bool-cases (ltb (height r + 1) (height l))) [
    | inl e ↦
        rw (e, in_order-rotate_right) (ap (λ xs. xs ++ f a v ∷ in_order f r) (in_order_lean_left l))
    | inr e ↦ elim (Bool-cases (ltb (height l + 1) (height r))) [
      | inl g ↦
          rw (e, g, in_order-rotate_left)
            (ap (λ xs. in_order f l ++ f a v ∷ xs) (in_order_lean_right r))
      | inr g ↦ rw (e, g)
    ]
  ]
