-- ===== src/Vma/Free.antt =====
-- The areas that a removal leaves (`remove_node` in src/kernel/mm/vma.c).
use mathlib.Core.Path.{subst}
use cosmo_rt.Common.{
  ℕ, ◌≡◌, refl, sym, ◌∙◌, ap, true, false, Option, ◌∷◌, ◌++◌, arith, ltb, inl, inr, ◌==◌,
  append-nil,
}
use cosmo_rt.Vma.{
  Area, Tree, leaf, node, min_node, remove_left, remove_right, replace, remove_here, remove_node,
}
use cosmo_rt.Vma.Spec
use cosmo_rt.Vma.Spec.{in_order, areas, addrs, Chain, Has}
use cosmo_rt.Vma.Order.{in_order-rebalance}
use cosmo_rt.Vma.Insert.{Chain-split}
use cosmo_rt.Vma.Unlink.{
  Linked, Linked-bounds, remove_at, remove_before, remove_after, min-Linked, min_removed,
}

-- The data of the removed node, or of its successor where it has two children, leave the tree.
module _ {A : Type 0} (f : ℕ → Area → A) where
  pub in_order-left :
      (b : ℕ) (v : Area) (h : ℕ) (r : Tree) (q : Tree × Option ℕ)
      → in_order f (remove_left b v h r q).0 ≡ in_order f q.0 ++ f b v ∷ in_order f r
  unfolding remove_left
  in_order-left b v h r (l, freed) = in_order-rebalance f (node b v h l r)

  pub in_order-right :
      (b : ℕ) (v : Area) (h : ℕ) (l : Tree) (q : Tree × Option ℕ)
      → in_order f (remove_right b v h l q).0 ≡ in_order f l ++ f b v ∷ in_order f q.0
  unfolding remove_right
  in_order-right b v h l (r, freed) = in_order-rebalance f (node b v h l r)

  pub in_order-replace :
      (b : ℕ) (x : Area) (h : ℕ) (l : Tree) (d : ℕ) (q : Tree × Option ℕ)
      → in_order f (replace b x h l d q).0 ≡ in_order f l ++ f b x ∷ in_order f q.0
  unfolding replace
  in_order-replace b x h l d (r, freed) = in_order-rebalance f (node b x h l r)

here_areas :
    (lo hi b : ℕ) (v : Area) (h : ℕ) (l r : Tree)
    → Chain lo hi (areas (node b v h l r))
    → ((d s : ℕ) → Linked d s r → areas (remove_node r d s).0 ≡ Spec.remove s (areas r))
    → areas (remove_here b l r (λ d x. replace b x h l d (remove_node r d x.start))).0
      ≡ areas l ++ areas r
unfolding remove_here
here_areas lo hi b v h leaf r c ih = refl
here_areas lo hi b v h (node e w g ll lr) leaf c ih = sym (append-nil (areas (node e w g ll lr)))
here_areas lo hi b v h (node e w g ll lr) (node k y i rl rr) c ih =
    let l = node e w g ll lr in
    let r = node k y i rl rr in
    let d = (min_node k y rl).0 in
    let x = (min_node k y rl).1 in
    let parts = Chain-split lo hi (areas l) v (areas r) c in
    in_order-replace (λ a u. u) b x h l d (remove_node r d x.start)
    ∙ ap (λ zs. areas l ++ x ∷ zs) (ih d x.start (min-Linked k y i rl rr))
    ∙ ap (λ zs. areas l ++ zs) (min_removed v.end hi k y i rl rr parts.2)

-- On a tree whose areas follow one another without overlap, the areas after the removal of a linked
-- node are those before without the one at its start address, in the same order.
pub areas-remove_node :
    (lo hi : ℕ) (t : Tree) (a s : ℕ)
    → Chain lo hi (areas t)
    → Linked a s t
    → areas (remove_node t a s).0 ≡ Spec.remove s (areas t)
unfolding remove_node
areas-remove_node lo hi leaf a s c p = elim p [ ]
areas-remove_node lo hi (node b v h l r) a s c p =
    let parts = Chain-split lo hi (areas l) v (areas r) c in
    elim p [
      | inl q ↦
          let w = Linked-bounds lo v.start a s l parts.0 q in
          let e : ltb s v.start ≡ true = ground arith in
          rw (e, in_order-left, remove_before lo hi s (areas l) v (areas r) c w.1)
            (ap (λ zs. zs ++ v ∷ areas r) (areas-remove_node lo v.start l a s parts.0 q))
      | inr (inl q) ↦
          let e : ltb s v.start ≡ false = ground arith in
          let g : ltb v.start s ≡ false = ground arith in
          let k : (b == a) ≡ true = ground arith in
          rw (e, g, k)
            (here_areas lo hi b v h l r c (λ d u m. areas-remove_node v.end hi r d u parts.2 m)
              ∙ sym (
                  subst (λ z. Spec.remove z (areas l ++ v ∷ areas r) ≡ areas l ++ areas r) q.1
                    (remove_at lo hi (areas l) v (areas r) c)))
      | inr (inr q) ↦
          let w = Linked-bounds v.end hi a s r parts.2 q in
          let e : ltb s v.start ≡ false = ground (arith, parts.1) in
          let g : ltb v.start s ≡ true = ground (arith, parts.1) in
          rw
            (
              e,
              g,
              in_order-right,
              remove_after lo hi s (areas l) v (areas r) c (omega (arith, parts.1)),
            )
            (ap (λ zs. areas l ++ v ∷ zs) (areas-remove_node v.end hi r a s parts.2 q))
    ]
