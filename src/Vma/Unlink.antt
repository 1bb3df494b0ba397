-- ===== src/Vma/Unlink.antt =====
-- The areas left by `remove_node` (src/kernel/mm/vma.c): those of the tree without the one that
-- starts where the removed node's does.
use cosmo_rt.Common.{
  ℕ, ◌≤◌, ◌<◌, ◌≡◌, refl, ◌∙◌, ap, ap₂, List, [], ◌∷◌, ◌++◌, arith, Bool-cases, inl, inr, ◌⊎◌, ◌==◌,
}
use cosmo_rt.Vma.{Area, Tree, leaf, node, min_node}
use cosmo_rt.Vma.Spec
use cosmo_rt.Vma.Spec.{in_order, areas, addrs, Chain, Has}
use cosmo_rt.Vma.Insert.{Chain-split, Chain-le}

-- The node at the address `a` is in the tree, and its area starts at `s`.
abbrev pub Linked : ℕ → ℕ → Tree → Type 0
Linked a s leaf = ⊥
Linked a s (node b v h l r) = Linked a s l ⊎ ((b ≡ a) × (v.start ≡ s)) ⊎ Linked a s r

pub Linked-bounds :
    (lo hi a s : ℕ) (t : Tree) → Chain lo hi (areas t) → Linked a s t → (lo ≤ s) × (s < hi)
Linked-bounds lo hi a s leaf c p = elim p [ ]
Linked-bounds lo hi a s (node b v h l r) c p =
    let parts = Chain-split lo hi (areas l) v (areas r) c in
    let below = Chain-le lo v.start (areas l) parts.0 in
    let above = Chain-le v.end hi (areas r) parts.2 in
    elim p [
      | inl q ↦ let w = Linked-bounds lo v.start a s l parts.0 q in omega arith
      | inr (inl q) ↦ omega (arith, q.1, parts.1)
      | inr (inr q) ↦ let w = Linked-bounds v.end hi a s r parts.2 q in omega (arith, parts.1)
    ]

pub remove-append :
    (s : ℕ) (xs ys : List Area) → Spec.remove s (xs ++ ys) ≡ Spec.remove s xs ++ Spec.remove s ys
unfolding Spec.remove
remove-append s [] ys = refl
remove-append s (x ∷ xs) ys = elim (Bool-cases (x.start == s)) [
  | inl e ↦ rw e (remove-append s xs ys)
  | inr e ↦ rw e (ap (λ zs. x ∷ zs) (remove-append s xs ys))
]

-- A start address outside the bounds of a chain removes nothing.
pub remove_outside :
    (s lo hi : ℕ) (xs : List Area) → Chain lo hi xs → (s < lo) ⊎ (hi ≤ s) → Spec.remove s xs ≡ xs
unfolding Spec.remove
remove_outside s lo hi [] c o = refl
remove_outside s lo hi (x ∷ xs) c o =
    let le = Chain-le x.end hi xs c.2 in
    elim (Bool-cases (x.start == s)) [
      | inl e ↦ absurd (ground arith)
      | inr e ↦ rw e (ap (λ zs. x ∷ zs) (remove_outside s x.end hi xs c.2 (omega arith)))
    ]

-- Removal at an area of a chain, and on either side of it.
pub remove_at :
    (lo hi : ℕ) (xs : List Area) (v : Area) (ys : List Area)
    → Chain lo hi (xs ++ v ∷ ys)
    → Spec.remove v.start (xs ++ v ∷ ys) ≡ xs ++ ys
remove_at lo hi xs v ys c =
    let parts = Chain-split lo hi xs v ys c in
    remove-append v.start xs (v ∷ ys)
    ∙ ap₂ ◌++◌ (remove_outside v.start lo v.start xs parts.0 (omega arith))
        (head v.start ∙ remove_outside v.start v.end hi ys parts.2 (inl parts.1))
  where
    head : (s : ℕ) → Spec.remove v.start (v ∷ ys) ≡ Spec.remove v.start ys
    head s = unfold Spec.remove in ground arith

pub remove_before :
    (lo hi s : ℕ) (xs : List Area) (v : Area) (ys : List Area)
    → Chain lo hi (xs ++ v ∷ ys)
    → s < v.start
    → Spec.remove s (xs ++ v ∷ ys) ≡ Spec.remove s xs ++ v ∷ ys
remove_before lo hi s xs v ys c p =
    let parts = Chain-split lo hi xs v ys c in
    remove-append s xs (v ∷ ys)
    ∙ ap (λ zs. Spec.remove s xs ++ zs)
        (remove_outside s v.start hi (v ∷ ys) (omega arith, parts.1, parts.2) (inl p))

pub remove_after :
    (lo hi s : ℕ) (xs : List Area) (v : Area) (ys : List Area)
    → Chain lo hi (xs ++ v ∷ ys)
    → v.start < s
    → Spec.remove s (xs ++ v ∷ ys) ≡ xs ++ v ∷ Spec.remove s ys
remove_after lo hi s xs v ys c p =
    let parts = Chain-split lo hi xs v ys c in
    remove-append s xs (v ∷ ys)
    ∙ ap₂ ◌++◌ (remove_outside s lo v.start xs parts.0 (inr (omega arith)))
        (unfold Spec.remove in ground arith)

-- The smallest area stands first, and its node is linked.
pub min_first :
    (e : ℕ) (y : Area) (i : ℕ) (rl rr : Tree)
    → (zs : List Area) × (areas (node e y i rl rr) ≡ (min_node e y rl).1 ∷ zs)
unfolding min_node
min_first e y i leaf rr = (areas rr, refl)
min_first e y i (node b w g l r) rr =
    let ih = min_first b w g l r in (ih.0 ++ y ∷ areas rr, ap (λ zs. zs ++ y ∷ areas rr) ih.1)

pub min-Linked :
    (e : ℕ) (y : Area) (i : ℕ) (rl rr : Tree)
    → let (d, x) = min_node e y rl in Linked d x.start (node e y i rl rr)
unfolding min_node
min-Linked e y i leaf rr = inr (inl (refl, refl))
min-Linked e y i (node b w g l r) rr = inl (min-Linked b w g l r)

pub min_removed :
    (lo hi e : ℕ) (y : Area) (i : ℕ) (rl rr : Tree)
    → Chain lo hi (areas (node e y i rl rr))
    → let x = (min_node e y rl).1 in
      x ∷ Spec.remove x.start (areas (node e y i rl rr)) ≡ areas (node e y i rl rr)
min_removed lo hi e y i rl rr c =
    let (zs, first) = min_first e y i rl rr in
    let x = (min_node e y rl).1 in
    let c' : Chain lo hi (x ∷ zs) = rw first at c in
    rw first (ap (λ ws. x ∷ ws) (remove_at lo hi [] x zs c'))
