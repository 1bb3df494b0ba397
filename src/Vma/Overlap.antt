-- ===== src/Vma/Overlap.antt =====
-- `vma_find_overlap` of src/kernel/mm/vma.c prunes subtrees and misses no overlap, so an insertion
-- that it permits keeps the areas apart.
use cosmo_rt.Common.{
  ℕ, ◌≤◌, ◌<◌, ◌≡◌, refl, false, Option, none, some, List, [], ◌∷◌, arith, ltb, Bool-cases, inl,
  inr, if◌then◌else◌, ◌⊎◌,
}
use cosmo_rt.Vma.{Area, Tree, leaf, node, vma_find_overlap, overlaps, or_else, vma_insert, new_area}
use cosmo_rt.Vma.Spec
use cosmo_rt.Vma.Spec.{in_order, areas, Chain, Has}
use cosmo_rt.Vma.Insert.{Chain-split, areas-insert_node}
use cosmo_rt.Vma.Find.{append-Has, in_left, here, in_right, side}

or_else_cases : (y z : Option Area) (x : Area) → or_else y z ≡ some x → (y ≡ some x) ⊎ (z ≡ some x)
or_else_cases none z x e = inr e
or_else_cases (some v) z x e = inl e

-- `vma_find_overlap` returns only areas of the tree that overlap the range.
pub overlap_sound :
    (t : Tree) (s e : ℕ) (x : Area)
    → vma_find_overlap t s e ≡ some x
    → Has x (areas t) × (x.start < e) × (s < x.end)
unfolding vma_find_overlap
overlap_sound leaf s e x p = absurd (cc)
overlap_sound (node a v h l r) s e x p = elim (Bool-cases (overlaps v s e)) [
  | inl o ↦
      let same : x ≡ v = ground arith in
      (append-Has x (areas l) (v ∷ areas r) (inr (inl same)), ground arith, ground arith)
  | inr o ↦
      elim (or_else_cases (if ltb s v.start then vma_find_overlap l s e else none)
        (if ltb v.start e then vma_find_overlap r s e else none) x (rw o at p)) [
          | inl q ↦
              let ih = overlap_sound l s e x (ground arith) in
              (append-Has x (areas l) (v ∷ areas r) (inl ih.0), ih.1, ih.2)
          | inr q ↦
              let ih = overlap_sound r s e x (ground arith) in
              (append-Has x (areas l) (v ∷ areas r) (inr (inr ih.0)), ih.1, ih.2)
        ]
]

or_else-none : (y z : Option Area) → or_else y z ≡ none → (y ≡ none) × (z ≡ none)
or_else-none none z e = (refl, e)
or_else-none (some v) z e = absurd (cc)

-- On a tree whose areas follow one another without overlap, no area of the tree overlaps a range for
-- which `vma_find_overlap` returns null.
pub overlap_complete :
    (lo hi : ℕ) (t : Tree) (s e : ℕ) (x : Area)
    → Chain lo hi (areas t)
    → vma_find_overlap t s e ≡ none
    → Has x (areas t)
    → overlaps x s e ≡ false
unfolding vma_find_overlap
overlap_complete lo hi leaf s e x c p h = elim h [ ]
overlap_complete lo hi (node a v g l r) s e x c p h =
    let parts = Chain-split lo hi (areas l) v (areas r) c in
    elim (Bool-cases (overlaps v s e)) [
      | inl o ↦ absurd (ground arith)
      | inr o ↦
          let none_below =
            or_else-none (if ltb s v.start then vma_find_overlap l s e else none)
              (if ltb v.start e then vma_find_overlap r s e else none) (rw o at p) in
          elim (side lo hi l r v x c h) [
            | in_left k b ↦ ground (
              arith,
              λ (q : vma_find_overlap l s e ≡ none).
                  overlap_complete lo v.start l s e x parts.0 q k,
            )
            | here q ↦ rw q o
            | in_right k b ↦ ground (
              arith,
              parts.1,
              λ (q : vma_find_overlap r s e ≡ none). overlap_complete v.end hi r s e x parts.2 q k,
            )
          ]
    ]

insert-Chain :
    (lo hi : ℕ) (x : Area) (xs : List Area)
    → Chain lo hi xs
    → lo ≤ x.start
    → x.start < x.end
    → x.end ≤ hi
    → ((y : Area) → Has y xs → overlaps y x.start x.end ≡ false)
    → Chain lo hi (Spec.insert x xs)
unfolding Spec.insert
insert-Chain lo hi x [] c p q r apart = (p, q, r)
insert-Chain lo hi x (v ∷ xs) c p q r apart = elim (Bool-cases (ltb x.start v.start)) [
  | inl f ↦ rw f (p, q, (ground (arith, apart v (inl refl)), c.1, c.2))
  | inr f ↦ rw f (
    c.0,
    c.1,
    insert-Chain v.end hi x xs c.2 (ground (arith, apart v (inl refl))) q r
        (λ y h. apart y (inr h)),
  )
]

-- Where `vma_find_overlap` reports no overlap with a range that is not empty and lies within the
-- bounds, `vma_insert` of that range with a node from the slab keeps the areas in order and without
-- overlap.
pub vma_insert-Chain :
    (lo hi : ℕ) (t : Tree) (a s e prot flags : ℕ)
    → Chain lo hi (areas t)
    → vma_find_overlap t s e ≡ none
    → lo ≤ s
    → s < e
    → e ≤ hi
    → Chain lo hi (areas (vma_insert (some a) t s e prot flags).0)
unfolding vma_insert
vma_insert-Chain lo hi t a s e prot flags c p b q d =
    rw (areas-insert_node lo hi t a (new_area s e prot flags) c) (
      insert-Chain lo hi (new_area s e prot flags) (areas t) c b q d
        (λ y h. overlap_complete lo hi t s e y c p h))
