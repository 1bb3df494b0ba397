-- ===== src/Vma/Find.antt =====
-- The three searches of the tree (`vma_find`, `vma_find_above`, `vma_find_overlap` in
-- src/kernel/mm/vma.c) against the list of its areas.
use cosmo_rt.Common.{
  ℕ, ◌≤◌, ◌<◌, ◌≡◌, some, List, [], ◌∷◌, ◌++◌, arith, ltb, leb, Bool-cases, inl, inr, ◌⊎◌, ◌↔◌,
}
use cosmo_rt.Vma.{Area, Tree, leaf, node, vma_find}
use cosmo_rt.Vma.Spec.{areas, Chain, Has}
use cosmo_rt.Vma.Insert.{Chain-split, Chain-le}

Has-append : (x : Area) (xs ys : List Area) → Has x (xs ++ ys) → Has x xs ⊎ Has x ys
Has-append x [] ys h = inr h
Has-append x (v ∷ xs) ys (inl e) = inl (inl e)
Has-append x (v ∷ xs) ys (inr h) = elim (Has-append x xs ys h) [
  | inl p ↦ inl (inr p)
  | inr p ↦ inr p
]

pub append-Has : (x : Area) (xs ys : List Area) → Has x xs ⊎ Has x ys → Has x (xs ++ ys)
append-Has x [] ys (inl h) = elim h [ ]
append-Has x [] ys (inr h) = h
append-Has x (v ∷ xs) ys (inl (inl e)) = inl e
append-Has x (v ∷ xs) ys (inl (inr h)) = inr (append-Has x xs ys (inl h))
append-Has x (v ∷ xs) ys (inr h) = inr (append-Has x xs ys (inr h))

-- An area of a chain lies within its bounds.
pub Has-bounds :
    (lo hi : ℕ) (xs : List Area) (x : Area)
    → Chain lo hi xs
    → Has x xs
    → (lo ≤ x.start) × (x.start < x.end) × (x.end ≤ hi)
Has-bounds lo hi [] x c h = elim h [ ]
Has-bounds lo hi (v ∷ xs) x c (inl e) = rw e (c.0, c.1, Chain-le v.end hi xs c.2)
Has-bounds lo hi (v ∷ xs) x c (inr h) =
    let b = Has-bounds v.end hi xs x c.2 h in (omega arith, b.1, b.2)

-- Where an area of a node's chain stands.
pub data Side (x v : Area) (l r : Tree) : Type 0 where
  in_left : Has x (areas l) → x.end ≤ v.start → Side x v l r
  here : x ≡ v → Side x v l r
  in_right : Has x (areas r) → v.end ≤ x.start → Side x v l r

pub side :
    (lo hi : ℕ) (l r : Tree) (v x : Area)
    → Chain lo hi (areas l ++ v ∷ areas r)
    → Has x (areas l ++ v ∷ areas r)
    → Side x v l r
side lo hi l r v x c h =
    let parts = Chain-split lo hi (areas l) v (areas r) c in
    elim (Has-append x (areas l) (v ∷ areas r) h) [
      | inl p ↦ in_left p (Has-bounds lo v.start (areas l) x parts.0 p).2
      | inr (inl e) ↦ here e
      | inr (inr p) ↦ in_right p (Has-bounds v.end hi (areas r) x parts.2 p).0
    ]

find_sound :
    (t : Tree) (addr : ℕ) (x : Area)
    → vma_find t addr ≡ some x
    → Has x (areas t) × (x.start ≤ addr) × (addr < x.end)
unfolding vma_find
find_sound leaf addr x e = absurd (cc)
find_sound (node a v h l r) addr x e = elim (Bool-cases (ltb addr v.start)) [
  | inl p ↦
      let ih = find_sound l addr x (rw p at e) in
      (append-Has x (areas l) (v ∷ areas r) (inl ih.0), ih.1, ih.2)
  | inr p ↦ elim (Bool-cases (leb v.end addr)) [
    | inl q ↦
        let ih = find_sound r addr x (rw (p, q) at e) in
        (append-Has x (areas l) (v ∷ areas r) (inr (inr ih.0)), ih.1, ih.2)
    | inr q ↦
        let same : x ≡ v = ground arith in
        (append-Has x (areas l) (v ∷ areas r) (inr (inl same)), ground arith, ground arith)
  ]
]

find_complete :
    (lo hi : ℕ) (t : Tree) (addr : ℕ) (x : Area)
    → Chain lo hi (areas t)
    → Has x (areas t)
    → x.start ≤ addr
    → addr < x.end
    → vma_find t addr ≡ some x
unfolding vma_find
find_complete lo hi leaf addr x c h p q = elim h [ ]
find_complete lo hi (node a v g l r) addr x c h p q =
    let parts = Chain-split lo hi (areas l) v (areas r) c in
    elim (side lo hi l r v x c h) [
      | in_left k e ↦ ground (arith, find_complete lo v.start l addr x parts.0 k p q)
      | here e ↦ ground arith
      | in_right k e ↦ ground (arith, parts.1, find_complete v.end hi r addr x parts.2 k p q)
    ]

-- On a tree whose areas follow one another without overlap, `vma_find` returns an area exactly when
-- that area is in the tree and contains the address.
pub find_iff :
    (lo hi : ℕ) (t : Tree) (addr : ℕ) (x : Area)
    → Chain lo hi (areas t)
    → (vma_find t addr ≡ some x) ↔ (Has x (areas t) × (x.start ≤ addr) × (addr < x.end))
find_iff lo hi t addr x c = (find_sound t addr x, λ p. find_complete lo hi t addr x c p.0 p.1 p.2)
