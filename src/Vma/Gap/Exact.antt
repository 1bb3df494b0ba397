-- ===== src/Vma/Gap/Exact.antt =====
-- `vma_find_free` of src/kernel/mm/vma.c on the tree: the range that it returns, and when it
-- returns 0.
use cosmo_rt.Common.{
  ℕ, ◌+◌, ◌-◌, ◌%◌, ◌^◌, ◌≤◌, ◌<◌, ◌≡◌, refl, some, List, [], ◌∷◌, ◌++◌, leb, arith, Bool-cases,
  inl, inr, ◌⊎◌,
}
use cosmo_rt.Vma.{Area, Tree, leaf, node}
use cosmo_rt.Vma.Spec.{areas, Chain}
use cosmo_rt.Vma.Balance.{IsAvl}
use cosmo_rt.Vma.Insert.{Chain-split}
use cosmo_rt.Vma.Gap.{vma_find_free}
use cosmo_rt.Vma.Gap.Scan.{down, scan, find_free-scan}
use cosmo_rt.Vma.Gap.Depth.{PageSized, depth-le-stack_max}
use cosmo_rt.Vma.Gap.Sound.{Below, Apart, EndsAligned, scan_sound, scan_complete}

abbrev DownChain : ℕ → ℕ → List Area → Type 0
DownChain lo hi [] = lo ≤ hi
DownChain lo hi (v ∷ vs) = (v.start < v.end) × (v.end ≤ hi) × DownChain lo v.start vs

DownChain-join :
    (lo hi : ℕ) (xs : List Area) (v : Area) (ys : List Area)
    → DownChain v.end hi xs
    → v.start < v.end
    → DownChain lo v.start ys
    → DownChain lo hi (xs ++ v ∷ ys)
DownChain-join lo hi [] v ys p q r = (q, p, r)
DownChain-join lo hi (x ∷ xs) v ys p q r = (p.0, p.1, DownChain-join lo x.start xs v ys p.2 q r)

DownChain-down : (lo hi : ℕ) (t : Tree) → Chain lo hi (areas t) → DownChain lo hi (down t)
DownChain-down lo hi leaf c = c
DownChain-down lo hi (node a v h l r) c =
    let parts = Chain-split lo hi (areas l) v (areas r) c in
    DownChain-join lo hi (down r) v (down l) (DownChain-down v.end hi r parts.2) parts.1
      (DownChain-down lo v.start l parts.0)

DownChain-Below : (lo hi : ℕ) (vs : List Area) → DownChain lo hi vs → Below hi vs
DownChain-Below lo hi [] c = tt
DownChain-Below lo hi (v ∷ vs) c = (c.0, c.1, DownChain-Below lo v.start vs c.2)

-- A statement on each area that holds in one order holds in the other.
abbrev Each : (Area → Type 0) → List Area → Type 0
Each P [] = Unit
Each P (v ∷ vs) = P v × Each P vs

module _ (P : Area → Type 0) where
  Each-append : (xs ys : List Area) → Each P xs → Each P ys → Each P (xs ++ ys)
  Each-append [] ys p q = q
  Each-append (x ∷ xs) ys p q = (p.0, Each-append xs ys p.1 q)

  append-Each : (xs ys : List Area) → Each P (xs ++ ys) → Each P xs × Each P ys
  append-Each [] ys p = (tt, p)
  append-Each (x ∷ xs) ys p = let q = append-Each xs ys p.1 in ((p.0, q.0), q.1)

  Each-down : (t : Tree) → Each P (areas t) → Each P (down t)
  Each-down leaf p = tt
  Each-down (node a v h l r) p =
      let q = append-Each (areas l) (v ∷ areas r) p in
      Each-append (down r) (v ∷ down l) (Each-down r q.1.1) (q.1.0, Each-down l q.0)

  Each-up : (t : Tree) → Each P (down t) → Each P (areas t)
  Each-up leaf p = tt
  Each-up (node a v h l r) p =
      let q = append-Each (down r) (v ∷ down l) p in
      Each-append (areas l) (v ∷ areas r) (Each-up l q.1.1) (q.1.0, Each-up r q.0)

module _ (addr size : ℕ) where
  abbrev Misses : Area → Type 0
  Misses v = (v.end ≤ addr) ⊎ (addr + size ≤ v.start)

  Apart-Each : (vs : List Area) → Apart addr size vs → Each Misses vs
  Apart-Each [] p = tt
  Apart-Each (v ∷ vs) p = (p.0, Apart-Each vs p.1)

  Each-Apart : (vs : List Area) → Each Misses vs → Apart addr size vs
  Each-Apart [] p = tt
  Each-Apart (v ∷ vs) p = (p.0, Each-Apart vs p.1)

  Apart-down : (t : Tree) → Apart addr size (areas t) → Apart addr size (down t)
  Apart-down t p = Each-Apart (down t) (Each-down Misses t (Apart-Each (areas t) p))

  Apart-up : (t : Tree) → Apart addr size (down t) → Apart addr size (areas t)
  Apart-up t p = Each-Apart (areas t) (Each-up Misses t (Apart-Each (down t) p))

abbrev Aligned : Area → Type 0
Aligned v = v.end % 4096 ≡ 0

Aligned-Each : (vs : List Area) → EndsAligned vs → Each Aligned vs
Aligned-Each [] p = tt
Aligned-Each (v ∷ vs) p = (p.0, Aligned-Each vs p.1)

Each-Aligned : (vs : List Area) → Each Aligned vs → EndsAligned vs
Each-Aligned [] p = tt
Each-Aligned (v ∷ vs) p = (p.0, Each-Aligned vs p.1)

-- What a caller relies on: the tree is balanced, and its areas are page-sized, in order, without
-- overlap and below 2 ^ 48.
pub record IsMap (t : Tree) : Type 0 where
  pub lo : ℕ
  pub hi : ℕ
  pub balanced : IsAvl t
  pub ordered : Chain lo hi (areas t)
  pub paged : PageSized (areas t)
  pub bounded : hi ≤ 2 ^ 48

-- On an AVL tree whose areas start and end below 2 ^ 48, are at least a page long and follow one
-- another without overlap, and for page-aligned `base` and `size`, `vma_find_free` ends, and returns
-- 0 or the page-aligned start of a range of `size` bytes that ends at or below `base` and meets no
-- area.
pub find_free_sound :
    (t : Tree) (base size : ℕ)
    → IsMap t
    → base % 4096 ≡ 0
    → size % 4096 ≡ 0
    → (r : ℕ) × (vma_find_free t base size ≡ some r)
      × ((r ≡ 0) ⊎ ((r + size ≤ base) × (r % 4096 ≡ 0) × Apart r size (areas t)))
unfolding vma_find_free
find_free_sound leaf base size m p q = elim (Bool-cases (leb size base)) [
  | inl e ↦ (base - size, rw e, inr (ground arith, ground arith, tt))
  | inr e ↦ (0, rw e, inl refl)
]
find_free_sound (node a v h l r) base size m p q =
    let t = node a v h l r in
    (
      scan size (down t) base,
      find_free-scan a v h l r base size
          (depth-le-stack_max m.lo m.hi t m.balanced m.ordered m.paged m.bounded),
      elim (scan_sound size base m.hi (scan size (down t) base) (down t)
          (DownChain-Below m.lo m.hi (down t) (DownChain-down m.lo m.hi t m.ordered)) refl) [
            | inl none_free ↦ inl none_free
            | inr f ↦ inr (f.0, f.1, Apart-up (scan size (down t) base) size t f.2)
          ],
    )

-- On an AVL tree whose areas start and end below 2 ^ 48, are at least a page long, end page-aligned
-- and follow one another without overlap, where `vma_find_free` returns 0 for a page-aligned `base`
-- and `size`, no page-aligned range of `size` bytes from 0x1000 on that ends at or below `base` is
-- free of areas.
pub find_free_complete :
    (t : Tree) (base size a : ℕ)
    → IsMap t
    → EndsAligned (areas t)
    → base % 4096 ≡ 0
    → size % 4096 ≡ 0
    → vma_find_free t base size ≡ some 0
    → 0x1000 ≤ a
    → a % 4096 ≡ 0
    → a + size ≤ base
    → ¬ (Apart a size (areas t))
unfolding vma_find_free
find_free_complete leaf base size a m n p q e b c d x = ground arith
find_free_complete (node k v h l r) base size a m n p q e b c d x =
    let t = node k v h l r in
    let z : scan size (down t) base ≡ 0 = cc (
      find_free-scan k v h l r base size
        (depth-le-stack_max m.lo m.hi t m.balanced m.ordered m.paged m.bounded)) in
    scan_complete size base a m.hi (down t)
      (DownChain-Below m.lo m.hi (down t) (DownChain-down m.lo m.hi t m.ordered))
      (Each-Aligned (down t) (Each-down Aligned t (Aligned-Each (areas t) n))) z b c d
      (Apart-down a size t x)
