-- ===== src/Vma/Spec.antt =====
-- What the tree of areas stands for (src/kernel/mm/vma.c): the areas in the order of the addresses,
-- with list versions of the operations that the tree is checked against.
use cosmo_rt.Common.{
  ℕ, ◌≤◌, ◌<◌, ◌≡◌, ◌⊎◌, Option, none, some, List, [], ◌∷◌, ◌++◌, ltb, leb, ◌==◌, ◌&&◌,
  if◌then◌else◌,
}
use cosmo_rt.Vma.{Area, Tree, leaf, node}

-- A reading of the nodes, in the order of the tree.
abbrev pub in_order : {A : Type 0} → (ℕ → Area → A) → Tree → List A
in_order f leaf = []
in_order f (node a v h l r) = in_order f l ++ f a v ∷ in_order f r

abbrev pub areas : Tree → List Area
areas = in_order (λ a v. v)

-- The addresses of the nodes.
abbrev pub addrs : Tree → List ℕ
addrs = in_order (λ a v. a)

-- From `lo` to `hi` the areas follow one another without overlap, and none is empty.
abbrev pub Chain : ℕ → ℕ → List Area → Type 0
Chain lo hi [] = lo ≤ hi
Chain lo hi (v ∷ vs) = (lo ≤ v.start) × (v.start < v.end) × Chain v.end hi vs

abbrev pub Has : Area → List Area → Type 0
Has x [] = ⊥
Has x (v ∷ vs) = (x ≡ v) ⊎ Has x vs

-- The first area of the list that contains the address.
unfoldable pub find : List Area → ℕ → Option Area
find [] addr = none
find (v ∷ vs) addr = if leb v.start addr && ltb addr v.end then some v else find vs addr

-- The first area that starts above the address.
unfoldable pub find_above : List Area → ℕ → Option Area
find_above [] addr = none
find_above (v ∷ vs) addr = if ltb addr v.start then some v else find_above vs addr

unfoldable pub insert : Area → List Area → List Area
insert x [] = x ∷ []
insert x (v ∷ vs) = if ltb x.start v.start then x ∷ v ∷ vs else v ∷ insert x vs

-- Without the areas that start at `s`.
unfoldable pub remove : ℕ → List Area → List Area
remove s [] = []
remove s (v ∷ vs) = if v.start == s then remove s vs else v ∷ remove s vs
