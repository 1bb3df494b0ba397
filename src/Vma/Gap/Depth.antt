-- ===== src/Vma/Gap/Depth.antt =====
-- Why the 64 entries of the stack in `vma_find_free` (src/kernel/mm/vma.c) are enough: an AVL tree
-- of more levels has more nodes than the address space has pages.
use cosmo_rt.Common.{
  ℕ, zero, suc, ◌+◌, ◌-◌, ◌*◌, ◌^◌, ◌≤◌, ◌<◌, max, ◌≡◌, refl, ◌∙◌, ap, List, [], ◌∷◌, length,
  length-append, arith, inl, inr, ◌⊎◌,
}
use cosmo_rt.Vma.{Area, Tree, leaf, node, height}
use cosmo_rt.Vma.Spec.{areas, Chain}
use cosmo_rt.Vma.Balance.{IsAvl}
use cosmo_rt.Vma.Gap.{count, stack_max}
use cosmo_rt.Vma.Gap.Scan.{depth}

-- Every area is at least a page.
abbrev pub PageSized : List Area → Type 0
PageSized [] = Unit
PageSized (v ∷ vs) = (v.start + 4096 ≤ v.end) × PageSized vs

-- The least numbers of nodes of an AVL tree of `h` and of `h + 1` levels.
least_pair : ℕ → ℕ × ℕ
least_pair zero = (0, 1)
least_pair (suc h) = let (a, b) = least_pair h in (b, a + b + 1)

least : ℕ → ℕ
unfolding least_pair
least h = (least_pair h).0

least_step : (h : ℕ) → least (suc (suc h)) ≡ least h + least (suc h) + 1
unfolding least
least_step h = refl

least_mono_suc : (h : ℕ) → least h ≤ least (suc h)
least_mono_suc zero = unfold least in omega arith
least_mono_suc (suc h) = omega (arith, least_step h)

least_mono : (h k : ℕ) → least h ≤ least (h + k)
least_mono h zero = let e : h + 0 ≡ h = omega arith in rw e (omega arith)
least_mono h (suc k) =
    let e : h + suc k ≡ suc (h + k) = omega arith in
    rw e (omega (arith, least_mono h k, least_mono_suc (h + k)))

least_node : (x y : ℕ) → x ≤ y + 1 → y ≤ x + 1 → least (max x y + 1) ≤ least x + least y + 1
least_node x y p q = elim (cases x y p q) [
  | inl e ↦ let m : max x y + 1 ≡ suc y = omega arith in rw (m, e) (same y)
  | inr (inl e) ↦
      let m : max x y + 1 ≡ suc (suc y) = omega arith in rw (m, e, least_step) (omega arith)
  | inr (inr e) ↦
      let m : max x y + 1 ≡ suc (suc x) = omega arith in rw (m, e, least_step) (omega arith)
]
  where
    cases : (x y : ℕ) → x ≤ y + 1 → y ≤ x + 1 → (x ≡ y) ⊎ (x ≡ suc y) ⊎ (y ≡ suc x)
    cases x y p q = ground arith

    same : (y : ℕ) → least (suc y) ≤ least y + least y + 1
    same zero = unfold least in omega arith
    same (suc y) = omega (arith, least_step y, least_mono_suc y)

least-count : (t : Tree) → IsAvl t → least (height t) ≤ count t
unfolding count
least-count leaf p = unfold least in omega arith
least-count (node a v h l r) p = omega (
  arith,
  least-count l p.0,
  least-count r p.1,
  ap least p.2,
  least_node (height l) (height r) p.3 p.4,
)

pub depth-eq-height : (t : Tree) → IsAvl t → depth t ≡ height t
depth-eq-height leaf p = refl
depth-eq-height (node a v h l r) p = omega (arith, depth-eq-height l p.0, depth-eq-height r p.1)

length-areas : (t : Tree) → length (areas t) ≡ count t
unfolding count
length-areas leaf = refl
length-areas (node a v h l r) =
    length-append (areas l) (v ∷ areas r) ∙ omega (arith, length-areas l, length-areas r)

pages_fit :
    (lo hi : ℕ) (xs : List Area) → Chain lo hi xs → PageSized xs → lo + length xs * 4096 ≤ hi
pages_fit lo hi [] c p = omega arith
pages_fit lo hi (x ∷ xs) c p = omega (arith, pages_fit x.end hi xs c.2 p.1)

least_65 : 2 ^ 36 < least 65
unfolding least
least_65 = omega arith

-- An AVL tree of areas of at least a page each, one above the other below 2 ^ 48, has at most 64
-- levels.
pub depth-le-stack_max :
    (lo hi : ℕ) (t : Tree)
    → IsAvl t
    → Chain lo hi (areas t)
    → PageSized (areas t)
    → hi ≤ 2 ^ 48
    → depth t ≤ stack_max
depth-le-stack_max lo hi t p c s b = elim (bound (height t)) [
  | inl low ↦ omega (arith, depth-eq-height t p)
  | inr (k, e) ↦ absurd (
      omega (
        arith,
        least-count t p,
        length-areas t,
        pages_fit lo hi (areas t) c s,
        least_65,
        least_mono 65 k,
        ap least e,
      ))
]
  where
    bound : (n : ℕ) → (n ≤ 64) ⊎ ((k : ℕ) × (n ≡ 65 + k))
    bound n = elim (split n) [ inl q ↦ inl q | inr q ↦ inr (n - 65, omega arith) ]
      where
        split : (n : ℕ) → (n ≤ 64) ⊎ (65 ≤ n)
        split n = ground arith
