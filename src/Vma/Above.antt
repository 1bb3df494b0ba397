-- ===== src/Vma/Above.antt =====
-- `vma_find_above` of src/kernel/mm/vma.c finds the lowest area that starts above an address.
use cosmo_rt.Common.{
  ℕ, ◌≤◌, ◌≡◌, refl, ◌∙◌, false, Option, none, some, List, [], ◌∷◌, ◌++◌, arith, ltb, ltb→ge,
  Bool-cases, inl, inr,
}
use cosmo_rt.Vma.{Area, Tree, leaf, node, find_above_from, vma_find_above, or_else}
use cosmo_rt.Vma.Spec
use cosmo_rt.Vma.Spec.{in_order, areas, Chain}
use cosmo_rt.Vma.Insert.{Chain-split, Chain-le}

find_above-append :
    (xs ys : List Area) (addr : ℕ)
    → Spec.find_above (xs ++ ys) addr ≡ or_else (Spec.find_above xs addr) (Spec.find_above ys addr)
unfolding Spec.find_above
find_above-append [] ys addr = refl
find_above-append (x ∷ xs) ys addr = elim (Bool-cases (ltb addr x.start)) [
  | inl e ↦ rw e
  | inr e ↦ rw e (find_above-append xs ys addr)
]

-- No area of a chain that ends at or below the address starts above it.
find_above-none :
    (lo hi addr : ℕ) (xs : List Area) → Chain lo hi xs → hi ≤ addr → Spec.find_above xs addr ≡ none
unfolding Spec.find_above
find_above-none lo hi addr [] c p = refl
find_above-none lo hi addr (x ∷ xs) c p =
    let le = Chain-le x.end hi xs c.2 in
    let e : ltb addr x.start ≡ false = ground arith in rw e (find_above-none x.end hi addr xs c.2 p)

or_else_assoc : (x y z : Option Area) → or_else (or_else x y) z ≡ or_else x (or_else y z)
or_else_assoc none y z = refl
or_else_assoc (some v) y z = refl

above_from :
    (lo hi : ℕ) (best : Option Area) (t : Tree) (addr : ℕ)
    → Chain lo hi (areas t)
    → find_above_from best t addr ≡ or_else (Spec.find_above (areas t) addr) best
unfolding find_above_from
above_from lo hi best leaf addr c = unfold Spec.find_above in refl
above_from lo hi best (node a v h l r) addr c =
    let parts = Chain-split lo hi (areas l) v (areas r) c in
    elim (Bool-cases (ltb addr v.start)) [
      | inl e ↦
          let here : Spec.find_above (v ∷ areas r) addr ≡ some v = unfold Spec.find_above in rw e in
          rw (e, find_above-append, here, or_else_assoc)
            (above_from lo v.start (some v) l addr parts.0)
      | inr e ↦
          let here : Spec.find_above (v ∷ areas r) addr ≡ Spec.find_above (areas r) addr =
            unfold Spec.find_above in rw e in
          rw
            (
              e,
              find_above-append,
              here,
              find_above-none lo v.start addr (areas l) parts.0 (ltb→ge addr v.start e),
            )
            (above_from v.end hi best r addr parts.2)
    ]

or_else-none : (x : Option Area) → or_else x none ≡ x
or_else-none none = refl
or_else-none (some v) = refl

-- On a tree whose areas follow one another without overlap, `vma_find_above` returns the first area,
-- in the order of the addresses, that starts above the address, and null where there is none.
pub vma_find_above-first :
    (lo hi : ℕ) (t : Tree) (addr : ℕ)
    → Chain lo hi (areas t)
    → vma_find_above t addr ≡ Spec.find_above (areas t) addr
unfolding vma_find_above
vma_find_above-first lo hi t addr c = above_from lo hi none t addr c ∙ or_else-none _
