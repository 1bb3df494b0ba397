-- ===== src/Vma/Gap/Scan.antt =====
-- The traversal of `vma_find_free` (src/kernel/mm/vma.c) visits the areas from the highest down, if
-- its stack is deep enough.
use cosmo_rt.Common.{
  ℕ, zero, suc, ◌+◌, ◌≤◌, ◌<◌, max, ◌≡◌, refl, sym, ◌∙◌, true, Option, some, List, [], ◌∷◌, ◌++◌,
  append_assoc, append-nil, length, length-append, ltb, lt→ltb, arith, Option-cases, inl, inr,
}
use cosmo_rt.Vma.{Area, Tree, leaf, node}
use cosmo_rt.Vma.Gap.{
  stack_max, push_right, try_gap, lower_gap, last_gap, found_or, visit, free_loop, count,
  vma_find_free,
}

-- The areas from the highest to the lowest.
abbrev pub down : Tree → List Area
down leaf = []
down (node a v h l r) = down r ++ v ∷ down l

-- The search over the areas in that order, with no stack and no fuel.
unfoldable pub scan : (size : ℕ) → List Area → (gap_end : ℕ) → ℕ
scan size [] gap_end = last_gap size gap_end
scan size (v ∷ vs) gap_end =
    let rest = scan size vs (lower_gap size gap_end v) in
    found_or (try_gap size gap_end v) (λ addr. addr) rest

-- The number of levels, computed and not stored.
abbrev pub depth : Tree → ℕ
depth leaf = 0
depth (node a v h l r) = max (depth l) (depth r) + 1

-- What the stack leaves to visit.
abbrev pending : List Tree → List Area
pending [] = []
pending (leaf ∷ stack) = pending stack
pending (node a v h l r ∷ stack) = v ∷ down l ++ pending stack

-- Every subtree on the stack has room above it.
abbrev Fits : List Tree → Type 0
Fits [] = Unit
Fits (leaf ∷ stack) = ⊥
Fits (node a v h l r ∷ stack) = (depth l + length stack < stack_max) × Fits stack

pending-push_right :
    (t : Tree) (stack : List Tree)
    → depth t + length stack ≤ stack_max
    → pending (push_right t stack) ≡ down t ++ pending stack
unfolding push_right
pending-push_right leaf stack d = refl
pending-push_right (node a v h l r) stack d =
    let room : ltb (length stack) stack_max ≡ true = lt→ltb _ _ (omega arith) in
    rw room (
      pending-push_right r (node a v h l r ∷ stack) (omega arith)
      ∙ sym (append_assoc (down r) (v ∷ down l) (pending stack)))

push_right-Fits :
    (t : Tree) (stack : List Tree)
    → depth t + length stack ≤ stack_max
    → Fits stack
    → Fits (push_right t stack)
unfolding push_right
push_right-Fits leaf stack d f = f
push_right-Fits (node a v h l r) stack d f =
    let room : ltb (length stack) stack_max ≡ true = lt→ltb _ _ (omega arith) in
    rw room (push_right-Fits r (node a v h l r ∷ stack) (omega arith) (omega arith, f))

visit-scan :
    (size : ℕ) (next : Tree → List Tree → ℕ → Option ℕ) (stack : List Tree) (gap_end fuel : ℕ)
    → Fits stack
    → length (pending stack) < suc fuel
    → ((t : Tree) (st : List Tree) (g : ℕ)
        → depth t + length st ≤ stack_max
        → Fits st
        → length (down t ++ pending st) < fuel
        → next t st g ≡ some (scan size (down t ++ pending st) g))
    → visit size next stack gap_end ≡ some (scan size (pending stack) gap_end)
unfolding visit scan
visit-scan size next [] g fuel f n ih = refl
visit-scan size next (leaf ∷ stack) g fuel f n ih = elim f [ ]
visit-scan size next (node a v h l r ∷ stack) g fuel f n ih =
    elim (Option-cases (try_gap size g v)) [
      | inl e ↦ rw e (ih l stack (lower_gap size g v) (omega arith) f.1 (omega arith))
      | inr (addr, e) ↦ rw e
    ]

free_loop-scan :
    (fuel size : ℕ) (t : Tree) (stack : List Tree) (gap_end : ℕ)
    → depth t + length stack ≤ stack_max
    → Fits stack
    → length (down t ++ pending stack) < fuel
    → free_loop fuel size t stack gap_end ≡ some (scan size (down t ++ pending stack) gap_end)
unfolding free_loop
free_loop-scan zero size t stack g d f n = absurd (omega arith)
free_loop-scan (suc fuel) size t stack g d f n =
    let pushed = pending-push_right t stack d in
    visit-scan size (free_loop fuel size) (push_right t stack) g fuel (push_right-Fits t stack d f)
      (rw pushed n) (λ u st k d' f' n'. free_loop-scan fuel size u st k d' f' n')
    ∙ rw pushed

length-down : (t : Tree) → length (down t) ≡ count t
unfolding count
length-down leaf = refl
length-down (node a v h l r) =
    length-append (down r) (v ∷ down l) ∙ omega (arith, length-down l, length-down r)

-- On a tree of at most 64 levels that is not empty, the traversal ends and gives the result of the
-- search over the areas from the highest down: the fuel is enough, and the stack drops no node.
pub find_free-scan :
    (a : ℕ) (v : Area) (h : ℕ) (l r : Tree) (base size : ℕ)
    → depth (node a v h l r) ≤ stack_max
    → vma_find_free (node a v h l r) base size ≡ some (scan size (down (node a v h l r)) base)
unfolding vma_find_free
find_free-scan a v h l r base size d =
    let t = node a v h l r in
    let whole : down t ++ [] ≡ down t = append-nil (down t) in
    free_loop-scan (count t + 1) size t [] base (omega arith) tt
      (rw whole (omega (arith, length-down t)))
    ∙ rw whole
