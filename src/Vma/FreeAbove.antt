-- ===== src/Vma/FreeAbove.antt =====
-- `vma_find_free_above` of src/kernel/mm/vma.c: the search for a free range from `start` upward, by
-- an in-order traversal with an explicit stack of 64 entries. Sums wrap at 2 ^ 64.
use cosmo_rt.Common.{
  ℕ, zero, suc, ◌+◌, ◌-◌, ◌%◌, ◌^◌, ◌≤◌, ◌<◌, ◌&&◌, Option, none, some, List, [], ◌∷◌, length, ltb,
  leb, if◌then◌else◌, arith,
}
use cosmo_rt.Vma.{Area, Tree, leaf, node}
use cosmo_rt.Vma.Gap.{page_floor, stack_max, found_or, count}

-- `(x + 0xFFF) & ~0xFFF`
unfoldable pub page_ceil : ℕ → ℕ
unfolding page_floor
page_ceil x = page_floor ((x + 4095) % 2 ^ 64)

-- The user space ceiling.
abbrev pub limit : ℕ
limit = 2 ^ 47

-- The last test of the search: the address, or 0.
unfoldable pub below_limit : (addr size : ℕ) → ℕ
below_limit addr size = if leb ((addr + size) % 2 ^ 64) limit then addr else 0

-- `while (cur) { if (sp < 64) stack[sp++] = cur; cur = cur->left; }`, the top of the stack first.
unfoldable pub push_left : Tree → List Tree → List Tree
push_left leaf stack = stack
push_left (node a v h l r) stack =
    push_left l (if ltb (length stack) stack_max then node a v h l r ∷ stack else stack)

-- The test of one area: the gap below it, or none with the traversal going on.
unfoldable pub gap_below : (size gap_start : ℕ) → Area → Option ℕ
gap_below size gap_start v =
    if ltb gap_start v.start && leb size (v.start - gap_start) then some gap_start else none

-- `gap_start` for the areas above.
unfoldable pub raise_gap : (gap_start : ℕ) → Area → ℕ
unfolding page_ceil
raise_gap gap_start v = if ltb gap_start v.end then page_ceil v.end else gap_start

-- What follows the pushes: the end of the loop on an empty stack, or the visit of the top.
unfoldable pub visit_up :
    (size : ℕ) → (Tree → List Tree → ℕ → Option ℕ) → List Tree → (gap_start : ℕ) → Option ℕ
unfolding below_limit gap_below raise_gap
visit_up size next [] gap_start = some (below_limit gap_start size)
visit_up size next (leaf ∷ stack) gap_start = next leaf stack gap_start
visit_up size next (node a v h l r ∷ stack) gap_start =
    let rest = next r stack (raise_gap gap_start v) in
    found_or (gap_below size gap_start v) some rest

-- The outer loop; `none` where the fuel ran out.
unfoldable pub free_above_loop : (fuel size : ℕ) → Tree → List Tree → (gap_start : ℕ) → Option ℕ
unfolding push_left visit_up
free_above_loop zero size cur stack gap_start = none
free_above_loop (suc fuel) size cur stack gap_start =
    visit_up size (free_above_loop fuel size) (push_left cur stack) gap_start

unfoldable pub vma_find_free_above : Tree → (start size : ℕ) → Option ℕ
unfolding free_above_loop below_limit page_ceil count
vma_find_free_above leaf start size = some (below_limit (page_ceil start) size)
vma_find_free_above (node a v h l r) start size =
    free_above_loop (count (node a v h l r) + 1) size (node a v h l r) [] (page_ceil start)

-- For an area that ends below 2 ^ 64 - 4096, the start of the search moves neither down nor to an
-- address within the area.
pub raise_gap_bounds :
    (gap_start : ℕ) (v : Area)
    → v.end < 2 ^ 64 - 4096
    → (gap_start ≤ raise_gap gap_start v) × (v.end ≤ raise_gap gap_start v)
unfolding raise_gap page_ceil page_floor
raise_gap_bounds gap_start v h = (ground arith, ground arith)
