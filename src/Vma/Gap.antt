-- ===== src/Vma/Gap.antt =====
-- `vma_find_free` of src/kernel/mm/vma.c: the search for a free range below `base`, by a reverse
-- in-order traversal with an explicit stack of 64 entries.
pub mod Depth
pub mod Scan
pub mod Sound
pub mod Exact
use cosmo_rt.Common.{
  ℕ, zero, suc, ◌+◌, ◌-◌, ◌*◌, ◌/◌, Bool, true, false, ◌&&◌, Option, none, some, List, [], ◌∷◌,
  length, ltb, leb, if◌then◌else◌,
}
use cosmo_rt.Vma.{Area, Tree, leaf, node}

-- `x & ~0xFFF`
unfoldable pub page_floor : ℕ → ℕ
page_floor x = x / 4096 * 4096

abbrev pub stack_max : ℕ
stack_max = 64

-- `while (cur) { if (sp < 64) stack[sp++] = cur; cur = cur->right; }`, the top of the stack first.
pub push_right : Tree → List Tree → List Tree
push_right leaf stack = stack
push_right (node a v h l r) stack =
    push_right r (if ltb (length stack) stack_max then node a v h l r ∷ stack else stack)

-- The test of one area: the address to return, or none with the traversal going on.
pub try_gap : (size gap_end : ℕ) → Area → Option ℕ
unfolding page_floor
try_gap size gap_end v =
    if ltb gap_end size
    then none
    else if leb v.end gap_end
        && leb size (gap_end - v.end)
        && leb v.end (page_floor (gap_end - size))
    then some (page_floor (gap_end - size))
    else none

-- `gap_end` for the areas below.
pub lower_gap : (size gap_end : ℕ) → Area → ℕ
lower_gap size gap_end v =
    if ltb gap_end size then gap_end else if ltb v.start gap_end then v.start else gap_end

-- The gap below the lowest area, never the null page.
pub last_gap : (size gap_end : ℕ) → ℕ
unfolding page_floor
last_gap size gap_end =
    if leb size gap_end && leb 0x1000 (page_floor (gap_end - size))
    then page_floor (gap_end - size)
    else 0

-- `return` of an address that was found, and the rest where there is none.
abbrev pub found_or : {A : Type 0} → Option ℕ → (ℕ → A) → A → A
found_or none f rest = rest
found_or (some addr) f rest = f addr

-- What follows the pushes: the end of the loop on an empty stack, or the visit of the top.
pub visit : (size : ℕ) → (Tree → List Tree → ℕ → Option ℕ) → List Tree → (gap_end : ℕ) → Option ℕ
unfolding try_gap lower_gap last_gap
visit size next [] gap_end = some (last_gap size gap_end)
visit size next (leaf ∷ stack) gap_end = next leaf stack gap_end
visit size next (node a v h l r ∷ stack) gap_end =
    let rest = next l stack (lower_gap size gap_end v) in
    found_or (try_gap size gap_end v) some rest

-- The outer loop; `none` where the fuel ran out.
pub free_loop : (fuel size : ℕ) → Tree → List Tree → (gap_end : ℕ) → Option ℕ
unfolding push_right visit
free_loop zero size cur stack gap_end = none
free_loop (suc fuel) size cur stack gap_end =
    visit size (free_loop fuel size) (push_right cur stack) gap_end

-- The number of nodes, which bounds the rounds of the loop.
unfoldable pub count : Tree → ℕ
count leaf = 0
count (node a v h l r) = count l + count r + 1

unfoldable pub vma_find_free : Tree → (base size : ℕ) → Option ℕ
unfolding free_loop count
vma_find_free leaf base size = some (if leb size base then base - size else 0)
vma_find_free (node a v h l r) base size =
    free_loop (count (node a v h l r) + 1) size (node a v h l r) [] base
