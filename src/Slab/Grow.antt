-- ===== src/Slab/Grow.antt =====
-- How many pages a growth asks for (`slab_grow_locked` in src/kernel/mm/slab.c).
use cosmo_rt.Common.{ℕ, ◌*◌, ◌≤◌, ◌<◌, arith}
use cosmo_rt.Slab.{wanted_pages, double_until, alloc_pages, pages_alloc_max}

wanted_bounds : (size : ℕ) → (1 ≤ wanted_pages size) × (wanted_pages size ≤ 512)
unfolding wanted_pages
wanted_bounds size = (ground arith, ground arith)

-- A growth asks `pages_alloc` for at least the pages that it wants, for less than twice as many, and
-- for 1 to 512, whatever the size
-- of an object.
pub alloc_pages_bounds :
    (size : ℕ)
    → (wanted_pages size ≤ alloc_pages size)
      × (alloc_pages size < wanted_pages size * 2)
      × (1 ≤ alloc_pages size)
      × (alloc_pages size ≤ pages_alloc_max)
unfolding alloc_pages double_until
alloc_pages_bounds size =
    let w = wanted_bounds size in
    (
      ground (arith, w.0, w.1),
      ground (arith, w.0, w.1),
      ground (arith, w.0, w.1),
      ground (arith, w.0, w.1),
    )
