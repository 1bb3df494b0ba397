-- ===== src/Slab/Tests.antt =====
-- A pool of three objects (src/kernel/mm/slab.c).
use cosmo_rt.Common.{ℕ, ◌+◌, ◌*◌, ◌≤◌, ◌<◌, ◌≡◌, refl, true, false, none, some, [], ◌∷◌, arith, inr}
use cosmo_rt.Slab.{
  Slab, slab_init, slab_alloc, slab_free, is_valid, at_least_8, wanted_pages, alloc_pages,
  pages_alloc_max, build_free_list, build_from, take_head, slab_init_dynamic,
}
use cosmo_rt.Slab.Pool.{IsPool, alloc_takes-IsPool, alloc_empty, free_returns-IsPool, free_ignores}
use cosmo_rt.Slab.Init.{slots, slab_init-IsPool, slot-is_valid}
use cosmo_rt.Slab.Grow.{alloc_pages_bounds}

abbrev garbage : ℕ → ℕ
garbage a = 77

abbrev pool : Slab
pool = slab_init 4096 24 3 garbage

first_object : (slab_alloc none pool).1 ≡ 4096
unfolding slab_alloc take_head slab_init build_free_list build_from
first_object = refl

second_object : (slab_alloc none (slab_alloc none pool).0).1 ≡ 4120
unfolding slab_alloc take_head slab_init build_free_list build_from
second_object = refl

grown_pool : (slab_alloc (some 8192) (slab_init_dynamic 100 0 none garbage)).1 ≡ 8292
unfolding slab_alloc take_head slab_init_dynamic
grown_pool = refl

pages_of_a_socket : alloc_pages 70000 ≡ 512
unfolding alloc_pages wanted_pages
pages_of_a_socket = refl

slab_init-IsPool_run : IsPool pool (slots 3 4096 (at_least_8 24) []) []
slab_init-IsPool_run = slab_init-IsPool 4096 24 3 garbage (omega arith)

last_slot_valid : is_valid pool (4096 + 2 * at_least_8 24) ≡ true
last_slot_valid = slot-is_valid 4096 24 3 2 garbage (omega arith)

pool-IsPool : IsPool pool (4096 ∷ 4120 ∷ 4144 ∷ []) []
unfolding slots
pool-IsPool = slab_init-IsPool 4096 24 3 garbage (omega arith)

alloc_takes-IsPool_example :
    let r = slab_alloc none pool in
    (r.1 ≡ 4096)
    × (0 < 4096)
    × ((a : ℕ) → 4096 ≤ a → a < 4096 + pool.obj_size → r.0.next a ≡ 0)
    × IsPool r.0 (4120 ∷ 4144 ∷ []) (4096 ∷ [])
alloc_takes-IsPool_example = alloc_takes-IsPool none pool 4096 (4120 ∷ 4144 ∷ []) [] pool-IsPool

abbrev one_used : Slab
one_used = (slab_alloc none pool).0

one_used-IsPool : IsPool one_used (4120 ∷ 4144 ∷ []) (4096 ∷ [])
one_used-IsPool = (alloc_takes-IsPool none pool 4096 (4120 ∷ 4144 ∷ []) [] pool-IsPool).3

first_is_valid : is_valid one_used 4096 ≡ true
unfolding is_valid slab_alloc take_head slab_init build_free_list build_from
first_is_valid = refl

free_returns-IsPool_example : IsPool (slab_free 4096 one_used) (4096 ∷ 4120 ∷ 4144 ∷ []) []
free_returns-IsPool_example =
    free_returns-IsPool one_used 4096 (4120 ∷ 4144 ∷ []) [] [] one_used-IsPool (omega arith)
      first_is_valid

middle_is_invalid : is_valid one_used 4100 ≡ false
unfolding is_valid slab_alloc take_head slab_init build_free_list build_from
middle_is_invalid = refl

middle_ignored : slab_free 4100 one_used ≡ one_used
middle_ignored = free_ignores one_used 4100 (inr middle_is_invalid)

abbrev tiny : Slab
tiny = slab_init 4096 24 0 garbage

tiny-IsPool : IsPool tiny [] []
unfolding slots
tiny-IsPool = slab_init-IsPool 4096 24 0 garbage (omega arith)

tiny_is_empty : slab_alloc none tiny ≡ (tiny, 0)
tiny_is_empty = alloc_empty none tiny [] tiny-IsPool static
  where
    static : tiny.dynamic ≡ false
    static = unfold slab_init build_free_list build_from in refl

alloc_pages_bounds_run :
    (wanted_pages 100 ≤ alloc_pages 100)
    × (alloc_pages 100 < wanted_pages 100 * 2)
    × (1 ≤ alloc_pages 100)
    × (alloc_pages 100 ≤ pages_alloc_max)
alloc_pages_bounds_run = alloc_pages_bounds 100
