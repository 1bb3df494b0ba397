-- ===== src/PageAlloc/Tests.antt =====
-- Eight page frames, from 3 to 10, in the buddy allocator (src/kernel/mm/page_alloc.c).
use cosmo_rt.Common.{
  ℕ, ◌+◌, ◌*◌, ◌^◌, ◌≤◌, ◌<◌, ◌≡◌, refl, ap, true, false, ◌&&◌, not, some, [], ◌∷◌, ltb, leb,
  if◌then◌else◌, arith,
}
use cosmo_rt.PageAlloc.{
  Buddy, fill, split, mark, serve, alloc_from, buddy_alloc_order, all_clear, unlink, merged, merge,
  buddy_free_order, order_for_pages, order_at, add_blocks, add_region,
}
use cosmo_rt.PageAlloc.Cover.{within, cover_list, cover_upto, cover, IsBuddy}
use cosmo_rt.PageAlloc.Alloc.{Allocates, buddy_alloc-Allocates}
use cosmo_rt.PageAlloc.Free.{buddy_free-IsBuddy}
use cosmo_rt.PageAlloc.Region.{IsAdding, add_region-IsBuddy}
use cosmo_rt.PageAlloc.Pages.{order_for_pages_bounds}
use cosmo_rt.PageAlloc.RoundTrip.{buddy_free-buddy_alloc, alloc-IsBuddy}

abbrev boot : Buddy
boot = record {
  free_lists = λ o. [];
  bitmap = λ p. not (leb 3 p && ltb p 11);
  refcounts = λ p. 0;
  max_pfn = 16;
  total_pages = 0;
  alloc_count = 0;
}

boot-IsAdding : IsAdding 3 11 boot
unfolding within cover_list cover_upto cover
boot-IsAdding = record { exact = λ page. ground arith; aligned = λ o. tt }

abbrev ready : Buddy
ready = add_region 12288 45056 boot

ready_singles : ready.free_lists 0 ≡ 10 ∷ 3 ∷ []
unfolding add_region add_blocks order_at
ready_singles = refl

ready_fours : ready.free_lists 2 ≡ 4 ∷ []
unfolding add_region add_blocks order_at
ready_fours = refl

add_region-IsBuddy_example :
    IsBuddy ready × (ready.total_pages + 3 ≡ boot.total_pages + 11) × (ready.bitmap ≡ boot.bitmap)
add_region-IsBuddy_example = add_region-IsBuddy 12288 45056 boot (omega arith) boot-IsAdding

buddy_alloc-Allocates_example : Allocates 1 ready (buddy_alloc_order 1 ready)
buddy_alloc-Allocates_example =
    buddy_alloc-Allocates 1 ready (omega arith) add_region-IsBuddy_example.0

abbrev taken : Buddy
taken = (buddy_alloc_order 1 ready).0

ready_gives : (buddy_alloc_order 1 ready).1 ≡ some 8
unfolding buddy_alloc_order alloc_from serve add_region add_blocks order_at mark split
ready_gives = refl

ready_hands_out : buddy_alloc_order 1 ready ≡ (taken, some 8)
ready_hands_out = ap (λ o. (taken, o)) ready_gives

taken_marked : (page : ℕ) → 8 ≤ page → page < 8 + 2 ^ 1 → taken.bitmap page ≡ true
unfolding buddy_alloc_order alloc_from serve add_region add_blocks order_at mark split fill
taken_marked page p q = ground arith

taken_count : taken.alloc_count ≡ 2
unfolding buddy_alloc_order alloc_from serve add_region add_blocks order_at mark split
taken_count = refl

ready_count : ready.alloc_count ≡ 0
unfolding add_region add_blocks order_at
ready_count = refl

buddy_free-IsBuddy_example :
    let r = buddy_free_order 8 1 taken in
    IsBuddy r
    × (r.alloc_count + 2 ^ 1 ≡ taken.alloc_count)
    × ((page : ℕ)
        → r.bitmap page ≡ (if leb 8 page && ltb page (8 + 2 ^ 1) then false else taken.bitmap page))
buddy_free-IsBuddy_example =
    buddy_free-IsBuddy 1 4 8 taken (omega arith) refl taken_marked (omega (arith, taken_count))
      (omega (arith, taken_count))
      (alloc-IsBuddy 1 ready (omega arith) add_region-IsBuddy_example.0)

buddy_free-buddy_alloc_example :
    let r = buddy_free_order 8 1 taken in
    IsBuddy r
    × (r.alloc_count ≡ ready.alloc_count)
    × ((page : ℕ) → r.bitmap page ≡ ready.bitmap page)
buddy_free-buddy_alloc_example =
    buddy_free-buddy_alloc 1 8 ready taken (omega arith) (omega (arith, ready_count))
      add_region-IsBuddy_example.0 ready_hands_out

freed_merged : (buddy_free_order 8 1 taken).free_lists 1 ≡ 8 ∷ []
unfolding buddy_alloc_order alloc_from serve add_region add_blocks order_at mark split fill
    buddy_free_order merge all_clear unlink merged
freed_merged = refl

order_for_pages_bounds_example : (5 ≤ 2 ^ order_for_pages 5) × (2 ^ order_for_pages 5 < 5 * 2)
order_for_pages_bounds_example = order_for_pages_bounds 5 (omega arith) (omega arith)
