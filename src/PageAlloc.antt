-- ===== src/PageAlloc.antt =====
-- The buddy allocator of src/kernel/mm/page_alloc.c. A page is given by its frame number, and a
-- block of the order `o` is 2 ^ `o` pages from its first one; the free list of an order is the list
-- of its blocks, which the C code links through the blocks themselves.
pub mod Xor
pub mod Cover
pub mod Alloc
pub mod Free
pub mod Region
pub mod Pages
pub mod RoundTrip
mod Tests
use Prim.Native.Nat.{bit_xor}
use cosmo_rt.Common.{
  ℕ, zero, suc, ◌+◌, ◌-◌, ◌*◌, ◌/◌, ◌%◌, ◌^◌, min, Bool, true, false, ◌&&◌, not, Option, none, some,
  List, [], ◌∷◌, ltb, leb, ◌==◌, if◌then◌else◌,
}

abbrev pub max_order : ℕ
max_order = 9

-- The free lists by order, the bitmap (set for an allocated page), the reference counts and the
-- counters. `max_pfn` is the number of the page frames that are tracked.
pub record Buddy : Type 0 where
  pub free_lists : ℕ → List ℕ
  pub bitmap : ℕ → Bool
  pub refcounts : ℕ → ℕ
  pub max_pfn : ℕ
  pub total_pages : ℕ
  pub alloc_count : ℕ

abbrev pub with_list : ℕ → List ℕ → Buddy → Buddy
with_list o xs b = record b { free_lists = λ k. if k == o then xs else b.free_lists k }

-- `blk->next = free_lists[o]; free_lists[o] = blk`
abbrev pub push : ℕ → ℕ → Buddy → Buddy
push o blk b = with_list o (blk ∷ b.free_lists o) b

-- `for (i = 0; i < n; i++) bm_set(pfn + i)`, or `bm_clear`.
unfoldable pub fill : (n pfn : ℕ) → Bool → (ℕ → Bool) → ℕ → Bool
fill zero pfn v f = f
fill (suc n) pfn v f = fill n (pfn + 1) v (λ p. if p == pfn then v else f p)

-- `while (o > order)` in `k` rounds: the upper half of the block goes to the list below.
unfoldable pub split : (k o blk : ℕ) → Buddy → Buddy
split zero o blk b = b
split (suc k) o blk b = split k (o - 1) blk (push (o - 1) (blk + 2 ^ (o - 1)) b)

unfoldable pub mark : (order blk : ℕ) → Buddy → Buddy
unfolding fill
mark order blk b = record b {
  bitmap = fill (2 ^ order) blk true b.bitmap;
  alloc_count = b.alloc_count + 2 ^ order;
}

-- The round of the search at the order `o` with its free list; `later` are the rounds above.
unfoldable pub serve : (order o : ℕ) → List ℕ → Buddy → Buddy × Option ℕ → Buddy × Option ℕ
unfolding split mark
serve order o [] b later = later
serve order o (blk ∷ rest) b later =
    (mark order blk (split (o - order) o blk (with_list o rest b)), some blk)

-- The search from the order `o` up, `n` orders in all.
unfoldable pub alloc_from : (n o order : ℕ) → Buddy → Buddy × Option ℕ
unfolding serve
alloc_from zero o order b = (b, none)
alloc_from (suc n) o order b = serve order o (b.free_lists o) b (alloc_from n (o + 1) order b)

unfoldable pub buddy_alloc_order : (order : ℕ) → Buddy → Buddy × Option ℕ
unfolding alloc_from
buddy_alloc_order order b = alloc_from (max_order + 1 - order) order order b

-- Whether none of the `n` pages is marked in the bitmap.
unfoldable pub all_clear : (n pfn : ℕ) → (ℕ → Bool) → Bool
all_clear zero pfn f = true
all_clear (suc n) pfn f = let rest = all_clear n (pfn + 1) f in if f pfn then false else rest

abbrev pub behind : ℕ → Option (List ℕ) → Option (List ℕ)
behind x none = none
behind x (some ys) = some (x ∷ ys)

-- The list without its first `blk`, if that is in it.
unfoldable pub unlink : ℕ → List ℕ → Option (List ℕ)
unlink blk [] = none
unlink blk (x ∷ xs) = let later = behind x (unlink blk xs) in if x == blk then some xs else later

unfoldable pub merged : (order : ℕ) → Option (List ℕ) → (stop : Buddy) → (List ℕ → Buddy) → Buddy
merged order none stop go = stop
merged order (some rest) stop go = go rest

-- `while (order < MAX_ORDER)` in at most `n` rounds: the block is merged with its buddy while that
-- is free as a whole, and what comes of it goes to its free list.
unfoldable pub merge : (n order pfn : ℕ) → Buddy → Buddy
unfolding all_clear unlink merged
merge zero order pfn b = push order pfn b
merge (suc n) order pfn b =
    let bud = bit_xor pfn (2 ^ order) in
    let further =
      merged order (unlink bud (b.free_lists order)) (push order pfn b)
        (λ rest. merge n (order + 1) (if ltb bud pfn then bud else pfn) (with_list order rest b)) in
    if ltb b.max_pfn (bud + 2 ^ order)
    then push order pfn b
    else if not (all_clear (2 ^ order) bud b.bitmap)
    then push order pfn b
    else further

-- A 64-bit difference.
abbrev pub sub64 : ℕ → ℕ → ℕ
sub64 a c = (a + 2 ^ 64 - c) % 2 ^ 64

unfoldable pub buddy_free_order : (pfn order : ℕ) → Buddy → Buddy
unfolding fill merge
buddy_free_order pfn order b =
    let freed = merge (max_order - order) order pfn (record b {
      bitmap = fill (2 ^ order) pfn false b.bitmap;
      alloc_count = sub64 b.alloc_count (2 ^ order);
    }) in
    if not (b.bitmap pfn) then b else freed

-- `while ((1ULL << order) < n) order++`, in at most `fuel` rounds.
unfoldable pub order_from : (fuel order n : ℕ) → ℕ
order_from zero order n = order
order_from (suc fuel) order n =
    let rest = order_from fuel (order + 1) n in if ltb (2 ^ order) n then rest else order

-- `n` is a positive `int`, below 2 ^ 31.
unfoldable pub order_for_pages : ℕ → ℕ
unfolding order_from
order_for_pages n = order_from 31 0 n

-- The largest order at which a block at `addr` is aligned and fits below `end_`, from `order` on.
unfoldable pub order_at : (fuel order addr end_ : ℕ) → ℕ
order_at zero order addr end_ = order
order_at (suc fuel) order addr end_ =
    let rest = order_at fuel (order + 1) addr end_ in
    if (addr % 2 ^ (order + 1) == 0) && leb (addr + 2 ^ (order + 1)) end_ then rest else order

-- The loop of `add_region` over page frames, in at most `fuel` rounds.
unfoldable pub add_blocks : (fuel addr end_ : ℕ) → Buddy → Buddy
unfolding order_at
add_blocks zero addr end_ b = b
add_blocks (suc fuel) addr end_ b =
    let order = order_at max_order 0 addr end_ in
    let pushed = push order addr b in
    let rest =
      add_blocks fuel (addr + 2 ^ order) end_
        (record pushed { total_pages = b.total_pages + 2 ^ order }) in
    if ltb addr end_ then rest else b

-- `add_region` of the physical addresses from `phys_start` to `phys_end`.
unfoldable pub add_region : (phys_start phys_end : ℕ) → Buddy → Buddy
unfolding add_blocks
add_region phys_start phys_end b =
    let first = (phys_start + 4095) / 4096 in
    let last = phys_end / 4096 in add_blocks (last - first) first last b
