-- ===== src/PageAlloc/Pages.antt =====
-- The page interface of src/kernel/mm/page_alloc.c: pages, runs of pages, huge pages and reference
-- counts. A page is given by its frame number. `Reclaim` is what `lazyfree_reclaim` and the OOM
-- killer do to the allocator and whether they found something. The pages' contents are left out.
use cosmo_rt.Common.{
  ℕ, zero, suc, ◌+◌, ◌-◌, ◌*◌, ◌/◌, ◌%◌, ◌^◌, ◌≤◌, ◌<◌, ◌≡◌, ap, Bool, Option, none, some, ltb, leb,
  ◌==◌, if◌then◌else◌, arith, Bool-cases, inl, inr,
}
use cosmo_rt.Common.Int.{ℤ, pos, negsuc}
use cosmo_rt.PageAlloc.{
  Buddy, max_order, buddy_alloc_order, buddy_free_order, order_from, order_for_pages,
}
use cosmo_rt.PageAlloc.Xor.{pow_suc}

abbrev pub Reclaim : Type 0
Reclaim = Buddy → Buddy × Bool

abbrev pub retry : (order : ℕ) → Reclaim → Buddy × Option ℕ → Buddy × Option ℕ
retry order reclaim (b, some pfn) = (b, some pfn)
retry order reclaim (b, none) =
    let r = reclaim b in if r.1 then buddy_alloc_order order r.0 else (r.0, none)

-- An allocation, a second one after `lazyfree_reclaim` and a third after the OOM killer.
unfoldable pub alloc_retrying :
    (lazyfree_reclaim try_oom_reclaim : Reclaim) → (order : ℕ) → Buddy → Buddy × Option ℕ
alloc_retrying lazyfree_reclaim try_oom_reclaim order b =
    retry order try_oom_reclaim (retry order lazyfree_reclaim (buddy_alloc_order order b))

-- `for (i = 0; i < n && pfn + i < max_pfn; i++) page_refcounts[pfn + i] = v`
unfoldable pub set_refcounts : (n pfn max_pfn v : ℕ) → (ℕ → ℕ) → ℕ → ℕ
set_refcounts zero pfn max_pfn v f = f
set_refcounts (suc n) pfn max_pfn v f =
    let rest = set_refcounts n (pfn + 1) max_pfn v (λ p. if p == pfn then v else f p) in
    if ltb pfn max_pfn then rest else f

abbrev pub owned : (n : ℕ) → Buddy × Option ℕ → Buddy × Option ℕ
owned n (b, none) = (b, none)
owned n (b, some pfn) =
    (record b { refcounts = set_refcounts n pfn b.max_pfn 1 b.refcounts }, some pfn)

unfoldable pub page_alloc : (lazyfree_reclaim try_oom_reclaim : Reclaim) → Buddy → Buddy × Option ℕ
unfolding alloc_retrying set_refcounts
page_alloc lazyfree_reclaim try_oom_reclaim b =
    owned 1 (alloc_retrying lazyfree_reclaim try_oom_reclaim 0 b)

unfoldable pub pages_alloc :
    (lazyfree_reclaim try_oom_reclaim : Reclaim) → (n : ℤ) → Buddy → Buddy × Option ℕ
unfolding alloc_retrying set_refcounts order_for_pages
pages_alloc lazyfree_reclaim try_oom_reclaim (negsuc n) b = (b, none)
pages_alloc lazyfree_reclaim try_oom_reclaim (pos n) b =
    let order = order_for_pages n in
    if n == 0
    then (b, none)
    else if ltb max_order order
    then (b, none)
    else owned (2 ^ order) (alloc_retrying lazyfree_reclaim try_oom_reclaim order b)

unfoldable pub huge_page_alloc :
    (lazyfree_reclaim try_oom_reclaim : Reclaim) → Buddy → Buddy × Option ℕ
unfolding alloc_retrying set_refcounts
huge_page_alloc lazyfree_reclaim try_oom_reclaim b =
    owned 512 (alloc_retrying lazyfree_reclaim try_oom_reclaim 9 b)

abbrev at_page : ℕ → ℕ → Buddy → Buddy
at_page pfn v b = record b { refcounts = λ p. if p == pfn then v else b.refcounts p }

-- A shared page only loses a reference.
unfoldable pub page_free : (pfn : ℕ) → Buddy → Buddy
unfolding buddy_free_order
page_free pfn b =
    if leb b.max_pfn pfn
    then b
    else if ltb 1 (b.refcounts pfn)
    then at_page pfn (b.refcounts pfn - 1) b
    else buddy_free_order pfn 0 (at_page pfn 0 b)

unfoldable pub pages_free : (pfn : ℕ) (n : ℤ) → Buddy → Buddy
unfolding buddy_free_order set_refcounts order_for_pages
pages_free pfn (negsuc n) b = b
pages_free pfn (pos n) b =
    let order = order_for_pages n in
    if n == 0
    then b
    else buddy_free_order pfn order
        (record b { refcounts = set_refcounts (2 ^ order) pfn b.max_pfn 0 b.refcounts })

-- `for (i = 0; i < n && pfn + i < max_pfn; i++) page_refcounts[pfn + i]--`, 16 bits wide.
unfoldable pub drop_refcounts : (n pfn max_pfn : ℕ) → (ℕ → ℕ) → ℕ → ℕ
drop_refcounts zero pfn max_pfn f = f
drop_refcounts (suc n) pfn max_pfn f =
    let dropped = λ (p : ℕ). if p == pfn then (f p + 2 ^ 16 - 1) % 2 ^ 16 else f p in
    let rest = drop_refcounts n (pfn + 1) max_pfn dropped in if ltb pfn max_pfn then rest else f

-- The count of the first page decides; the array has a count for each tracked page.
unfoldable pub huge_page_free : (pfn : ℕ) → Buddy → Buddy
unfolding buddy_free_order set_refcounts drop_refcounts
huge_page_free pfn b =
    if ltb 1 (b.refcounts pfn)
    then record b { refcounts = drop_refcounts 512 pfn b.max_pfn b.refcounts }
    else buddy_free_order pfn 9
        (record b { refcounts = set_refcounts 512 pfn b.max_pfn 0 b.refcounts })

unfoldable pub page_incref : (phys : ℕ) → Buddy → Buddy
page_incref phys b =
    let pfn = phys / 4096 in
    if leb b.max_pfn pfn then b else at_page pfn ((b.refcounts pfn + 1) % 2 ^ 16) b

-- The new count, which for a count of 0 is -1.
unfoldable pub page_decref : (phys : ℕ) → Buddy → Buddy × ℤ
page_decref phys b =
    let pfn = phys / 4096 in
    if leb b.max_pfn pfn then (b, pos 0) else (
      at_page pfn ((b.refcounts pfn + 2 ^ 16 - 1) % 2 ^ 16) b,
      if b.refcounts pfn == 0 then negsuc 0 else pos (b.refcounts pfn - 1),
    )

unfoldable pub page_refcount : (phys : ℕ) → Buddy → ℕ
page_refcount phys b = if leb b.max_pfn (phys / 4096) then 0 else b.refcounts (phys / 4096)

unfoldable pub page_free_count : Buddy → ℕ
page_free_count b = if ltb b.alloc_count b.total_pages then b.total_pages - b.alloc_count else 0

-- The order for `n` pages: the smallest whose blocks have at least `n`.
order_from_bounds :
    (fuel order n : ℕ)
    → n ≤ 2 ^ (order + fuel)
    → 2 ^ order < n * 2
    → let o = order_from fuel order n in (n ≤ 2 ^ o) × (2 ^ o < n * 2)
unfolding order_from
order_from_bounds zero order n p q =
    let size : 2 ^ (order + 0) ≡ 2 ^ order = ap (λ k. 2 ^ k) (omega arith) in
    (omega (arith, size), q)
order_from_bounds (suc fuel) order n p q = elim (Bool-cases (ltb (2 ^ order) n)) [
  | inl t ↦
      let size : 2 ^ (order + 1 + fuel) ≡ 2 ^ (order + suc fuel) = ap (λ k. 2 ^ k) (omega arith) in
      rw t (
        order_from_bounds fuel (order + 1) n (omega (arith, size))
          (ground (arith, t, pow_suc order)))
  | inr t ↦ rw t (ground (arith, t), q)
]

-- For 1 to 2 ^ 31 - 1 pages `order_for_pages` ends at the order whose blocks have at least so many
-- pages and fewer than twice as many.
pub order_for_pages_bounds :
    (n : ℕ) → 0 < n → n < 2 ^ 31 → (n ≤ 2 ^ order_for_pages n) × (2 ^ order_for_pages n < n * 2)
unfolding order_for_pages
order_for_pages_bounds n p q = order_from_bounds 31 0 n (omega arith) (omega arith)
