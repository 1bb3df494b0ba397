-- ===== src/PageAlloc/Alloc.antt =====
-- `buddy_alloc_order` of src/kernel/mm/page_alloc.c.
use mathlib.Core.Path.{subst}
use native.Mathlib.Decide.{dec_lt}
use cosmo_rt.Common.{
  ℕ, zero, suc, ◌+◌, ◌-◌, ◌*◌, ◌^◌, ◌≤◌, ◌<◌, ◌≡◌, refl, sym, ap, ap₂, ◌∙◌, Bool, true, false, ◌&&◌,
  Option, none, some, List, [], ◌∷◌, ltb, leb, if◌then◌else◌, arith,
}
use cosmo_rt.PageAlloc.{Buddy, with_list, push, split, mark, serve, alloc_from, buddy_alloc_order}
use cosmo_rt.PageAlloc.Xor.{twice_block, next_block}
use cosmo_rt.PageAlloc.Cover.{
  within, cover_list, cover, bit, Multiples, IsBuddy, cover-with_list, cover-push, within_halves,
  fill_lem, Multiples-push, Multiples-with_list,
}

cover-split :
    (k o blk : ℕ) (b : Buddy) (page : ℕ)
    → k ≤ o
    → o < 10
    → cover (split k o blk b) page + within (2 ^ (o - k)) blk page
      ≡ cover b page + within (2 ^ o) blk page
unfolding split
cover-split zero o blk b page p q = ap (λ n. cover b page + within (2 ^ n) blk page) (omega arith)
cover-split (suc k) o blk b page p q =
    let o' = o - 1 in
    let b' = push o' (blk + 2 ^ o') b in
    let whole : within (2 ^ (o' + 1)) blk page ≡ within (2 ^ o) blk page =
      ap (λ n. within (2 ^ n) blk page) (omega arith) in
    let low : within (2 ^ (o' - k)) blk page ≡ within (2 ^ (o - suc k)) blk page =
      ap (λ n. within (2 ^ n) blk page) (omega arith) in
    omega (
      arith,
      cover-split k o' blk b' page (omega arith) (omega arith),
      cover-push o' (blk + 2 ^ o') b page (omega arith),
      within_halves o' blk page,
      whole,
      low,
    )

-- What `split` leaves alone.
split_same :
    (k o blk : ℕ) (b : Buddy)
    → ((split k o blk b).bitmap ≡ b.bitmap)
      × ((split k o blk b).alloc_count ≡ b.alloc_count)
      × ((split k o blk b).max_pfn ≡ b.max_pfn)
      × ((split k o blk b).refcounts ≡ b.refcounts)
      × ((split k o blk b).total_pages ≡ b.total_pages)
unfolding split
split_same zero o blk b = (refl, refl, refl, refl, refl)
split_same (suc k) o blk b = split_same k (o - 1) blk (push (o - 1) (blk + 2 ^ (o - 1)) b)

Multiples-split :
    (k o q blk : ℕ) (b : Buddy)
    → k ≤ o
    → blk ≡ q * 2 ^ o
    → ((n : ℕ) → Multiples n (b.free_lists n))
    → (n : ℕ) → Multiples n ((split k o blk b).free_lists n)
unfolding split
Multiples-split zero o q blk b p e h = h
Multiples-split (suc k) o q blk b p e h =
    let o' = o - 1 in
    let size : q * 2 ^ o ≡ q * 2 ^ (o' + 1) = ap (λ n. q * 2 ^ n) (omega arith) in
    let lower : blk ≡ q * 2 * 2 ^ o' = e ∙ (size ∙ sym (twice_block o' q)) in
    let upper : blk + 2 ^ o' ≡ (q * 2 + 1) * 2 ^ o' = omega (arith, e, size, next_block o' q) in
    Multiples-split k o' (q * 2) blk (push o' (blk + 2 ^ o') b) (omega arith) lower
      (Multiples-push o' (q * 2 + 1) (blk + 2 ^ o') b upper h)

-- What an allocation does: it hands out an aligned block none of whose pages was marked, marks its
-- pages and no other, and counts them; or no block of the order or a larger one is free, and nothing
-- changes.
pub data Allocates (order : ℕ) (b : Buddy) : Buddy × Option ℕ → Type 0 where
  handed :
      (b' : Buddy) (q blk : ℕ)
      → blk ≡ q * 2 ^ order
      → ((page : ℕ) → within (2 ^ order) blk page ≡ 1 → b.bitmap page ≡ false)
      → ((page : ℕ)
          → b'.bitmap page
            ≡ (if leb blk page && ltb page (blk + 2 ^ order) then true else b.bitmap page))
      → b'.alloc_count ≡ b.alloc_count + 2 ^ order
      → IsBuddy b'
      → Allocates order b (b', some blk)
  exhausted : ((o : ℕ) → order ≤ o → o < 10 → b.free_lists o ≡ []) → Allocates order b (b, none)

-- The bit of a page that a block of the free lists holds.
clear_of_cover : (c w : ℕ) (v : Bool) → c + bit v ≡ 1 → w ≤ c → w ≡ 1 → v ≡ false
clear_of_cover c w v e p q = ground arith

-- Marking the pages of a block that has left the free lists.
exact-mark :
    (c w : ℕ) (inside v : Bool)
    → w ≡ bit inside
    → c + w + bit v ≡ 1
    → c + bit (if inside then true else v) ≡ 1
exact-mark c w inside v e h = ground arith

-- A multiple of a block's size is one of each smaller size.
multiple_below : (k o q blk : ℕ) → k ≤ o → blk ≡ q * 2 ^ o → (q' : ℕ) × (blk ≡ q' * 2 ^ (o - k))
multiple_below zero o q blk p e = (q, e ∙ ap (λ n. q * 2 ^ n) (omega arith))
multiple_below (suc k) o q blk p e =
    let o' = o - 1 in
    let size : q * 2 ^ o ≡ q * 2 ^ (o' + 1) = ap (λ n. q * 2 ^ n) (omega arith) in
    let r = multiple_below k o' (q * 2) blk (omega arith) (e ∙ (size ∙ sym (twice_block o' q))) in
    (r.0, r.1 ∙ ap (λ n. r.0 * 2 ^ n) (omega arith))

cover-mark : (order blk : ℕ) (b : Buddy) (page : ℕ) → cover (mark order blk b) page ≡ cover b page
unfolding cover mark
cover-mark order blk b page = refl

-- The cover after the block has left its list and its upper parts have come back.
cover_taken :
    (order o blk : ℕ) (rest : List ℕ) (b : Buddy) (page : ℕ)
    → order ≤ o
    → o < 10
    → b.free_lists o ≡ blk ∷ rest
    → cover (split (o - order) o blk (with_list o rest b)) page + within (2 ^ order) blk page
      ≡ cover b page
unfolding cover_list
cover_taken order o blk rest b page p q e =
    let list : cover_list o (b.free_lists o) page
        ≡ within (2 ^ o) blk page + cover_list o rest page =
      ap (λ xs. cover_list o xs page) e in
    let size : within (2 ^ (o - (o - order))) blk page ≡ within (2 ^ order) blk page =
      ap (λ n. within (2 ^ n) blk page) (omega arith) in
    omega (
      arith,
      cover-split (o - order) o blk (with_list o rest b) page (omega arith) q,
      cover-with_list o rest b page q,
      list,
      size,
    )

serve-Allocates :
    (order o blk : ℕ) (rest : List ℕ) (b : Buddy) (later : Buddy × Option ℕ)
    → order ≤ o
    → o < 10
    → b.free_lists o ≡ blk ∷ rest
    → IsBuddy b
    → Allocates order b (serve order o (blk ∷ rest) b later)
unfolding serve
serve-Allocates order o blk rest b later p q e h =
    let b1 = split (o - order) o blk (with_list o rest b) in
    let same = split_same (o - order) o blk (with_list o rest b) in
    let multiple = subst (λ xs. Multiples o xs) e (h.aligned o) in
    let below = multiple_below (o - order) o multiple.0.0 blk (omega arith) multiple.0.1 in
    let bits : (page : ℕ)
        → (mark order blk b1).bitmap page
          ≡ (if leb blk page && ltb page (blk + 2 ^ order) then true else b.bitmap page) =
      λ page.
        marked b1 page
        ∙ ap (λ f. if leb blk page && ltb page (blk + 2 ^ order) then true else f page) same.0 in
    handed (mark order blk b1) below.0 blk (below.1 ∙ ap (λ n. below.0 * 2 ^ n) (omega arith))
      (λ page w.
        clear_of_cover (cover b page) (within (2 ^ order) blk page) (b.bitmap page) (h.exact page)
          (omega (arith, cover_taken order o blk rest b page p q e)) w)
      bits (counted b1 ∙ ap (λ n. n + 2 ^ order) same.1)
      (record {
        exact = λ page.
            ap₂ (λ c v. c + bit v) (cover-mark order blk b1 page) (bits page)
            ∙ exact-mark (cover b1 page) (within (2 ^ order) blk page)
                (leb blk page && ltb page (blk + 2 ^ order)) (b.bitmap page)
                (within_bit (2 ^ order) blk page)
                (omega (arith, h.exact page, cover_taken order o blk rest b page p q e));
        aligned = λ n. marked_lists b1 n (
            Multiples-split (o - order) o multiple.0.0 blk (with_list o rest b) (omega arith)
              multiple.0.1 (Multiples-with_list o rest b multiple.1 h.aligned) n);
      })
  where
    marked :
        (b1 : Buddy) (page : ℕ)
        → (mark order blk b1).bitmap page
          ≡ (if leb blk page && ltb page (blk + 2 ^ order) then true else b1.bitmap page)
    marked b1 page = unfold mark in fill_lem (2 ^ order) blk true b1.bitmap page

    counted : (b1 : Buddy) → (mark order blk b1).alloc_count ≡ b1.alloc_count + 2 ^ order
    counted b1 = unfold mark in refl

    within_bit :
        (n first page : ℕ) → within n first page ≡ bit (leb first page && ltb page (first + n))
    within_bit n first page = unfold within in ground arith

    marked_lists :
        (b1 : Buddy) (n : ℕ)
        → Multiples n (b1.free_lists n)
        → Multiples n ((mark order blk b1).free_lists n)
    marked_lists b1 n m = unfold mark in m

alloc_from-Allocates :
    (n o order : ℕ) (b : Buddy)
    → order ≤ o
    → o + n ≡ 10
    → ((k : ℕ) → order ≤ k → k < o → b.free_lists k ≡ [])
    → IsBuddy b
    → Allocates order b (alloc_from n o order b)
unfolding alloc_from
alloc_from-Allocates zero o order b p q none_ h = exhausted (λ k r s. none_ k r (omega arith))
alloc_from-Allocates (suc n) o order b p q none_ h =
    at_list (b.free_lists o) refl
      (λ e. alloc_from-Allocates n (o + 1) order b (omega arith) (omega arith) (further e) h)
  where
    further : b.free_lists o ≡ [] → (k : ℕ) → order ≤ k → k < o + 1 → b.free_lists k ≡ []
    further e k r s = elim (dec_lt k o) [
      | yes below ↦ none_ k r below
      | no above ↦ ap b.free_lists (omega arith) ∙ e
    ]

    at_list :
        (xs : List ℕ)
        → b.free_lists o ≡ xs
        → (b.free_lists o ≡ [] → Allocates order b (alloc_from n (o + 1) order b))
        → Allocates order b (serve order o xs b (alloc_from n (o + 1) order b))
    at_list [] e later = unfold serve in later e
    at_list (blk ∷ rest) e later =
        serve-Allocates order o blk rest b (alloc_from n (o + 1) order b) p (omega arith) e h

-- Where each page is either marked or in one free block, `buddy_alloc_order` of an order up to 9
-- hands out a block at a multiple of its size whose pages were all unmarked, marks just those pages,
-- counts them and keeps that; or no block of that order or above is free,
-- and it returns null and changes nothing.
pub buddy_alloc-Allocates :
    (order : ℕ) (b : Buddy) → order ≤ 9 → IsBuddy b → Allocates order b (buddy_alloc_order order b)
unfolding buddy_alloc_order
buddy_alloc-Allocates order b p h =
    alloc_from-Allocates (10 - order) order order b (omega arith) (omega arith)
      (λ k r s. absurd (omega arith)) h
