-- ===== src/PageAlloc/Free.antt =====
-- `buddy_free_order` of src/kernel/mm/page_alloc.c.
use Prim.Native.Nat.{bit_xor}
use mathlib.Core.Path.{subst}
use cosmo_rt.Common.{
  ℕ, zero, suc, ◌+◌, ◌-◌, ◌*◌, ◌^◌, ◌≤◌, ◌<◌, ◌≡◌, refl, sym, ap, ◌∙◌, Bool, true, false, ◌&&◌, not,
  Option, none, some, List, [], ◌∷◌, ltb, leb, ◌==◌, if◌then◌else◌, arith, Bool-cases, Option-cases,
  inl, inr,
}
use cosmo_rt.PageAlloc.{
  Buddy, with_list, push, fill, all_clear, unlink, merged, merge, sub64, buddy_free_order,
}
use cosmo_rt.PageAlloc.Xor.{Halves, lower, upper, bit_xor-Halves, two_pow_pos}
use cosmo_rt.PageAlloc.Cover.{
  within, cover_list, cover, bit, Multiples, IsBuddy, cover-with_list, cover-push, within_halves,
  fill_lem, Multiples-push, Multiples-with_list,
}

-- The state in the middle of a free: each page is marked, in one free block or in the block that is
-- being freed.
record IsPending (order pfn : ℕ) (b : Buddy) : Type 0 where
  pub exact : (page : ℕ) → cover b page + within (2 ^ order) pfn page + bit (b.bitmap page) ≡ 1
  pub aligned : (o : ℕ) → Multiples o (b.free_lists o)

unlink_cover :
    (o blk : ℕ) (xs ys : List ℕ) (page : ℕ)
    → unlink blk xs ≡ some ys
    → cover_list o xs page ≡ within (2 ^ o) blk page + cover_list o ys page
unfolding unlink cover_list
unlink_cover o blk [] ys page e = absurd (cc)
unlink_cover o blk (x ∷ xs) ys page e = elim (Bool-cases (x == blk)) [
  | inl s ↦ ground (arith, s)
  | inr s ↦ elim (Option-cases (unlink blk xs)) [
    | inl n ↦ absurd (ground (arith, s, n))
    | inr (zs, f) ↦
        let shape : x ∷ zs ≡ ys = ground (arith, s, f) in
        rw (← shape) (omega (arith, unlink_cover o blk xs zs page f))
  ]
]

unlink-Multiples :
    (o blk : ℕ) (xs ys : List ℕ) → unlink blk xs ≡ some ys → Multiples o xs → Multiples o ys
unfolding unlink
unlink-Multiples o blk [] ys e m = absurd (cc)
unlink-Multiples o blk (x ∷ xs) ys e m = elim (Bool-cases (x == blk)) [
  | inl s ↦ let shape : xs ≡ ys = ground (arith, s) in rw (← shape) m.1
  | inr s ↦ elim (Option-cases (unlink blk xs)) [
    | inl n ↦ absurd (ground (arith, s, n))
    | inr (zs, f) ↦
        let shape : x ∷ zs ≡ ys = ground (arith, s, f) in
        rw (← shape) (m.0, unlink-Multiples o blk xs zs f m.1)
  ]
]

push-IsBuddy :
    (order q pfn : ℕ) (b : Buddy)
    → order < 10
    → pfn ≡ q * 2 ^ order
    → IsPending order pfn b
    → IsBuddy (push order pfn b)
push-IsBuddy order q pfn b p e h = record {
  exact = λ page. omega (arith, h.exact page, cover-push order pfn b page p);
  aligned = Multiples-push order q pfn b e h.aligned;
}

-- The block and its buddy, which leaves its free list, become the pending block of the next order.
merge_step :
    (order low blk bud : ℕ) (rest : List ℕ) (b : Buddy)
    → order < 9
    → unlink bud (b.free_lists order) ≡ some rest
    → ((page : ℕ)
        → within (2 ^ (order + 1)) low page
          ≡ within (2 ^ order) blk page + within (2 ^ order) bud page)
    → IsPending order blk b
    → IsPending (order + 1) low (with_list order rest b)
merge_step order low blk bud rest b p u w h = record {
  exact = λ page. omega (
    arith,
    h.exact page,
    cover-with_list order rest b page (omega arith),
    unlink_cover order bud (b.free_lists order) rest page u,
    w page,
  );
  aligned =
      Multiples-with_list order rest b
        (unlink-Multiples order bud (b.free_lists order) rest u (h.aligned order)) h.aligned;
}

if-IsBuddy : (c : Bool) {x y : Buddy} → IsBuddy x → IsBuddy y → IsBuddy (if c then x else y)
if-IsBuddy true hx hy = hx
if-IsBuddy false hx hy = hy

merged-IsBuddy :
    (order : ℕ) (o : Option (List ℕ)) {stop : Buddy} {go : List ℕ → Buddy}
    → IsBuddy stop
    → ((rest : List ℕ) → o ≡ some rest → IsBuddy (go rest))
    → IsBuddy (merged order o stop go)
unfolding merged
merged-IsBuddy order none s g = s
merged-IsBuddy order (some rest) s g = g rest refl

-- The round after a merge, with the rule for the rounds that are left.
merge_further :
    (order pfn bud : ℕ) (rest : List ℕ) (b : Buddy) (next : ℕ → ℕ → Buddy → Buddy)
    → order < 9
    → unlink bud (b.free_lists order) ≡ some rest
    → Halves order pfn bud
    → ((q low : ℕ) (c : Buddy)
        → low ≡ q * 2 ^ (order + 1)
        → IsPending (order + 1) low c
        → IsBuddy (next (order + 1) low c))
    → IsPending order pfn b
    → IsBuddy (next (order + 1) (if ltb bud pfn then bud else pfn) (with_list order rest b))
merge_further order pfn bud rest b next p u (lower m f g) rule h =
    let below : ltb bud pfn ≡ false = ground arith in
    let halves = λ (page : ℕ).
      within_halves order pfn page
      ∙ ap (λ k. within (2 ^ order) pfn page + within (2 ^ order) k page) (sym g) in
    rw below
      (rule m pfn (with_list order rest b) f (merge_step order pfn pfn bud rest b p u halves h))
merge_further order pfn bud rest b next p u (upper m f g) rule h =
    let above : ltb bud pfn ≡ true = ground (arith, two_pow_pos order) in
    let halves : (page : ℕ)
        → within (2 ^ (order + 1)) bud page
          ≡ within (2 ^ order) pfn page + within (2 ^ order) bud page =
      λ page. omega (arith, within_halves order bud page, ap (λ k. within (2 ^ order) k page) g) in
    rw above
      (rule m bud (with_list order rest b) f (merge_step order bud pfn bud rest b p u halves h))

merge-IsBuddy :
    (n order q pfn : ℕ) (b : Buddy)
    → n + order ≡ 9
    → pfn ≡ q * 2 ^ order
    → IsPending order pfn b
    → IsBuddy (merge n order pfn b)
unfolding merge
merge-IsBuddy zero order q pfn b p e h = push-IsBuddy order q pfn b (omega arith) e h
merge-IsBuddy (suc n) order q pfn b p e h =
    let stop = push-IsBuddy order q pfn b (omega arith) e h in
    let bud = bit_xor pfn (2 ^ order) in
    let halves =
      subst (λ k. Halves order k (bit_xor k (2 ^ order))) (sym e) (bit_xor-Halves order q) in
    if-IsBuddy (ltb b.max_pfn (bud + 2 ^ order)) stop (
      if-IsBuddy (not (all_clear (2 ^ order) bud b.bitmap)) stop (
        merged-IsBuddy order (unlink bud (b.free_lists order)) stop (λ rest u.
          merge_further order pfn bud rest b (merge n) (omega arith) u halves
            (λ q' low c f k. merge-IsBuddy n (order + 1) q' low c (omega arith) f k) h)))

-- What merging leaves alone.
record SameBits (x b : Buddy) : Type 0 where
  pub bitmap_same : x.bitmap ≡ b.bitmap
  pub count_same : x.alloc_count ≡ b.alloc_count

if-SameBits :
    (c : Bool) {x y b : Buddy} → SameBits x b → SameBits y b → SameBits (if c then x else y) b
if-SameBits true hx hy = hx
if-SameBits false hx hy = hy

merge_same : (n order pfn : ℕ) (b : Buddy) → SameBits (merge n order pfn b) b
unfolding merge merged
merge_same zero order pfn b = (record { bitmap_same = refl; count_same = refl })
merge_same (suc n) order pfn b =
    let bud = bit_xor pfn (2 ^ order) in
    if-SameBits (ltb b.max_pfn (bud + 2 ^ order)) (record { bitmap_same = refl; count_same = refl })
      (if-SameBits (not (all_clear (2 ^ order) bud b.bitmap))
        (record { bitmap_same = refl; count_same = refl })
        (through (unlink bud (b.free_lists order)) (λ rest.
          let r =
            merge_same n (order + 1) (if ltb bud pfn then bud else pfn) (with_list order rest b) in
          record { bitmap_same = r.bitmap_same; count_same = r.count_same })))
  where
    through :
        (o : Option (List ℕ)) {go : List ℕ → Buddy}
        → ((rest : List ℕ) → SameBits (go rest) b)
        → SameBits (merged order o (push order pfn b) go) b
    through none f = (record { bitmap_same = refl; count_same = refl })
    through (some rest) f = f rest

clear_bit :
    (c w : ℕ) (inside v : Bool)
    → w ≡ bit inside
    → (inside ≡ true → v ≡ true)
    → c + bit v ≡ 1
    → c + w + bit (if inside then false else v) ≡ 1
clear_bit c w true v e m h = omega (arith, e, h, ap bit (m refl))
clear_bit c w false v e m h = omega (arith, e, h)

-- The state after the bits of the block are cleared.
cleared-IsPending :
    (order pfn count : ℕ) (b : Buddy)
    → ((page : ℕ) → pfn ≤ page → page < pfn + 2 ^ order → b.bitmap page ≡ true)
    → IsBuddy b
    → IsPending order pfn
        (record b { bitmap = fill (2 ^ order) pfn false b.bitmap; alloc_count = count })
unfolding cover within
cleared-IsPending order pfn count b marked h = record {
  exact = λ page.
      let inside = leb pfn page && ltb page (pfn + 2 ^ order) in
      let set_ : inside ≡ true → b.bitmap page ≡ true =
        λ i. marked page (ground arith) (ground arith) in
      ap (λ v. cover b page + within (2 ^ order) pfn page + bit v)
        (fill_lem (2 ^ order) pfn false b.bitmap page)
      ∙ clear_bit (cover b page) (within (2 ^ order) pfn page) inside (b.bitmap page) (ground arith)
          set_ (h.exact page);
  aligned = h.aligned;
}

-- Where each page is either marked or in one free block, `buddy_free_order` of an aligned block all of
-- whose pages are marked clears just those pages, counts them off, and keeps that: whatever it is
-- merged with, no page gets lost and none is free twice.
pub buddy_free-IsBuddy :
    (order q pfn : ℕ) (b : Buddy)
    → order ≤ 9
    → pfn ≡ q * 2 ^ order
    → ((page : ℕ) → pfn ≤ page → page < pfn + 2 ^ order → b.bitmap page ≡ true)
    → 2 ^ order ≤ b.alloc_count
    → b.alloc_count < 2 ^ 64
    → IsBuddy b
    → let r = buddy_free_order pfn order b in
      IsBuddy r
      × (r.alloc_count + 2 ^ order ≡ b.alloc_count)
      × ((page : ℕ)
          → r.bitmap page
            ≡ (if leb pfn page && ltb page (pfn + 2 ^ order) then false else b.bitmap page))
unfolding buddy_free_order
buddy_free-IsBuddy order q pfn b p e marked c l h =
    let cleared = record b {
      bitmap = fill (2 ^ order) pfn false b.bitmap;
      alloc_count = sub64 b.alloc_count (2 ^ order);
    } in
    let same = merge_same (9 - order) order pfn cleared in
    let first : b.bitmap pfn ≡ true =
      marked pfn (omega arith) (ground (arith, two_pow_pos order)) in
    rw first (
      merge-IsBuddy (9 - order) order q pfn cleared (omega arith) e
          (cleared-IsPending order pfn (sub64 b.alloc_count (2 ^ order)) b marked h),
      (let count : sub64 b.alloc_count (2 ^ order) + 2 ^ order ≡ b.alloc_count = omega arith in
          ap (λ k. k + 2 ^ order) same.count_same ∙ count),
      λ page. ap (λ f. f page) same.bitmap_same ∙ fill_lem (2 ^ order) pfn false b.bitmap page,
    )
