-- ===== src/PageAlloc/Cover.antt =====
-- Which free blocks hold a page, and the invariant of the allocator (src/kernel/mm/page_alloc.c).
use cosmo_rt.Common.{
  ℕ, zero, suc, ◌+◌, ◌*◌, ◌^◌, ◌≤◌, ◌<◌, ◌≡◌, refl, ap, Bool, true, false, ◌&&◌, List, [], ◌∷◌, ltb,
  leb, ◌==◌, if◌then◌else◌, arith, Bool-cases, inl, inr,
}
use cosmo_rt.PageAlloc.{Buddy, with_list, push, fill}
use cosmo_rt.PageAlloc.Xor.{pow_suc}

-- 1 if the page is among the `n` from `first` on, else 0.
unfoldable pub within : (n first page : ℕ) → ℕ
within n first page = if leb first page && ltb page (first + n) then 1 else 0

-- How many blocks of the order `o` in the list hold the page.
unfoldable pub cover_list : (o : ℕ) → List ℕ → ℕ → ℕ
cover_list o [] page = 0
cover_list o (x ∷ xs) page = within (2 ^ o) x page + cover_list o xs page

-- How many of the free blocks of the first `n` orders hold the page.
unfoldable pub cover_upto : (n : ℕ) → (ℕ → List ℕ) → ℕ → ℕ
unfolding cover_list
cover_upto zero lists page = 0
cover_upto (suc o) lists page = cover_list o (lists o) page + cover_upto o lists page

-- How many free blocks hold the page.
unfoldable pub cover : Buddy → ℕ → ℕ
unfolding cover_upto
cover b page = cover_upto 10 b.free_lists page

abbrev pub bit : Bool → ℕ
bit false = 0
bit true = 1

-- Every block is at a multiple of its size.
abbrev pub Multiples : (o : ℕ) → List ℕ → Type 0
Multiples o [] = Unit
Multiples o (x ∷ xs) = ((q : ℕ) × (x ≡ q * 2 ^ o)) × Multiples o xs

-- Each page is either marked in the bitmap and in no free block, or in exactly one free block and
-- not marked; and every free block is aligned to its size.
pub record IsBuddy (b : Buddy) : Type 0 where
  pub exact : (page : ℕ) → cover b page + bit (b.bitmap page) ≡ 1
  pub aligned : (o : ℕ) → Multiples o (b.free_lists o)

cover_upto-above :
    (n o : ℕ) (xs : List ℕ) (lists : ℕ → List ℕ) (page : ℕ)
    → n ≤ o
    → cover_upto n (λ k. if k == o then xs else lists k) page ≡ cover_upto n lists page
unfolding cover_upto
cover_upto-above zero o xs lists page p = refl
cover_upto-above (suc n) o xs lists page p =
    let other : (n == o) ≡ false = ground arith in
    rw other
      (ap (λ k. cover_list n (lists n) page + k) (cover_upto-above n o xs lists page (omega arith)))

cover_upto-set :
    (n o : ℕ) (xs : List ℕ) (lists : ℕ → List ℕ) (page : ℕ)
    → o < n
    → cover_upto n (λ k. if k == o then xs else lists k) page + cover_list o (lists o) page
      ≡ cover_upto n lists page + cover_list o xs page
unfolding cover_upto
cover_upto-set zero o xs lists page p = absurd (omega arith)
cover_upto-set (suc n) o xs lists page p = elim (Bool-cases (n == o)) [
  | inl e ↦
      let same : n ≡ o = ground arith in
      rw e (rw same (omega (arith, cover_upto-above o o xs lists page (omega arith))))
  | inr e ↦
      let below : o < n = ground arith in
      rw e (omega (arith, cover_upto-set n o xs lists page below))
]

-- What a change of one list does to the cover.
pub cover-with_list :
    (o : ℕ) (xs : List ℕ) (b : Buddy) (page : ℕ)
    → o < 10
    → cover (with_list o xs b) page + cover_list o (b.free_lists o) page
      ≡ cover b page + cover_list o xs page
unfolding cover
cover-with_list o xs b page p = cover_upto-set 10 o xs b.free_lists page p

pub cover-push :
    (o blk : ℕ) (b : Buddy) (page : ℕ)
    → o < 10
    → cover (push o blk b) page ≡ cover b page + within (2 ^ o) blk page
unfolding cover_list
cover-push o blk b page p = omega (arith, cover-with_list o (blk ∷ b.free_lists o) b page p)

-- The two halves of a block.
pub within_halves :
    (o blk page : ℕ)
    → within (2 ^ (o + 1)) blk page ≡ within (2 ^ o) blk page + within (2 ^ o) (blk + 2 ^ o) page
unfolding within
within_halves o blk page = ground (arith, pow_suc o)

pub fill_lem :
    (n pfn : ℕ) (v : Bool) (f : ℕ → Bool) (page : ℕ)
    → fill n pfn v f page ≡ (if leb pfn page && ltb page (pfn + n) then v else f page)
unfolding fill
fill_lem zero pfn v f page = ground arith
fill_lem (suc n) pfn v f page =
    ground (arith, fill_lem n (pfn + 1) v (λ p. if p == pfn then v else f p) page)

pub Multiples-with_list :
    (o : ℕ) (xs : List ℕ) (b : Buddy)
    → Multiples o xs
    → ((k : ℕ) → Multiples k (b.free_lists k))
    → (k : ℕ) → Multiples k ((with_list o xs b).free_lists k)
Multiples-with_list o xs b e h k = elim (Bool-cases (k == o)) [
  | inl s ↦ let same : k ≡ o = ground arith in rw s (rw same e)
  | inr s ↦ rw s (h k)
]

pub Multiples-push :
    (o q blk : ℕ) (b : Buddy)
    → blk ≡ q * 2 ^ o
    → ((k : ℕ) → Multiples k (b.free_lists k))
    → (k : ℕ) → Multiples k ((push o blk b).free_lists k)
Multiples-push o q blk b e h = Multiples-with_list o (blk ∷ b.free_lists o) b ((q, e), h o) h
