-- ===== src/PageAlloc/RoundTrip.antt =====
-- Allocating and freeing, composed (src/kernel/mm/page_alloc.c).
use cosmo_rt.Common.{
  ℕ, ◌+◌, ◌*◌, ◌^◌, ◌≤◌, ◌<◌, ◌≡◌, refl, sym, ap, ◌∙◌, Bool, true, false, ◌&&◌, Option, some, ltb,
  leb, if◌then◌else◌, arith,
}
use cosmo_rt.PageAlloc.{Buddy, buddy_alloc_order, buddy_free_order}
use cosmo_rt.PageAlloc.Cover.{IsBuddy, within}
use cosmo_rt.PageAlloc.Alloc.{Allocates, handed, exhausted, buddy_alloc-Allocates}
use cosmo_rt.PageAlloc.Free.{buddy_free-IsBuddy}

-- What a block that was handed out satisfies.
record IsHanded (order : ℕ) (b b' : Buddy) (blk : ℕ) : Type 0 where
  pub quotient : ℕ
  pub multiple : blk ≡ quotient * 2 ^ order
  pub unmarked : (page : ℕ) → within (2 ^ order) blk page ≡ 1 → b.bitmap page ≡ false
  pub marked :
      (page : ℕ)
      → b'.bitmap page
        ≡ (if leb blk page && ltb page (blk + 2 ^ order) then true else b.bitmap page)
  pub counted : b'.alloc_count ≡ b.alloc_count + 2 ^ order
  pub kept : IsBuddy b'

Allocates-IsHanded :
    (order : ℕ) (b b' : Buddy) (blk : ℕ) {r : Buddy × Option ℕ}
    → Allocates order b r
    → r ≡ (b', some blk)
    → IsHanded order b b' blk
Allocates-IsHanded order b b' blk (handed c q k m u w n h) e =
    let state : c ≡ b' = ap (λ p. p.0) e in
    let block : k ≡ blk = cc (e) in
    rw (← state) (
      rw (← block)
        (record { quotient = q; multiple = m; unmarked = u; marked = w; counted = n; kept = h }))
Allocates-IsHanded order b b' blk (exhausted x) e = absurd (cc (e))

-- A page of the block was not marked, and every other page is as it was.
back :
    (inside v w : Bool)
    → w ≡ (if inside then true else v)
    → (inside ≡ true → v ≡ false)
    → (if inside then false else w) ≡ v
back true v w m u = sym (u refl)
back false v w m u = m

-- Where each page is either marked or in one free block, freeing a block just handed out gives back
-- the bitmap page by page and the count, and keeps that.
pub buddy_free-buddy_alloc :
    (order blk : ℕ) (b b' : Buddy)
    → order ≤ 9
    → b.alloc_count + 2 ^ order < 2 ^ 64
    → IsBuddy b
    → buddy_alloc_order order b ≡ (b', some blk)
    → let r = buddy_free_order blk order b' in
      IsBuddy r × (r.alloc_count ≡ b.alloc_count) × ((page : ℕ) → r.bitmap page ≡ b.bitmap page)
buddy_free-buddy_alloc order blk b b' p l h e =
    let a = Allocates-IsHanded order b b' blk (buddy_alloc-Allocates order b p h) e in
    let f =
      buddy_free-IsBuddy order a.quotient blk b' p a.multiple
        (λ page r s. a.marked page ∙ inside page r s) (omega (arith, a.counted))
        (omega (arith, a.counted)) a.kept in
    (
      f.0,
      omega (arith, f.1, a.counted),
      λ page. f.2 page ∙ restored page (a.marked page) (a.unmarked page),
    )
  where
    inside :
        (page : ℕ)
        → blk ≤ page
        → page < blk + 2 ^ order
        → (if leb blk page && ltb page (blk + 2 ^ order) then true else b.bitmap page) ≡ true
    inside page r s = ground arith

    held :
        (page : ℕ)
        → (leb blk page && ltb page (blk + 2 ^ order)) ≡ true
        → within (2 ^ order) blk page ≡ 1
    held page i = unfold within in rw i refl

    restored :
        (page : ℕ)
        → b'.bitmap page
          ≡ (if leb blk page && ltb page (blk + 2 ^ order) then true else b.bitmap page)
        → (within (2 ^ order) blk page ≡ 1 → b.bitmap page ≡ false)
        → (if leb blk page && ltb page (blk + 2 ^ order) then false else b'.bitmap page)
          ≡ b.bitmap page
    restored page m u =
        back (leb blk page && ltb page (blk + 2 ^ order)) (b.bitmap page) (b'.bitmap page) m
          (λ i. u (held page i))

pub alloc-IsBuddy :
    (order : ℕ) (b : Buddy) → order ≤ 9 → IsBuddy b → IsBuddy (buddy_alloc_order order b).0
alloc-IsBuddy order b p h = kept (buddy_alloc-Allocates order b p h)
  where
    kept : {r : Buddy × Option ℕ} → Allocates order b r → IsBuddy r.0
    kept (handed c q k m u w n i) = i
    kept (exhausted x) = h
