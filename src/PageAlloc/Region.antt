-- ===== src/PageAlloc/Region.antt =====
-- `add_region` of src/kernel/mm/page_alloc.c.
use native.Mathlib.Nat.{div-add-mod'}
use cosmo_rt.Common.{
  ℕ, zero, suc, ◌+◌, ◌-◌, ◌*◌, ◌/◌, ◌%◌, ◌^◌, ◌≤◌, ◌≡◌, refl, ap, ◌∙◌, ◌&&◌, ltb, leb, ◌==◌, arith,
  Bool-cases, inl, inr,
}
use cosmo_rt.PageAlloc.{Buddy, push, order_at, add_blocks, add_region}
use cosmo_rt.PageAlloc.Xor.{two_pow_pos}
use cosmo_rt.PageAlloc.Cover.{within, cover, bit, Multiples, IsBuddy, cover-push, Multiples-push}

-- The order that the loop chooses: the block is aligned, fits, and is not above the largest order.
pub record Fits (o addr end_ : ℕ) : Type 0 where
  pub small : o ≤ 9
  pub multiple : addr % 2 ^ o ≡ 0
  pub inside : addr + 2 ^ o ≤ end_

order_at-Fits :
    (fuel order addr end_ : ℕ)
    → fuel + order ≡ 9
    → Fits order addr end_
    → Fits (order_at fuel order addr end_) addr end_
unfolding order_at
order_at-Fits zero order addr end_ e h = h
order_at-Fits (suc fuel) order addr end_ e h =
    elim (Bool-cases ((addr % 2 ^ (order + 1) == 0) && leb (addr + 2 ^ (order + 1)) end_)) [
      | inl t ↦ rw t (
          order_at-Fits fuel (order + 1) addr end_ (omega arith) (record {
            small = omega arith;
            multiple = ground (arith, t);
            inside = ground (arith, t);
          }))
      | inr f ↦ rw f h
    ]

-- The state in the middle of `add_region`: each page is marked, in one free block or in the part of
-- the region that is still to add.
pub record IsAdding (addr end_ : ℕ) (b : Buddy) : Type 0 where
  pub exact : (page : ℕ) → cover b page + within (end_ - addr) addr page + bit (b.bitmap page) ≡ 1
  pub aligned : (o : ℕ) → Multiples o (b.free_lists o)

within_parts :
    (size addr end_ page : ℕ)
    → addr + size ≤ end_
    → within (end_ - addr) addr page
      ≡ within size addr page + within (end_ - (addr + size)) (addr + size) page
unfolding within
within_parts size addr end_ page p = ground arith

within_none : (addr page : ℕ) → within 0 addr page ≡ 0
unfolding within
within_none addr page = ground arith

done-IsBuddy : (addr end_ : ℕ) (b : Buddy) → IsAdding addr end_ b → end_ ≤ addr → IsBuddy b
done-IsBuddy addr end_ b h e = record {
  exact = λ page.
      let empty : within (end_ - addr) addr page ≡ 0 =
        ap (λ n. within n addr page) (omega arith) ∙ within_none addr page in
      omega (arith, h.exact page, empty);
  aligned = h.aligned;
}

-- The loop in full: enough fuel takes the address to the end, every page of the region gets into
-- one free block, and `total_pages` grows by the length of the region.
add_blocks-IsBuddy :
    (fuel addr end_ : ℕ) (b : Buddy)
    → addr ≤ end_
    → end_ - addr ≤ fuel
    → IsAdding addr end_ b
    → let r = add_blocks fuel addr end_ b in
      IsBuddy r × (r.total_pages + addr ≡ b.total_pages + end_) × (r.bitmap ≡ b.bitmap)
unfolding add_blocks
add_blocks-IsBuddy zero addr end_ b p f h =
    (done-IsBuddy addr end_ b h (omega arith), omega arith, refl)
add_blocks-IsBuddy (suc fuel) addr end_ b p f h = elim (Bool-cases (ltb addr end_)) [
  | inl t ↦
      let start : Fits 0 addr end_ = record {
        small = omega arith;
        multiple = omega arith;
        inside = ground (arith, t);
      } in
      let o = order_at 9 0 addr end_ in
      let fit = order_at-Fits 9 0 addr end_ (omega arith) start in
      let multiple : addr ≡ addr / 2 ^ o * 2 ^ o =
        omega (arith, div-add-mod' addr (2 ^ o), fit.multiple) in
      let pushed : Buddy = record (push o addr b) { total_pages = b.total_pages + 2 ^ o } in
      let rest =
        add_blocks-IsBuddy fuel (addr + 2 ^ o) end_ pushed fit.inside
          (omega (arith, two_pow_pos o, fit.inside))
          (record {
            exact = λ page. omega (
              arith,
              h.exact page,
              cover_pushed o page,
              within_parts (2 ^ o) addr end_ page fit.inside,
              cover-push o addr b page (omega (arith, fit.small)),
            );
            aligned = Multiples-push o (addr / 2 ^ o) addr b multiple h.aligned;
          }) in
      rw t (rest.0, omega (arith, rest.1), rest.2)
  | inr t ↦ rw t (done-IsBuddy addr end_ b h (ground (arith, t)), ground (arith, t), refl)
]
  where
    cover_pushed :
        (o page : ℕ)
        → cover (record (push o addr b) { total_pages = b.total_pages + 2 ^ o }) page
          ≡ cover (push o addr b) page
    cover_pushed o page = unfold cover in refl

-- Adding a region whose pages are neither marked nor in a free block yet, to a state where every
-- other page is marked or in one free block, puts each whole page of the region into one free block,
-- adds their number to the total, and leaves the bitmap.
pub add_region-IsBuddy :
    (phys_start phys_end : ℕ) (b : Buddy)
    → (phys_start + 4095) / 4096 ≤ phys_end / 4096
    → IsAdding ((phys_start + 4095) / 4096) (phys_end / 4096) b
    → let r = add_region phys_start phys_end b in
      IsBuddy r
      × (r.total_pages + (phys_start + 4095) / 4096 ≡ b.total_pages + phys_end / 4096)
      × (r.bitmap ≡ b.bitmap)
unfolding add_region
add_region-IsBuddy phys_start phys_end b p h =
    let first = (phys_start + 4095) / 4096 in
    let last = phys_end / 4096 in add_blocks-IsBuddy (last - first) first last b p (omega arith) h
