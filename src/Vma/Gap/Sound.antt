-- ===== src/Vma/Gap/Sound.antt =====
-- What the search of `vma_find_free` (src/kernel/mm/vma.c) returns: a free range below `base`, or 0
-- where there is none.
use cosmo_rt.Common.{
  ℕ, ◌+◌, ◌-◌, ◌%◌, ◌≤◌, ◌<◌, ◌≡◌, sym, ◌∙◌, true, none, some, List, [], ◌∷◌, ltb, arith,
  Option-cases, inl, inr, ◌⊎◌,
}
use cosmo_rt.Vma.{Area}
use cosmo_rt.Vma.Gap.{page_floor, try_gap, lower_gap, last_gap}
use cosmo_rt.Vma.Gap.Scan.{scan}

-- The areas of the list lie below `hi`, each below the one before it.
abbrev pub Below : ℕ → List Area → Type 0
Below hi [] = Unit
Below hi (v ∷ vs) = (v.start < v.end) × (v.end ≤ hi) × Below v.start vs

-- No area of the list meets the range of `size` bytes at `addr`.
abbrev pub Apart : (addr size : ℕ) → List Area → Type 0
Apart addr size [] = Unit
Apart addr size (v ∷ vs) = ((v.end ≤ addr) ⊎ (addr + size ≤ v.start)) × Apart addr size vs

abbrev pub EndsAligned : List Area → Type 0
EndsAligned [] = Unit
EndsAligned (v ∷ vs) = (v.end % 4096 ≡ 0) × EndsAligned vs

Below-mono : (hi hi' : ℕ) (vs : List Area) → hi ≤ hi' → Below hi vs → Below hi' vs
Below-mono hi hi' [] p b = b
Below-mono hi hi' (v ∷ vs) p b = (b.0, omega arith, b.2)

-- Areas below an address are apart from every range at it.
Below-Apart : (hi addr size : ℕ) (vs : List Area) → Below hi vs → hi ≤ addr → Apart addr size vs
Below-Apart hi addr size [] b p = tt
Below-Apart hi addr size (v ∷ vs) b p =
    (inl (omega arith), Below-Apart v.start addr size vs b.2 (omega arith))

page_floor_bounds :
    (x : ℕ) → (page_floor x ≤ x) × (x < page_floor x + 4096) × (page_floor x % 4096 ≡ 0)
unfolding page_floor
page_floor_bounds x = omega arith

-- An address that `try_gap` finds is a page's, lies above the area and leaves the range below
-- `gap_end`.
try_gap-some :
    (size g addr : ℕ) (v : Area)
    → try_gap size g v ≡ some addr
    → (v.end ≤ addr) × (addr + size ≤ g) × (addr % 4096 ≡ 0)
unfolding try_gap
try_gap-some size g addr v e = ground (arith, page_floor_bounds (g - size))

-- Where it finds none, no page-aligned range lies between an aligned end and `gap_end`.
try_gap-none :
    (size g a : ℕ) (v : Area)
    → try_gap size g v ≡ none
    → v.end % 4096 ≡ 0
    → v.end ≤ a
    → a + size ≤ g
    → ⊥
unfolding try_gap page_floor
try_gap-none size g a v e m p q = ground arith

lower_gap_cases :
    (size g : ℕ) (v : Area)
    → (lower_gap size g v ≤ g)
      × ((lower_gap size g v < size) ⊎ (lower_gap size g v ≤ v.start))
      × ((g < size) ⊎ (lower_gap size g v ≡ g) ⊎ (lower_gap size g v ≡ v.start))
unfolding lower_gap
lower_gap_cases size g v = ground arith

-- A gap that is smaller than the range stays so.
scan_small : (size g : ℕ) (vs : List Area) → g < size → scan size vs g ≡ 0
unfolding scan last_gap try_gap lower_gap
scan_small size g [] p = ground arith
scan_small size g (v ∷ vs) p =
    let e : ltb g size ≡ true = ground arith in rw e (scan_small size g vs p)

abbrev Free : (r size g : ℕ) → List Area → Type 0
Free r size g vs = (r + size ≤ g) × (r % 4096 ≡ 0) × Apart r size vs

scan-none :
    (size g : ℕ) (v : Area) (vs : List Area)
    → try_gap size g v ≡ none
    → scan size (v ∷ vs) g ≡ scan size vs (lower_gap size g v)
unfolding scan
scan-none size g v vs e = rw e

scan-some :
    (size g addr : ℕ) (v : Area) (vs : List Area)
    → try_gap size g v ≡ some addr
    → scan size (v ∷ vs) g ≡ addr
unfolding scan
scan-some size g addr v vs e = rw e

scan_nil : (size g r : ℕ) → scan size [] g ≡ r → (r ≡ 0) ⊎ Free r size g []
unfolding scan last_gap
scan_nil size g r e = ground (arith, page_floor_bounds (g - size))

pub scan_sound :
    (size g hi r : ℕ) (vs : List Area)
    → Below hi vs
    → scan size vs g ≡ r
    → (r ≡ 0) ⊎ Free r size g vs
scan_sound size g hi r [] b z = scan_nil size g r z
scan_sound size g hi r (v ∷ vs) b z = elim (Option-cases (try_gap size g v)) [
  | inr (addr, e) ↦
      let t = try_gap-some size g addr v e in
      let same : addr ≡ r = sym (scan-some size g addr v vs e) ∙ z in
      let beyond : v.end ≤ r = omega (arith, t.0) in
      inr (
        omega (arith, t.1),
        omega (arith, t.2),
        (inl beyond, Below-Apart v.start r size vs b.2 (omega arith)),
      )
  | inl e ↦
      let g' = lower_gap size g v in
      let z' : scan size vs g' ≡ r = sym (scan-none size g v vs e) ∙ z in
      let low = lower_gap_cases size g v in
      elim (low.1) [
        | inl small ↦ inl (sym z' ∙ scan_small size g' vs small)
        | inr at_most ↦ elim (scan_sound size g' v.start r vs b.2 z') [
          | inl none_left ↦ inl none_left
          | inr f ↦ inr (omega (arith, f.0, low.0), f.1, (inr (omega (arith, f.0)), f.2))
        ]
      ]
]

pub scan_complete :
    (size g a hi : ℕ) (vs : List Area)
    → Below hi vs
    → EndsAligned vs
    → scan size vs g ≡ 0
    → 0x1000 ≤ a
    → a % 4096 ≡ 0
    → a + size ≤ g
    → Apart a size vs
    → ⊥
scan_complete size g a hi [] b m z p q w x = unfold scan last_gap page_floor in ground arith
scan_complete size g a hi (v ∷ vs) b m z p q w x = elim (Option-cases (try_gap size g v)) [
  | inr (addr, e) ↦
      let t = try_gap-some size g addr v e in
      let zero_ : addr ≡ 0 = sym (scan-some size g addr v vs e) ∙ z in
      absurd (omega (arith, b.0, t.0))
  | inl e ↦ elim x.0 [
    | inl above ↦ absurd (try_gap-none size g a v e m.0 above w)
    | inr beneath ↦
        scan_complete size (lower_gap size g v) a v.start vs b.2 m.1
          (sym (scan-none size g v vs e) ∙ z) p q (omega (arith, lower_gap_cases size g v)) x.1
  ]
]
