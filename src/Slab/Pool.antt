-- ===== src/Slab/Pool.antt =====
-- The free list and the objects handed out (src/kernel/mm/slab.c).
use cosmo_rt.Common.{
  ℕ, suc, ◌+◌, ◌≤◌, ◌<◌, ◌≡◌, refl, ap, ◌∙◌, true, false, Option, List, [], ◌∷◌, ◌++◌, length, ◌==◌,
  if◌then◌else◌, arith, ◌⊎◌, inl, inr,
}
use cosmo_rt.Common.Int.{ℤ, pos, up, down}
use cosmo_rt.Slab.{Slab, push, take_head, slab_alloc, slab_free, is_valid, cleared}

-- The addresses `xs` are linked from `p` on, and null ends them.
abbrev pub Linked : (ℕ → ℕ) → ℕ → List ℕ → Type 0
Linked next p [] = p ≡ 0
Linked next p (x ∷ xs) = (p ≡ x) × (0 < x) × Linked next (next x) xs

-- Objects of this size at two addresses do not meet.
abbrev pub Apart : (size x y : ℕ) → Type 0
Apart size x y = (x + size ≤ y) ⊎ (y + size ≤ x)

abbrev pub ApartFrom : (size x : ℕ) → List ℕ → Type 0
ApartFrom size x [] = Unit
ApartFrom size x (y ∷ ys) = Apart size x y × ApartFrom size x ys

abbrev pub Pairwise : (size : ℕ) → List ℕ → Type 0
Pairwise size [] = Unit
Pairwise size (x ∷ xs) = ApartFrom size x xs × Pairwise size xs

-- Every object of the first list is apart from every object of the second.
abbrev pub Cross : (size : ℕ) → List ℕ → List ℕ → Type 0
Cross size [] live = Unit
Cross size (x ∷ xs) live = ApartFrom size x live × Cross size xs live

-- The pool with these objects free, in the order of the list, and these handed out: the free objects
-- are linked, no two objects meet, and the counts are theirs.
pub record IsPool (s : Slab) (free live : List ℕ) : Type 0 where
  pub sized : 8 ≤ s.obj_size
  pub linked : Linked s.next s.free_list free
  pub free_apart : Pairwise s.obj_size free
  pub live_apart : Pairwise s.obj_size live
  pub cross : Cross s.obj_size free live
  pub used_counted : s.used ≡ pos (length live)
  pub all_counted : length free + length live ≡ s.capacity

-- A store outside the objects of a list leaves its links.
Linked-cleared :
    (next : ℕ → ℕ) (size x p : ℕ) (xs : List ℕ)
    → 0 < size
    → ApartFrom size x xs
    → Linked next p xs
    → Linked (cleared x size next) p xs
Linked-cleared next size x p [] z a l = l
Linked-cleared next size x p (y ∷ ys) z a l =
    let keep : cleared x size next y ≡ next y = ground arith in
    (l.0, l.1, rw keep (Linked-cleared next size x (next y) ys z a.1 l.2))

pub Linked-push :
    (next : ℕ → ℕ) (size x q p : ℕ) (xs : List ℕ)
    → 0 < size
    → ApartFrom size x xs
    → Linked next p xs
    → Linked (λ a. if a == x then q else next a) p xs
Linked-push next size x q p [] z a l = l
Linked-push next size x q p (y ∷ ys) z a l =
    let keep : (if y == x then q else next y) ≡ next y = ground arith in
    (l.0, l.1, rw keep (Linked-push next size x q (next y) ys z a.1 l.2))

Cross-cons :
    (size x : ℕ) (xs live : List ℕ)
    → ApartFrom size x xs
    → Cross size xs live
    → Cross size xs (x ∷ live)
Cross-cons size x [] live a c = tt
Cross-cons size x (y ∷ ys) live a c = ((flip a.0, c.0), Cross-cons size x ys live a.1 c.1)
  where
    flip : Apart size x y → Apart size y x
    flip (inl p) = inr p
    flip (inr p) = inl p

-- On a pool whose free objects are linked, none of whose objects overlap and whose counts are right,
-- with a free object, `slab_alloc` returns the first free one: it is not null, its memory is zero, and
-- the pool stays so with this object handed out and the others as they were.
pub alloc_takes-IsPool :
    (mem : Option ℕ) (s : Slab) (x : ℕ) (free live : List ℕ)
    → IsPool s (x ∷ free) live
    → let r = slab_alloc mem s in
      (r.1 ≡ x)
      × (0 < x)
      × ((a : ℕ) → x ≤ a → a < x + s.obj_size → r.0.next a ≡ 0)
      × IsPool r.0 free (x ∷ live)
unfolding slab_alloc take_head
alloc_takes-IsPool mem s x free live h =
    let some_free : (s.free_list == 0) ≡ false = ground (arith, h.linked.0, h.linked.1) in
    rw (some_free, h.linked.0)
      (
        refl,
        h.linked.1,
        λ a p q. ground arith,
        (record {
          sized = h.sized;
          linked =
              Linked-cleared s.next s.obj_size x (s.next x) free (omega (arith, h.sized))
                h.free_apart.0 h.linked.2;
          free_apart = h.free_apart.1;
          live_apart = (h.cross.0, h.live_apart);
          cross = Cross-cons s.obj_size x free live h.free_apart.0 h.cross.1;
          used_counted = counted (length live) s.used h.used_counted;
          all_counted = omega (arith, h.all_counted);
        }),
      )
  where
    counted : (n : ℕ) (u : ℤ) → u ≡ pos n → up u ≡ pos (suc n)
    counted n u e = rw e (ap pos (omega arith))

-- `slab_alloc` on a static pool with no free object returns null and changes nothing.
pub alloc_empty :
    (mem : Option ℕ) (s : Slab) (live : List ℕ)
    → IsPool s [] live
    → s.dynamic ≡ false
    → slab_alloc mem s ≡ (s, 0)
unfolding slab_alloc take_head
alloc_empty mem s live h d = rw (h.linked, d) refl

Apart-split :
    (size x o : ℕ) (vs bs : List ℕ)
    → ApartFrom size x (vs ++ o ∷ bs)
    → Apart size x o × ApartFrom size x (vs ++ bs)
Apart-split size x o [] bs h = h
Apart-split size x o (a ∷ vs) bs h = let r = Apart-split size x o vs bs h.1 in (r.0, (h.0, r.1))

Pairwise-split :
    (size o : ℕ) (vs bs : List ℕ)
    → Pairwise size (vs ++ o ∷ bs)
    → ApartFrom size o (vs ++ bs) × Pairwise size (vs ++ bs)
Pairwise-split size o [] bs h = h
Pairwise-split size o (a ∷ vs) bs h =
    let r = Pairwise-split size o vs bs h.1 in
    let q = Apart-split size a o vs bs h.0 in ((flip q.0, r.0), (q.1, r.1))
  where
    flip : Apart size a o → Apart size o a
    flip (inl p) = inr p
    flip (inr p) = inl p

Cross-split :
    (size o : ℕ) (xs vs bs : List ℕ)
    → Cross size xs (vs ++ o ∷ bs)
    → ApartFrom size o xs × Cross size xs (vs ++ bs)
Cross-split size o [] vs bs h = (tt, tt)
Cross-split size o (x ∷ xs) vs bs h =
    let r = Cross-split size o xs vs bs h.1 in
    let q = Apart-split size x o vs bs h.0 in ((flip q.0, r.0), (q.1, r.1))
  where
    flip : Apart size x o → Apart size o x
    flip (inl p) = inr p
    flip (inr p) = inl p

length_split : (o : ℕ) (vs bs : List ℕ) → length (vs ++ o ∷ bs) ≡ suc (length (vs ++ bs))
length_split o [] bs = refl
length_split o (a ∷ vs) bs = ap suc (length_split o vs bs)

-- On a pool whose free objects are linked, none of whose objects overlap and whose counts are right,
-- `slab_free` of an object that is handed out, is not null and passes the validation makes it the
-- first free one, and the pool stays so with the other objects handed out.
pub free_returns-IsPool :
    (s : Slab) (obj : ℕ) (free vs bs : List ℕ)
    → IsPool s free (vs ++ obj ∷ bs)
    → 0 < obj
    → is_valid s obj ≡ true
    → IsPool (slab_free obj s) (obj ∷ free) (vs ++ bs)
unfolding slab_free push
free_returns-IsPool s obj free vs bs h p v =
    let not_null : (obj == 0) ≡ false = ground arith in
    let here : (obj == obj) ≡ true = ground arith in
    let c = Cross-split s.obj_size obj free vs bs h.cross in
    let w = Pairwise-split s.obj_size obj vs bs h.live_apart in
    let n = length_split obj vs bs in
    rw (not_null, v)
      (record {
        sized = h.sized;
        linked = (
          refl,
          p,
          rw here (
              Linked-push s.next s.obj_size obj s.free_list s.free_list free
                (omega (arith, h.sized)) c.0 h.linked),
        );
        free_apart = (c.0, h.free_apart);
        live_apart = w.1;
        cross = (w.0, c.1);
        used_counted = counted s.used (length (vs ++ bs)) (h.used_counted ∙ ap pos n);
        all_counted = omega (arith, h.all_counted, n);
      })
  where
    counted : (u : ℤ) (n : ℕ) → u ≡ pos (suc n) → down u ≡ pos n
    counted u n e = rw e refl

-- `slab_free` of null or of an address that does not pass the validation changes nothing.
pub free_ignores : (s : Slab) (obj : ℕ) → (obj ≡ 0) ⊎ (is_valid s obj ≡ false) → slab_free obj s ≡ s
unfolding slab_free
free_ignores s obj (inl e) = ground arith
free_ignores s obj (inr e) = ground arith
