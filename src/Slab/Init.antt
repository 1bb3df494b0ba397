-- ===== src/Slab/Init.antt =====
-- The pool that `slab_init` makes (src/kernel/mm/slab.c).
use native.Mathlib.Nat.{suc-mul, mul-lt-mul_of_pos_right, mul-mod_left}
use cosmo_rt.Common.{
  ℕ, zero, suc, ◌+◌, ◌-◌, ◌*◌, ◌%◌, ◌≤◌, ◌<◌, ◌≡◌, refl, true, false, List, [], ◌∷◌, length, ltb,
  leb, not, ◌||◌, ◌==◌, arith, inl,
}
use cosmo_rt.Common.Int.{pos}
use cosmo_rt.Slab.{Slab, push, build_from, build_free_list, slab_init, at_least_8, is_valid}
use cosmo_rt.Slab.Pool.{Linked, ApartFrom, Pairwise, Cross, IsPool, Linked-push}

-- The addresses of the first `n` slots in front of others.
unfoldable pub slots : (n base size : ℕ) → List ℕ → List ℕ
slots zero base size xs = xs
slots (suc i) base size xs = slots i base size ((base + i * size) ∷ xs)

abbrev AllFrom : ℕ → List ℕ → Type 0
AllFrom b [] = Unit
AllFrom b (x ∷ xs) = (b ≤ x) × AllFrom b xs

AllFrom-down : (b c : ℕ) (xs : List ℕ) → b ≤ c → AllFrom c xs → AllFrom b xs
AllFrom-down b c [] p h = tt
AllFrom-down b c (x ∷ xs) p h = (omega (arith, h.0), AllFrom-down b c xs p h.1)

AllFrom-Apart : (size b : ℕ) (xs : List ℕ) → AllFrom (b + size) xs → ApartFrom size b xs
AllFrom-Apart size b [] h = tt
AllFrom-Apart size b (x ∷ xs) h = (inl h.0, AllFrom-Apart size b xs h.1)

length-slots : (n base size : ℕ) (xs : List ℕ) → length (slots n base size xs) ≡ n + length xs
unfolding slots
length-slots zero base size xs = omega arith
length-slots (suc i) base size xs = omega (arith, length-slots i base size ((base + i * size) ∷ xs))

-- What `build_from` leaves alone.
build_from_same :
    (n base : ℕ) (s : Slab)
    → ((build_from n base s).obj_size ≡ s.obj_size)
      × ((build_from n base s).capacity ≡ s.capacity)
      × ((build_from n base s).used ≡ s.used)
      × ((build_from n base s).base ≡ s.base)
      × ((build_from n base s).dynamic ≡ s.dynamic)
unfolding build_from push
build_from_same zero base s = (refl, refl, refl, refl, refl)
build_from_same (suc i) base s = build_from_same i base (push (base + i * s.obj_size) s)

build_from-Linked :
    (n base : ℕ) (s : Slab) (xs : List ℕ)
    → 0 < base
    → 0 < s.obj_size
    → Linked s.next s.free_list xs
    → Pairwise s.obj_size xs
    → AllFrom (base + n * s.obj_size) xs
    → let ys = slots n base s.obj_size xs in
      let r = build_from n base s in Linked r.next r.free_list ys × Pairwise s.obj_size ys
unfolding build_from push slots
build_from-Linked zero base s xs p z l w a = (l, w)
build_from-Linked (suc i) base s xs p z l w a =
    let x = base + i * s.obj_size in
    let above =
      AllFrom-down (x + s.obj_size) (base + suc i * s.obj_size) xs
        (omega (arith, suc-mul i s.obj_size)) a in
    let apart = AllFrom-Apart s.obj_size x xs above in
    let here : (x == x) ≡ true = ground arith in
    build_from-Linked i base (push x s) (x ∷ xs) p z
      (
        refl,
        omega arith,
        rw here (Linked-push s.next s.obj_size x s.free_list s.free_list xs z apart l),
      )
      (apart, w) (omega arith, AllFrom-down x (x + s.obj_size) xs (omega arith) above)

Cross-nil : (size : ℕ) (xs : List ℕ) → Cross size xs []
Cross-nil size [] = tt
Cross-nil size (x ∷ xs) = (tt, Cross-nil size xs)

-- The pool before its free list is built.
abbrev unbuilt : (pool size : ℕ) → (ℕ → ℕ) → Slab
unbuilt pool size memory = record {
  free_list = 0;
  base = pool;
  obj_size = size;
  capacity = 0;
  used = pos 0;
  dynamic = false;
  regions = [];
  next = memory;
}

slot_passes :
    (size pool count i : ℕ)
    → 8 ≤ size
    → i < count
    → not (
        ltb (pool + i * size) pool
        || leb (pool + (0 + count) * size) (pool + i * size)
        || not ((pool + i * size - pool) % size == 0))
      ≡ true
slot_passes size pool count i b p =
    let inside : i * size < count * size =
      mul-lt-mul_of_pos_right {k = size} p (omega (arith, b)) in
    let exact : (i * size) % size ≡ 0 = mul-mod_left i size in
    let same : pool + i * size - pool ≡ i * size = omega arith in
    rw (same, exact) (ground (arith, inside))

-- `slab_init` of a pool of `count` objects in memory that is not at null makes a pool with the
-- `count` slots free and linked in the order of their addresses, none of which overlap, and nothing
-- handed out.
pub slab_init-IsPool :
    (pool obj_size count : ℕ) (memory : ℕ → ℕ)
    → 0 < pool
    → IsPool (slab_init pool obj_size count memory) (slots count pool (at_least_8 obj_size) []) []
unfolding slab_init build_free_list
slab_init-IsPool pool obj_size count memory p =
    let size = at_least_8 obj_size in
    let big : 8 ≤ size = ground arith in
    let same = build_from_same count pool (unbuilt pool size memory) in
    let built =
      build_from-Linked count pool (unbuilt pool size memory) [] p (omega (arith, big)) refl tt
        tt in
    record {
      sized = rw same.0 big;
      linked = built.0;
      free_apart = rw same.0 built.1;
      live_apart = tt;
      cross = Cross-nil _ (slots count pool size []);
      used_counted = same.2;
      all_counted = omega (arith, length-slots count pool size []);
    }

-- Each of the `count` slots of a new pool passes the validation of `slab_free`.
pub slot-is_valid :
    (pool obj_size count i : ℕ) (memory : ℕ → ℕ)
    → i < count
    → is_valid (slab_init pool obj_size count memory) (pool + i * at_least_8 obj_size) ≡ true
unfolding slab_init build_free_list is_valid
slot-is_valid pool obj_size count i memory p =
    let size = at_least_8 obj_size in
    let big : 8 ≤ size = ground arith in
    let same = build_from_same count pool (unbuilt pool size memory) in
    rw (same.4, same.3, same.0) (slot_passes size pool count i big p)
