-- ===== src/Slab.antt =====
-- The object pools of src/kernel/mm/slab.c. An address is a number, null is 0, and `next` is the
-- word of memory at an address, which holds the link of a free object. What `pages_alloc` gives is an
-- argument.
pub mod Pool
pub mod Init
pub mod Grow
mod Tests
use cosmo_rt.Common.{
  ℕ, zero, suc, ◌+◌, ◌-◌, ◌*◌, ◌/◌, ◌%◌, Bool, true, false, ◌&&◌, ◌||◌, not, Option, none, some,
  List, [], ◌∷◌, ltb, leb, ◌==◌, if◌then◌else◌,
}
use cosmo_rt.Common.Int.{ℤ, pos, negsuc, up, down}

-- `slab_region_t`
pub record Region : Type 0 where
  pub base : ℕ
  pub size : ℕ

-- `slab_t` without its lock, and the memory that its free objects are linked through.
pub record Slab : Type 0 where
  pub free_list : ℕ
  pub base : ℕ
  pub obj_size : ℕ
  pub capacity : ℕ
  pub used : ℤ
  pub dynamic : Bool
  pub regions : List Region
  pub next : ℕ → ℕ

-- `*(void **)obj = s->free_list; s->free_list = obj`
pub push : ℕ → Slab → Slab
push obj s = record s { free_list = obj; next = λ a. if a == obj then s.free_list else s.next a }

-- The loop of `build_free_list`, from the index `n` - 1 down.
unfoldable pub build_from : (n base : ℕ) → Slab → Slab
unfolding push
build_from zero base s = s
build_from (suc i) base s = build_from i base (push (base + i * s.obj_size) s)

unfoldable pub build_free_list : (base count : ℕ) → Slab → Slab
unfolding build_from
build_free_list base count s = record (build_from count base s) { capacity = s.capacity + count }

abbrev pub at_least_8 : ℕ → ℕ
at_least_8 n = if ltb n 8 then 8 else n

-- `slab_init` of a pool in the given memory.
unfoldable pub slab_init : (pool obj_size count : ℕ) → (memory : ℕ → ℕ) → Slab
unfolding build_free_list
slab_init pool obj_size count memory = build_free_list pool count (record {
  free_list = 0;
  base = pool;
  obj_size = at_least_8 obj_size;
  capacity = 0;
  used = pos 0;
  dynamic = false;
  regions = [];
  next = memory;
})

abbrev pub pages_alloc_max : ℕ
pages_alloc_max = 512

-- The number of pages that a growth wants: four pages of objects, or 16 objects.
unfoldable pub wanted_pages : (obj_size : ℕ) → ℕ
wanted_pages obj_size =
    let per_page = if ltb (4096 / obj_size) 1 then 1 else 4096 / obj_size in
    let batch = if ltb (per_page * 4) 16 then 16 else per_page * 4 in
    let npages = (batch * obj_size + 4095) / 4096 in
    let positive = if ltb npages 1 then 1 else npages in
    if ltb pages_alloc_max positive then pages_alloc_max else positive

-- `while (alloc_pages < npages) alloc_pages <<= 1`, on fuel.
unfoldable pub double_until : (fuel npages pages : ℕ) → ℕ
double_until zero npages pages = pages
double_until (suc fuel) npages pages =
    let rest = double_until fuel npages (pages * 2) in if ltb pages npages then rest else pages

unfoldable pub alloc_pages : (obj_size : ℕ) → ℕ
unfolding wanted_pages double_until
alloc_pages obj_size = double_until 9 (wanted_pages obj_size) 1

-- `slab_grow_locked` with the memory that `pages_alloc` gave; the second part is what it returns.
-- The region's header is in its first slot.
unfoldable pub grow_with : (mem pages : ℕ) → Slab → Slab × ℕ
unfolding build_free_list
grow_with mem pages s =
    let bytes = pages * 4096 in
    let count = bytes / s.obj_size in
    let grown = record s { regions = record { base = mem; size = bytes } ∷ s.regions } in
    if ltb count 1
    then (s, 0)
    else if leb (count - 1) 0
    then (s, 0)
    else (build_free_list (mem + s.obj_size) (count - 1) grown, count - 1)

unfoldable pub slab_grow_locked : (mem : Option ℕ) → Slab → Slab × ℕ
unfolding grow_with alloc_pages
slab_grow_locked none s = (s, 0)
slab_grow_locked (some mem) s = grow_with mem (alloc_pages s.obj_size) s

-- `sizeof(slab_region_t)`
abbrev pub region_size : ℕ
region_size = 24

unfoldable pub slab_init_dynamic :
    (obj_size initial_count : ℕ) (mem : Option ℕ) → (memory : ℕ → ℕ) → Slab
unfolding slab_grow_locked
slab_init_dynamic obj_size initial_count mem memory =
    let size = if ltb (at_least_8 obj_size) region_size then region_size else at_least_8 obj_size in
    let empty : Slab = record {
      free_list = 0;
      base = 0;
      obj_size = size;
      capacity = 0;
      used = pos 0;
      dynamic = true;
      regions = [];
      next = memory;
    } in
    if ltb 0 initial_count then (slab_grow_locked mem empty).0 else empty

-- `kmemset(obj, 0, s->obj_size)`
abbrev cleared : (obj size : ℕ) → (ℕ → ℕ) → ℕ → ℕ
cleared obj size memory a = if leb obj a && ltb a (obj + size) then 0 else memory a

-- The object at the head of the free list, which is taken and zeroed; null on an empty list.
unfoldable pub take_head : Slab → Slab × ℕ
take_head s = if s.free_list == 0 then (s, 0) else (
  record s {
    free_list = s.next s.free_list;
    used = up s.used;
    next = cleared s.free_list s.obj_size s.next;
  },
  s.free_list,
)

unfoldable pub slab_alloc : (mem : Option ℕ) → Slab → Slab × ℕ
unfolding take_head slab_grow_locked
slab_alloc mem s =
    if (s.free_list == 0) && s.dynamic
    then (let g = slab_grow_locked mem s in if g.1 == 0 then (g.0, 0) else take_head g.0)
    else take_head s

-- Whether the address is an object of one of the regions.
unfoldable pub in_regions : (obj_size obj : ℕ) → List Region → Bool
in_regions size obj [] = false
in_regions size obj (r ∷ rs) =
    let later = in_regions size obj rs in
    let first = r.base + size in
    if leb first obj && ltb obj (r.base + r.size) && ((obj - first) % size == 0)
    then true
    else later

-- The validation of `slab_free`.
unfoldable pub is_valid : Slab → ℕ → Bool
unfolding in_regions
is_valid s obj =
    if s.dynamic
    then in_regions s.obj_size obj s.regions
    else not (
        ltb obj s.base
        || leb (s.base + s.capacity * s.obj_size) obj
        || not ((obj - s.base) % s.obj_size == 0))

unfoldable pub slab_free : (obj : ℕ) → Slab → Slab
unfolding is_valid push
slab_free obj s =
    if obj == 0
    then s
    else if not (is_valid s obj)
    then s
    else (let p = push obj s in record p { used = down s.used })
