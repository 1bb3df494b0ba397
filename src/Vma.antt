-- ===== src/Vma.antt =====
-- The AVL tree of virtual memory areas of src/kernel/mm/vma.c. A node is its address (the pointer
-- to its `vma_t`), its data and the stored height; the null pointer is `leaf`. A function that
-- relinks nodes through a pointer returns the new tree.
pub mod Spec
pub mod Balance
pub mod Order
pub mod Find
pub mod Above
pub mod Overlap
pub mod Insert
pub mod Remove
pub mod Unlink
pub mod Free
pub mod Freed
pub mod Gap
pub mod FreeAbove
mod Tests
use cosmo_rt.Common.{
  ℕ, zero, suc, ◌+◌, max, Bool, true, false, ◌&&◌, ◌||◌, not, Option, none, some, ltb, leb, ◌==◌,
  if◌then◌else◌,
}

-- The fields of `vma_t` that are not linkage.
pub record Area : Type 0 where
  pub start : ℕ
  pub end : ℕ
  pub prot : ℕ
  pub flags : ℕ
  pub file_ino : ℕ
  pub file_offset : ℕ
  pub file_backend : ℕ

pub data Tree : Type 0 where
  leaf : Tree
  node : (addr : ℕ) (area : Area) (stored : ℕ) (left right : Tree) → Tree

abbrev pub height : Tree → ℕ
height leaf = 0
height (node a v h l r) = h

-- `l > r ? l : r`
pub taller : Tree → Tree → ℕ
taller l r = if ltb (height r) (height l) then height l else height r

abbrev pub update_height : Tree → Tree
update_height leaf = leaf
update_height (node a v h l r) = node a v (taller l r + 1) l r

-- The source follows `y->left` without a test; `rebalance` calls it only where that is a node.
pub rotate_right : Tree → Tree
rotate_right (node a v h (node b w g ll lr) r) =
    update_height (node b w g ll (update_height (node a v h lr r)))
rotate_right t = t

pub rotate_left : Tree → Tree
rotate_left (node a v h l (node b w g rl rr)) =
    update_height (node b w g (update_height (node a v h l rl)) rr)
rotate_left t = t

-- `balance_factor(n) < 0` and `balance_factor(n) > 0`.
abbrev pub leans_right : Tree → Bool
leans_right leaf = false
leans_right (node a v h l r) = ltb (height l) (height r)

abbrev pub leans_left : Tree → Bool
leans_left leaf = false
leans_left (node a v h l r) = ltb (height r) (height l)

-- `bf > 1` is `height(right) + 1 < height(left)`.
pub rebalance : Tree → Tree
unfolding rotate_left rotate_right
rebalance leaf = leaf
rebalance (node a v h l r) =
    if ltb (height r + 1) (height l)
    then rotate_right (update_height (node a v h (if leans_right l then rotate_left l else l) r))
    else if ltb (height l + 1) (height r)
    then rotate_left (update_height (node a v h l (if leans_left r then rotate_right r else r)))
    else update_height (node a v h l r)

pub vma_find : Tree → ℕ → Option Area
vma_find leaf addr = none
vma_find (node a v h l r) addr =
    let to_left = vma_find l addr in
    let to_right = vma_find r addr in
    if ltb addr v.start then to_left else if leb v.end addr then to_right else some v

-- The loop of `vma_find_above`, with its `best` so far.
find_above_from : Option Area → Tree → ℕ → Option Area
find_above_from best leaf addr = best
find_above_from best (node a v h l r) addr =
    let to_left = find_above_from (some v) l addr in
    let to_right = find_above_from best r addr in if ltb addr v.start then to_left else to_right

pub vma_find_above : Tree → ℕ → Option Area
unfolding find_above_from
vma_find_above root addr = find_above_from none root addr

abbrev pub overlaps : Area → ℕ → ℕ → Bool
overlaps v start end = ltb v.start end && ltb start v.end

abbrev pub or_else : Option Area → Option Area → Option Area
or_else none y = y
or_else (some v) y = some v

-- The tests for null children are the `leaf` clause of the call.
pub vma_find_overlap : Tree → ℕ → ℕ → Option Area
vma_find_overlap leaf start end = none
vma_find_overlap (node a v h l r) start end =
    let in_left = if ltb start v.start then vma_find_overlap l start end else none in
    let in_right = if ltb v.start end then vma_find_overlap r start end else none in
    if overlaps v start end then some v else or_else in_left in_right

pub insert_node : Tree → (addr : ℕ) → Area → Tree
unfolding rebalance
insert_node leaf a x = node a x 1 leaf leaf
insert_node (node b v h l r) a x =
    let to_left = rebalance (node b v h (insert_node l a x) r) in
    let to_right = rebalance (node b v h l (insert_node r a x)) in
    if ltb x.start v.start then to_left else to_right

abbrev pub new_area : (start end prot flags : ℕ) → Area
new_area s e p f = record {
  start = s;
  end = e;
  prot = p;
  flags = f;
  file_ino = 0;
  file_offset = 0;
  file_backend = 0;
}

-- `fresh` is what the slab returns to `vma_alloc_raw`. The result is the new node's address.
pub vma_insert : (fresh : Option ℕ) → Tree → (start end prot flags : ℕ) → Tree × Option ℕ
unfolding insert_node
vma_insert none root s e p f = (root, none)
vma_insert (some a) root s e p f = (insert_node root a (new_area s e p f), some a)

-- `min_node` of the node at `a` with the data `v` and the left subtree given.
pub min_node : ℕ → Area → Tree → ℕ × Area
min_node a v leaf = (a, v)
min_node a v (node b w h l r) = min_node b w l

pub remove_left : ℕ → Area → ℕ → Tree → Tree × Option ℕ → Tree × Option ℕ
unfolding rebalance
remove_left b v h r (l, freed) = (rebalance (node b v h l r), freed)

pub remove_right : ℕ → Area → ℕ → Tree → Tree × Option ℕ → Tree × Option ℕ
unfolding rebalance
remove_right b v h l (r, freed) = (rebalance (node b v h l r), freed)

-- The node `b` takes the data of its successor `d`, which is unlinked from the right subtree and is
-- the node to free.
pub replace : ℕ → Area → ℕ → Tree → ℕ → Tree × Option ℕ → Tree × Option ℕ
unfolding rebalance
replace b x h l d (r, freed) = (rebalance (node b x h l r), some d)

-- The branch `root == target`.
pub remove_here : ℕ → Tree → Tree → (ℕ → Area → Tree × Option ℕ) → Tree × Option ℕ
unfolding min_node
remove_here b leaf r two_children = (r, some b)
remove_here b (node c w g ll lr) leaf two_children = (node c w g ll lr, some b)
remove_here b (node c w g ll lr) (node e y i rl rr) two_children =
    let (d, x) = min_node e y rl in two_children d x

-- The target is the address that is compared and the `start` that is read through it. The second
-- part of the result is `*removed`, the node to free.
pub remove_node : Tree → (addr start : ℕ) → Tree × Option ℕ
unfolding remove_left remove_right replace remove_here
remove_node leaf a s = (leaf, none)
remove_node (node b v h l r) a s =
    let to_left = remove_left b v h r (remove_node l a s) in
    let to_right = remove_right b v h l (remove_node r a s) in
    let here = remove_here b l r (λ d x. replace b x h l d (remove_node r d x.start)) in
    if ltb s v.start
    then to_left
    else if ltb v.start s
    then to_right
    else if b == a
    then here
    else to_right

-- The tree after `vma_remove`, and the node that it hands to `vma_free`.
pub vma_remove : Tree → (addr start : ℕ) → Tree × Option ℕ
unfolding remove_node
vma_remove root a s = remove_node root a s
