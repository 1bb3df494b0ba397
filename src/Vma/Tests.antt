-- ===== src/Vma/Tests.antt =====
-- The tree of areas at concrete maps (src/kernel/mm/vma.c).
use cosmo_rt.Common.{ℕ, ◌+◌, ◌*◌, ◌≤◌, ◌≡◌, refl, ◌⊎◌, inl, inr, some, arith, false, ◌%◌}
use cosmo_rt.Vma.FreeAbove.{vma_find_free_above}
use cosmo_rt.Vma.{
  Area, Tree, leaf, node, height, new_area, overlaps, vma_find, vma_find_above, vma_find_overlap,
  insert_node, vma_insert, remove_node, taller,
}
use cosmo_rt.Vma.Spec
use cosmo_rt.Vma.Spec.{in_order, areas, addrs, Chain, Has}
use cosmo_rt.Vma.Balance.{IsAvl}
use cosmo_rt.Vma.Insert.{areas-insert_node, insert_node-IsAvl}
use cosmo_rt.Vma.Find.{find_iff}
use cosmo_rt.Vma.Above.{vma_find_above-first}
use cosmo_rt.Vma.Overlap.{overlap_sound, overlap_complete, vma_insert-Chain}
use cosmo_rt.Vma.Remove.{remove_node-IsAvl}
use cosmo_rt.Vma.Free.{areas-remove_node}
use cosmo_rt.Vma.Freed.{Freed, remove_node-Freed}
use cosmo_rt.Vma.Gap.{vma_find_free}
use cosmo_rt.Vma.Gap.Sound.{Apart}
use cosmo_rt.Vma.Gap.Exact.{IsMap, find_free_sound, find_free_complete}

-- The pages from `first` up to `last`.
abbrev pages : ℕ → ℕ → Area
pages first last = new_area (first * 4096) (last * 4096) 3 34

-- Three areas, as three insertions in rising order leave them.
abbrev map3 : Tree
map3 = node 20 (pages 4 6) 2 (node 10 (pages 1 2) 1 leaf leaf) (node 30 (pages 8 9) 1 leaf leaf)

built :
    insert_node (insert_node (insert_node leaf 10 (pages 1 2)) 20 (pages 4 6)) 30 (pages 8 9) ≡ map3
unfolding insert_node taller
built = refl

-- The root takes the data of its successor, whose node is freed.
removed_root :
    remove_node map3 20 (4 * 4096)
    ≡ (node 20 (pages 8 9) 2 (node 10 (pages 1 2) 1 leaf leaf) leaf, some 30)
unfolding remove_node taller
removed_root = refl

gap_found : vma_find_free map3 (9 * 4096) 4096 ≡ some (7 * 4096)
unfolding vma_find_free
gap_found = refl

map3-Chain : Chain 0 (16 * 4096) (areas map3)
map3-Chain = omega arith

map3-IsAvl : IsAvl map3
map3-IsAvl = omega arith

areas-insert_node_example :
    areas (insert_node map3 40 (pages 6 7)) ≡ Spec.insert (pages 6 7) (areas map3)
areas-insert_node_example = areas-insert_node 0 (16 * 4096) map3 40 (pages 6 7) map3-Chain

insert_node-IsAvl_example :
    IsAvl (insert_node map3 40 (pages 6 7))
    × (2 ≤ height (insert_node map3 40 (pages 6 7)))
    × (height (insert_node map3 40 (pages 6 7)) ≤ 3)
insert_node-IsAvl_example = insert_node-IsAvl map3 40 (pages 6 7) map3-IsAvl

remove_node-IsAvl_example :
    IsAvl (remove_node map3 20 (4 * 4096)).0
    × (height (remove_node map3 20 (4 * 4096)).0 ≤ 2)
    × (2 ≤ height (remove_node map3 20 (4 * 4096)).0 + 1)
remove_node-IsAvl_example = remove_node-IsAvl map3 20 (4 * 4096) map3-IsAvl

areas-remove_node_example :
    areas (remove_node map3 20 (4 * 4096)).0 ≡ Spec.remove (4 * 4096) (areas map3)
areas-remove_node_example =
    areas-remove_node 0 (16 * 4096) map3 20 (4 * 4096) map3-Chain (inr (inl (refl, refl)))

remove_node-Freed_example : Freed map3 (remove_node map3 20 (4 * 4096))
remove_node-Freed_example =
    remove_node-Freed 0 (16 * 4096) map3 20 (4 * 4096) map3-Chain (inr (inl (refl, refl)))

find_iff_example :
    ((vma_find map3 20000 ≡ some (pages 4 6))
      → Has (pages 4 6) (areas map3) × (4 * 4096 ≤ 20000) × (20001 ≤ 6 * 4096))
    × (Has (pages 4 6) (areas map3) × (4 * 4096 ≤ 20000) × (20001 ≤ 6 * 4096)
        → (vma_find map3 20000 ≡ some (pages 4 6)))
find_iff_example = find_iff 0 (16 * 4096) map3 20000 (pages 4 6) map3-Chain

vma_find_above-first_run : vma_find_above map3 5000 ≡ Spec.find_above (areas map3) 5000
vma_find_above-first_run = vma_find_above-first 0 (16 * 4096) map3 5000 map3-Chain

overlap_sound_run :
    Has (pages 4 6) (areas map3) × (4 * 4096 + 1 ≤ 7 * 4096) × (5 * 4096 + 1 ≤ 6 * 4096)
overlap_sound_run =
    overlap_sound map3 (5 * 4096) (7 * 4096) (pages 4 6) (unfold vma_find_overlap in refl)

overlap_complete_run : overlaps (pages 8 9) (6 * 4096) (8 * 4096) ≡ false
overlap_complete_run =
    overlap_complete 0 (16 * 4096) map3 (6 * 4096) (8 * 4096) (pages 8 9) map3-Chain
      (unfold vma_find_overlap in refl) (inr (inr (inl refl)))

vma_insert-Chain_example :
    Chain 0 (16 * 4096) (areas (vma_insert (some 40) map3 (6 * 4096) (8 * 4096) 3 34).0)
vma_insert-Chain_example =
    vma_insert-Chain 0 (16 * 4096) map3 40 (6 * 4096) (8 * 4096) 3 34 map3-Chain
      (unfold vma_find_overlap in refl) (omega arith) (omega arith) (omega arith)

map3-IsMap : IsMap map3
map3-IsMap = record {
  lo = 0;
  hi = 16 * 4096;
  balanced = map3-IsAvl;
  ordered = map3-Chain;
  paged = omega arith;
  bounded = omega arith;
}

find_free_sound_example :
    (r : ℕ) × (vma_find_free map3 (9 * 4096) 4096 ≡ some r)
    × ((r ≡ 0) ⊎ ((r + 4096 ≤ 9 * 4096) × (r % 4096 ≡ 0) × Apart r 4096 (areas map3)))
find_free_sound_example =
    find_free_sound map3 (9 * 4096) 4096 map3-IsMap (omega arith) (omega arith)

-- Below page 9 no eight pages are free.
find_free_complete_example : ¬ (Apart 4096 (8 * 4096) (areas map3))
find_free_complete_example =
    find_free_complete map3 (9 * 4096) (8 * 4096) 4096 map3-IsMap (omega arith) (omega arith)
      (omega arith) (unfold vma_find_free in refl) (omega arith) (omega arith) (omega arith)

-- The area from 0x2000 to 0x2800, and a page free below it or not.
abbrev one_area : Tree
one_area =
    node 1
      (record {
        start = 0x2000;
        end = 0x2800;
        prot = 0;
        flags = 0;
        file_ino = 0;
        file_offset = 0;
        file_backend = 0;
      })
      1 leaf leaf

fits_below : vma_find_free_above one_area 0x1000 0x1000 ≡ some 0x1000
unfolding vma_find_free_above
fits_below = refl

fits_above : vma_find_free_above one_area 0x1000 0x2000 ≡ some 0x3000
unfolding vma_find_free_above
fits_above = refl
