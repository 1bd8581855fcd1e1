-- ===== src/Examples/Memory.antt =====
-- The theorems on kern/pmap.c at the small machine.
use os2017_lab.Base.{ℕ, ◌≡◌, refl, some, [], ◌∷◌, arith, ◌==◌, if◌then◌else◌}
use os2017_lab.Kernel.{Kernel, ok}
use os2017_lab.Pmap.{page_insert, page_remove}
use os2017_lab.Pmap.Insert.{table_free}
use os2017_lab.Pmap.Mapping.{MapsTo, page_insert_maps, page_insert_again}
use os2017_lab.Pmap.FreeList.{IsFreeList, page_remove_releases}
use os2017_lab.Examples.{
  small_mem, small, small-IsSpace, has_table_zero, no_table_one, entry_there, present_there,
  small-IsFresh, small-IsFreeList,
}

page_insert_maps_example :
    (k' : Kernel) × (page_insert 2 7 0x400000 6 small ≡ ok 0 k')
    × MapsTo small_mem k'.mem 2 7 0x400000 6
page_insert_maps_example =
    page_insert_maps 2 7 0x400000 6 small (omega arith) (omega arith) (omega arith) small-IsSpace
      (table_free 7 no_table_one small-IsFresh)

page_insert_again_example :
    (k' : Kernel) × (page_insert 2 5 0x1000 4 small ≡ ok 0 k')
    × (k'.page_free_list ≡ some 7)
    × ((i : ℕ) → (k'.pages i).pp_ref ≡ (small.pages i).pp_ref)
page_insert_again_example =
    page_insert_again 2 5 0x1000 4 small small-IsSpace has_table_zero present_there
      (omega (arith, entry_there)) (omega arith) (omega arith) (omega arith) (ground arith)

page_remove_releases_example :
    (k' : Kernel) × (page_remove 2 0x1000 small ≡ ok tt k')
    × IsFreeList k' (5 ∷ 7 ∷ 8 ∷ 9 ∷ [])
    × ((i : ℕ) → (k'.pages i).pp_ref ≡ (if i == 5 then 0 else (small.pages i).pp_ref))
page_remove_releases_example =
    page_remove_releases small 2 0x1000 5 (7 ∷ 8 ∷ 9 ∷ []) small-IsSpace has_table_zero
      (omega (arith, entry_there)) (omega arith) (omega arith) (omega arith) small-IsFreeList refl
