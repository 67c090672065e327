-- ===== src/Tests/Freeing.antt =====
-- A tree of two classes on the heap.
use pmu_events.Base.{◌≡◌, refl, some, List, [], ◌∷◌, arith, true}
use pmu_events.Free.Blocks.{IsOwned, without}
use pmu_events.Free.Laws.{pointed, blocks_of, array_blocks, pmus_blocks, IsFreed, free_pmus-IsFreed}
use pmu_events.Free.{
  Block, Heap, block, release, InstanceBlocks, ClassBlocks, PmusBlocks, free, free_pmus,
  unless_null, free_array, free_members, free_pmu_class, free_pmu_instance, free_range_list,
}

abbrev instance_at : Block → Block → InstanceBlocks
instance_at ranges name = record { cpus = record { ranges = some ranges }; name = some name }

abbrev classes : List ClassBlocks
classes =
    record { instances = block 3 (instance_at 1 2 ∷ []) }
    ∷ record { instances = block 8 (instance_at 4 5 ∷ instance_at 6 7 ∷ []) }
    ∷ []

abbrev tree : PmusBlocks
tree = record { classes = block 9 classes }

abbrev all_live : Heap
all_live b = true

tree-IsOwned : IsOwned (pmus_blocks tree) all_live
unfolding array_blocks blocks_of pointed
tree-IsOwned = (omega arith, ground arith)

free_pmus-IsFreed_example : IsFreed (pmus_blocks tree) (free_pmus (some tree)) all_live
free_pmus-IsFreed_example = free_pmus-IsFreed tree all_live tree-IsOwned

tree_freed : free_pmus (some tree) all_live ≡ some (without (pmus_blocks tree) all_live)
unfolding free_pmus unless_null free_array free_members free_pmu_class free_pmu_instance
    free_range_list free without array_blocks blocks_of pointed release
tree_freed = refl
