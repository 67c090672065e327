-- ===== src/Owned/Instances.antt =====
-- `get_all_pmu_instances_for` of src/pmu-events.c with the blocks of the instances that it finds.
pub mod Laws
pub mod Make
pub mod Visits
pub mod Loop
use pmu_events.Base.{◌||◌, Option, none, some, List, [], ◌∷◌, ◌++◌, if◌then◌else◌, Bytes, codes}
use pmu_events.Files
use pmu_events.Files.{pmu_devices_base}
use pmu_events.Free.Laws.{instance_blocks}
use pmu_events.Free.{Block, Array, null, block, InstanceBlocks, free_range_list, free_pmu_class}
use pmu_events.Instances.{Found, is_instance_name}
use pmu_events.Libc.Text.{streq}
use pmu_events.Memory.{Mem, pure, ◌>>=◌, ◌>>◌, malloc, freeing}
use pmu_events.Memory.Owning.{Owning, owning, pointers, unless_failed, using}
use pmu_events.Owned.Files.{OwnedText, concat_path, get_cpus_for, get_cpumask_for}
use pmu_events.Owned.Grow.{add_element}
use pmu_events.Owned.Range.{OwnedRanges}
use pmu_events.System.{System}

abbrev pub OwnedFound : Type 0
OwnedFound = Owning Found InstanceBlocks

abbrev pub found_blocks : OwnedFound → List Block
found_blocks found = instance_blocks found.blocks

-- As in the loop without blocks, with the array in place of the list.
pub data Visited : Type 0 where
  next : Array OwnedFound → Visited
  finish : Array OwnedFound → Visited
  fail : Visited

-- The instance with its name, a copy, and its CPUs.
abbrev pub found_with : Bytes → Block → OwnedRanges → OwnedFound
found_with name copy cpus =
    owning (record { name = name; cpus = cpus.value })
      (record { cpus = cpus.blocks; name = some copy })

-- A -1: the class is freed with all instances so far.
unfoldable pub abandon : Array OwnedFound → Mem Visited
abandon instances = do
  freeing (free_pmu_class (some (record { instances = pointers instances })))
  pure fail

module _ (sys : System) where
  unfoldable pub all_cpus : Mem OwnedRanges
  all_cpus = do
    ranges ← malloc
    pure (owning (Files.all_cpus sys) (record { ranges = some ranges }))

  unfoldable pub cpus_of_folder : Bytes → Mem (Option OwnedRanges)
  cpus_of_folder d_name =
      unless_failed (concat_path pmu_devices_base d_name)
        λ full_path. using full_path.blocks (get_cpus_for sys full_path.value)

  unfoldable pub mask_or_all : Option OwnedRanges → Mem OwnedRanges
  unfolding all_cpus
  mask_or_all (some mask) = pure mask
  mask_or_all none = all_cpus

  unfoldable pub cpus_or_mask : Bytes → Option OwnedRanges → Mem OwnedRanges
  unfolding mask_or_all
  cpus_or_mask full_path (some cpus) = pure cpus
  cpus_or_mask full_path none = get_cpumask_for sys full_path >>= mask_or_all

  -- The files are read before the path is freed.
  unfoldable pub uncore_cpus : Option OwnedText → Mem OwnedRanges
  unfolding cpus_or_mask
  uncore_cpus none = all_cpus
  uncore_cpus (some full_path) =
      using full_path.blocks (get_cpus_for sys full_path.value >>= cpus_or_mask full_path.value)

  -- `cpu` has all CPUs.
  unfoldable pub make_cpu : Mem OwnedFound
  unfolding all_cpus
  make_cpu = do name ← malloc; cpus ← all_cpus; pure (found_with (codes "cpu") name cpus)

  unfoldable pub make_core : Bytes → OwnedRanges → Mem OwnedFound
  make_core d_name cpus = do name ← malloc; pure (found_with d_name name cpus)

  unfoldable pub make_uncore : Bytes → Mem OwnedFound
  unfolding uncore_cpus
  make_uncore d_name = do
    name ← malloc
    full_path ← concat_path pmu_devices_base d_name
    cpus ← uncore_cpus full_path
    pure (found_with d_name name cpus)

  unfoldable pub core_with_cpus : Array OwnedFound → Bytes → Option OwnedRanges → Mem Visited
  unfolding abandon make_core
  core_with_cpus instances d_name none = pure (next instances)
  core_with_cpus instances d_name (some cpus) =
      add_element sys.realloc_ok instances
        (freeing (free_range_list (some cpus.blocks)) >> abandon instances) (make_core d_name cpus)
        next

  unfoldable pub visit_core : Array OwnedFound → Bytes → Mem Visited
  unfolding abandon make_cpu core_with_cpus cpus_of_folder
  visit_core instances d_name =
      if streq d_name (codes "cpu")
      then add_element sys.realloc_ok instances (abandon instances) make_cpu finish
      else cpus_of_folder d_name >>= core_with_cpus instances d_name

  unfoldable pub visit_uncore : Bytes → Array OwnedFound → Bytes → Mem Visited
  unfolding abandon make_uncore
  visit_uncore class_name instances d_name =
      if is_instance_name class_name d_name
      then add_element sys.realloc_ok instances (abandon instances) (make_uncore d_name) next
      else pure (next instances)

  unfoldable pub visit : Bytes → Array OwnedFound → Bytes → Mem Visited
  unfolding visit_core visit_uncore
  visit class_name instances d_name =
      if streq (codes ".") d_name || streq (codes "..") d_name
      then pure (next instances)
      else if streq class_name (codes "default_core")
      then visit_core instances d_name
      else visit_uncore class_name instances d_name

  -- The loop over the folder's entries; the -1 is `none`.
  unfoldable pub visit_entries :
      Bytes → Array OwnedFound → List Bytes → Mem (Option (Array OwnedFound))
  unfolding visit
  visit_entries class_name instances [] = pure (some instances)
  visit_entries class_name instances (d_name ∷ entries) = do
    step ← visit class_name instances d_name
    elim step [
      | next instances' ↦ visit_entries class_name instances' entries
      | finish instances' ↦ pure (some instances')
      | fail ↦ pure none
    ]

  unfoldable pub get_all_pmu_instances_for : Bytes → Mem (Option (Array OwnedFound))
  unfolding visit_entries
  get_all_pmu_instances_for class_name = elim (sys.dir_entries pmu_devices_base) [
    | none ↦ pure none
    | some entries ↦ visit_entries class_name null entries
  ]
