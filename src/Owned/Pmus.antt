-- ===== src/Owned/Pmus.antt =====
-- `get_pmus` of src/pmu-events.c with the blocks of the tree that it builds.
pub mod Loop
pub mod Laws
pub mod Crash
use pmu_events.Base.{
  Bool, true, false, Option, none, some, List, [], ◌∷◌, ◌++◌, if◌then◌else◌, Bytes, is_empty,
}
use pmu_events.Free.Laws.{class_blocks}
use pmu_events.Free.{Block, Array, null, block, ClassBlocks, free, free_pmu_class, free_pmus}
use pmu_events.Memory.{Mem, pure, ◌>>=◌, ◌>>◌, freeing, crash}
use pmu_events.Memory.Owning.{Owning, owning, pointers}
use pmu_events.Owned.Grow.{add_element, elements, array_pointer, touch_pointer}
use pmu_events.Owned.Instances.{OwnedFound, get_all_pmu_instances_for}
use pmu_events.Owned.Instances.Laws.{founds}
use pmu_events.Pmu.{PmuTableEntry, PmuClass}
use pmu_events.Pmus
use pmu_events.System.{System}

abbrev pub OwnedClass : Type 0
OwnedClass = Owning PmuClass ClassBlocks

abbrev pub tree_blocks : OwnedClass → List Block
tree_blocks c = class_blocks c.blocks

-- A 0 with the array of classes, or a -1.
pub data Listed : Type 0 where
  listed : Array OwnedClass → Listed
  failed : Listed

-- `get_pmu_name` is of the generated file.
module _ (sys : System) (get_pmu_name : PmuTableEntry → Bytes) where
  abbrev pub class_with : PmuTableEntry → Array OwnedFound → OwnedClass
  class_with pmu instances =
      owning (Pmus.class_of sys get_pmu_name pmu (founds instances))
        (record { instances = pointers instances })

  -- The entries are stored in the instances.
  unfoldable pub make_class : PmuTableEntry → Array OwnedFound → Mem OwnedClass
  make_class pmu instances = do
    touch_pointer (array_pointer instances)
    pure (class_with pmu instances)

  -- `free_pmus` with one class counted that is not there, and the -1.
  unfoldable pub free_counted : Array OwnedClass → Mem (Option (Array OwnedClass))
  free_counted null = do freeing (free_pmu_class none); freeing (free none); pure none
  free_counted (block array classes) = crash

  -- The classes after the step, `none` for the -1. If the array does not grow, the class is freed, and
  -- then the classes.
  unfoldable pub add_found :
      Array OwnedClass → PmuTableEntry → Option (Array OwnedFound) → Mem (Option (Array OwnedClass))
  unfolding make_class free_counted
  add_found classes pmu none = pure (some classes)
  add_found classes pmu (some instances) =
      if is_empty (elements instances)
      then pure (some classes)
      else add_element sys.classes_ok classes
          (freeing (free_pmu_class (some (class_with pmu instances).blocks))
            >> free_counted classes)
          (make_class pmu instances) (λ grown. some grown)

  unfoldable pub add_class : Array OwnedClass → PmuTableEntry → Mem (Option (Array OwnedClass))
  unfolding add_found
  add_class classes pmu = get_all_pmu_instances_for sys (get_pmu_name pmu) >>= add_found classes pmu

  unfoldable pub add_classes :
      Array OwnedClass → List PmuTableEntry → Mem (Option (Array OwnedClass))
  unfolding add_class
  add_classes classes [] = pure (some classes)
  add_classes classes (pmu ∷ pmus) = do
    next ← add_class classes pmu
    elim next [ none ↦ pure none | some classes' ↦ add_classes classes' pmus ]

  abbrev pub list_or_fail : Option (Array OwnedClass) → Listed
  list_or_fail none = failed
  list_or_fail (some classes) = if is_empty (elements classes) then failed else listed classes

  -- The argument is the table for CPU 0, `none` for a NULL.
  unfoldable pub get_pmus : Option (List PmuTableEntry) → Mem Listed
  unfolding add_classes
  get_pmus none = crash
  get_pmus (some pmus) = do classes ← add_classes null pmus; pure (list_or_fail classes)

-- What the caller of `get_pmus` owes: `free_pmus` after a 0.
unfoldable pub free_listed : Listed → Mem (Unit {0})
free_listed (listed classes) = freeing (free_pmus (some (record { classes = pointers classes })))
free_listed failed = pure tt
