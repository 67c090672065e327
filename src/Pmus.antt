-- ===== src/Pmus.antt =====
-- `get_pmus` of src/pmu-events.c: all classes of PMUs that the system has.
pub mod Laws
use mathlib.Core.List.{map}
use pmu_events.Base.{
  ℕ, ◌+◌, Bool, true, false, Option, none, some, List, [], ◌∷◌, ◌++◌, if◌then◌else◌, Bytes, length,
  is_empty,
}
use pmu_events.Instances.{Found, get_all_pmu_instances_for}
use pmu_events.Pmu.{PmuTableEntry, PmuInstance, PmuClass}
use pmu_events.System.{System}

-- The loop's classes so far, a -1, or what C leaves undefined.
pub data Adding : Type 0 where
  added : List PmuClass → Adding
  refused overrun : Adding

-- The array does not grow. `num_classes` was counted up before, so that `free_pmus` takes one class
-- more than there are: of no classes this is a NULL, at which `free_pmu_class` returns, else it is
-- read behind the array's end.
unfoldable pub lacks_memory : List PmuClass → Adding
lacks_memory [] = refused
lacks_memory (c ∷ classes) = overrun

-- A 0 with the classes, a -1, or the use of a NULL or of memory behind an array.
pub data Listing : Type 0 where
  listed : List PmuClass → Listing
  failed : Listing
  crashed : Listing

-- The instance with the events of its class.
unfoldable pub with_entries : PmuTableEntry → Found → PmuInstance
with_entries pmu found = record { cpus = found.cpus; name = found.name; entries = pmu.entries }

-- `get_pmu_name` is of the generated file.
module _ (sys : System) (get_pmu_name : PmuTableEntry → Bytes) where
  unfoldable pub class_of : PmuTableEntry → List Found → PmuClass
  class_of pmu instances = record {
    name = get_pmu_name pmu;
    instances = map (with_entries pmu) instances;
  }

  -- One step of the loop over the table.
  unfoldable pub add_class : List PmuClass → PmuTableEntry → Adding
  unfolding lacks_memory
  add_class classes pmu = elim (get_all_pmu_instances_for sys (get_pmu_name pmu)) [
    | none ↦ added classes
    | some instances ↦
        if is_empty instances
        then added classes
        else if sys.classes_ok (length classes + 1)
        then added (classes ++ class_of pmu instances ∷ [])
        else lacks_memory classes
  ]

  unfoldable pub add_classes : List PmuClass → List PmuTableEntry → Adding
  add_classes classes [] = added classes
  add_classes classes (pmu ∷ pmus) = elim (add_class classes pmu) [
    | added classes' ↦ add_classes classes' pmus
    | refused ↦ refused
    | overrun ↦ overrun
  ]

  -- The argument is the table that `map_for_cpu` of the generated file finds for CPU 0, `none` for
  -- its NULL.
  unfoldable pub get_pmus : Option (List PmuTableEntry) → Listing
  get_pmus none = crashed
  get_pmus (some pmus) = elim (add_classes [] pmus) [
    | added classes ↦ if is_empty classes then failed else listed classes
    | refused ↦ failed
    | overrun ↦ crashed
  ]
