-- ===== src/Instances.antt =====
-- `get_all_pmu_instances_for` of src/pmu-events.c: the instances of a PMU class under sysfs.
pub mod Name
pub mod Laws
pub mod Cpus
use pmu_events.Base.{
  ℕ, ◌+◌, Bool, true, false, not, ◌&&◌, ◌||◌, Option, none, some, List, [], ◌∷◌, ◌++◌, ◌==◌,
  if◌then◌else◌, Bytes, codes, length, is_empty, ltb,
}
use pmu_events.Files.{pmu_devices_base, concat_path, all_cpus, get_cpus_for, get_cpumask_for}
use pmu_events.Libc.Number.{strtoull}
use pmu_events.Libc.Text.{streq, strip_prefix}
use pmu_events.Range.{RangeList}
use pmu_events.System.{System}
use pmu_events.Word.{◌>>=◌}

-- A `struct pmu_instance` whose `entries` are not set yet.
pub record Found : Type 0 where
  pub name : Bytes
  pub cpus : RangeList

-- What stands behind the class's name: nothing, or an underscore and what `strtoul` takes for a
-- number up to the end.
unfoldable pub is_suffix : Bytes → Bool
is_suffix [] = true
is_suffix (c ∷ text) =
    let number = strtoull 10 text in (c == b'_') && (not number.erange && is_empty number.rest)

-- Whether the folder is an instance of the class: its name starts with the class's, is not
-- shorter by more than two, and ends in such a suffix.
unfoldable pub is_instance_name : Bytes → Bytes → Bool
is_instance_name class_name d_name = elim (strip_prefix class_name d_name) [
  | none ↦ false
  | some suffix ↦ if ltb (length d_name + 2) (length class_name) then false else is_suffix suffix
]

-- After one entry: `next` goes on with the instances so far, `finish` returns 0 with them, and
-- `fail` is a -1 for lack of memory.
pub data Visit : Type 0 where
  next : List Found → Visit
  finish : List Found → Visit
  fail : Visit

module _ (sys : System) where
  unfoldable pub grown : List Found → Found → Option (List Found)
  grown instances found =
      if sys.realloc_ok (length instances + 1) then some (instances ++ found ∷ []) else none

  unfoldable pub or_fail : (List Found → Visit) → Option (List Found) → Visit
  or_fail k none = fail
  or_fail k (some instances) = k instances

  unfoldable pub cpus_of_folder : Bytes → Option RangeList
  cpus_of_folder d_name = do
    full_path ← concat_path pmu_devices_base d_name
    get_cpus_for sys full_path

  unfoldable pub cpumask_of_folder : Bytes → Option RangeList
  cpumask_of_folder d_name = do
    full_path ← concat_path pmu_devices_base d_name
    get_cpumask_for sys full_path

  -- The `cpus` file, else the `cpumask` file, else all CPUs.
  unfoldable pub uncore_cpus : Bytes → RangeList
  uncore_cpus d_name = elim (cpus_of_folder d_name) [
    | some cpus ↦ cpus
    | none ↦ elim (cpumask_of_folder d_name) [ some mask ↦ mask | none ↦ all_cpus sys ]
  ]

  -- The class `default_core`.
  unfoldable pub visit_core : List Found → Bytes → Visit
  unfolding grown or_fail
  visit_core instances d_name =
      if streq d_name (codes "cpu")
      then or_fail finish (grown instances (record { name = codes "cpu"; cpus = all_cpus sys }))
      else elim (cpus_of_folder d_name) [
        | none ↦ next instances
        | some cpus ↦ or_fail next (grown instances (record { name = d_name; cpus = cpus }))
      ]

  unfoldable pub visit_uncore : Bytes → List Found → Bytes → Visit
  unfolding grown or_fail
  visit_uncore class_name instances d_name =
      if is_instance_name class_name d_name
      then or_fail next (grown instances (record { name = d_name; cpus = uncore_cpus d_name }))
      else next instances

  unfoldable pub visit : Bytes → List Found → Bytes → Visit
  visit class_name instances d_name =
      if streq (codes ".") d_name || streq (codes "..") d_name
      then next instances
      else if streq class_name (codes "default_core")
      then visit_core instances d_name
      else visit_uncore class_name instances d_name

  -- The loop over the folder's entries; the -1 is `none`.
  unfoldable pub visit_entries : Bytes → List Found → List Bytes → Option (List Found)
  visit_entries class_name instances [] = some instances
  visit_entries class_name instances (d_name ∷ entries) = elim (visit class_name instances d_name) [
    | next instances' ↦ visit_entries class_name instances' entries
    | finish instances' ↦ some instances'
    | fail ↦ none
  ]

  unfoldable pub get_all_pmu_instances_for : Bytes → Option (List Found)
  get_all_pmu_instances_for class_name = do
    entries ← sys.dir_entries pmu_devices_base
    visit_entries class_name [] entries
