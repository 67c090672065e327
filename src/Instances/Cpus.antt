-- ===== src/Instances/Cpus.antt =====
-- The CPUs of the instances that `get_all_pmu_instances_for` lists.
use mathlib.Core.Path.{subst}
use pmu_events.Base.{
  ◌+◌, ◌<◌, ◌≡◌, refl, ◌⊎◌, inl, inr, none, some, List, [], ◌∷◌, ◌++◌, arith, Bytes, codes, length,
  if◌then◌else◌, Option-cases, Bool-cases, All, All-append,
}
use pmu_events.Files.{
  pmu_devices_base, all_cpus, get_cpu_list, get_cpus_for, get_cpumask_for, get_file_content,
  concat_path,
}
use pmu_events.Instances.{
  Found, Visit, next, finish, fail, is_instance_name, grown, or_fail, cpus_of_folder,
  cpumask_of_folder, uncore_cpus, visit_core, visit_uncore, visit, visit_entries,
  get_all_pmu_instances_for,
}
use pmu_events.Libc.Text.{streq}
use pmu_events.Range.{RangeList}
use pmu_events.Range.Spec.{parse_range_list-ne-nil}
use pmu_events.System.{System}
use pmu_events.Instances.Laws.{is_dot}

Visit-cases :
    (v : Visit)
    → ((all : List Found) × (v ≡ next all)) ⊎ ((all : List Found) × (v ≡ finish all)) ⊎ (v ≡ fail)
Visit-cases (next all) = inl (all, refl)
Visit-cases (finish all) = inr (inl (all, refl))
Visit-cases fail = inr (inr refl)

-- The instance has a CPU range, so that its first range may be read.
abbrev pub HasCpus : Found → Type 0
HasCpus f = 0 < length f.cpus

module _ (sys : System) where
  abbrev folder : Bytes → RangeList → Found
  folder d_name cpus = record { name = d_name; cpus = cpus }

  get_cpu_list-HasCpus :
      (filename pmu_path : Bytes) {cpus : RangeList}
      → get_cpu_list filename sys pmu_path ≡ some cpus
      → 0 < length cpus
  unfolding get_cpu_list
  get_cpu_list-HasCpus filename pmu_path h = elim (Option-cases (concat_path pmu_path filename)) [
    | inl e ↦ absurd (ground arith)
    | inr (cpus_path, e) ↦
        elim (Option-cases
          (if sys.access cpus_path then get_file_content sys cpus_path else none)) [
            | inl k ↦ absurd (ground arith)
            | inr (content, k) ↦ parse_range_list-ne-nil sys.realloc_ok content (ground arith)
          ]
  ]

  cpus_of_folder-HasCpus :
      (d_name : Bytes) {cpus : RangeList} → cpus_of_folder sys d_name ≡ some cpus → 0 < length cpus
  unfolding cpus_of_folder get_cpus_for
  cpus_of_folder-HasCpus d_name h = elim (Option-cases (concat_path pmu_devices_base d_name)) [
    | inl e ↦ absurd (ground arith)
    | inr (full_path, e) ↦ get_cpu_list-HasCpus (codes "cpus") full_path (ground arith)
  ]

  cpumask_of_folder-HasCpus :
      (d_name : Bytes) {cpus : RangeList}
      → cpumask_of_folder sys d_name ≡ some cpus
      → 0 < length cpus
  unfolding cpumask_of_folder get_cpumask_for
  cpumask_of_folder-HasCpus d_name h = elim (Option-cases (concat_path pmu_devices_base d_name)) [
    | inl e ↦ absurd (ground arith)
    | inr (full_path, e) ↦ get_cpu_list-HasCpus (codes "cpumask") full_path (ground arith)
  ]

  uncore_cpus-HasCpus : (d_name : Bytes) → 0 < length (uncore_cpus sys d_name)
  unfolding uncore_cpus all_cpus
  uncore_cpus-HasCpus d_name = elim (Option-cases (cpus_of_folder sys d_name)) [
    | inr (cpus, e) ↦ rw (uncore_cpus, e) (cpus_of_folder-HasCpus d_name e)
    | inl e ↦ elim (Option-cases (cpumask_of_folder sys d_name)) [
      | inr (mask, k) ↦ rw (uncore_cpus, e, k) (cpumask_of_folder-HasCpus d_name k)
      | inl k ↦ rw (uncore_cpus, e, k) (omega arith)
    ]
  ]

  -- A visit that goes on or finishes keeps the CPUs of all.
  abbrev pub Keeps : Visit → Type 0
  Keeps (next instances) = All HasCpus instances
  Keeps (finish instances) = All HasCpus instances
  Keeps fail = Unit

  grown-Keeps :
      (instances : List Found) (found : Found) (k : List Found → Visit)
      → ((all : List Found) → All HasCpus all → Keeps (k all))
      → All HasCpus instances
      → HasCpus found
      → Keeps (or_fail sys k (grown sys instances found))
  unfolding grown or_fail
  grown-Keeps instances found k keep h has =
      elim (Bool-cases (sys.realloc_ok (length instances + 1))) [
        | inl e ↦
            rw e (
              keep (instances ++ found ∷ [])
                (All-append HasCpus instances (found ∷ []) h (has, tt)))
        | inr e ↦ rw e tt
      ]

  visit_core-Keeps :
      (instances : List Found) (d_name : Bytes)
      → All HasCpus instances
      → Keeps (visit_core sys instances d_name)
  unfolding visit_core all_cpus
  visit_core-Keeps instances d_name h = elim (Bool-cases (streq d_name (codes "cpu"))) [
    | inl e ↦ rw e (
        grown-Keeps instances (folder (codes "cpu") (all_cpus sys)) finish (λ all k. k) h
          (omega arith))
    | inr d ↦ elim (Option-cases (cpus_of_folder sys d_name)) [
      | inl e ↦ rw (d, e) h
      | inr (cpus, e) ↦
          rw (d, e)
            (grown-Keeps instances (folder d_name cpus) next (λ all k. k) h
              (cpus_of_folder-HasCpus d_name e))
    ]
  ]

  visit_uncore-Keeps :
      (class_name : Bytes) (instances : List Found) (d_name : Bytes)
      → All HasCpus instances
      → Keeps (visit_uncore sys class_name instances d_name)
  unfolding visit_uncore
  visit_uncore-Keeps class_name instances d_name h =
      elim (Bool-cases (is_instance_name class_name d_name)) [
        | inl e ↦ rw e (
            grown-Keeps instances (folder d_name (uncore_cpus sys d_name)) next (λ all k. k) h
              (uncore_cpus-HasCpus d_name))
        | inr e ↦ rw e h
      ]

  visit-Keeps :
      (class_name : Bytes) (instances : List Found) (d_name : Bytes)
      → All HasCpus instances
      → Keeps (visit sys class_name instances d_name)
  unfolding visit
  visit-Keeps class_name instances d_name h = elim (Bool-cases (is_dot d_name)) [
    | inl e ↦ rw e h
    | inr d ↦ elim (Bool-cases (streq class_name (codes "default_core"))) [
      | inl core ↦ rw (d, core) (visit_core-Keeps instances d_name h)
      | inr other ↦ rw (d, other) (visit_uncore-Keeps class_name instances d_name h)
    ]
  ]

  visit_entries-HasCpus :
      (class_name : Bytes) (instances : List Found) (entries : List Bytes) {all : List Found}
      → All HasCpus instances
      → visit_entries sys class_name instances entries ≡ some all
      → All HasCpus all
  unfolding visit_entries
  visit_entries-HasCpus class_name instances [] {all} k h =
      let same : instances ≡ all = ground arith in subst (All HasCpus) same k
  visit_entries-HasCpus class_name instances (d_name ∷ entries) {all} k h =
      let keeps = visit-Keeps class_name instances d_name k in
      elim (Visit-cases (visit sys class_name instances d_name)) [
        | inl (all', e) ↦
            visit_entries-HasCpus class_name all' entries (subst Keeps e keeps) (ground arith)
        | inr (inl (all', e)) ↦
            let same : all' ≡ all = ground arith in subst (All HasCpus) same (subst Keeps e keeps)
        | inr (inr e) ↦ absurd (ground arith)
      ]

  -- However the files read and the memory given, each instance that is listed has a CPU range: its
  -- first one may be read.
  pub get_all_pmu_instances_for-HasCpus :
      (class_name : Bytes) {all : List Found}
      → get_all_pmu_instances_for sys class_name ≡ some all
      → All HasCpus all
  unfolding get_all_pmu_instances_for
  get_all_pmu_instances_for-HasCpus class_name h =
      elim (Option-cases (sys.dir_entries pmu_devices_base)) [
        | inl e ↦ absurd (ground arith)
        | inr (entries, e) ↦ visit_entries-HasCpus class_name [] entries tt (ground arith)
      ]
