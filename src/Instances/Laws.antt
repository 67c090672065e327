-- ===== src/Instances/Laws.antt =====
-- Which instances of a class are listed.
use pmu_events.Base.{
  ℕ, ◌+◌, ◌≡◌, ◌≢◌, Bool, true, not, ◌&&◌, ◌||◌, some, List, [], ◌∷◌, ◌++◌, arith, Bytes, codes,
  length, if◌then◌else◌, append_assoc, append-nil,
}
use pmu_events.Files.{pmu_devices_base}
use pmu_events.Instances.{
  Found, next, is_instance_name, uncore_cpus, visit_uncore, visit, visit_entries,
  get_all_pmu_instances_for,
}
use pmu_events.Libc.Text.{streq, streq_iff}
use pmu_events.Range.{RangeList}
use pmu_events.System.{System}

-- `.` and `..`
abbrev pub is_dot : Bytes → Bool
is_dot d_name = streq (codes ".") d_name || streq (codes "..") d_name

module _ (sys : System) where
  abbrev folder : Bytes → RangeList → Found
  folder d_name cpus = record { name = d_name; cpus = cpus }

  -- The instances of a class other than `default_core`, with memory for all.
  unfoldable pub uncore_instances : Bytes → List Bytes → List Found
  uncore_instances class_name [] = []
  uncore_instances class_name (d_name ∷ entries) =
      if not (is_dot d_name) && is_instance_name class_name d_name
      then folder d_name (uncore_cpus sys d_name) ∷ uncore_instances class_name entries
      else uncore_instances class_name entries

  visit_uncore_lem :
      (class_name : Bytes) (instances : List Found) (d_name : Bytes)
      → ((n : ℕ) → sys.realloc_ok n ≡ true)
      → class_name ≢ codes "default_core"
      → visit sys class_name instances d_name
        ≡ next (
            if not (is_dot d_name) && is_instance_name class_name d_name
            then instances ++ folder d_name (uncore_cpus sys d_name) ∷ []
            else instances)
  unfolding visit visit_uncore
  visit_uncore_lem class_name instances d_name ok ne =
      ground (arith, ok (length instances + 1), streq_iff class_name (codes "default_core"))

  visit_entries-uncore :
      (class_name : Bytes) (instances : List Found) (entries : List Bytes)
      → ((n : ℕ) → sys.realloc_ok n ≡ true)
      → class_name ≢ codes "default_core"
      → visit_entries sys class_name instances entries
        ≡ some (instances ++ uncore_instances class_name entries)
  unfolding visit_entries uncore_instances
  visit_entries-uncore class_name instances [] ok ne = rw append-nil
  visit_entries-uncore class_name instances (d_name ∷ entries) ok ne =
      let found = folder d_name (uncore_cpus sys d_name) in
      ground (
        arith,
        visit_uncore_lem class_name instances d_name ok ne,
        visit_entries-uncore class_name (instances ++ found ∷ []) entries ok ne,
        append_assoc instances (found ∷ []) (uncore_instances class_name entries),
        visit_entries-uncore class_name instances entries ok ne,
      )

  -- If the folder opens and there is memory for all, a class other than `default_core` lists, in
  -- the order of the folder, the entries but `.` and `..` whose names are instance names of it,
  -- each with its CPUs.
  pub get_all_pmu_instances_for-uncore :
      (class_name : Bytes) (entries : List Bytes)
      → sys.dir_entries pmu_devices_base ≡ some entries
      → ((n : ℕ) → sys.realloc_ok n ≡ true)
      → class_name ≢ codes "default_core"
      → get_all_pmu_instances_for sys class_name ≡ some (uncore_instances class_name entries)
  unfolding get_all_pmu_instances_for
  get_all_pmu_instances_for-uncore class_name entries opened ok ne =
      rw opened (visit_entries-uncore class_name [] entries ok ne)
