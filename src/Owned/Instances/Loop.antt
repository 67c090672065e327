-- ===== src/Owned/Instances/Loop.antt =====
-- What the loop over the folder leaves, and that it finds what the loop without blocks finds.
use pmu_events.Base.{
  ◌≡◌, refl, Option, none, some, List, [], ◌∷◌, ◌++◌, Bytes, inl, inr, Option-cases,
}
use pmu_events.Files.{pmu_devices_base}
use pmu_events.Free.Laws.{array_blocks}
use pmu_events.Free.{Block, Array, null}
use pmu_events.Instances
use pmu_events.Instances.{Found, is_instance_name}
use pmu_events.Memory.Owning.{optional, value_of}
use pmu_events.Memory.Triple.{Triple, triple-pure, triple-bind}
use pmu_events.Owned.Grow.{IsFilled, AreFilled}
use pmu_events.Owned.Instances.{
  OwnedFound, found_blocks, next, finish, fail, visit_entries, get_all_pmu_instances_for,
}
use pmu_events.Owned.Instances.Laws.{founds, visited_blocks, visit_of}
use pmu_events.System.{System}
use pmu_events.Owned.Instances.Visits.{visit-Visits}

module _ (sys : System) where
  -- The instances that are found, in an array of their own.
  abbrev pub Finds : Option (List Found) → Option (Array OwnedFound) → Type 0
  Finds result r = (value_of founds r ≡ result) × AreFilled r

  visit_entries-Triple :
      (class_name : Bytes) (instances : Array OwnedFound) (entries : List Bytes)
      (blocks : List Block)
      → IsFilled instances
      → Triple
          (array_blocks found_blocks instances ++ blocks)
          (visit_entries sys class_name instances entries)
          (λ r. optional (array_blocks found_blocks) r ++ blocks)
          (Finds (Instances.visit_entries sys class_name (founds instances) entries))
  unfolding visit_entries Instances.visit_entries optional value_of visited_blocks visit_of
  visit_entries-Triple class_name instances [] blocks filled =
      triple-pure (λ r. optional (array_blocks found_blocks) r ++ blocks) _ (some instances)
        (refl, filled)
  visit_entries-Triple class_name instances (d_name ∷ entries) blocks filled =
      let post =
        λ (r : Option (Array OwnedFound)). optional (array_blocks found_blocks) r ++ blocks in
      triple-bind post _ (λ v. visited_blocks v ++ blocks) _
        (visit-Visits sys class_name instances d_name blocks filled)
        (elim [
          | next array ↦ λ (e, f).
              rw (Instances.visit_entries, ← e)
                (visit_entries-Triple class_name array entries blocks f)
          | finish array ↦ λ (e, f).
              rw (Instances.visit_entries, ← e) (triple-pure post _ (some array) (refl, f))
          | fail ↦ λ (e, f). rw (Instances.visit_entries, ← e) (triple-pure post _ none (refl, tt))
        ])

  -- Whatever memory and files do, a 0 leaves the instances' blocks, and a -1 none.
  pub get_all_pmu_instances_for-Triple :
      (class_name : Bytes) (blocks : List Block)
      → Triple blocks
          (get_all_pmu_instances_for sys class_name)
          (λ r. optional (array_blocks found_blocks) r ++ blocks)
          (Finds (Instances.get_all_pmu_instances_for sys class_name))
  unfolding get_all_pmu_instances_for Instances.get_all_pmu_instances_for optional value_of
      array_blocks
  get_all_pmu_instances_for-Triple class_name blocks =
      elim (Option-cases (sys.dir_entries pmu_devices_base)) [
        | inl e ↦
            rw (get_all_pmu_instances_for, Instances.get_all_pmu_instances_for, e)
              (triple-pure (λ r. optional (array_blocks found_blocks) r ++ blocks) _ none
                (refl, tt))
        | inr (entries, e) ↦
            rw (get_all_pmu_instances_for, Instances.get_all_pmu_instances_for, e)
              (visit_entries-Triple class_name null entries blocks (inl refl))
      ]
