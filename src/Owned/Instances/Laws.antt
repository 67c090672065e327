-- ===== src/Owned/Instances/Laws.antt =====
-- What an entry of the folder leaves.
use pmu_events.Base.{
  ◌≡◌, refl, sym, ◌∙◌, ap, Option, none, some, List, [], ◌∷◌, ◌++◌, map, Bytes, codes,
}
use pmu_events.Files
use pmu_events.Files.{pmu_devices_base}
use pmu_events.Free.Laws.{pointed, array_blocks, instance_blocks, free_pmu_class-Frees}
use pmu_events.Free.{Block, Array, free_pmu_class}
use pmu_events.Instances
use pmu_events.Instances.{Found}
use pmu_events.Memory.{Mem}
use pmu_events.Memory.Owning.{
  owning, optional, value_of, Parses, triple-pointers, Triple-then, Parses-using, triple-using,
}
use pmu_events.Memory.Triple.{Triple, Always, triple-pure, triple-bind, triple-malloc}
use pmu_events.Owned.Files.{OwnedText, text_blocks, get_cpus_for, get_cpumask_for}
use pmu_events.Owned.Files.Laws.{concat_path-Parses, get_cpu_list-Parses}
use pmu_events.Owned.Grow.{elements}
use pmu_events.Owned.Instances.{
  OwnedFound, found_blocks, Visited, next, finish, fail, abandon, all_cpus, cpus_of_folder,
  mask_or_all, cpus_or_mask, uncore_cpus,
}
use pmu_events.Owned.Range.{OwnedRanges, ranges_blocks}
use pmu_events.Range.{Range, RangeList}
use pmu_events.System.{System}

-- The list that the loop without blocks has.
abbrev pub founds : Array OwnedFound → List Found
founds array = map (λ found. found.value) (elements array)

unfoldable pub visited_blocks : Visited → List Block
visited_blocks (next array) = array_blocks found_blocks array
visited_blocks (finish array) = array_blocks found_blocks array
visited_blocks fail = []

unfoldable pub visit_of : Visited → Instances.Visit
visit_of (next array) = Instances.next (founds array)
visit_of (finish array) = Instances.finish (founds array)
visit_of fail = Instances.fail

pub abandon-Triple :
    (instances : Array OwnedFound) (blocks : List Block) (Q : Visited → Type 0)
    → Q fail
    → Triple
        (array_blocks found_blocks instances ++ blocks)
        (abandon instances)
        (λ v. visited_blocks v ++ blocks)
        Q
unfolding abandon visited_blocks
abandon-Triple instances blocks Q q =
    triple-bind (λ v. visited_blocks v ++ blocks) Q (λ _. blocks) Always
      (triple-pointers instance_blocks (λ a. free_pmu_class (some (record { instances = a })))
        (λ a heap o. free_pmu_class-Frees (record { instances = a }) heap o) instances blocks)
      λ _ _. triple-pure (λ v. visited_blocks v ++ blocks) Q fail q

module _ (sys : System) where
  -- The list of CPUs with its block.
  abbrev pub Lists : List Block → List Block → Mem OwnedRanges → List Range → Type 0
  Lists pre blocks f list = Triple pre f (λ c. ranges_blocks c ++ blocks) (λ c. c.value ≡ list)

  pub all_cpus-Triple :
      (blocks : List Block) → Lists blocks blocks (all_cpus sys) (Files.all_cpus sys)
  unfolding all_cpus pointed
  all_cpus-Triple blocks =
      let post = λ (c : OwnedRanges). ranges_blocks c ++ blocks in
      triple-bind post _ (λ b. b ∷ blocks) Always (triple-malloc blocks)
        λ b _. triple-pure post _ (owning (Files.all_cpus sys) (record { ranges = some b })) refl

  pub cpus_of_folder-Parses :
      (d_name : Bytes)
      → Parses
          (λ c. c.value)
          ranges_blocks
          (cpus_of_folder sys d_name)
          (Instances.cpus_of_folder sys d_name)
  unfolding cpus_of_folder Instances.cpus_of_folder get_cpus_for Files.get_cpus_for
  cpus_of_folder-Parses d_name blocks =
      Triple-then (λ c. c.value) ranges_blocks (λ s. s.value) text_blocks blocks _ _ _
        (concat_path-Parses pmu_devices_base d_name blocks)
        λ full_path.
          Parses-using (λ c. c.value) ranges_blocks full_path.blocks _ blocks
            (get_cpu_list-Parses sys (codes "cpus") full_path.value)

  -- The first list that is there, or all CPUs.
  abbrev first_of : Option RangeList → Option RangeList → RangeList
  first_of cpus mask = elim cpus [
    | some list ↦ list
    | none ↦ elim mask [ some list ↦ list | none ↦ Files.all_cpus sys ]
  ]

  uncore_cpus_first :
      (d_name : Bytes) {cpus mask : Option RangeList}
      → Instances.cpus_of_folder sys d_name ≡ cpus
      → Instances.cpumask_of_folder sys d_name ≡ mask
      → Instances.uncore_cpus sys d_name ≡ first_of cpus mask
  unfolding Instances.uncore_cpus
  uncore_cpus_first d_name {cpus} e k =
      ap (λ (c : Option RangeList). first_of c (Instances.cpumask_of_folder sys d_name)) e
      ∙ ap (λ (m : Option RangeList). first_of cpus m) k

  -- The path of the folder is there.
  uncore_from :
      (d_name path : Bytes)
      → Files.concat_path pmu_devices_base d_name ≡ some path
      → Instances.uncore_cpus sys d_name
        ≡ first_of (Files.get_cpus_for sys path) (Files.get_cpumask_for sys path)
  unfolding Instances.cpus_of_folder Instances.cpumask_of_folder
  uncore_from d_name path e =
      uncore_cpus_first d_name {cpus = Files.get_cpus_for sys path}
        {mask = Files.get_cpumask_for sys path} (rw (Instances.cpus_of_folder, e) refl)
        (rw (Instances.cpumask_of_folder, e) refl)

  uncore_none :
      (d_name : Bytes)
      → Files.concat_path pmu_devices_base d_name ≡ none
      → Instances.uncore_cpus sys d_name ≡ Files.all_cpus sys
  unfolding Instances.cpus_of_folder Instances.cpumask_of_folder
  uncore_none d_name e =
      uncore_cpus_first d_name {cpus = none} {mask = none} (rw (Instances.cpus_of_folder, e) refl)
        (rw (Instances.cpumask_of_folder, e) refl)

  mask_or_all-Triple :
      (mask : Option OwnedRanges) (blocks : List Block)
      → Lists
          (optional ranges_blocks mask ++ blocks)
          blocks
          (mask_or_all sys mask)
          (elim (value_of (λ c. c.value) mask) [ some list ↦ list | none ↦ Files.all_cpus sys ])
  unfolding mask_or_all optional value_of
  mask_or_all-Triple none blocks = all_cpus-Triple blocks
  mask_or_all-Triple (some mask) blocks = triple-pure (λ c. ranges_blocks c ++ blocks) _ mask refl

  cpus_or_mask-Triple :
      (path : Bytes) (cpus : Option OwnedRanges) (blocks : List Block)
      → Lists
          (optional ranges_blocks cpus ++ blocks)
          blocks
          (cpus_or_mask sys path cpus)
          (elim (value_of (λ c. c.value) cpus) [
            | some list ↦ list
            | none ↦ elim (Files.get_cpumask_for sys path) [
              | some mask ↦ mask
              | none ↦ Files.all_cpus sys
            ]
          ])
  unfolding cpus_or_mask optional value_of get_cpumask_for Files.get_cpumask_for
  cpus_or_mask-Triple path none blocks =
      triple-bind (λ c. ranges_blocks c ++ blocks) _ (λ r. optional ranges_blocks r ++ blocks) _
        (get_cpu_list-Parses sys (codes "cpumask") path blocks)
        λ mask e. rw (← e) (mask_or_all-Triple mask blocks)
  cpus_or_mask-Triple path (some cpus) blocks =
      triple-pure (λ c. ranges_blocks c ++ blocks) _ cpus refl

  pub uncore_cpus-Triple :
      (d_name : Bytes) (path : Option OwnedText) (blocks : List Block)
      → value_of (λ s. s.value) path ≡ Files.concat_path pmu_devices_base d_name
      → Lists
          (optional text_blocks path ++ blocks)
          blocks
          (uncore_cpus sys path)
          (Instances.uncore_cpus sys d_name)
  unfolding uncore_cpus optional value_of get_cpus_for Files.get_cpus_for
  uncore_cpus-Triple d_name none blocks e = rw (uncore_none d_name (sym e)) (all_cpus-Triple blocks)
  uncore_cpus-Triple d_name (some path) blocks e = rw (uncore_from d_name path.value (sym e)) (
      triple-using path.blocks _ blocks ranges_blocks _ (
        let rest = path.blocks ∷ blocks in
        triple-bind (λ c. ranges_blocks c ++ rest) _ (λ r. optional ranges_blocks r ++ rest) _
          (get_cpu_list-Parses sys (codes "cpus") path.value rest)
          λ cpus k. rw (← k) (cpus_or_mask-Triple path.value cpus rest)))
