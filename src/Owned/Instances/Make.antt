-- ===== src/Owned/Instances/Make.antt =====
-- The new elements of the array of instances.
use pmu_events.Base.{◌≡◌, refl, ◌∙◌, List, [], ◌∷◌, ◌++◌, Bytes, codes, arith}
use pmu_events.Files
use pmu_events.Files.{pmu_devices_base}
use pmu_events.Free.Laws.{pointed}
use pmu_events.Free.{Block}
use pmu_events.Instances
use pmu_events.Instances.{Found, is_instance_name}
use pmu_events.Memory.{Mem}
use pmu_events.Memory.Holds.{AreSame, count, count-append, swap-AreSame}
use pmu_events.Memory.Owning.{optional}
use pmu_events.Memory.Triple.{Triple, Always, triple-pure, triple-same, triple-bind, triple-malloc}
use pmu_events.Owned.Files.{text_blocks}
use pmu_events.Owned.Files.Laws.{concat_path-Parses}
use pmu_events.Owned.Instances.{
  OwnedFound, found_blocks, found_with, make_cpu, make_core, make_uncore,
}
use pmu_events.Owned.Instances.Laws.{all_cpus-Triple, uncore_cpus-Triple}
use pmu_events.Owned.Range.{OwnedRanges, ranges_blocks}
use pmu_events.System.{System}

abbrev pub Makes : List Block → List Block → Mem OwnedFound → Found → Type 0
Makes pre blocks f found = Triple pre f (λ r. found_blocks r ++ blocks) (λ r. r.value ≡ found)

module _ (sys : System) where
  -- The name's block and the blocks of the CPUs.
  found-AreSame :
      (name : Bytes) (copy : Block) (cpus : OwnedRanges) (blocks : List Block)
      → AreSame
          (ranges_blocks cpus ++ (copy ∷ blocks))
          (found_blocks (found_with name copy cpus) ++ blocks)
  unfolding pointed
  found-AreSame name copy cpus blocks b =
      unfold count in
      omega (
        arith,
        count-append b (ranges_blocks cpus) (copy ∷ blocks),
        count-append b (ranges_blocks cpus ++ copy ∷ []) blocks,
        count-append b (ranges_blocks cpus) (copy ∷ []),
      )

  pub make_cpu-Triple :
      (blocks : List Block)
      → Makes blocks blocks
          (make_cpu sys)
          (record { name = codes "cpu"; cpus = Files.all_cpus sys })
  unfolding make_cpu
  make_cpu-Triple blocks =
      let post = λ (r : OwnedFound). found_blocks r ++ blocks in
      triple-bind post _ (λ b. b ∷ blocks) Always (triple-malloc blocks)
        λ name _.
          triple-bind post _ (λ c. ranges_blocks c ++ (name ∷ blocks)) _
            (all_cpus-Triple sys (name ∷ blocks))
            λ cpus e.
              triple-same post _ (found-AreSame (codes "cpu") name cpus blocks)
                (triple-pure post _ (found_with (codes "cpu") name cpus) (rw e refl))

  pub make_core-Triple :
      (d_name : Bytes) (cpus : OwnedRanges) (blocks : List Block)
      → Makes
          (ranges_blocks cpus ++ blocks)
          blocks
          (make_core sys d_name cpus)
          (record { name = d_name; cpus = cpus.value })
  unfolding make_core
  make_core-Triple d_name cpus blocks =
      let post = λ (r : OwnedFound). found_blocks r ++ blocks in
      triple-bind post _ (λ b. b ∷ (ranges_blocks cpus ++ blocks)) Always
        (triple-malloc (ranges_blocks cpus ++ blocks))
        λ name _.
          triple-same post _
            (λ b.
              swap-AreSame (name ∷ []) (ranges_blocks cpus) blocks b
              ∙ found-AreSame d_name name cpus blocks b)
            (triple-pure post _ (found_with d_name name cpus) refl)

  pub make_uncore-Triple :
      (d_name : Bytes) (blocks : List Block)
      → Makes blocks blocks
          (make_uncore sys d_name)
          (record { name = d_name; cpus = Instances.uncore_cpus sys d_name })
  unfolding make_uncore
  make_uncore-Triple d_name blocks =
      let post = λ (r : OwnedFound). found_blocks r ++ blocks in
      triple-bind post _ (λ b. b ∷ blocks) Always (triple-malloc blocks)
        λ name _.
          triple-bind post _ (λ r. optional text_blocks r ++ (name ∷ blocks)) _
            (concat_path-Parses pmu_devices_base d_name (name ∷ blocks))
            λ path p.
              triple-bind post _ (λ c. ranges_blocks c ++ (name ∷ blocks)) _
                (uncore_cpus-Triple sys d_name path (name ∷ blocks) p)
                λ cpus e.
                  triple-same post _ (found-AreSame d_name name cpus blocks)
                    (triple-pure post _ (found_with d_name name cpus) (rw e refl))
