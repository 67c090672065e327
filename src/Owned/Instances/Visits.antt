-- ===== src/Owned/Instances/Visits.antt =====
-- What one entry of the folder does to the array of instances.
use mathlib.Core.List.{map-append}
use pmu_events.Base.{
  ◌+◌, ◌||◌, ◌≡◌, refl, ◌∙◌, ap, none, some, List, [], ◌∷◌, ◌++◌, if◌then◌else◌, Bytes, codes,
  length, length-map, arith, inl, inr, Bool-cases,
}
use pmu_events.Free.Laws.{array_blocks}
use pmu_events.Free.{Block, Array, block, free_range_list, unless_null}
use pmu_events.Instances
use pmu_events.Instances.{Found, is_instance_name}
use pmu_events.Libc.Text.{streq}
use pmu_events.Memory.{Mem}
use pmu_events.Memory.Holds.{swap-AreSame}
use pmu_events.Memory.Owning.{optional, value_of}
use pmu_events.Memory.Triple.{Triple, Always, triple-pure, triple-same, triple-bind, triple-free}
use pmu_events.Owned.Grow.{elements, IsFilled, is_empty-last, add_element, add_element-Triple}
use pmu_events.Owned.Instances.{
  OwnedFound, found_blocks, Visited, next, finish, fail, abandon, make_cpu, make_core, make_uncore,
  core_with_cpus, visit_core, visit_uncore, visit,
}
use pmu_events.Owned.Instances.Laws.{
  founds, visited_blocks, visit_of, abandon-Triple, cpus_of_folder-Parses,
}
use pmu_events.Owned.Range.{OwnedRanges, ranges_blocks}
use pmu_events.System.{System}
use pmu_events.Owned.Instances.Make.{Makes, make_cpu-Triple, make_core-Triple, make_uncore-Triple}

abbrev pub AllFilled : Visited → Type 0
AllFilled (next array) = IsFilled array
AllFilled (finish array) = IsFilled array
AllFilled fail = Unit

-- The entry is visited as without blocks.
abbrev pub IsVisit : Instances.Visit → Visited → Type 0
IsVisit result v = (visit_of v ≡ result) × AllFilled v

abbrev pub Visits : List Block → List Block → Mem Visited → Instances.Visit → Type 0
Visits pre blocks f result = Triple pre f (λ v. visited_blocks v ++ blocks) (IsVisit result)

module _ (sys : System) where
  -- The array with one instance more.
  founds-last :
      (instances : Array OwnedFound) (grown : Block) (new : OwnedFound) {found : Found}
      → new.value ≡ found
      → founds (block grown (elements instances ++ new ∷ [])) ≡ founds instances ++ found ∷ []
  founds-last instances grown new e =
      map-append (λ f. f.value) (elements instances) (new ∷ []) ∙ rw e refl

  grown_founds : (Array OwnedFound) → (List Found → Instances.Visit) → Found → Instances.Visit
  grown_founds instances k found =
      if sys.realloc_ok (length (founds instances) + 1)
      then k (founds instances ++ found ∷ [])
      else Instances.fail

  grown_founds_lem :
      (instances : Array OwnedFound) (k : List Found → Instances.Visit) (found : Found)
      → Instances.or_fail sys k (Instances.grown sys (founds instances) found)
        ≡ grown_founds instances k found
  unfolding Instances.or_fail Instances.grown grown_founds
  grown_founds_lem instances k found = ground arith

  add_element-Visits :
      (instances : Array OwnedFound) (extra blocks : List Block) (lacks_memory : Mem Visited)
      (make : Mem OwnedFound) (k : Array OwnedFound → Visited) (k' : List Found → Instances.Visit)
      (found : Found)
      → ((a : Array OwnedFound) → visit_of (k a) ≡ k' (founds a))
      → ((a : Array OwnedFound) → IsFilled a → AllFilled (k a))
      → ((a : Array OwnedFound) → visited_blocks (k a) ≡ array_blocks found_blocks a)
      → Visits
          (array_blocks found_blocks instances ++ (extra ++ blocks))
          blocks
          lacks_memory
          Instances.fail
      → ((rest : List Block) → Makes (extra ++ rest) rest make found)
      → Visits
          (array_blocks found_blocks instances ++ (extra ++ blocks))
          blocks
          (add_element sys.realloc_ok instances lacks_memory make k)
          (grown_founds instances k' found)
  unfolding grown_founds
  add_element-Visits instances extra blocks lacks_memory make k k' found turns fills keeps lacks
        makes =
      let same = length-map (λ (f : OwnedFound). f.value) (elements instances) in
      add_element-Triple found_blocks (λ v. visited_blocks v ++ blocks)
        (IsVisit (grown_founds instances k' found)) (λ r. r.value ≡ found) sys.realloc_ok instances
        extra blocks lacks_memory make k (λ e. rw (same, e) lacks) makes
        λ e grown new is. (
          (λ b. rw (keeps (block grown (elements instances ++ new ∷ []))) refl),
          (
            turns (block grown (elements instances ++ new ∷ []))
                ∙ ap k' (founds-last instances grown new is)
                ∙ rw (same, e) refl,
            fills (block grown (elements instances ++ new ∷ []))
                (inr (is_empty-last (elements instances) new)),
          ),
        )

  core_with_cpus-Visits :
      (instances : Array OwnedFound) (d_name : Bytes) (cpus : OwnedRanges) (blocks : List Block)
      → Visits
          (ranges_blocks cpus ++ (array_blocks found_blocks instances ++ blocks))
          blocks
          (core_with_cpus sys instances d_name (some cpus))
          (Instances.or_fail sys Instances.next
            (Instances.grown sys (founds instances) (record { name = d_name; cpus = cpus.value })))
  unfolding core_with_cpus visit_of visited_blocks free_range_list unless_null
  core_with_cpus-Visits instances d_name cpus blocks =
      let post = λ (v : Visited). visited_blocks v ++ blocks in
      let held = array_blocks found_blocks instances in
      let extra = ranges_blocks cpus in
      rw (grown_founds_lem instances Instances.next (record { name = d_name; cpus = cpus.value })) (
        triple-same post _ (swap-AreSame extra held blocks) (
          add_element-Visits instances extra blocks _ (make_core sys d_name cpus) next
            Instances.next _ (λ a. refl) (λ a f. f) (λ a. refl)
            (triple-same post _ (swap-AreSame held extra blocks) (
              triple-bind post _ (λ _. held ++ blocks) Always
                (triple-free (held ++ blocks) cpus.blocks.ranges)
                λ _ _. abandon-Triple instances blocks (IsVisit Instances.fail) (refl, tt)))
            (make_core-Triple sys d_name cpus)))

  visit_core-Visits :
      (instances : Array OwnedFound) (d_name : Bytes) (blocks : List Block)
      → IsFilled instances
      → Visits
          (array_blocks found_blocks instances ++ blocks)
          blocks
          (visit_core sys instances d_name)
          (Instances.visit_core sys (founds instances) d_name)
  unfolding visit_core Instances.visit_core visit_of visited_blocks core_with_cpus optional value_of
  visit_core-Visits instances d_name blocks filled =
      let fails = abandon-Triple instances blocks (IsVisit Instances.fail) (refl, tt) in
      elim (Bool-cases (streq d_name (codes "cpu"))) [
        | inl e ↦
            rw (Instances.visit_core, e, grown_founds_lem instances Instances.finish _)
              (add_element-Visits instances [] blocks (abandon instances) (make_cpu sys) finish
                Instances.finish _ (λ a. refl) (λ a f. f) (λ a. refl) fails (make_cpu-Triple sys))
        | inr e ↦
            rw (Instances.visit_core, e)
              (triple-bind (λ v. visited_blocks v ++ blocks) _
                (λ r. optional ranges_blocks r ++ (array_blocks found_blocks instances ++ blocks)) _
                (cpus_of_folder-Parses sys d_name (array_blocks found_blocks instances ++ blocks))
                (elim [
                  | none ↦ λ k. rw (← k) (
                      triple-pure (λ v. visited_blocks v ++ blocks) _ (next instances)
                        (refl, filled))
                  | some cpus ↦ λ k. rw (← k) (core_with_cpus-Visits instances d_name cpus blocks)
                ]))
      ]

  visit_uncore-Visits :
      (class_name : Bytes) (instances : Array OwnedFound) (d_name : Bytes) (blocks : List Block)
      → IsFilled instances
      → Visits
          (array_blocks found_blocks instances ++ blocks)
          blocks
          (visit_uncore sys class_name instances d_name)
          (Instances.visit_uncore sys class_name (founds instances) d_name)
  unfolding visit_uncore Instances.visit_uncore visit_of visited_blocks
  visit_uncore-Visits class_name instances d_name blocks filled =
      let fails = abandon-Triple instances blocks (IsVisit Instances.fail) (refl, tt) in
      elim (Bool-cases (is_instance_name class_name d_name)) [
        | inl e ↦
            rw (Instances.visit_uncore, e, grown_founds_lem instances Instances.next _)
              (add_element-Visits instances [] blocks (abandon instances) (make_uncore sys d_name)
                next Instances.next _ (λ a. refl) (λ a f. f) (λ a. refl) fails
                (make_uncore-Triple sys d_name))
        | inr e ↦
            rw (Instances.visit_uncore, e)
              (triple-pure (λ v. visited_blocks v ++ blocks) _ (next instances) (refl, filled))
      ]

  pub visit-Visits :
      (class_name : Bytes) (instances : Array OwnedFound) (d_name : Bytes) (blocks : List Block)
      → IsFilled instances
      → Visits
          (array_blocks found_blocks instances ++ blocks)
          blocks
          (visit sys class_name instances d_name)
          (Instances.visit sys class_name (founds instances) d_name)
  unfolding visit Instances.visit visit_of visited_blocks
  visit-Visits class_name instances d_name blocks filled =
      elim (Bool-cases (streq (codes ".") d_name || streq (codes "..") d_name)) [
        | inl e ↦
            rw (Instances.visit, e)
              (triple-pure (λ v. visited_blocks v ++ blocks) _ (next instances) (refl, filled))
        | inr e ↦ elim (Bool-cases (streq class_name (codes "default_core"))) [
          | inl k ↦ rw (Instances.visit, e, k) (visit_core-Visits instances d_name blocks filled)
          | inr k ↦
              rw (Instances.visit, e, k)
                (visit_uncore-Visits class_name instances d_name blocks filled)
        ]
      ]
