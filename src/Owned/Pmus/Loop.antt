-- ===== src/Owned/Pmus/Loop.antt =====
-- The loop of `get_pmus` over the table, with the blocks of the classes.
use mathlib.Core.List.{map-append}
use pmu_events.Base.{
  ◌+◌, ◌≡◌, refl, sym, ◌∙◌, ap, ◌≢◌, inl, inr, Option, none, some, List, [], ◌∷◌, ◌++◌, map,
  if◌then◌else◌, Bytes, length, length-map, is_empty, Bool-cases, Option-cases,
}
use pmu_events.Free.Laws.{array_blocks, instance_blocks, pointed, free_pmu_class-Frees}
use pmu_events.Free.{Block, Array, null, block, free, unless_null, free_pmu_class}
use pmu_events.Memory.{freeing, ◌>>◌}
use pmu_events.Memory.Holds.{swap-AreSame}
use pmu_events.Memory.Owning.{optional, value_of, pointers_lem, triple-pointers}
use pmu_events.Memory.Triple.{Triple, Always, triple-pure, triple-same, triple-bind, triple-free}
use pmu_events.Owned.Grow.{
  elements, array_pointer, IsFilled, AreFilled, is_empty-last, add_element-Triple,
  triple-touch_pointer, array_pointer-within,
}
use pmu_events.Owned.Instances.{OwnedFound, found_blocks}
use pmu_events.Owned.Instances.Laws.{founds}
use pmu_events.Owned.Instances.Loop.{get_all_pmu_instances_for-Triple}
use pmu_events.Owned.Pmus.{
  OwnedClass, tree_blocks, class_with, make_class, free_counted, add_found, add_class, add_classes,
}
use pmu_events.Pmu.{PmuTableEntry, PmuClass}
use pmu_events.Instances
use pmu_events.Pmus
use pmu_events.Pmus.{Adding, added, refused, overrun}
use pmu_events.System.{System}

abbrev pub classes_of : Array OwnedClass → List PmuClass
classes_of array = map (λ c. c.value) (elements array)

-- The classes are those of the loop without blocks, and a -1 is one there.
abbrev pub Adds : Adding → Option (Array OwnedClass) → Type 0
Adds result none = refused ≡ result
Adds result (some array) = (added (classes_of array) ≡ result) × IsFilled array

-- The blocks of the classes so far; a -1 leaves none.
unfoldable pub kept_blocks : Option (Array OwnedClass) → List Block
kept_blocks = optional (array_blocks tree_blocks)

module _ (sys : System) (get_pmu_name : PmuTableEntry → Bytes) where
  make_class-Triple :
      (pmu : PmuTableEntry) (instances : Array OwnedFound) (blocks : List Block)
      → Triple
          (array_blocks found_blocks instances ++ blocks)
          (make_class sys get_pmu_name pmu instances)
          (λ c. tree_blocks c ++ blocks)
          (λ c. c.value ≡ Pmus.class_of sys get_pmu_name pmu (founds instances))
  unfolding make_class
  make_class-Triple pmu instances blocks =
      let post = λ (c : OwnedClass). tree_blocks c ++ blocks in
      let held = array_blocks found_blocks instances ++ blocks in
      triple-bind post _ (λ _. held) Always
        (triple-touch_pointer held (array_pointer instances)
          (array_pointer-within found_blocks instances blocks))
        λ _ _.
          triple-same post _ (λ b. rw (pointers_lem instance_blocks instances) refl)
            (triple-pure post _ (class_with sys get_pmu_name pmu instances) refl)

  -- One step of the loop without blocks, from the instances of the class on.
  unfoldable pub add_from : List PmuClass → PmuTableEntry → Option (List Instances.Found) → Adding
  unfolding Pmus.lacks_memory
  add_from classes pmu none = added classes
  add_from classes pmu (some instances) =
      if is_empty instances
      then added classes
      else if sys.classes_ok (length classes + 1)
      then added (classes ++ Pmus.class_of sys get_pmu_name pmu instances ∷ [])
      else Pmus.lacks_memory classes

  pub add_class_from :
      (classes : List PmuClass) (pmu : PmuTableEntry)
      → Pmus.add_class sys get_pmu_name classes pmu
        ≡ add_from classes pmu (Instances.get_all_pmu_instances_for sys (get_pmu_name pmu))
  unfolding Pmus.add_class add_from
  add_class_from classes pmu =
      elim (Option-cases (Instances.get_all_pmu_instances_for sys (get_pmu_name pmu))) [
        | inl e ↦ rw (Pmus.add_class, e) refl
        | inr (instances, e) ↦ rw (Pmus.add_class, e) refl
      ]

  pub is_empty-map :
      (instances : Array OwnedFound) → is_empty (founds instances) ≡ is_empty (elements instances)
  is_empty-map null = refl
  is_empty-map (block array []) = refl
  is_empty-map (block array (f ∷ list)) = refl

  -- Of no classes, nothing is left but the class that is freed.
  lacks_memory-Triple :
      (classes : Array OwnedClass) (pmu : PmuTableEntry) (instances : Array OwnedFound)
      (blocks : List Block) {result : Adding}
      → IsFilled classes
      → result ≡ Pmus.lacks_memory (classes_of classes)
      → result ≢ overrun
      → Triple
          (array_blocks tree_blocks classes ++ (array_blocks found_blocks instances ++ blocks))
          (freeing (free_pmu_class (some (class_with sys get_pmu_name pmu instances).blocks))
            >> free_counted sys get_pmu_name classes)
          (λ c. kept_blocks c ++ blocks)
          (Adds result)
  unfolding free_counted Pmus.lacks_memory array_blocks pointed optional kept_blocks free_pmu_class
      unless_null free
  lacks_memory-Triple null pmu instances blocks filled value defined =
      let post = λ (c : Option (Array OwnedClass)). kept_blocks c ++ blocks in
      triple-bind post _ (λ _. blocks) Always
        (triple-pointers instance_blocks (λ a. free_pmu_class (some (record { instances = a })))
          (λ a heap o. free_pmu_class-Frees (record { instances = a }) heap o) instances blocks)
        λ _ _.
          triple-bind post _ (λ _. blocks) Always (triple-free blocks none)
            λ _ _.
              triple-bind post _ (λ _. blocks) Always (triple-free blocks none)
                λ _ _. triple-pure post _ none (sym value)
  lacks_memory-Triple (block array []) pmu instances blocks filled value defined =
      absurd (elim filled [ inl n ↦ cc | inr k ↦ cc ])
  lacks_memory-Triple (block array (c ∷ list)) pmu instances blocks filled value defined =
      absurd (defined value)

  add_found-Triple :
      (classes : Array OwnedClass) (pmu : PmuTableEntry) (found : Option (Array OwnedFound))
      (blocks : List Block)
      → IsFilled classes
      → AreFilled found
      → add_from (classes_of classes) pmu (value_of founds found) ≢ overrun
      → Triple
          (optional (array_blocks found_blocks) found
            ++ (array_blocks tree_blocks classes ++ blocks))
          (add_found sys get_pmu_name classes pmu found)
          (λ c. kept_blocks c ++ blocks)
          (Adds (add_from (classes_of classes) pmu (value_of founds found)))
  unfolding add_found add_from optional value_of kept_blocks
  add_found-Triple classes pmu none blocks filled f defined =
      triple-pure (λ c. kept_blocks c ++ blocks) _ (some classes) (refl, filled)
  add_found-Triple classes pmu (some instances) blocks filled f defined =
      let post = λ (c : Option (Array OwnedClass)). kept_blocks c ++ blocks in
      let extra = array_blocks found_blocks instances in
      let held = array_blocks tree_blocks classes in
      let new = Pmus.class_of sys get_pmu_name pmu (founds instances) in
      let more = length-map (λ (c : OwnedClass). c.value) (elements classes) in
      elim (Bool-cases (is_empty (elements instances))) [
        | inl e ↦ elim f [
          | inl n ↦
              rw (add_found, add_from, is_empty-map instances, e)
                (triple-same post _ {pre = held ++ blocks} (λ b. rw n (unfold array_blocks in refl))
                  (triple-pure post _ (some classes) (refl, filled)))
          | inr k ↦ absurd (cc (e, k))
        ]
        | inr e ↦
            let value : add_from (classes_of classes) pmu (some (founds instances)) ≡ (
                if sys.classes_ok (length (elements classes) + 1)
                then added (classes_of classes ++ new ∷ [])
                else Pmus.lacks_memory (classes_of classes)) =
              rw (add_from, is_empty-map instances, e, more) refl in
            rw (add_found, e)
              (triple-same post _ (swap-AreSame extra held blocks) (
                add_element-Triple tree_blocks post _ (λ c. c.value ≡ new) sys.classes_ok classes
                  extra blocks _ (make_class sys get_pmu_name pmu instances) (λ grown. some grown)
                  (λ k.
                    lacks_memory-Triple classes pmu instances blocks filled (value ∙ rw k refl)
                      defined)
                  (make_class-Triple pmu instances)
                  λ k grown c is. (
                    (λ b. refl),
                    (
                      ap added (
                            map-append (λ (d : OwnedClass). d.value) (elements classes) (c ∷ [])
                            ∙ ap (λ (d : PmuClass). classes_of classes ++ d ∷ []) is)
                          ∙ sym (value ∙ rw k refl),
                      inr (is_empty-last (elements classes) c),
                    ),
                  )))
      ]

  pub add_class-Triple :
      (classes : Array OwnedClass) (pmu : PmuTableEntry) (blocks : List Block)
      → IsFilled classes
      → Pmus.add_class sys get_pmu_name (classes_of classes) pmu ≢ overrun
      → Triple
          (array_blocks tree_blocks classes ++ blocks)
          (add_class sys get_pmu_name classes pmu)
          (λ c. kept_blocks c ++ blocks)
          (Adds (Pmus.add_class sys get_pmu_name (classes_of classes) pmu))
  unfolding add_class kept_blocks optional
  add_class-Triple classes pmu blocks filled defined =
      let held = array_blocks tree_blocks classes ++ blocks in
      let from = add_class_from (classes_of classes) pmu in
      triple-bind (λ c. kept_blocks c ++ blocks) _
        (λ r. optional (array_blocks found_blocks) r ++ held) _
        (get_all_pmu_instances_for-Triple sys (get_pmu_name pmu) held)
        λ found (e, f).
          rw (from, ← e)
            (add_found-Triple classes pmu found blocks filled f (λ n. defined (from ∙ rw (← e) n)))

  pub add_classes-Triple :
      (classes : Array OwnedClass) (pmus : List PmuTableEntry) (blocks : List Block)
      → IsFilled classes
      → Pmus.add_classes sys get_pmu_name (classes_of classes) pmus ≢ overrun
      → Triple
          (array_blocks tree_blocks classes ++ blocks)
          (add_classes sys get_pmu_name classes pmus)
          (λ c. kept_blocks c ++ blocks)
          (Adds (Pmus.add_classes sys get_pmu_name (classes_of classes) pmus))
  unfolding add_classes Pmus.add_classes kept_blocks optional
  add_classes-Triple classes [] blocks filled defined =
      triple-pure (λ c. kept_blocks c ++ blocks) _ (some classes) (refl, filled)
  add_classes-Triple classes (pmu ∷ pmus) blocks filled defined =
      triple-bind (λ c. kept_blocks c ++ blocks) _ (λ c. kept_blocks c ++ blocks) _
        (add_class-Triple classes pmu blocks filled (λ n. defined (rw (Pmus.add_classes, n) refl)))
        (elim [
          | none ↦ λ e.
              rw (Pmus.add_classes, ← e) (triple-pure (λ c. kept_blocks c ++ blocks) _ none refl)
          | some classes' ↦ λ (e, f).
              rw (Pmus.add_classes, ← e)
                (add_classes-Triple classes' pmus blocks f
                  (λ n. defined (rw (Pmus.add_classes, ← e) n)))
        ])
