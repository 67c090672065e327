-- ===== src/Owned/Pmus/Crash.antt =====
-- Where `get_pmus` uses memory in an undefined way.
use pmu_events.Base.{
  ℕ, ◌+◌, ◌≡◌, refl, sym, ◌∙◌, ◌≢◌, ◌⊎◌, inl, inr, Bool, false, Option, none, some, List, [], ◌∷◌,
  ◌++◌, Bytes, length, length-map, is_empty, Bool-cases, Option-cases,
}
use pmu_events.Free.Laws.{array_blocks}
use pmu_events.Free.{Block, Array, null, block, free_pmu_class}
use pmu_events.Memory.{Memory, Mem, ◌>>=◌, ◌>>◌, freeing}
use pmu_events.Memory.{realloc, touch}
use pmu_events.Memory.Holds.{Holds}
use pmu_events.Memory.Owning.{optional, value_of}
use pmu_events.Memory.Triple.{Triple}
use pmu_events.Owned.Grow.{elements, IsFilled, add_element}
use pmu_events.Owned.Instances.{OwnedFound}
use pmu_events.Owned.Instances.Laws.{founds}
use pmu_events.Owned.Instances.Loop.{get_all_pmu_instances_for-Triple}
use pmu_events.Owned.Pmus.{
  OwnedClass, tree_blocks, class_with, free_counted, add_found, add_class, add_classes, get_pmus,
}
use pmu_events.Owned.Pmus.Loop.{
  classes_of, kept_blocks, add_from, add_class_from, is_empty-map, add_class-Triple,
}
use pmu_events.Pmu.{PmuTableEntry, PmuClass}
use pmu_events.Pmus
use pmu_events.Pmus.Laws.{Adding-cases}
use pmu_events.Pmus.{added, refused, overrun}
use pmu_events.System.{System}

added-ne-overrun : {classes : List PmuClass} → added classes ≢ overrun
added-ne-overrun e = cc

refused-ne-overrun : refused ≢ overrun
refused-ne-overrun e = cc

failed_crashed : Pmus.failed ≢ Pmus.crashed
failed_crashed e = cc

listed_crashed : {classes : List PmuClass} → Pmus.listed classes ≢ Pmus.crashed
listed_crashed e = cc

-- `get_pmus` without blocks has one of three results.
pub Listing-cases : (r : Pmus.Listing) → (r ≡ Pmus.crashed) ⊎ (r ≢ Pmus.crashed)
Listing-cases (Pmus.listed classes) = inr listed_crashed
Listing-cases Pmus.failed = inr failed_crashed
Listing-cases Pmus.crashed = inl refl

-- From a memory that holds these blocks, the code is undefined.
abbrev Crashes : {A : Type 0} → List Block → Mem A → Type 0
Crashes pre f = (old m : Memory) → Holds old pre m → f m ≡ none

module _ {A B : Type 0} {pre : List Block} (f : Mem B) (g : B → Mem A) where
  Crashes-first : Crashes pre f → Crashes pre (f >>= g)
  Crashes-first crashes old m h = rw (◌>>=◌, crashes old m h) refl

  Crashes-second :
      {mid : B → List Block} {R : B → Type 0}
      → Triple pre f mid R
      → ((b : B) → R b → Crashes (mid b) (g b))
      → Crashes pre (f >>= g)
  Crashes-second first crashes old m h =
      let r = first old m h in rw (◌>>=◌, r.returns) (crashes r.value r.result old r.after r.holds)

-- Whatever the memory is, what ends in a crash is undefined.
bind-crash :
    {A B : Type 0} (f : Mem B) (g : B → Mem A) (m : Memory)
    → ((b : B) (m' : Memory) → g b m' ≡ none)
    → (f >>= g) m ≡ none
bind-crash f g m crashes = elim (Option-cases (f m)) [
  | inl e ↦ rw (◌>>=◌, e) refl
  | inr ((b, m'), e) ↦ rw (◌>>=◌, e) (crashes b m')
]

add_element-crash :
    {B X : Type 0} (realloc_ok : ℕ → Bool) (array : Array B) (lacks_memory : Mem X) (make : Mem B)
    (done : Array B → X) (m : Memory)
    → realloc_ok (length (elements array) + 1) ≡ false
    → ((m' : Memory) → lacks_memory m' ≡ none)
    → add_element realloc_ok array lacks_memory make done m ≡ none
unfolding add_element realloc
add_element-crash realloc_ok null lacks make done m e crashes = rw (e) (crashes m)
add_element-crash realloc_ok (block array list) lacks make done m e crashes =
    rw (e) (elim (Option-cases (touch array m)) [
      | inl t ↦ rw (◌>>=◌, realloc, ◌>>◌, t) refl
      | inr ((u, m'), t) ↦ rw (◌>>=◌, realloc, ◌>>◌, t) (crashes m')
    ])

module _ (sys : System) (get_pmu_name : PmuTableEntry → Bytes) where
  free_counted-crash :
      (classes : Array OwnedClass) (m : Memory)
      → Pmus.lacks_memory (classes_of classes) ≡ overrun
      → free_counted sys get_pmu_name classes m ≡ none
  unfolding free_counted Pmus.lacks_memory
  free_counted-crash null m e = cc
  free_counted-crash (block array list) m e = refl

  add_found-crash :
      (classes : Array OwnedClass) (pmu : PmuTableEntry) (found : Option (Array OwnedFound))
      (m : Memory)
      → add_from sys get_pmu_name (classes_of classes) pmu (value_of founds found) ≡ overrun
      → add_found sys get_pmu_name classes pmu found m ≡ none
  unfolding add_found add_from value_of free_counted
  add_found-crash classes pmu none m e = cc
  add_found-crash classes pmu (some instances) m e =
      elim (Bool-cases (is_empty (elements instances))) [
        | inl k ↦
            absurd
              (added-ne-overrun (rw (add_from, is_empty-map sys get_pmu_name instances, k) at e))
        | inr k ↦ elim (Bool-cases (sys.classes_ok (length (elements classes) + 1))) [
          | inl ok ↦ absurd (
              added-ne-overrun (
                rw
                  (
                    add_from,
                    is_empty-map sys get_pmu_name instances,
                    k,
                    length-map (λ (c : OwnedClass). c.value) (elements classes),
                    ok,
                  )
                  at e))
          | inr f ↦ rw (k) (
              add_element-crash sys.classes_ok classes _ _ _ m f λ m'.
                bind-crash
                  (freeing
                    (free_pmu_class (some (class_with sys get_pmu_name pmu instances).blocks)))
                  _ m'
                  λ b m''. free_counted-crash classes m'' (
                    rw
                      (
                        add_from,
                        is_empty-map sys get_pmu_name instances,
                        k,
                        length-map (λ (c : OwnedClass). c.value) (elements classes),
                        f,
                      )
                      at e))
        ]
      ]

  add_class-crash :
      (classes : Array OwnedClass) (pmu : PmuTableEntry) (blocks : List Block)
      → Pmus.add_class sys get_pmu_name (classes_of classes) pmu ≡ overrun
      → Crashes
          (array_blocks tree_blocks classes ++ blocks)
          (add_class sys get_pmu_name classes pmu)
  unfolding add_class
  add_class-crash classes pmu blocks e =
      let held = array_blocks tree_blocks classes ++ blocks in
      Crashes-second _ _ (get_all_pmu_instances_for-Triple sys (get_pmu_name pmu) held)
        λ found (same, _) old m h.
          add_found-crash classes pmu found m
            (rw same (sym (add_class_from sys get_pmu_name (classes_of classes) pmu) ∙ e))

  add_classes-crash :
      (classes : Array OwnedClass) (pmus : List PmuTableEntry) (blocks : List Block)
      → IsFilled classes
      → Pmus.add_classes sys get_pmu_name (classes_of classes) pmus ≡ overrun
      → Crashes
          (array_blocks tree_blocks classes ++ blocks)
          (add_classes sys get_pmu_name classes pmus)
  unfolding add_classes Pmus.add_classes kept_blocks optional
  add_classes-crash classes [] blocks filled e = absurd (added-ne-overrun e)
  add_classes-crash classes (pmu ∷ pmus) blocks filled e =
      elim (Adding-cases (Pmus.add_class sys get_pmu_name (classes_of classes) pmu)) [
        | inl (next, k) ↦
            Crashes-second _ _
              (add_class-Triple sys get_pmu_name classes pmu blocks filled
                (λ n. added-ne-overrun (sym k ∙ n)))
              (elim [
                | none ↦ λ same. absurd (cc (same, k))
                | some classes' ↦ λ (same, f).
                    add_classes-crash classes' pmus blocks f (rw (Pmus.add_classes, ← same) at e)
              ])
        | inr (inl k) ↦ absurd (refused-ne-overrun (rw (Pmus.add_classes, k) at e))
        | inr (inr k) ↦ Crashes-first _ _ (add_class-crash classes pmu blocks k)
      ]

  pub get_pmus-crash :
      (table : Option (List PmuTableEntry))
      → Pmus.get_pmus sys get_pmu_name table ≡ Pmus.crashed
      → Crashes [] (get_pmus sys get_pmu_name table)
  unfolding get_pmus Pmus.get_pmus array_blocks
  get_pmus-crash none e = λ old m h. refl
  get_pmus-crash (some pmus) e = elim (Adding-cases (Pmus.add_classes sys get_pmu_name [] pmus)) [
    | inl (classes, k) ↦ elim (Bool-cases (is_empty classes)) [
      | inl i ↦ absurd (failed_crashed (rw (Pmus.get_pmus, k, i) at e))
      | inr i ↦ absurd (listed_crashed (rw (Pmus.get_pmus, k, i) at e))
    ]
    | inr (inl k) ↦ absurd (failed_crashed (rw (Pmus.get_pmus, k) at e))
    | inr (inr k) ↦ Crashes-first _ _ (add_classes-crash null pmus [] (inl refl) k)
  ]
