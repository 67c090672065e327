-- ===== src/Pmus/Laws.antt =====
-- Which classes `get_pmus` lists, and what a caller may rely on in each.
use mathlib.Core.Path.{subst}
use mathlib.Core.List.{map}
use pmu_events.Base.{
  ℕ, suc, ◌+◌, ◌<◌, ◌≡◌, refl, ap, ◌∙◌, ◌⊎◌, ◌≢◌, inl, inr, true, false, none, some, List, [], ◌∷◌,
  ◌++◌, if◌then◌else◌, Bytes, length, is_empty, arith, All, All-append, Among, first, later,
  Option-cases, Bool-cases, append_assoc, append-nil,
}
use pmu_events.Instances.{Found, get_all_pmu_instances_for}
use pmu_events.Instances.Cpus.{HasCpus, get_all_pmu_instances_for-HasCpus}
use pmu_events.Pmu.{PmuTableEntry, PmuInstance, PmuClass}
use pmu_events.Pmus.{
  Adding, added, refused, overrun, lacks_memory, listed, failed, with_entries, class_of, add_class,
  add_classes, get_pmus,
}
use pmu_events.System.{System}

pub Adding-cases :
    (a : Adding)
    → ((classes : List PmuClass) × (a ≡ added classes)) ⊎ ((a ≡ refused) ⊎ (a ≡ overrun))
Adding-cases (added classes) = inl (classes, refl)
Adding-cases refused = inr (inl refl)
Adding-cases overrun = inr (inr refl)

pub added-inj : {a b : List PmuClass} → added a ≡ added b → a ≡ b
added-inj h = cc

lacks_memory-ne-added :
    (classes : List PmuClass) {all : List PmuClass} → lacks_memory classes ≢ added all
unfolding lacks_memory
lacks_memory-ne-added [] h = cc
lacks_memory-ne-added (c ∷ classes) h = cc

-- An instance with the events of the table's entry and with a first CPU range.
abbrev pub IsInstanceOf : PmuTableEntry → PmuInstance → Type 0
IsInstanceOf pmu i = (0 < length i.cpus) × (i.entries ≡ pmu.entries)

All-with_entries :
    (pmu : PmuTableEntry) (instances : List Found)
    → All HasCpus instances
    → All (IsInstanceOf pmu) (map (with_entries pmu) instances)
unfolding with_entries
All-with_entries pmu [] h = tt
All-with_entries pmu (found ∷ instances) h = ((h.0, refl), All-with_entries pmu instances h.1)

length-map_with :
    (pmu : PmuTableEntry) (instances : List Found)
    → length (map (with_entries pmu) instances) ≡ length instances
length-map_with pmu [] = refl
length-map_with pmu (found ∷ instances) = ap suc (length-map_with pmu instances)

length-is_empty {ℓ} : {A : Type ℓ} (xs : List A) → is_empty xs ≡ false → 0 < length xs
length-is_empty [] h = absurd (ground arith)
length-is_empty (x ∷ xs) h = omega arith

module _ (sys : System) (get_pmu_name : PmuTableEntry → Bytes) where
  -- The class comes from an entry of the table, and has instances, each with CPUs and with the
  -- entry's events.
  abbrev pub IsClassOf : List PmuTableEntry → PmuClass → Type 0
  IsClassOf pmus c =
      (pmu : PmuTableEntry) × Among pmu pmus
      × (c.name ≡ get_pmu_name pmu)
      × (0 < length c.instances)
      × All (IsInstanceOf pmu) c.instances

  -- The class of an entry, if an instance of it is found.
  unfoldable pub classes_of : List PmuTableEntry → List PmuClass
  classes_of [] = []
  classes_of (pmu ∷ pmus) = elim (get_all_pmu_instances_for sys (get_pmu_name pmu)) [
    | none ↦ classes_of pmus
    | some [] ↦ classes_of pmus
    | some (found ∷ instances) ↦ class_of sys get_pmu_name pmu (found ∷ instances) ∷ classes_of pmus
  ]

  add_class-All :
      (pmus : List PmuTableEntry) (classes : List PmuClass) (pmu : PmuTableEntry)
      {all : List PmuClass}
      → Among pmu pmus
      → All (IsClassOf pmus) classes
      → add_class sys get_pmu_name classes pmu ≡ added all
      → All (IsClassOf pmus) all
  unfolding add_class class_of
  add_class-All pmus classes pmu {all} among k h =
      elim (Option-cases (get_all_pmu_instances_for sys (get_pmu_name pmu))) [
        | inl e ↦
            let same : classes ≡ all = added-inj (rw (add_class, e) at h) in
            subst (All (IsClassOf pmus)) same k
        | inr (instances, e) ↦ elim (Bool-cases (is_empty instances)) [
          | inl d ↦
              let same : classes ≡ all = added-inj (rw (add_class, e, d) at h) in
              subst (All (IsClassOf pmus)) same k
          | inr d ↦ elim (Bool-cases (sys.classes_ok (length classes + 1))) [
            | inr c ↦ absurd (lacks_memory-ne-added classes (rw (add_class, e, d, c) at h))
            | inl c ↦
                let same : classes ++ class_of sys get_pmu_name pmu instances ∷ [] ≡ all =
                  added-inj (rw (add_class, e, d, c) at h) in
                let some_instance : 0 < length (map (with_entries pmu) instances) =
                  omega (arith, length-map_with pmu instances, length-is_empty instances d) in
                subst (All (IsClassOf pmus)) same (
                  All-append (IsClassOf pmus) classes (class_of sys get_pmu_name pmu instances ∷ [])
                    k
                    (
                      (
                        pmu,
                        among,
                        refl,
                        some_instance,
                        All-with_entries pmu instances
                            (get_all_pmu_instances_for-HasCpus sys (get_pmu_name pmu) e),
                      ),
                      tt,
                    ))
          ]
        ]
      ]

  add_classes-All :
      (pmus rest : List PmuTableEntry) (classes : List PmuClass) {all : List PmuClass}
      → ((pmu : PmuTableEntry) → Among pmu rest → Among pmu pmus)
      → All (IsClassOf pmus) classes
      → add_classes sys get_pmu_name classes rest ≡ added all
      → All (IsClassOf pmus) all
  unfolding add_classes
  add_classes-All pmus [] classes {all} among k h =
      let same : classes ≡ all = added-inj h in subst (All (IsClassOf pmus)) same k
  add_classes-All pmus (pmu ∷ rest) classes {all} among k h =
      elim (Adding-cases (add_class sys get_pmu_name classes pmu)) [
        | inr (inl e) ↦ absurd (ground arith)
        | inr (inr e) ↦ absurd (ground arith)
        | inl (classes', e) ↦
            add_classes-All pmus rest classes' (λ p later_on. among p (later later_on))
              (add_class-All pmus classes pmu (among pmu (first refl)) k e) (ground arith)
      ]

  -- However the files read and the memory given: when `get_pmus`, on a CPU with a table, returns 0,
  -- there is a class, and each class comes from an entry of the table for the CPU, bears its name
  -- and has an instance; each of its instances has a CPU range and the events of that entry.
  pub get_pmus-listed :
      (pmus : List PmuTableEntry) {all : List PmuClass}
      → get_pmus sys get_pmu_name (some pmus) ≡ listed all
      → (0 < length all) × All (IsClassOf pmus) all
  unfolding get_pmus
  get_pmus-listed pmus {all} h = elim (Adding-cases (add_classes sys get_pmu_name [] pmus)) [
    | inr (inl e) ↦ absurd (ground arith)
    | inr (inr e) ↦ absurd (ground arith)
    | inl (classes, e) ↦ elim (Bool-cases (is_empty classes)) [
      | inl d ↦ absurd (ground arith)
      | inr d ↦
          let same : classes ≡ all = ground arith in
          subst (λ c. (0 < length c) × All (IsClassOf pmus) c) same
            (length-is_empty classes d, add_classes-All pmus pmus [] (λ p among. among) tt e)
    ]
  ]

  add_classes_lem :
      (classes : List PmuClass) (pmus : List PmuTableEntry)
      → ((n : ℕ) → sys.classes_ok n ≡ true)
      → add_classes sys get_pmu_name classes pmus ≡ added (classes ++ classes_of pmus)
  unfolding add_classes add_class classes_of
  add_classes_lem classes [] ok = rw append-nil
  add_classes_lem classes (pmu ∷ pmus) ok =
      elim (Option-cases (get_all_pmu_instances_for sys (get_pmu_name pmu))) [
        | inl e ↦ rw (add_classes, add_class, classes_of, e) (add_classes_lem classes pmus ok)
        | inr ([], e) ↦ rw (add_classes, add_class, classes_of, e) (add_classes_lem classes pmus ok)
        | inr (found ∷ instances, e) ↦
            let c = class_of sys get_pmu_name pmu (found ∷ instances) in
            rw (add_classes, add_class, classes_of, e, ok (length classes + 1))
              (add_classes_lem (classes ++ c ∷ []) pmus ok
                ∙ ap added (append_assoc classes (c ∷ []) (classes_of pmus)))
      ]

  -- With memory for all, `get_pmus` on a CPU with a table returns 0 with the classes of those
  -- entries of the table that have an instance, in the table's order, and -1 when there are none.
  pub get_pmus-classes_of :
      (pmus : List PmuTableEntry)
      → ((n : ℕ) → sys.classes_ok n ≡ true)
      → get_pmus sys get_pmu_name (some pmus)
        ≡ (if is_empty (classes_of pmus) then failed else listed (classes_of pmus))
  unfolding get_pmus
  get_pmus-classes_of pmus ok = rw (get_pmus, add_classes_lem [] pmus ok) refl
