-- ===== src/Client/Collect.antt =====
-- The events that `read_event` collects.
use mathlib.Core.Path.{subst}
use mathlib.Core.List.{map-append}
use pmu_events.Base.{
  ◌+◌, ◌≡◌, refl, ap, ◌∙◌, ◌⊎◌, inl, inr, some, List, [], ◌∷◌, ◌++◌, Bytes, length, arith, All,
  All-append, Option-cases, Bool-cases, map, append_assoc, append-nil, is_empty,
}
use pmu_events.Client.{Env, WholeEv, add_ev, add_instances, add_class_evs}
use pmu_events.Event.{Search, found, missing, crashed, get_event_by_name}
use pmu_events.Pmu.{PmuEvent, PmuTableEntry, PmuInstance, PmuClass}
use pmu_events.Pmus.Laws.{Adding-cases}
use pmu_events.Pmus.{added, listed, get_pmus, add_classes}
use pmu_events.System.{System}

unfoldable pub instances_of : List PmuClass → List PmuInstance
instances_of [] = []
instances_of (c ∷ classes) = c.instances ++ instances_of classes

pub Search-cases : (s : Search) → ((e : PmuEvent) × (s ≡ found e)) ⊎ ((s ≡ missing) ⊎ (s ≡ crashed))
Search-cases (found e) = inl (e, refl)
Search-cases missing = inr (inl refl)
Search-cases crashed = inr (inr refl)

pub get_pmus-add_classes :
    (sys : System) (get_pmu_name : PmuTableEntry → Bytes) (pmus : List PmuTableEntry)
    {classes : List PmuClass}
    → get_pmus sys get_pmu_name (some pmus) ≡ listed classes
    → add_classes sys get_pmu_name [] pmus ≡ added classes
unfolding get_pmus
get_pmus-add_classes sys get_pmu_name pmus {classes} h =
    elim (Adding-cases (add_classes sys get_pmu_name [] pmus)) [
      | inl (cs, e) ↦ elim (Bool-cases (is_empty cs)) [
        | inl d ↦ absurd (ground arith)
        | inr d ↦ let same : cs ≡ classes = ground arith in e ∙ ap added same
      ]
      | inr (inl e) ↦ absurd (ground arith)
      | inr (inr e) ↦ absurd (ground arith)
    ]

module _ (env : Env) (ev : Bytes) where
  -- The instances that have the event.
  unfoldable pub having : List PmuInstance → List PmuInstance
  having [] = []
  having (i ∷ instances) = elim (get_event_by_name env.decompress_event i ev) [
    | found pmu_ev ↦ i ∷ having instances
    | missing ↦ having instances
    | crashed ↦ having instances
  ]

  having-append : (is js : List PmuInstance) → having (is ++ js) ≡ having is ++ having js
  unfolding having
  having-append [] js = refl
  having-append (i ∷ is) js = elim (Search-cases (get_event_by_name env.decompress_event i ev)) [
    | inl (e, k) ↦ rw (having, k) (ap (λ (t : List PmuInstance). i ∷ t) (having-append is js))
    | inr (inl k) ↦ rw (having, k) (having-append is js)
    | inr (inr k) ↦ rw (having, k) (having-append is js)
  ]

  -- It is the event of that name of its instance.
  abbrev pub IsMatch : WholeEv → Type 0
  IsMatch w = get_event_by_name env.decompress_event w.pmu_instance ev ≡ found w.ev

  abbrev pub instances_in : List WholeEv → List PmuInstance
  instances_in = map (λ (w : WholeEv). w.pmu_instance)

  -- What is in `all` of the instances up to here: the matches, in order.
  abbrev pub Collects : List PmuInstance → List WholeEv → Type 0
  Collects instances all = All IsMatch all × (instances_in all ≡ instances)

  Collects-same :
      (instances : List PmuInstance) {evs all : List WholeEv}
      → some evs ≡ some all
      → Collects instances evs
      → Collects instances all
  Collects-same instances {evs} {all} h k =
      let same : evs ≡ all = ground arith in subst (Collects instances) same k

  add_ev-Collects :
      (before : List PmuInstance) (evs : List WholeEv) (i : PmuInstance) {all : List WholeEv}
      → Collects before evs
      → add_ev env ev evs i ≡ some all
      → Collects (before ++ having (i ∷ [])) all
  unfolding add_ev having
  add_ev-Collects before evs i {all} (k, b) h =
      elim (Search-cases (get_event_by_name env.decompress_event i ev)) [
        | inl (e, q) ↦ elim (Bool-cases (env.sys.realloc_ok (length evs + 1))) [
          | inl ok ↦
              let new : WholeEv = record env.uninit { pmu_instance = i; ev = e } in
              let placed : instances_in (evs ++ new ∷ []) ≡ before ++ i ∷ [] =
                map-append (λ (w : WholeEv). w.pmu_instance) evs (new ∷ [])
                ∙ ap (λ (t : List PmuInstance). t ++ i ∷ []) b in
              Collects-same (before ++ having (i ∷ [])) (rw (add_ev, q, ok) at h)
                (All-append IsMatch evs (new ∷ []) k (q, tt), rw (having, q) placed)
          | inr short ↦ absurd (ground arith)
        ]
        | inr (inl q) ↦
            rw (having, q, append-nil before) (Collects-same before (rw (add_ev, q) at h) (k, b))
        | inr (inr q) ↦ absurd (ground arith)
      ]

  add_instances-Collects :
      (before : List PmuInstance) (evs : List WholeEv) (is : List PmuInstance) {all : List WholeEv}
      → Collects before evs
      → add_instances env ev evs is ≡ some all
      → Collects (before ++ having is) all
  unfolding add_instances
  add_instances-Collects before evs [] {all} k h =
      unfold having in rw (append-nil before) (Collects-same before h k)
  add_instances-Collects before evs (i ∷ is) {all} k h = elim (Option-cases (add_ev env ev evs i)) [
    | inl e ↦ absurd (ground arith)
    | inr (evs', e) ↦
        rw (having-append (i ∷ []) is, ← append_assoc before (having (i ∷ [])) (having is))
          (add_instances-Collects (before ++ having (i ∷ [])) evs' is
            (add_ev-Collects before evs i k e) (rw (add_instances, e) at h))
  ]

  pub add_class_evs-Collects :
      (before : List PmuInstance) (evs : List WholeEv) (classes : List PmuClass)
      {all : List WholeEv}
      → Collects before evs
      → add_class_evs env ev evs classes ≡ some all
      → Collects (before ++ having (instances_of classes)) all
  unfolding add_class_evs instances_of
  add_class_evs-Collects before evs [] {all} k h =
      unfold having in rw (append-nil before) (Collects-same before h k)
  add_class_evs-Collects before evs (c ∷ classes) {all} k h =
      elim (Option-cases (add_instances env ev evs c.instances)) [
        | inl e ↦ absurd (ground arith)
        | inr (evs', e) ↦
            rw
              (
                having-append c.instances (instances_of classes),
                ← append_assoc before (having c.instances) (having (instances_of classes)),
              )
              (add_class_evs-Collects (before ++ having c.instances) evs' classes
                (add_instances-Collects before evs c.instances k e) (rw (add_class_evs, e) at h))
      ]
