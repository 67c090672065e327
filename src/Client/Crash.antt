-- ===== src/Client/Crash.antt =====
-- Where `read_event` may come to what C leaves undefined.
use pmu_events.Attr.{undefined, gen_attr_for_event}
use pmu_events.Base.{
  ℕ, ◌+◌, ◌<◌, ◌≡◌, refl, inl, inr, ◌≢◌, true, some, List, [], ◌∷◌, ◌++◌, Bytes, length, arith, All,
  All-append, All-split, Bool-cases,
}
use pmu_events.Client.Collect.{instances_of, having, IsMatch, Search-cases}
use pmu_events.Client.Named.{HasName, IsNamed}
use pmu_events.Client.{Env, WholeEv, first_cpu, cleared, add_ev, add_instances, add_class_evs}
use pmu_events.Event.{crashed, search_entries, get_event_by_name}
use pmu_events.Libc.Text.{streq}
use pmu_events.Pmu.{PmuTableEntry, PmuInstance, PmuClass, CompactPmuEvent}
use pmu_events.Pmus.Laws.{IsClassOf, IsInstanceOf}
use pmu_events.Range.{RangeList}
use pmu_events.System.{System}

pub first_cpu_lem : (cpus : RangeList) → 0 < length cpus → (cpu : ℕ) × (first_cpu cpus ≡ some cpu)
unfolding first_cpu
first_cpu_lem [] h = absurd (omega arith)
first_cpu_lem (r ∷ cpus) h = (r.start, refl)

-- The instance has a first CPU.
abbrev pub HasFirst : PmuInstance → Type 0
HasFirst i = 0 < length i.cpus

IsInstanceOf-HasFirst :
    (pmu : PmuTableEntry) (is : List PmuInstance) → All (IsInstanceOf pmu) is → All HasFirst is
IsInstanceOf-HasFirst pmu [] h = tt
IsInstanceOf-HasFirst pmu (i ∷ is) (h, hs) = (h.0, IsInstanceOf-HasFirst pmu is hs)

module _ (sys : System) (get_pmu_name : PmuTableEntry → Bytes) where
  pub classes-HasFirst :
      (pmus : List PmuTableEntry) (classes : List PmuClass)
      → All (IsClassOf sys get_pmu_name pmus) classes
      → All HasFirst (instances_of classes)
  unfolding instances_of
  classes-HasFirst pmus [] h = tt
  classes-HasFirst pmus (c ∷ classes) ((pmu, among, name, some_instance, h), hs) =
      All-append HasFirst c.instances (instances_of classes)
        (IsInstanceOf-HasFirst pmu c.instances h) (classes-HasFirst pmus classes hs)

module _ (env : Env) (ev : Bytes) (ok : (n : ℕ) → env.sys.realloc_ok n ≡ true) where
  search_entries-named :
      (entries : List CompactPmuEvent)
      → All (HasName env) entries
      → search_entries env.decompress_event ev entries ≢ crashed
  unfolding search_entries
  search_entries-named [] named h = cc
  search_entries-named (entry ∷ entries) ((name, e), named) h = elim (Bool-cases (streq name ev)) [
    | inl k ↦ absurd (ground arith)
    | inr k ↦ search_entries-named entries named (rw (search_entries, e, k) at h)
  ]

  add_ev-total :
      (evs : List WholeEv) (i : PmuInstance)
      → IsNamed env i
      → (all : List WholeEv) × (add_ev env ev evs i ≡ some all)
  unfolding add_ev get_event_by_name
  add_ev-total evs i named =
      elim (Search-cases (search_entries env.decompress_event ev i.entries)) [
        | inl (e, q) ↦ (
          evs ++ record env.uninit { pmu_instance = i; ev = e } ∷ [],
          rw (add_ev, get_event_by_name, q, ok (length evs + 1)) refl,
        )
        | inr (inl q) ↦ (evs, rw (add_ev, get_event_by_name, q) refl)
        | inr (inr q) ↦ absurd (search_entries-named i.entries named q)
      ]

  add_instances-total :
      (evs : List WholeEv) (is : List PmuInstance)
      → All (IsNamed env) is
      → (all : List WholeEv) × (add_instances env ev evs is ≡ some all)
  unfolding add_instances
  add_instances-total evs [] named = (evs, refl)
  add_instances-total evs (i ∷ is) (n, named) =
      let (evs', e) = add_ev-total evs i n in
      let (all, q) = add_instances-total evs' is named in (all, rw (add_instances, e) q)

  pub add_class_evs-total :
      (evs : List WholeEv) (classes : List PmuClass)
      → All (IsNamed env) (instances_of classes)
      → (all : List WholeEv) × (add_class_evs env ev evs classes ≡ some all)
  unfolding add_class_evs instances_of
  add_class_evs-total evs [] named = (evs, refl)
  add_class_evs-total evs (c ∷ classes) named =
      let (n, more) = All-split (IsNamed env) c.instances (instances_of classes) named in
      let (evs', e) = add_instances-total evs c.instances n in
      let (all, q) = add_class_evs-total evs' classes more in (all, rw (add_class_evs, e) q)

  pub having-HasFirst : (is : List PmuInstance) → All HasFirst is → All HasFirst (having env ev is)
  unfolding having
  having-HasFirst [] h = tt
  having-HasFirst (i ∷ is) (h, hs) =
      elim (Search-cases (get_event_by_name env.decompress_event i ev)) [
        | inl (e, q) ↦ rw (having, q) (h, having-HasFirst is hs)
        | inr (inl q) ↦ rw (having, q) (having-HasFirst is hs)
        | inr (inr q) ↦ rw (having, q) (having-HasFirst is hs)
      ]

  -- An event of that name on which `gen_attr_for_event` runs into what C leaves undefined.
  abbrev pub UndefinedMatch : Type 0
  UndefinedMatch =
      (w : WholeEv) × IsMatch env ev w
      × (gen_attr_for_event env.sys w.pmu_instance w.ev (cleared w).attr ≡ undefined)
