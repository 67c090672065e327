-- ===== src/Client/Named.antt =====
-- Tables of which each entry's event has a name, and the instances that `get_pmus` lists from them.
use mathlib.Core.Path.{subst}
use pmu_events.Base.{◌≡◌, sym, some, List, [], ◌∷◌, Bytes, All, All-append, Among, first, later}
use pmu_events.Client.Collect.{instances_of}
use pmu_events.Client.{Env}
use pmu_events.Pmu.{PmuTableEntry, PmuInstance, PmuClass, CompactPmuEvent}
use pmu_events.Pmus.Laws.{IsClassOf, IsInstanceOf}

-- The entry's event has a name.
abbrev pub HasName : Env → CompactPmuEvent → Type 0
HasName env entry = (name : Bytes) × ((env.decompress_event entry.offset).name ≡ some name)

-- Every entry of the tables has an event with a name.
abbrev pub AreNamed : Env → List PmuTableEntry → Type 0
AreNamed env = All (λ pmu. All (HasName env) pmu.entries)

abbrev pub IsNamed : Env → PmuInstance → Type 0
IsNamed env i = All (HasName env) i.entries

All-Among : {A : Type 0} (P : A → Type 0) {a : A} {list : List A} → Among a list → All P list → P a
All-Among P (first e) (h, hs) = subst P e h
All-Among P (later among) (h, hs) = All-Among P among hs

module _ (env : Env) (pmus : List PmuTableEntry) (named : AreNamed env pmus) where
  instances-IsNamed :
      (pmu : PmuTableEntry) (is : List PmuInstance)
      → Among pmu pmus
      → All (IsInstanceOf pmu) is
      → All (IsNamed env) is
  instances-IsNamed pmu [] among h = tt
  instances-IsNamed pmu (i ∷ is) among ((pos, e), hs) = (
    subst (All (HasName env)) (sym e) (All-Among _ among named),
    instances-IsNamed pmu is among hs,
  )

  pub classes-IsNamed :
      (classes : List PmuClass)
      → All (IsClassOf env.sys env.get_pmu_name pmus) classes
      → All (IsNamed env) (instances_of classes)
  unfolding instances_of
  classes-IsNamed [] h = tt
  classes-IsNamed (c ∷ classes) ((pmu, among, name, some_instance, h), hs) =
      All-append (IsNamed env) c.instances (instances_of classes)
        (instances-IsNamed pmu c.instances among h) (classes-IsNamed classes hs)
