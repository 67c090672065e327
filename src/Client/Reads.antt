-- ===== src/Client/Reads.antt =====
-- When `read_event` comes to read events.
use pmu_events.Attr.{done, gen_attr_for_event}
use pmu_events.Base.{
  ℕ, ◌+◌, ◌<◌, ◌≡◌, refl, sym, ap, true, some, List, [], ◌∷◌, Bytes, length, arith, All,
}
use pmu_events.Client.Collect.{
  instances_of, get_pmus-add_classes, having, IsMatch, instances_in, Collects,
  add_class_evs-Collects,
}
use pmu_events.Client.Crash.{
  HasFirst, first_cpu_lem, classes-HasFirst, add_class_evs-total, having-HasFirst,
}
use pmu_events.Client.Named.{AreNamed, classes-IsNamed}
use pmu_events.Client.Laws.{IsRead, gen_attrs-Collects, read_event-IsRead}
use pmu_events.Client.{
  Env, WholeEv, reading, and_ev, cleared, gen_attrs, open_evs, open_all, read_event,
}
use pmu_events.Config.{PerfEventAttr}
use pmu_events.Event.{found, get_event_by_name}
use pmu_events.Pmu.{PmuEvent, PmuTableEntry, PmuInstance, PmuClass}
use pmu_events.Pmus.Laws.{get_pmus-listed}
use pmu_events.Pmus.{listed, get_pmus}
use mathlib.Core.Path.{subst}

module _ (env : Env) (ev : Bytes) where
  -- The attributes of the instance's event can be generated.
  abbrev pub CanGenerate : PmuInstance → Type 0
  CanGenerate i =
      (e : PmuEvent)
      → get_event_by_name env.decompress_event i ev ≡ found e
      → (attr : PerfEventAttr) → attr.config ≡ 0
      → attr.config1 ≡ 0
      → attr.config2 ≡ 0
      → (attr' : PerfEventAttr) × (gen_attr_for_event env.sys i e attr ≡ done attr')

  gen_attrs-total :
      (evs : List WholeEv)
      → All (IsMatch env ev) evs
      → All CanGenerate (instances_in env ev evs)
      → (all : List WholeEv) × (gen_attrs env ev evs ≡ reading all)
  unfolding gen_attrs and_ev cleared
  gen_attrs-total [] m g = ([], refl)
  gen_attrs-total (w ∷ evs) (m, ms) (g, gs) =
      let (attr, e) = g w.ev m (cleared w).attr refl refl refl in
      let (all, q) = gen_attrs-total evs ms gs in
      (record (cleared w) { attr = attr } ∷ all, rw (gen_attrs, e, and_ev, q) refl)

  module _
      (opens : (n : ℕ) (attr : PerfEventAttr) (cpu : ℕ)
        → (fd : ℕ) × (env.perf_event_open n attr cpu ≡ some fd)) where
    open_evs-total :
        (n : ℕ) (evs : List WholeEv)
        → All HasFirst (instances_in env ev evs)
        → (all : List WholeEv) × (open_evs env ev n evs ≡ reading all)
    unfolding open_evs and_ev
    open_evs-total n [] f = ([], refl)
    open_evs-total n (w ∷ evs) (f, fs) =
        let (cpu, e) = first_cpu_lem w.pmu_instance.cpus f in
        let (fd, o) = opens n w.attr cpu in
        let (all, q) = open_evs-total (n + 1) evs fs in
        (record w { fd = fd } ∷ all, rw (open_evs, e, o, and_ev, q) refl)

    open_all-total :
        (instances : List PmuInstance) (evs : List WholeEv)
        → 0 < length instances
        → All HasFirst instances
        → All CanGenerate instances
        → Collects env ev instances evs
        → (all : List WholeEv) × (open_all env ev evs ≡ reading all)
    unfolding open_all
    open_all-total instances [] pos f g (m, b) = absurd (omega (arith, pos, ap length b))
    open_all-total instances (w ∷ evs) pos f g (m, b) =
        let (generated, e) = gen_attrs-total (w ∷ evs) m (subst (All CanGenerate) (sym b) g) in
        let ((m', b'), gs) = gen_attrs-Collects env ev (w ∷ evs) instances (m, b) e in
        let (all, q) = open_evs-total 0 generated (subst (All HasFirst) (sym b') f) in
        (all, rw (open_all, e) q)

    -- With memory for all, tables of which each entry's event has a name, and a system call that
    -- opens what it is asked for: when `get_pmus` lists classes of which an instance has the event,
    -- and the attributes can be generated on each instance that has it, `read_event` comes to read
    -- the event on all of them.
    pub read_event-reads :
        (pmus : List PmuTableEntry) {classes : List PmuClass}
        → ((n : ℕ) → env.sys.realloc_ok n ≡ true)
        → AreNamed env pmus
        → get_pmus env.sys env.get_pmu_name (some pmus) ≡ listed classes
        → 0 < length (having env ev (instances_of classes))
        → All CanGenerate (having env ev (instances_of classes))
        → (evs : List WholeEv) × (read_event env ev (some pmus) ≡ reading evs)
          × IsRead env ev classes evs
    unfolding read_event
    read_event-reads pmus {classes} ok named l pos g =
        let e = get_pmus-add_classes env.sys env.get_pmu_name pmus l in
        let from = (get_pmus-listed env.sys env.get_pmu_name pmus l).1 in
        let (collected, q) =
          add_class_evs-total env ev ok [] classes (classes-IsNamed env pmus named classes from) in
        let collects = add_class_evs-Collects env ev [] [] classes (tt, refl) q in
        let firsts = classes-HasFirst env.sys env.get_pmu_name pmus classes from in
        let (evs, o) =
          open_all-total (having env ev (instances_of classes)) collected pos
            (having-HasFirst env ev ok (instances_of classes) firsts) g collects in
        let reads : read_event env ev (some pmus) ≡ reading evs = rw (read_event, e, q) o in
        (evs, reads, read_event-IsRead env ev pmus l reads)
