-- ===== src/Client/Laws.antt =====
-- What `read_event` reads when it comes so far.
use mathlib.Core.Path.{subst}
use pmu_events.Attr.{Generated, done, failed, undefined, gen_attr_for_event}
use pmu_events.Base.{
  ℕ, ◌+◌, ◌<◌, ◌≡◌, refl, sym, ap, ◌∙◌, ◌⊎◌, inl, inr, some, List, [], ◌∷◌, Bytes, length, arith,
  All, Option-cases,
}
use pmu_events.Client.Collect.{
  instances_of, get_pmus-add_classes, having, IsMatch, instances_in, Collects,
  add_class_evs-Collects,
}
use pmu_events.Client.{
  Env, WholeEv, Outcome, no_match, not_generated, not_opened, reading, stuck, ◌>>=◌, and_ev,
  first_cpu, cleared, add_class_evs, gen_attrs, open_evs, open_all, read_event,
}
use pmu_events.Config.{PerfEventAttr}
use pmu_events.Pmu.{PmuTableEntry, PmuInstance, PmuClass}
use pmu_events.Pmus.{listed, get_pmus}

bind-reading :
    (o : Outcome) (f : List WholeEv → Outcome) {all : List WholeEv}
    → (o >>= f) ≡ reading all
    → (evs : List WholeEv) × (o ≡ reading evs) × (f evs ≡ reading all)
bind-reading no_match f {all} h = cc
bind-reading (not_generated name) f {all} h = cc
bind-reading not_opened f {all} h = cc
bind-reading (reading evs) f {all} h = (evs, refl, h)
bind-reading stuck f {all} h = cc

and_ev-reading :
    (w : WholeEv) (rest : Outcome) {all : List WholeEv}
    → and_ev w rest ≡ reading all
    → (evs : List WholeEv) × (rest ≡ reading evs) × (all ≡ w ∷ evs)
unfolding and_ev
and_ev-reading w no_match {all} h = cc
and_ev-reading w (not_generated name) {all} h = cc
and_ev-reading w not_opened {all} h = cc
and_ev-reading w (reading evs) {all} h = (evs, refl, ground arith)
and_ev-reading w stuck {all} h = cc

pub Generated-cases :
    (g : Generated)
    → ((attr : PerfEventAttr) × (g ≡ done attr))
      ⊎ (((attr : PerfEventAttr) × (g ≡ failed attr)) ⊎ (g ≡ undefined))
Generated-cases (done attr) = inl (attr, refl)
Generated-cases (failed attr) = inr (inl (attr, refl))
Generated-cases undefined = inr (inr refl)

module _ (env : Env) (ev : Bytes) where
  -- The attributes are those of the event, from members that were set to 0.
  abbrev pub IsGenerated : WholeEv → Type 0
  IsGenerated w =
      (attr : PerfEventAttr) × (attr.config ≡ 0)
      × (attr.config1 ≡ 0)
      × (attr.config2 ≡ 0)
      × (gen_attr_for_event env.sys w.pmu_instance w.ev attr ≡ done w.attr)

  -- The file descriptor is that of a call with these attributes and the instance's first CPU.
  abbrev pub IsOpened : WholeEv → Type 0
  IsOpened w =
      (n : ℕ) × (cpu : ℕ) × (first_cpu w.pmu_instance.cpus ≡ some cpu)
      × (env.perf_event_open n w.attr cpu ≡ some w.fd)

  -- Attributes and file descriptors leave the matches and their instances as they are.
  pub gen_attrs-Collects :
      (evs : List WholeEv) (instances : List PmuInstance) {all : List WholeEv}
      → Collects env ev instances evs
      → gen_attrs env ev evs ≡ reading all
      → Collects env ev instances all × All IsGenerated all
  unfolding gen_attrs cleared
  gen_attrs-Collects [] instances {all} k h =
      let same : [] ≡ all = ground arith in
      subst (λ a. Collects env ev instances a × All IsGenerated a) same (k, tt)
  gen_attrs-Collects (w ∷ evs) instances {all} ((m, k), b) h =
      elim (Generated-cases (gen_attr_for_event env.sys w.pmu_instance w.ev (cleared w).attr)) [
        | inl (attr, e) ↦
            let new : WholeEv = record (cleared w) { attr = attr } in
            let (rest, r, same) =
              and_ev-reading new (gen_attrs env ev evs) {all = all} (rw (gen_attrs, e) at h) in
            let ((ms, bs), gs) = gen_attrs-Collects evs (instances_in env ev evs) (k, refl) r in
            rw same (
              ((m, ms), ap (λ (t : List PmuInstance). w.pmu_instance ∷ t) bs ∙ b),
              (((cleared w).attr, refl, refl, refl, e), gs),
            )
        | inr (inl (attr, e)) ↦ absurd (ground arith)
        | inr (inr e) ↦ absurd (ground arith)
      ]

  open_evs-Collects :
      (n : ℕ) (evs : List WholeEv) (instances : List PmuInstance) {all : List WholeEv}
      → Collects env ev instances evs
      → All IsGenerated evs
      → open_evs env ev n evs ≡ reading all
      → Collects env ev instances all × (All IsGenerated all × All IsOpened all)
  unfolding open_evs
  open_evs-Collects n [] instances {all} k g h =
      let same : [] ≡ all = ground arith in
      subst (λ a. Collects env ev instances a × (All IsGenerated a × All IsOpened a)) same
        (k, (tt, tt))
  open_evs-Collects n (w ∷ evs) instances {all} ((m, k), b) (g, gs) h =
      elim (Option-cases (first_cpu w.pmu_instance.cpus)) [
        | inl e ↦ absurd (ground arith)
        | inr (cpu, e) ↦ elim (Option-cases (env.perf_event_open n w.attr cpu)) [
          | inl q ↦ absurd (ground arith)
          | inr (fd, q) ↦
              let new : WholeEv = record w { fd = fd } in
              let (rest, r, same) =
                and_ev-reading new (open_evs env ev (n + 1) evs) {all = all}
                  (rw (open_evs, e, q) at h) in
              let ((ms, bs), (gs', os)) =
                open_evs-Collects (n + 1) evs (instances_in env ev evs) (k, refl) gs r in
              rw same (
                ((m, ms), ap (λ (t : List PmuInstance). w.pmu_instance ∷ t) bs ∙ b),
                ((g, gs'), ((n, cpu, e, q), os)),
              )
        ]
      ]

  -- There are events; their instances are those of the classes that have the event, in order, and
  -- each is read with the attributes of its event on its first CPU.
  pub record IsRead (classes : List PmuClass) (evs : List WholeEv) : Type 0 where
    pub nonempty : 0 < length evs
    pub instances : instances_in env ev evs ≡ having env ev (instances_of classes)
    pub matches : All (IsMatch env ev) evs
    pub generated : All IsGenerated evs
    pub opened : All IsOpened evs

  some_instance :
      {i : PmuInstance} {is : List PmuInstance} (all : List WholeEv)
      → instances_in env ev all ≡ i ∷ is
      → 0 < length all
  some_instance [] h = cc
  some_instance (w ∷ evs) h = omega arith

  open_all-IsRead :
      (classes : List PmuClass) (evs : List WholeEv) {all : List WholeEv}
      → Collects env ev (having env ev (instances_of classes)) evs
      → open_all env ev evs ≡ reading all
      → IsRead classes all
  unfolding open_all
  open_all-IsRead classes [] {all} k h = cc
  open_all-IsRead classes (w ∷ evs) {all} k h =
      let (gen, e, o) = bind-reading (gen_attrs env ev (w ∷ evs)) _ {all = all} h in
      let (k', g) = gen_attrs-Collects (w ∷ evs) (having env ev (instances_of classes)) k e in
      let ((m, b), (gs, os)) =
        open_evs-Collects 0 gen (having env ev (instances_of classes)) k' g o in
      record {
        nonempty = some_instance all (b ∙ sym k.1);
        instances = b;
        matches = m;
        generated = gs;
        opened = os;
      }

  -- When `get_pmus` lists the classes and `read_event` comes to read events, these are on exactly
  -- the instances that have the event, in the order of the classes; each is the instance's first
  -- event of that name, its attributes are those that `gen_attr_for_event` gives for it, and it was
  -- opened with them on the first CPU of the instance.
  pub read_event-IsRead :
      (pmus : List PmuTableEntry) {classes : List PmuClass} {evs : List WholeEv}
      → get_pmus env.sys env.get_pmu_name (some pmus) ≡ listed classes
      → read_event env ev (some pmus) ≡ reading evs
      → IsRead classes evs
  unfolding read_event
  read_event-IsRead pmus {classes} {evs} l h =
      let e = get_pmus-add_classes env.sys env.get_pmu_name pmus l in
      elim (Option-cases (add_class_evs env ev [] classes)) [
        | inl q ↦ absurd (ground arith)
        | inr (found_evs, q) ↦
            open_all-IsRead classes found_evs
              (add_class_evs-Collects env ev [] [] classes (tt, refl) q)
              (rw (read_event, e, q) at h)
      ]
