-- ===== src/Owned/Attr/Loss.antt =====
-- What `gen_attr_for_event` leaves.
use mathlib.Core.Path.{subst}
use pmu_events.Assign
use pmu_events.Attr
use pmu_events.Attr.{Generated, done, failed, undefined}
use pmu_events.Base.{
  ◌==◌, ==_iff, ◌≡◌, refl, sym, ◌∙◌, inl, inr, ◌≢◌, false, Option, none, some, List, [], ◌++◌,
  Bytes, Bool-cases,
}
use pmu_events.Config.{PerfEventAttr}
use pmu_events.Files
use pmu_events.Files.{minus_one}
use pmu_events.Free.Laws.{pointed, blocks_of}
use pmu_events.Free.{Block}
use pmu_events.Memory.Triple.{Triple, triple-pure, triple-bind}
use pmu_events.Owned.Assign.{OwnedAssignment, key_blocks, parse_assignment_list-Triple}
use pmu_events.Owned.Attr.{Outcome, generate, with_event, with_type, gen_attr_for_event}
use pmu_events.Owned.Commas.{Parsed, parsed, failed as lost_list}
use pmu_events.Owned.Commas.Laws.{parsed_blocks, values_of}
use pmu_events.Owned.Grow.{elements, elements_within, elements_members}
use pmu_events.Owned.Files.TypeRead.{TypeRead, IsType, read_perf_type-Triple}
use pmu_events.Pmu.{PmuEvent, PmuInstance}
use pmu_events.System.{System}
use pmu_events.Owned.Attr.Loop.{apply_assignments-Triple}

-- What is lost: nothing, or with the type read as -1, or the keys in front of a term that is no
-- assignment or for which the array does not grow, with that -1.
pub data IsLoss (sys : System) (pmu_instance : PmuInstance) (ev : PmuEvent) (o : Outcome)
    : Type 0 where
  nothing : o.lost ≡ [] → IsLoss sys pmu_instance ev o
  type_text : Files.read_perf_type sys pmu_instance ≡ minus_one → IsLoss sys pmu_instance ev o
  keys :
      (event : Bytes)
      → ev.event ≡ some event
      → Assign.parse_assignment_list sys.realloc_ok event ≡ none
      → IsLoss sys pmu_instance ev o

module _ (sys : System) (pmu_instance : PmuInstance) (blocks : List Block) (ev : PmuEvent) where
  abbrev Ends : Generated → Outcome → Type 0
  Ends result o = (o.generated ≡ result) × IsLoss sys pmu_instance ev o

  generate-Triple :
      (attr : PerfEventAttr) (event : Bytes) (parse : Parsed OwnedAssignment)
      → ev.event ≡ some event
      → Attr.generate sys pmu_instance attr event ≢ undefined
      → values_of (λ asn. asn.value) parse ≡ Assign.parse_assignment_list sys.realloc_ok event
      → Triple
          (parsed_blocks key_blocks parse ++ blocks)
          (generate sys pmu_instance attr parse)
          (λ o. o.lost ++ blocks)
          (Ends (Attr.generate sys pmu_instance attr event))
  unfolding generate Attr.generate parsed_blocks values_of
  generate-Triple attr event (lost_list list) has defined k =
      triple-pure (λ (o : Outcome). o.lost ++ blocks) _
        (record { generated = failed attr; lost = blocks_of key_blocks list })
        (rw (Attr.generate, ← k) refl, keys event has (sym k))
  generate-Triple attr event (parsed asn_list) has defined k =
      triple-bind (λ (o : Outcome). o.lost ++ blocks) _ (λ _. blocks) _
        (apply_assignments-Triple sys pmu_instance asn_list blocks attr (elements asn_list)
          (elements_within key_blocks asn_list)
          (λ u. defined (
            rw
              (
                Attr.generate,
                ← k,
                ← elements_members (λ (asn : OwnedAssignment). asn.value) asn_list,
              )
              u)))
        λ g e.
          triple-pure (λ (o : Outcome). o.lost ++ blocks) _ (record { generated = g; lost = [] })
            (
              e
                  ∙ rw
                      (
                        Attr.generate,
                        ← k,
                        elements_members (λ (asn : OwnedAssignment). asn.value) asn_list,
                      )
                      refl,
              nothing refl,
            )

  with_event-Triple :
      {result : Generated} (attr : PerfEventAttr) (text : Option Bytes)
      → ev.event ≡ text
      → result
        ≡ (elim text [ none ↦ undefined | some event ↦ Attr.generate sys pmu_instance attr event ])
      → result ≢ undefined
      → Triple blocks (with_event sys pmu_instance attr text) (λ o. o.lost ++ blocks) (Ends result)
  unfolding with_event
  with_event-Triple attr none has is defined = absurd (defined is)
  with_event-Triple attr (some event) has is defined = rw is (
      triple-bind (λ (o : Outcome). o.lost ++ blocks) _ (λ r. parsed_blocks key_blocks r ++ blocks)
        _ (parse_assignment_list-Triple sys.realloc_ok event blocks)
        λ parse (p, _). generate-Triple attr event parse has (λ u. defined (is ∙ u)) p)

  with_type-Triple :
      (attr : PerfEventAttr) (read : TypeRead)
      → IsType sys (Files.read_perf_type sys pmu_instance) read
      → Attr.gen_attr_for_event sys pmu_instance ev attr ≢ undefined
      → Triple
          (pointed read.lost ++ blocks)
          (with_type sys pmu_instance ev attr read)
          (λ o. o.lost ++ blocks)
          (Ends (Attr.gen_attr_for_event sys pmu_instance ev attr))
  unfolding with_type pointed Attr.gen_attr_for_event
  with_type-Triple attr read (same, lost) defined = elim (Bool-cases (read.type == minus_one)) [
    | inl e ↦
        rw (with_type, Attr.gen_attr_for_event, ← same, e)
          (triple-pure (λ (o : Outcome). o.lost ++ blocks) _
            (record {
              generated = failed (record attr { type = read.type });
              lost = pointed read.lost;
            })
            (refl, type_text (sym same ∙ (==_iff _ _).0 e)))
    | inr e ↦
        let none_lost : read.lost ≡ none = elim lost [
          | inl n ↦ n
          | inr t ↦ absurd (cc (e, (==_iff _ _).1 t))
        ] in
        let typed = record attr { type = read.type } in
        let enters : Attr.gen_attr_for_event sys pmu_instance ev attr ≡ (elim ev.event [
          | none ↦ undefined
          | some event ↦ Attr.generate sys pmu_instance typed event
        ]) =
          subst
            (λ t.
              t == minus_one ≡ false
              → Attr.gen_attr_for_event sys pmu_instance ev attr ≡ (elim ev.event [
                | none ↦ undefined
                | some event ↦ Attr.generate sys pmu_instance (record attr { type = t }) event
              ]))
            (sym same) (λ k. rw (Attr.gen_attr_for_event, k) refl) e in
        rw (with_type, e, none_lost) (with_event-Triple typed ev.event refl enters defined)
  ]

  pub gen_attr_for_event-Triple :
      (attr : PerfEventAttr)
      → Attr.gen_attr_for_event sys pmu_instance ev attr ≢ undefined
      → Triple blocks
          (gen_attr_for_event sys pmu_instance ev attr)
          (λ o. o.lost ++ blocks)
          (Ends (Attr.gen_attr_for_event sys pmu_instance ev attr))
  unfolding gen_attr_for_event
  gen_attr_for_event-Triple attr defined =
      triple-bind (λ (o : Outcome). o.lost ++ blocks) _ (λ r. pointed r.lost ++ blocks) _
        (read_perf_type-Triple sys pmu_instance blocks)
        λ read t. with_type-Triple attr read t defined
