-- ===== src/Client/Print.antt =====
-- `list_events` of examples/main.c, with what it prints.
use pmu_events.Base.{ℕ, Option, none, some, List, [], ◌∷◌, ◌++◌, Bytes, codes, if◌then◌else◌}
use pmu_events.Pmu.{PmuEvent, PmuTableEntry, PmuInstance, PmuClass, CompactPmuEvent}
use pmu_events.Pmus.{added, refused, overrun, add_classes}
use pmu_events.Range.Print.{print_cpus}
use pmu_events.System.{System}

-- `null_text` is what `printf` prints for a string that is NULL, which C leaves to it.
module _ (null_text : Bytes) where
  unfoldable pub text_of : Option Bytes → Bytes
  text_of none = null_text
  text_of (some text) = text

  unfoldable pub print_member : Bytes → Option Bytes → Bytes
  print_member label text = label ++ (text_of text ++ b'\n' ∷ [])

  unfoldable pub print_pmu_event : PmuEvent → Bytes
  print_pmu_event ev =
      print_member (codes "  NAME: ") ev.name
      ++ (print_member (codes "    compat: ") ev.compat
          ++ (print_member (codes "    event: ") ev.event
              ++ (print_member (codes "    desc: ") ev.desc
                  ++ (print_member (codes "    topic: ") ev.topic
                      ++ (print_member (codes "    long_desc: ") ev.long_desc
                          ++ (print_member (codes "    unit: ") ev.unit
                              ++ (print_member (codes "    retirement_latency_mean: ")
                                    ev.retirement_latency_mean
                                  ++ (print_member (codes "    retirement_latency_min: ")
                                        ev.retirement_latency_min
                                      ++ (print_member (codes "    retirement_latency_max: ")
                                            ev.retirement_latency_max
                                          ++ ((if ev.perpkg then codes "    Is perpkg\n" else [])
                                              ++ (if ev.deprecated
                                                  then codes "    Is deprecated\n"
                                                  else [])))))))))))

  unfoldable pub print_instances : List PmuInstance → Bytes
  print_instances [] = []
  print_instances (i ∷ instances) =
      codes "\tINSTANCE: \""
      ++ (i.name ++ (codes "\" CPUS: " ++ (print_cpus i.cpus ++ b'\n' ∷ print_instances instances)))

  module _ (sys : System) (get_pmu_name : PmuTableEntry → Bytes)
      (decompress_event : ℕ → PmuEvent) where
    unfoldable pub print_events : List CompactPmuEvent → Bytes
    print_events [] = []
    print_events (entry ∷ entries) =
        print_pmu_event (decompress_event entry.offset) ++ (codes "\n\n" ++ print_events entries)

    -- `instances[0]` of a class without instances is `none`.
    unfoldable pub print_class : PmuClass → Option Bytes
    print_class pmu_class = elim pmu_class.instances [
      | [] ↦ none
      | (i ∷ instances) ↦ some (
          codes "CLASS: "
          ++ (pmu_class.name
              ++ (codes "\nINSTANCES:\n"
                  ++ (print_instances (i ∷ instances)
                      ++ (codes "EVENTS:\n" ++ print_events i.entries)))))
    ]

    unfoldable pub print_classes : List PmuClass → Option Bytes
    print_classes [] = some []
    print_classes (c ∷ classes) = elim (print_class c) [
      | none ↦ none
      | some text ↦ elim (print_classes classes) [ none ↦ none | some texts ↦ some (text ++ texts) ]
    ]

    -- As in `read_event`, the result of `get_pmus` is not tested.
    unfoldable pub list_events : Option (List PmuTableEntry) → Option Bytes
    list_events none = none
    list_events (some pmus) = elim (add_classes sys get_pmu_name [] pmus) [
      | added classes ↦ print_classes classes
      | refused ↦ none
      | overrun ↦ none
    ]
