-- ===== src/Attr/Errors.antt =====
-- When `gen_attr_for_event` returns -1.
use pmu_events.Assign.{Assignment, parse_assignment_list}
use pmu_events.Attr.{done, apply_format, apply_assignment}
use pmu_events.Base.{◌≡◌, ◌≢◌, ℕ, ◌≤◌, length, true, false, none, some, List, ◌∷◌, Bytes, codes}
use pmu_events.Commas.Split.{split}
use pmu_events.Config.{PerfEventAttr, parse_config_def}
use pmu_events.Files.{get_format_file_content, read_perf_type}
use pmu_events.Libc.Text.{streq}
use pmu_events.Pmu.{PmuInstance}
use pmu_events.System.{System}

module _ (sys : System) (pmu_instance : PmuInstance) where
  -- The assignment wants a format, and its file is not there, or is no definition, or the array of its
  -- ranges does not grow.
  pub data LacksFormat (asn : Assignment) : Type 0 where
    no_file :
        asn.key ≢ codes "period"
        → get_format_file_content sys asn.key pmu_instance ≡ none
        → LacksFormat asn
    no_def :
        (text : Bytes)
        → asn.key ≢ codes "period"
        → get_format_file_content sys asn.key pmu_instance ≡ some text
        → parse_config_def (λ _. true) text ≡ none
        → LacksFormat asn
    no_array :
        (text : Bytes) (n : ℕ)
        → asn.key ≢ codes "period"
        → get_format_file_content sys asn.key pmu_instance ≡ some text
        → parse_config_def sys.realloc_ok text ≡ none
        → sys.realloc_ok n ≡ false
        → LacksFormat asn

  pub data SomeLacksFormat : List Assignment → Type 0 where
    here :
        {asn : Assignment} {list : List Assignment} → LacksFormat asn → SomeLacksFormat (asn ∷ list)
    there :
        {asn : Assignment} {list : List Assignment}
        → SomeLacksFormat list
        → SomeLacksFormat (asn ∷ list)

  pub enters_format :
      (attr : PerfEventAttr) (asn : Assignment)
      → streq asn.key (codes "period") ≡ false
      → apply_assignment sys pmu_instance attr asn
        ≡ apply_format sys pmu_instance attr asn (get_format_file_content sys asn.key pmu_instance)
  unfolding apply_assignment
  enters_format attr asn e = rw e

  pub apply_assignment_period :
      (attr : PerfEventAttr) (asn : Assignment)
      → streq asn.key (codes "period") ≡ true
      → apply_assignment sys pmu_instance attr asn ≡ done attr
  unfolding apply_assignment
  apply_assignment_period attr asn e = rw e

  typed : PerfEventAttr → PerfEventAttr
  typed attr = record attr { type = read_perf_type sys pmu_instance }

  -- Why the event's text gives no attributes: it is no list of assignments, or the array of these does
  -- not grow to one of the lengths up to the number of terms, or an assignment lacks a format.
  pub data TextFails (event : Bytes) : Type 0 where
    no_list : parse_assignment_list (λ _. true) event ≡ none → TextFails event
    short_of_memory :
        (n : ℕ)
        → parse_assignment_list sys.realloc_ok event ≡ none
        → n ≤ length (split b',' event)
        → sys.realloc_ok n ≡ false
        → TextFails event
    lacks :
        (list : List Assignment)
        → parse_assignment_list sys.realloc_ok event ≡ some list
        → SomeLacksFormat list
        → TextFails event
