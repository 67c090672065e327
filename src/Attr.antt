-- ===== src/Attr.antt =====
-- `gen_attr_for_event` of src/pmu-events.c: the attributes to open an event with.
pub mod Errors
pub mod Resolve
pub mod Readback
use pmu_events.Assign.{Assignment, parse_assignment_list}
use pmu_events.Base.{Option, none, some, List, [], ◌∷◌, ◌==◌, if◌then◌else◌, Bytes, codes}
use pmu_events.Config.{ConfigDef, PerfEventAttr, parse_config_def, apply_config_def_to_attr}
use pmu_events.Files.{get_format_file_content, read_perf_type, minus_one}
use pmu_events.Libc.Text.{streq}
use pmu_events.Pmu.{PmuEvent, PmuInstance}
use pmu_events.System.{System}

-- What `attr` points at afterwards: `done` is 0, `failed` is -1, and `undefined` is a shift that C
-- leaves undefined, or an event whose text is NULL.
pub data Generated : Type 0 where
  done : PerfEventAttr → Generated
  failed : PerfEventAttr → Generated
  undefined : Generated

infixl 5 ◌>>=◌
abbrev pub ◌>>=◌ : Generated → (PerfEventAttr → Generated) → Generated
done attr >>= f = f attr
failed attr >>= f = failed attr
undefined >>= f = undefined

module _ (sys : System) (pmu_instance : PmuInstance) where
  -- From the text of the format file on.
  unfoldable pub apply_format : PerfEventAttr → Assignment → Option Bytes → Generated
  apply_format attr asn none = failed attr
  apply_format attr asn (some config_def_str) =
      elim (parse_config_def sys.realloc_ok config_def_str) [
        | none ↦ failed attr
        | some conf_def ↦ elim (apply_config_def_to_attr attr asn.value conf_def) [
          | none ↦ undefined
          | some attr' ↦ done attr'
        ]
      ]

  -- One round of the loop over the assignments; `period` has no format.
  unfoldable pub apply_assignment : PerfEventAttr → Assignment → Generated
  apply_assignment attr asn =
      if streq asn.key (codes "period")
      then done attr
      else apply_format attr asn (get_format_file_content sys asn.key pmu_instance)

  unfoldable pub apply_assignments : PerfEventAttr → List Assignment → Generated
  apply_assignments attr [] = done attr
  apply_assignments attr (asn ∷ list) = do
    attr' ← apply_assignment attr asn
    apply_assignments attr' list

  unfoldable pub generate : PerfEventAttr → Bytes → Generated
  generate attr event = elim (parse_assignment_list sys.realloc_ok event) [
    | none ↦ failed attr
    | some list ↦ apply_assignments attr list
  ]

  -- The type is stored before it is tested, and -1 is tested for in 32 bits.
  unfoldable pub gen_attr_for_event : PmuEvent → PerfEventAttr → Generated
  gen_attr_for_event ev attr =
      let attr' = record attr { type = read_perf_type sys pmu_instance } in
      if attr'.type == minus_one
      then failed attr'
      else elim ev.event [ none ↦ undefined | some event ↦ generate attr' event ]
