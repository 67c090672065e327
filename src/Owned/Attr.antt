-- ===== src/Owned/Attr.antt =====
-- `gen_attr_for_event` of src/pmu-events.c with the blocks of the functions that it calls.
pub mod Laws
pub mod Loop
pub mod Loss
use pmu_events.Attr.{Generated, done, failed, undefined}
use pmu_events.Base.{◌==◌, Option, none, some, List, [], ◌∷◌, ◌++◌, if◌then◌else◌, Bytes, codes}
use pmu_events.Config.{PerfEventAttr, apply_config_def_to_attr}
use pmu_events.Files.{minus_one}
use pmu_events.Free.Laws.{pointed, blocks_of}
use pmu_events.Free.{Block, Array, null, block, free, free_config_def, free_assignment_list}
use pmu_events.Libc.Text.{streq}
use pmu_events.Memory.{Mem, pure, ◌>>=◌, ◌>>◌, freeing, touch, crash}
use pmu_events.Owned.Assign.{OwnedAssignment, key_blocks, parse_assignment_list}
use pmu_events.Owned.Commas.{Parsed, parsed, failed as lost_list}
use pmu_events.Memory.Owning.{pointers}
use pmu_events.Owned.Grow.{touch_pointer, array_pointer, elements}
use pmu_events.Owned.Files.{OwnedText, get_format_file_content}
use pmu_events.Owned.Files.TypeRead.{TypeRead, read_perf_type}
use pmu_events.Owned.Range.{OwnedDef, parse_config_def}
use pmu_events.Pmu.{PmuEvent, PmuInstance}
use pmu_events.System.{System}

-- What is stored in `attr`, and the blocks that are neither freed nor handed to the caller.
pub record Outcome : Type 0 where
  pub generated : Generated
  pub lost : List Block

module _ (sys : System) (pmu_instance : PmuInstance) (asn_list : Array OwnedAssignment) where
  -- The definition is applied, and its text and its ranges are freed.
  unfoldable pub apply_definition :
      PerfEventAttr → OwnedAssignment → Option OwnedDef → OwnedText → Mem Generated
  apply_definition attr asn none config_def_str = do
    freeing (free_assignment_list (pointers asn_list))
    freeing (free (some config_def_str.blocks))
    pure (failed attr)
  apply_definition attr asn (some conf_def) config_def_str = do
    freeing (free (some config_def_str.blocks))
    touch_pointer conf_def.blocks.range.ranges
    elim (apply_config_def_to_attr attr asn.value.value conf_def.value) [
      | none ↦ crash
      | some attr' ↦ do freeing (free_config_def conf_def.blocks); pure (done attr')
    ]

  unfoldable pub apply_format : PerfEventAttr → OwnedAssignment → Option OwnedText → Mem Generated
  unfolding apply_definition
  apply_format attr asn none = do
    freeing (free_assignment_list (pointers asn_list))
    pure (failed attr)
  apply_format attr asn (some config_def_str) = do
    touch config_def_str.blocks
    conf_def ← parse_config_def sys.realloc_ok config_def_str.value
    apply_definition attr asn conf_def config_def_str

  -- One round of the loop; each element is read from the array.
  unfoldable pub apply_assignment : PerfEventAttr → OwnedAssignment → Mem Generated
  unfolding apply_format touch_pointer
  apply_assignment attr asn = do
    touch_pointer (array_pointer asn_list)
    touch_pointer asn.blocks.key
    if streq asn.value.key (codes "period")
        then pure (done attr)
        else get_format_file_content sys asn.value.key pmu_instance >>= apply_format attr asn

  unfoldable pub apply_assignments : PerfEventAttr → List OwnedAssignment → Mem Generated
  unfolding apply_assignment
  apply_assignments attr [] = do
    freeing (free_assignment_list (pointers asn_list))
    pure (done attr)
  apply_assignments attr (asn ∷ list) = do
    step ← apply_assignment attr asn
    elim step [
      | done attr' ↦ apply_assignments attr' list
      | failed attr' ↦ pure (failed attr')
      | undefined ↦ pure undefined
    ]

module _ (sys : System) (pmu_instance : PmuInstance) where
  -- From the event's list on. The array of a list that does not parse was freed, its keys were not.
  unfoldable pub generate : PerfEventAttr → Parsed OwnedAssignment → Mem Outcome
  unfolding apply_assignments
  generate attr (lost_list keys) =
      pure (record { generated = failed attr; lost = blocks_of key_blocks keys })
  generate attr (parsed asn_list) = do
    generated ← apply_assignments sys pmu_instance asn_list attr (elements asn_list)
    pure (record { generated = generated; lost = [] })

  unfoldable pub with_event : PerfEventAttr → Option Bytes → Mem Outcome
  unfolding generate
  with_event attr none = crash
  with_event attr (some event) = do
    asn_list ← parse_assignment_list sys.realloc_ok event
    generate attr asn_list

  unfoldable pub with_type : PmuEvent → PerfEventAttr → TypeRead → Mem Outcome
  unfolding with_event
  with_type ev attr read =
      let attr' = record attr { type = read.type } in
      if attr'.type == minus_one
      then pure (record { generated = failed attr'; lost = pointed read.lost })
      else with_event attr' ev.event

  unfoldable pub gen_attr_for_event : PmuEvent → PerfEventAttr → Mem Outcome
  unfolding with_type
  gen_attr_for_event ev attr = do read ← read_perf_type sys pmu_instance; with_type ev attr read
