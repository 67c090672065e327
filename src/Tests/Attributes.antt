-- ===== src/Tests/Attributes.antt =====
-- Events of the sample system: their search and their attributes.
use pmu_events.Word.{shift_left, shift_right}
use pmu_events.Libc.Number.{strtoull}
use pmu_events.Apply.{apply_range, range_len, apply_range_list_to_val}
use pmu_events.Libc.Text.{strchr, c_string, strip_prefix, streq, starts_with}
use pmu_events.Commas.{parse_commas}
use pmu_events.Assign.{
  parse_assignment, make_assignment, parse_value, Assignment, asn, parse_assignment_list,
}
use pmu_events.Attr.Readback.{AreStored, gen_attr_for_event-AreStored}
use pmu_events.Attr.Resolve.{Placement, AreWords, HasFormat, Resolves, nil, skip, place}
use pmu_events.Attr.{
  apply_assignments, generate, apply_format, apply_assignment, done, gen_attr_for_event,
}
use pmu_events.Base.{◌≡◌, refl, ◌≢◌, ◌↔◌, inl, true, some, List, [], ◌∷◌, arith, codes}
use pmu_events.Config.{
  strip_var, apply_config_def_to_attr, config, config1, config2, ConfigDef, PerfEventAttr,
  parse_config_def,
}
use pmu_events.Event.Laws.{FirstNamed, get_event_by_name-found_iff}
use pmu_events.Event.{found, get_event_by_name}
use pmu_events.Files.{
  ended_buffer, read_buffer, first_line, parse_type, type_file, get_file_content, concat_path,
  get_format_file_content, read_perf_type, minus_one,
}
use pmu_events.Pmu.{PmuEvent}
use pmu_events.Range.{parse_range_list, parse_range, range}
use pmu_events.Tests.Samples.{sample, cpu_instance, load_event, event_named, decompress_sample}

get_event_by_name-found_iff_example :
    (get_event_by_name decompress_sample cpu_instance (codes "mem_load.l3") ≡ found load_event)
    ↔ FirstNamed decompress_sample (codes "mem_load.l3") load_event cpu_instance.entries
get_event_by_name-found_iff_example =
    get_event_by_name-found_iff decompress_sample (codes "mem_load.l3") cpu_instance load_event

abbrev load_list : List Assignment
load_list = asn (codes "event") 0xd1 ∷ asn (codes "umask") 0x20 ∷ asn (codes "period") 7 ∷ []

load_list-parses :
    parse_assignment_list (λ n. true) (codes "event=0xd1,umask=0x20,period=0x7") ≡ some load_list
unfolding parse_assignment_list parse_commas strchr parse_assignment make_assignment parse_value
    streq strtoull
load_list-parses = refl

abbrev event_def : ConfigDef
event_def = record { var = config; range = range 0 7 ∷ [] }

abbrev umask_def : ConfigDef
umask_def = record { var = config; range = range 8 15 ∷ range 40 47 ∷ [] }

sample_type : read_perf_type sample cpu_instance ≡ 4
unfolding read_perf_type type_file concat_path streq ended_buffer read_buffer parse_type strtoull
    first_line strchr c_string
sample_type = refl

sample_type-ne : read_perf_type sample cpu_instance ≢ minus_one
sample_type-ne h = absurd (ground (arith, sample_type))

event_HasFormat : HasFormat sample cpu_instance (codes "event") event_def
unfolding get_format_file_content concat_path get_file_content ended_buffer read_buffer first_line
    streq strchr c_string parse_config_def strip_var strip_prefix parse_range_list parse_commas
    parse_range starts_with strtoull
event_HasFormat = record { text = codes "config:0-7"; content = refl; parses = refl }

umask_HasFormat : HasFormat sample cpu_instance (codes "umask") umask_def
unfolding get_format_file_content concat_path get_file_content ended_buffer read_buffer first_line
    streq strchr c_string parse_config_def strip_var strip_prefix parse_range_list parse_commas
    parse_range starts_with strtoull
umask_HasFormat = record { text = codes "config:8-15,40-47"; content = refl; parses = refl }

abbrev pub attr : PerfEventAttr
attr = record { type = 0; config = 0x10000; config1 = 0; config2 = 9 }

attr-AreWords : AreWords attr
attr-AreWords config = omega arith
attr-AreWords config1 = omega arith
attr-AreWords config2 = omega arith

abbrev load_places : List Placement
load_places =
    record { def = event_def; value = 0xd1 } ∷ record { def = umask_def; value = 0x20 } ∷ []

load_Resolves : Resolves sample cpu_instance load_list load_places
load_Resolves =
    place (cc) event_HasFormat
      (record { ordered = omega arith; inside = omega arith; partial = omega arith }, tt, tt)
      (place (cc) umask_HasFormat
        (
          record { ordered = omega arith; inside = omega arith; partial = omega arith },
          (inl (omega arith), tt),
          (record { ordered = omega arith; inside = omega arith; partial = omega arith }, tt, tt),
        )
        (skip refl nil))

gen_attr_for_event-AreStored_example :
    AreStored
      (record attr { type = read_perf_type sample cpu_instance })
      load_places
      (gen_attr_for_event sample cpu_instance load_event attr)
gen_attr_for_event-AreStored_example =
    gen_attr_for_event-AreStored sample cpu_instance load_event attr sample_type-ne refl
      load_list-parses attr-AreWords load_Resolves

pub load_attr :
    gen_attr_for_event sample cpu_instance load_event attr
    ≡ done (record { type = 4; config = 0x120d1; config1 = 0; config2 = 9 })
unfolding gen_attr_for_event generate apply_assignments apply_assignment apply_format
    apply_config_def_to_attr apply_range_list_to_val apply_range range_len shift_left shift_right
    parse_assignment_list parse_commas strchr parse_assignment make_assignment parse_value streq
    strtoull read_perf_type type_file concat_path ended_buffer read_buffer parse_type first_line
    c_string get_format_file_content get_file_content parse_config_def strip_var strip_prefix
    parse_range_list parse_range starts_with
load_attr = refl

abbrev masked_event : PmuEvent
masked_event = event_named "masked" "cmask=0x1"
