-- ===== src/Tests/Client.antt =====
-- The example's client on the sample system.
use pmu_events.Apply.{apply_range, range_len, apply_range_list_to_val}
use pmu_events.Assign.{parse_assignment, make_assignment, parse_value, parse_assignment_list}
use pmu_events.Attr.{
  apply_assignments, generate, apply_format, apply_assignment, gen_attr_for_event,
}
use pmu_events.Base.{arith, List, ◌≡◌, refl, ◌+◌, zero, suc, none, some, [], ◌∷◌, codes}
use pmu_events.Client.Named.{AreNamed}
use pmu_events.Client.Collect.{get_pmus-add_classes, having, instances_of}
use pmu_events.Client.Reads.{CanGenerate, read_event-reads}
use pmu_events.Client.Laws.{IsRead, read_event-IsRead}
use pmu_events.Client.{
  Env, WholeEv, reading_of, usage, reading, first_cpu, cleared, and_ev, add_ev, add_instances,
  add_class_evs, gen_attrs, open_evs, open_all, read_round, read_event, main,
}
use pmu_events.Commas.{parse_commas}
use pmu_events.Config.{strip_var, apply_config_def_to_attr, parse_config_def}
use pmu_events.Event.{get_event_by_name}
use pmu_events.Files.{
  ended_buffer, read_buffer, first_line, parse_type, type_file, get_file_content, concat_path,
  get_format_file_content, read_perf_type,
}
use pmu_events.Libc.Number.{strtoull}
use pmu_events.Libc.Text.{strchr, c_string, strip_prefix, streq, starts_with}
use pmu_events.Range.{parse_range_list, parse_range}
use pmu_events.Tests.Folders.{core_class, imc_class, sample_pmus}
use pmu_events.Tests.Samples.{
  sample, cpu_instance, cycle_event, decompress_sample, core_pmu, imc_pmu, get_pmu_name_sample,
}
use pmu_events.Word.{shift_left, shift_right}

abbrev fresh : WholeEv
fresh = record {
  pmu_instance = cpu_instance;
  ev = cycle_event;
  attr = record { type = 9; config = 9; config1 = 9; config2 = 9 };
  fd = 0;
}

abbrev env : Env
env = record {
  sys = sample;
  get_pmu_name = get_pmu_name_sample;
  decompress_event = decompress_sample;
  perf_event_open = λ n attr cpu. some (n + 3);
  uninit = fresh;
}

abbrev cycles_read : WholeEv
cycles_read = record {
  pmu_instance = cpu_instance;
  ev = cycle_event;
  attr = record { type = 4; config = 0x3c; config1 = 0; config2 = 0 };
  fd = 3;
}

cycles_reading :
    read_event env (codes "cycles") (some (core_pmu ∷ imc_pmu ∷ [])) ≡ reading (cycles_read ∷ [])
unfolding read_event open_all open_evs gen_attrs and_ev add_class_evs add_instances add_ev
    get_event_by_name first_cpu cleared gen_attr_for_event generate apply_assignments
    apply_assignment apply_format apply_config_def_to_attr apply_range_list_to_val apply_range
    range_len shift_left shift_right parse_assignment_list parse_commas strchr parse_assignment
    make_assignment parse_value streq strtoull read_perf_type type_file concat_path ended_buffer
    read_buffer parse_type first_line c_string get_format_file_content get_file_content
    parse_config_def strip_var strip_prefix parse_range_list parse_range starts_with
cycles_reading =
    rw
      (
        read_event,
        get_pmus-add_classes sample get_pmu_name_sample (core_pmu ∷ imc_pmu ∷ []) sample_pmus,
      )
      refl

read_event-IsRead_example :
    IsRead env (codes "cycles") (core_class ∷ imc_class ∷ []) (cycles_read ∷ [])
read_event-IsRead_example =
    read_event-IsRead env (codes "cycles") (core_pmu ∷ imc_pmu ∷ []) sample_pmus cycles_reading

cycles-CanGenerate : CanGenerate env (codes "cycles") cpu_instance
unfolding get_event_by_name cleared gen_attr_for_event generate apply_assignments apply_assignment
    apply_format apply_config_def_to_attr apply_range_list_to_val apply_range range_len shift_left
    shift_right parse_assignment_list parse_commas strchr parse_assignment make_assignment
    parse_value streq strtoull read_perf_type type_file concat_path ended_buffer read_buffer
    parse_type first_line c_string get_format_file_content get_file_content parse_config_def
    strip_var strip_prefix parse_range_list parse_range starts_with
cycles-CanGenerate e h attr e0 e1 e2 =
    let same : cycle_event ≡ e = ground (arith, h) in
    (record { type = 4; config = 0x3c; config1 = 0; config2 = 0 }, rw (← same, e0, e1, e2) refl)

sample_named : AreNamed env (core_pmu ∷ imc_pmu ∷ [])
sample_named = (
  ((codes "cycles", refl), ((codes "mem_load.l3", refl), tt)),
  (((codes "mem_load.l3", refl), tt), tt),
)

cycles_having :
    having env (codes "cycles") (instances_of (core_class ∷ imc_class ∷ [])) ≡ cpu_instance ∷ []
unfolding having instances_of get_event_by_name streq
cycles_having = refl

read_event-reads_example :
    (evs : List WholeEv) × (read_event env (codes "cycles") (some (core_pmu ∷ imc_pmu ∷ []))
      ≡ reading evs)
    × IsRead env (codes "cycles") (core_class ∷ imc_class ∷ []) evs
read_event-reads_example =
    read_event-reads env (codes "cycles") (λ n attr cpu. (n + 3, refl)) (core_pmu ∷ imc_pmu ∷ [])
      (λ n. refl) sample_named sample_pmus (rw cycles_having (omega arith))
      (rw cycles_having (cycles-CanGenerate, tt))

-- An event without a text.
abbrev env_null : Env
env_null = record env { decompress_event = λ offset. record cycle_event { event = none } }

-- When a read fails, the count of the event in front is printed again.
failed_read :
    read_round
      (λ fd. elim fd [ zero ↦ some 5 | suc n ↦ none ])
      0
      (record cycles_read { fd = 0 } ∷ cycles_read ∷ [])
    ≡ record { instance_name = codes "cpu"; event_name = some (codes "cycles"); count = 5 }
      ∷ record { instance_name = codes "cpu"; event_name = some (codes "cycles"); count = 5 }
      ∷ []
unfolding read_round
failed_read = refl

commands :
    (main (codes "read" ∷ codes "cycles" ∷ []) ≡ reading_of (codes "cycles"))
    × (main (codes "read" ∷ []) ≡ usage)
unfolding main streq
commands = (refl, refl)
