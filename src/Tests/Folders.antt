-- ===== src/Tests/Folders.antt =====
-- The files and folders of the sample system.
use pmu_events.Libc.Number.{strtoull}
use pmu_events.Commas.{parse_commas}
use pmu_events.Base.{
  ◌==◌, ◌<◌, ◌≡◌, refl, ◌↔◌, ◌⊎◌, true, false, some, [], ◌∷◌, ◌++◌, All, Bytes, codes, length,
  is_empty, if◌then◌else◌,
}
use pmu_events.Files.{
  get_cpu_list, ended_buffer, read_buffer, get_cpumask_for, all_cpus, get_cpus_for, concat_path,
  get_file_content, first_line,
}
use pmu_events.Instances.Laws.{uncore_instances, get_all_pmu_instances_for-uncore}
use pmu_events.Instances.Name.{IsNumber, is_instance_name_iff}
use pmu_events.Instances.{
  visit, cpumask_of_folder, is_suffix, visit_uncore, uncore_cpus, visit_core, cpus_of_folder,
  visit_entries, Found, is_instance_name, get_all_pmu_instances_for,
}
use pmu_events.Libc.Text.{strchr, strip_prefix, streq, starts_with, c_string}
use pmu_events.Pmu.{PmuClass}
use pmu_events.Pmus.Laws.{IsClassOf, classes_of, get_pmus-listed, get_pmus-classes_of}
use pmu_events.Pmus.{
  crashed, lacks_memory, class_of, add_classes, with_entries, add_class, listed, failed, get_pmus,
}
use pmu_events.Range.{parse_range_list, parse_range, range}
use pmu_events.System.{System, File}
use pmu_events.Tests.Samples.{
  sample, folder_entries, compact, core_pmu, imc_pmu, get_pmu_name_sample,
}

abbrev type_path : Bytes
type_path = codes "/sys/bus/event_source/devices/cpu/type"

-- Four bytes are asked for and one is read, into a buffer that held another text.
abbrev short_file : File
short_file = record { size = some 4; read = λ n. some (codes "4") }

abbrev reused : System
reused = record sample { open_file = λ path. some short_file; malloc = λ n. codes "x21098" }

-- Behind a short read without a newline, the text goes on with what `malloc` left in the buffer.
leftover : get_file_content reused type_path ≡ some (codes "4210")
unfolding get_file_content ended_buffer read_buffer first_line c_string strchr
leftover = refl

is_instance_name_iff_example :
    (is_instance_name (codes "uncore_imc") (codes "uncore_imc_3") ≡ true) ↔ (
      (codes "uncore_imc_3" ≡ codes "uncore_imc")
      ⊎ ((text : Bytes) × (codes "uncore_imc_3" ≡ codes "uncore_imc" ++ b'_' ∷ text)
          × IsNumber text))
is_instance_name_iff_example = is_instance_name_iff (codes "uncore_imc") (codes "uncore_imc_3")

-- A sign counts as part of the number.
bare_and_signed :
    (is_instance_name (codes "foo") (codes "foo_") ≡ true)
    × (is_instance_name (codes "foo") (codes "foo_-1") ≡ true)
    × (is_instance_name (codes "foo") (codes "foo_1a") ≡ false)
unfolding is_instance_name strip_prefix is_suffix strtoull
bare_and_signed = (refl, refl, refl)

get_all_pmu_instances_for-uncore_example :
    get_all_pmu_instances_for sample (codes "uncore_imc")
    ≡ some (uncore_instances sample (codes "uncore_imc") folder_entries)
get_all_pmu_instances_for-uncore_example =
    get_all_pmu_instances_for-uncore sample (codes "uncore_imc") folder_entries refl (λ n. refl) cc

abbrev imc_found : Found
imc_found = record { name = codes "uncore_imc_0"; cpus = range 0 0 ∷ range 18 18 ∷ [] }

imc_listed : get_all_pmu_instances_for sample (codes "uncore_imc") ≡ some (imc_found ∷ [])
unfolding get_all_pmu_instances_for visit_entries visit visit_uncore visit_core is_instance_name
    is_suffix strip_prefix uncore_cpus cpus_of_folder cpumask_of_folder get_cpus_for get_cpumask_for
    get_cpu_list all_cpus concat_path get_file_content ended_buffer read_buffer first_line streq
    strchr c_string parse_range_list parse_commas parse_range starts_with strtoull
imc_listed = refl

abbrev pub core_class : PmuClass
core_class = record {
  name = codes "default_core";
  instances =
      record { cpus = range 0 35 ∷ []; name = codes "cpu"; entries = compact 0 ∷ compact 7 ∷ [] }
      ∷ [];
}

abbrev pub imc_class : PmuClass
imc_class = record {
  name = codes "uncore_imc";
  instances =
      record {
        cpus = range 0 0 ∷ range 18 18 ∷ [];
        name = codes "uncore_imc_0";
        entries = compact 7 ∷ [];
      }
      ∷ [];
}

pub sample_pmus :
    get_pmus sample get_pmu_name_sample (some (core_pmu ∷ imc_pmu ∷ []))
    ≡ listed (core_class ∷ imc_class ∷ [])
unfolding get_pmus add_classes add_class class_of with_entries get_all_pmu_instances_for
    visit_entries visit visit_uncore visit_core is_instance_name is_suffix strip_prefix uncore_cpus
    cpus_of_folder cpumask_of_folder get_cpus_for get_cpumask_for get_cpu_list all_cpus concat_path
    get_file_content ended_buffer read_buffer first_line streq strchr c_string parse_range_list
    parse_commas parse_range starts_with strtoull
sample_pmus = refl

-- Without memory for the first class, `get_pmus` returns -1; without memory for the second one, it
-- walks behind the array's end.
short_of_classes :
    (get_pmus
        (record sample { classes_ok = λ n. false })
        get_pmu_name_sample
        (some (core_pmu ∷ imc_pmu ∷ []))
      ≡ failed)
    × (get_pmus
          (record sample { classes_ok = λ n. n == 1 })
          get_pmu_name_sample
          (some (core_pmu ∷ imc_pmu ∷ []))
        ≡ crashed)
unfolding get_pmus add_classes add_class lacks_memory class_of with_entries
    get_all_pmu_instances_for visit_entries visit visit_uncore visit_core is_instance_name is_suffix
    strip_prefix uncore_cpus cpus_of_folder cpumask_of_folder get_cpus_for get_cpumask_for
    get_cpu_list all_cpus concat_path get_file_content ended_buffer read_buffer first_line streq
    strchr c_string parse_range_list parse_commas parse_range starts_with strtoull
short_of_classes = (refl, refl)

get_pmus-listed_example :
    (0 < length (core_class ∷ imc_class ∷ []))
    × All
        (IsClassOf sample get_pmu_name_sample (core_pmu ∷ imc_pmu ∷ []))
        (core_class ∷ imc_class ∷ [])
get_pmus-listed_example =
    get_pmus-listed sample get_pmu_name_sample (core_pmu ∷ imc_pmu ∷ []) sample_pmus

get_pmus-classes_of_example :
    get_pmus sample get_pmu_name_sample (some (core_pmu ∷ imc_pmu ∷ [])) ≡ (
      if is_empty (classes_of sample get_pmu_name_sample (core_pmu ∷ imc_pmu ∷ []))
      then failed
      else listed (classes_of sample get_pmu_name_sample (core_pmu ∷ imc_pmu ∷ [])))
get_pmus-classes_of_example =
    get_pmus-classes_of sample get_pmu_name_sample (core_pmu ∷ imc_pmu ∷ []) (λ n. refl)
