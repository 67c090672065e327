-- ===== src/Tests/Samples.antt =====
-- A system with two PMUs and a few files, as an Intel server has them.
use Prim.Native.String.{String}
use pmu_events.Base.{
  ℕ, zero, suc, Bool, true, false, Option, none, some, List, [], ◌∷◌, Bytes, codes, length,
  if◌then◌else◌, ◌==◌,
}
use pmu_events.Libc.Text.{streq}
use pmu_events.Pmu.{PmuEvent, CompactPmuEvent, PmuTableEntry, PmuInstance}
use pmu_events.Range.{range}
use pmu_events.System.{System, File}

abbrev pub zeros : ℕ → Bytes
zeros zero = []
zeros (suc n) = 0 ∷ zeros n

abbrev pub text_file : Bytes → File
text_file text = record { size = some (length text); read = λ n. some text }

abbrev pub find : List (Bytes × File) → Bytes → Option File
find [] path = none
find ((name, file) ∷ files) path = if streq path name then some file else find files path

abbrev entry : String → String → Bytes × File
entry name text = (codes name, text_file (codes text))

abbrev files : List (Bytes × File)
files =
    entry "/sys/bus/event_source/devices/cpu/type" "4\n"
    ∷ entry "/sys/bus/event_source/devices/cpu/format//event" "config:0-7\n"
    ∷ entry "/sys/bus/event_source/devices/cpu/format//umask" "config:8-15,40-47\n"
    ∷ entry "/sys/bus/event_source/devices/uncore_imc_0/cpumask" "0,18\n"
    ∷ []

abbrev pub is_some : Option File → Bool
is_some none = false
is_some (some file) = true

abbrev pub folder_entries : List Bytes
folder_entries =
    codes "." ∷ codes ".." ∷ codes "uncore_imc_0" ∷ codes "cpu" ∷ codes "uncore_imc_free" ∷ []

abbrev pub sample : System
sample = record {
  open_file = find files;
  access = λ path. is_some (find files path);
  dir_entries = λ path. some folder_entries;
  nprocessors = 36;
  realloc_ok = λ n. true;
  classes_ok = λ n. true;
  malloc = zeros;
}

abbrev pub event_named : String → String → PmuEvent
event_named name event = record {
  name = some (codes name);
  compat = none;
  event = some (codes event);
  desc = none;
  topic = none;
  long_desc = none;
  pmu = none;
  unit = none;
  retirement_latency_mean = none;
  retirement_latency_min = none;
  retirement_latency_max = none;
  perpkg = false;
  deprecated = false;
}

abbrev pub load_event : PmuEvent
load_event = event_named "mem_load.l3" "event=0xd1,umask=0x20,period=0x7"

abbrev pub cycle_event : PmuEvent
cycle_event = event_named "cycles" "event=0x3c"

-- In the place of the generated function.
abbrev pub decompress_sample : ℕ → PmuEvent
decompress_sample offset = if offset == 0 then cycle_event else load_event

abbrev pub compact : ℕ → CompactPmuEvent
compact offset = record { offset = offset }

abbrev pub cpu_instance : PmuInstance
cpu_instance = record {
  cpus = range 0 35 ∷ [];
  name = codes "cpu";
  entries = compact 0 ∷ compact 7 ∷ [];
}

abbrev pub core_pmu : PmuTableEntry
core_pmu = record { entries = compact 0 ∷ compact 7 ∷ []; pmu_name = compact 1 }

abbrev pub imc_pmu : PmuTableEntry
imc_pmu = record { entries = compact 7 ∷ []; pmu_name = compact 2 }

abbrev pub get_pmu_name_sample : PmuTableEntry → Bytes
get_pmu_name_sample pmu =
    if pmu.pmu_name.offset == 1 then codes "default_core" else codes "uncore_imc"
