-- ===== src/Tests/Tables.antt =====
-- The big string and the table for a CPU.
use pmu_events.Base.{
  ◌≡◌, ◌==◌, if◌then◌else◌, Option, none, some, List, [], ◌∷◌, Bytes, codes, map, arith, length,
  ◌++◌,
}
use pmu_events.BigString.Laws.{decompress_event-build_c_string}
use pmu_events.BigString.{build_c_string, decompress_event}
use pmu_events.CpuMap.{PerfCpu}
use pmu_events.Midr.{strcmp_cpuid_str}
use pmu_events.TableMap.Laws.{Call, identifiers, map_of, results, map_for_cpu-map_of}
use pmu_events.TableMap.{PmuEventsMap, no_last, get_cpuid_allow_env_override}
use pmu_events.Tests.Samples.{load_event, cycle_event, core_pmu}

-- The event behind another one, and more behind it.
decompress_event-build_c_string_example :
    decompress_event
      (build_c_string cycle_event ++ (build_c_string load_event ++ build_c_string cycle_event))
      (length (build_c_string cycle_event))
      cycle_event
    ≡ some load_event
decompress_event-build_c_string_example =
    decompress_event-build_c_string load_event (build_c_string cycle_event)
      (build_c_string cycle_event) cycle_event
      (record {
        name = (omega arith, omega arith);
        topic = tt;
        desc = tt;
        event = (omega arith, omega arith);
        compat = tt;
        unit = tt;
        mean = tt;
        min = tt;
        max = tt;
        long_desc = tt;
      })

-- Two parts, on a machine that has a CPU of each and one that is offline.
abbrev tables : List PmuEventsMap
tables =
    record { arch = codes "arm64"; cpuid = codes "0x00000000410fd030"; event_table = [] }
    ∷ record {
      arch = codes "arm64";
      cpuid = codes "0x00000000410fd0c0";
      event_table = core_pmu ∷ [];
    }
    ∷ []

abbrev cpuids : PerfCpu → Option Bytes
cpuids cpu =
    if cpu == 0
    then some (codes "0x00000000413fd0c1")
    else if cpu == 1
    then some (codes "0x00000000410fd034")
    else none

-- CPU 2 comes online between two calls for it: the second one still returns the NULL of the first.
abbrev sample_calls : List Call
sample_calls =
    record { cpu = 0; get_cpuid = get_cpuid_allow_env_override none cpuids }
    ∷ record { cpu = 2; get_cpuid = get_cpuid_allow_env_override none cpuids }
    ∷ record { cpu = 2; get_cpuid = λ cpu. some (codes "0x00000000413fd0c1") }
    ∷ record { cpu = 0; get_cpuid = get_cpuid_allow_env_override none cpuids }
    ∷ []

map_for_cpu-map_of_example :
    results strcmp_cpuid_str tables no_last sample_calls
    ≡ map (map_of strcmp_cpuid_str tables) (identifiers none sample_calls)
map_for_cpu-map_of_example = map_for_cpu-map_of strcmp_cpuid_str tables sample_calls
