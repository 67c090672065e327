-- ===== src/Tests/Cpus.antt =====
-- Maps of CPUs and the identifiers of CPUs, on arm64 and on x86.
use pmu_events.Base.{
  ◌≡◌, ◌≤◌, ◌↔◌, refl, inr, true, if◌then◌else◌, Option, none, some, List, [], ◌∷◌, ◌++◌, ℕ, ◌-◌,
  suc, arith, Bytes, codes, length,
}
use pmu_events.CpuId.Match.{midr_text, get_cpuid_str-match}
use pmu_events.CpuId.Online.{FirstRead, get_cpuid-any_iff}
use pmu_events.CpuId.{
  perf_cpu_map_new_online_cpus, get_cpuid, midr_path, print_cpu, read, get_cpuid_str,
}
use pmu_events.CpuMap.Depth.{perf_cpu_map_new-depth}
use pmu_events.CpuMap.New.{CpuSystem, perf_cpu_map_new}
use pmu_events.CpuMap.RoundTrip.{cpulist, IsMapOfRanges, perf_cpu_map_new-cpulist}
use pmu_events.CpuMap.Trim.{kept_part, firsts, trim_loop-firsts}
use pmu_events.CpuMap.Rounds.{Rounds, parse_entries-Rounds}
use pmu_events.CpuMap.{parse_entries, any_cpu, PerfCpuMap, trim_loop}
use pmu_events.Libc.Print.{print}
use pmu_events.Libc.Text.{c_string, streq}
use pmu_events.Midr.Order.{IsSamePart, midr, version}
use pmu_events.Midr.{strcmp_cpuid_str}
use pmu_events.Range.{range}
use pmu_events.Reader.{Answer}
use pmu_events.X86.Compare.{compared_part, strcmp_cpuid_str-id_text}
use pmu_events.X86.Text.{vendor_version, get_cpuid_str-id_text}
use pmu_events.X86
use pmu_events.X86.{Version, copied, id_text, get_cpuid_0, is_full_cpuid, skylake}

abbrev some_cpus : List ℕ
some_cpus = 1 ∷ 1 ∷ 2 ∷ 5 ∷ 5 ∷ 5 ∷ 1 ∷ []

trim_loop-firsts_example :
    kept_part (trim_loop (length some_cpus) 0 (0, some_cpus)) ≡ firsts some_cpus
trim_loop-firsts_example = trim_loop-firsts some_cpus

-- A Neoverse N1 whose first CPU is offline.
abbrev n1_id : ℕ
n1_id = 0x413fd0c1

abbrev first_cpus : List Answer
first_cpus = record { readable = true; bytes = codes "0-3\n" } ∷ []

abbrev n1 : CpuSystem
n1 = record {
  open_file = λ path. some first_cpus;
  contents = λ path.
      if streq path (codes "/sys/devices/system/cpu/cpu0/regs/identification/midr_el1")
      then none
      else some (midr_text n1_id ++ b'\n' ∷ []);
  nprocessors = some 4;
  realloc_ok = λ n. true;
}

perf_cpu_map_new-depth_example :
    (r : Option PerfCpuMap) × ((depth : ℕ) → perf_cpu_map_new n1 (suc (suc depth)) none ≡ some r)
perf_cpu_map_new-depth_example = perf_cpu_map_new-depth n1 none

perf_cpu_map_new-cpulist_example :
    (result : Option PerfCpuMap) × (perf_cpu_map_new n1 2
        (some (cpulist (range 8 9) (range 0 3 ∷ [])))
      ≡ some result)
    × IsMapOfRanges (range 8 9 ∷ range 0 3 ∷ []) result
perf_cpu_map_new-cpulist_example =
    perf_cpu_map_new-cpulist n1 1 (range 8 9) (range 0 3 ∷ []) (λ n. refl)
      (
        record { ordered = omega arith; small = omega arith },
        (inr (omega arith), tt),
        (record { ordered = omega arith; small = omega arith }, tt, tt),
      )

get_cpuid_str-match_example :
    (get_cpuid_str n1 true 2 ≡ read (midr_text n1_id))
    × ((strcmp_cpuid_str (codes "0x00000000411fd0c0") (midr_text n1_id) ≡ 0) ↔ (
        IsSamePart (midr (codes "0x00000000411fd0c0")) n1_id
        × (version (midr (codes "0x00000000411fd0c0")) ≤ version n1_id)))
unfolding midr_path print_cpu print streq
get_cpuid_str-match_example =
    get_cpuid_str-match n1 2 n1_id (codes "0x00000000411fd0c0") (omega arith) (omega arith) refl

get_cpuid-any_iff_example : (get_cpuid n1 any_cpu ≡ read (midr_text n1_id)) ↔ (
    (cpus : PerfCpuMap) × (perf_cpu_map_new_online_cpus n1 ≡ some cpus)
    × FirstRead n1 (midr_text n1_id) cpus)
get_cpuid-any_iff_example = get_cpuid-any_iff n1 (midr_text n1_id)

get_cpuid_str-id_text_example :
    X86.get_cpuid_str skylake true
    ≡ some (copied (id_text (c_string (get_cpuid_0 skylake)) (vendor_version skylake)))
get_cpuid_str-id_text_example = get_cpuid_str-id_text skylake

-- A matcher of literal texts.
abbrev literal : Bytes → Bytes → Option (ℕ × ℕ)
literal pattern text = if streq pattern text then some (0, length text) else none

abbrev skylake_version : Version
skylake_version = record { family = 6; model = 0x55; step = 4 }

strcmp_cpuid_str-id_text_example :
    (X86.strcmp_cpuid_str
        (λ p. true)
        literal
        (codes "GenuineIntel-6-55-4")
        (id_text (codes "GenuineIntel") skylake_version)
      ≡ some 0)
    ↔ ((true ≡ true)
        × (rm_so : ℕ) × (rm_eo : ℕ) × (literal
              (codes "GenuineIntel-6-55-4")
              (id_text (codes "GenuineIntel") skylake_version)
            ≡ some (rm_so, rm_eo))
        × (rm_eo - rm_so
            ≡ length (
                compared_part
                  (codes "GenuineIntel-6-55-4")
                  (codes "GenuineIntel")
                  skylake_version)))
strcmp_cpuid_str-id_text_example =
    strcmp_cpuid_str-id_text (λ p. true) literal (codes "GenuineIntel-6-55-4")
      (codes "GenuineIntel") skylake_version (omega arith)

parse_entries-Rounds_example :
    Rounds
      (λ n. true)
      (record { cpus = []; max_entries = 0 })
      (codes "0-3,8,9x")
      (parse_entries (λ n. true) 9 (record { cpus = []; max_entries = 0 }) (codes "0-3,8,9x"))
parse_entries-Rounds_example =
    parse_entries-Rounds (λ n. true) 9 (record { cpus = []; max_entries = 0 }) (codes "0-3,8,9x")
      (omega arith)
