-- ===== src/CpuMap/New.antt =====
-- `perf_cpu_map__new` of include/pmu-events/aarch64/util.h, and `perf_cpu_map__new_online_cpus`,
-- which it calls and which calls it back with the text of a file.
use pmu_events.Base.{
  ℕ, zero, suc, ◌+◌, ◌-◌, ◌%◌, ◌^◌, Bool, not, ◌&&◌, if◌then◌else◌, Option, none, some, List, [],
  ◌∷◌, ◌++◌, Bytes, codes, length, take, is_empty,
}
use pmu_events.CpuMap.{PerfCpuMap, any_cpu, TmpCpus, parse_entries, cpu_map_trim_new}
use pmu_events.Libc.Number.{starts_with_digit}
use pmu_events.Libc.Text.{c_string}
use pmu_events.Reader.{Answer, filename_read_str}

-- What the kernel and the allocator answer.
pub record CpuSystem : Type 0 where
  -- The answers to the reads of a file that opens.
  pub open_file : Bytes → Option (List Answer)
  -- What a file that `fopen` opens holds.
  pub contents : Bytes → Option Bytes
  -- `sysconf(_SC_NPROCESSORS_ONLN)`, if it is not negative.
  pub nprocessors : Option ℕ
  pub realloc_ok : ℕ → Bool

-- The numbers from `i` on, as 16-bit words.
unfoldable pub count_from : ℕ → ℕ → PerfCpuMap
count_from i zero = []
count_from i (suc n) = i % 2 ^ 16 ∷ count_from (i + 1) n

-- `perf_cpu_map__alloc` gives NULL for no entries.
unfoldable pub perf_cpu_map_filled : PerfCpuMap → Option PerfCpuMap
perf_cpu_map_filled [] = none
perf_cpu_map_filled (c ∷ cpus) = some (c ∷ cpus)

unfoldable pub perf_cpu_map_new_any_cpu : Option PerfCpuMap
unfolding perf_cpu_map_filled
perf_cpu_map_new_any_cpu = perf_cpu_map_filled (any_cpu ∷ [])

abbrev path_max : ℕ
path_max = 4096

abbrev pub online_file : Bytes
online_file = codes "devices/system/cpu/online"

module _ (sys : CpuSystem) where
  unfoldable pub sysfs_read_str : Bytes → Option Bytes
  sysfs_read_str entry =
      filename_read_str sys.realloc_ok
        (sys.open_file (take (path_max - 1) (codes "/sys/" ++ entry)))

  unfoldable pub cpu_map_new_sysconf : Option PerfCpuMap
  cpu_map_new_sysconf = elim sys.nprocessors [
    | none ↦ none
    | some nr_cpus ↦ perf_cpu_map_filled (count_from 0 nr_cpus)
  ]

  -- `online` is what `perf_cpu_map__new_online_cpus` gives where it is called. The outer `none` says
  -- that the calls nest deeper than was allowed.
  unfoldable pub new_from_entries :
      Option (Option PerfCpuMap) → TmpCpus × Bytes → Option (Option PerfCpuMap)
  new_from_entries online (tmp, cpu_list) =
      if not (is_empty tmp.cpus)
      then some (cpu_map_trim_new tmp.cpus)
      else if not (is_empty cpu_list)
      then online
      else some perf_cpu_map_new_any_cpu

  unfoldable pub new_from_text : Option (Option PerfCpuMap) → Bytes → Option (Option PerfCpuMap)
  new_from_text online cpu_list =
      if not (starts_with_digit 10 cpu_list) && not (is_empty cpu_list)
      then some none
      else elim (parse_entries sys.realloc_ok (length cpu_list + 1)
          (record { cpus = []; max_entries = 0 }) cpu_list) [
            | none ↦ some none
            | some state ↦ new_from_entries online state
          ]

  -- The map of the file, if it is read, whose text ends at its first NUL; `new` is
  -- `perf_cpu_map__new`.
  unfoldable pub new_sysfs_online :
      (Option Bytes → Option (Option PerfCpuMap)) → Option (Option PerfCpuMap)
  new_sysfs_online new = elim (sysfs_read_str online_file) [
    | none ↦ some none
    | some buf ↦ new (some (c_string buf))
  ]

  -- Without that map, the CPUs that `sysconf` counts.
  unfoldable pub new_online_cpus :
      (Option Bytes → Option (Option PerfCpuMap)) → Option (Option PerfCpuMap)
  new_online_cpus new = elim (new_sysfs_online new) [
    | none ↦ none
    | some none ↦ some cpu_map_new_sysconf
    | some (some cpus) ↦ some (some cpus)
  ]

  -- `depth` is how many calls may nest.
  unfoldable pub perf_cpu_map_new : ℕ → Option Bytes → Option (Option PerfCpuMap)
  perf_cpu_map_new zero cpu_list = none
  perf_cpu_map_new (suc depth) cpu_list =
      let online = new_online_cpus (perf_cpu_map_new depth) in
      elim cpu_list [ none ↦ online | some text ↦ new_from_text online text ]
