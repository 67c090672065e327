-- ===== src/CpuId.antt =====
-- `get_cpuid_str` of include/pmu-events/aarch64/util.h: the text of the register MIDR_EL1 of a CPU.
pub mod Match
pub mod Online
use pmu_events.Base.{
  ℕ, zero, suc, ◌-◌, ◌^◌, ◌≡◌, refl, Bool, true, false, ◌==◌, leb, if◌then◌else◌, Option, none,
  some, List, [], ◌∷◌, ◌++◌, Bytes, codes,
}
use pmu_events.CpuMap.New.{CpuSystem, new_online_cpus, perf_cpu_map_new}
use pmu_events.CpuMap.{PerfCpu, PerfCpuMap, any_cpu}
use pmu_events.Libc.Print.{print}

-- `%d` of an `int16_t` given by its bits.
unfoldable pub print_cpu : PerfCpu → Bytes
print_cpu cpu = if leb (2 ^ 15) cpu then b'-' ∷ print 10 (2 ^ 16 - cpu) else print 10 cpu

unfoldable pub midr_path : PerfCpu → Bytes
midr_path cpu =
    codes "/sys/devices/system/cpu/cpu" ++ (print_cpu cpu ++ codes "/regs/identification/midr_el1")

-- The bytes that `fgets` stores of the text: `left` at most, and none behind a newline.
unfoldable pub fgets : ℕ → Bytes → Bytes
fgets left [] = []
fgets zero (c ∷ s) = []
fgets (suc left) (c ∷ s) = let rest = fgets left s in if c == b'\n' then c ∷ [] else c ∷ rest

abbrev midr_size : ℕ
midr_size = 19

-- `fgets` into the buffer, which gives NULL for a file that is empty.
unfoldable pub fgets_midr : Bytes → Option Bytes
fgets_midr [] = none
fgets_midr (c ∷ s) = some (fgets (midr_size - 1) (c ∷ s))

-- `read` is a 0 with the buffer, `einval` an EINVAL, and `aborted` the end by a failed `assert`.
pub data Cpuid : Type 0 where
  read : Bytes → Cpuid
  einval : Cpuid
  aborted : Cpuid

module _ (sys : CpuSystem) where
  -- `_get_cpuid`
  unfoldable pub get_cpuid_of : PerfCpu → Cpuid
  get_cpuid_of cpu = if cpu == any_cpu then aborted else elim (sys.contents (midr_path cpu)) [
    | none ↦ einval
    | some content ↦ elim (fgets_midr content) [ none ↦ einval | some buf ↦ read buf ]
  ]

  -- The loop over the online CPUs.
  unfoldable pub first_cpuid : PerfCpuMap → Cpuid
  first_cpuid [] = einval
  first_cpuid (cpu ∷ cpus) = elim (get_cpuid_of cpu) [
    | read buf ↦ read buf
    | einval ↦ first_cpuid cpus
    | aborted ↦ aborted
  ]

  -- Two calls of `perf_cpu_map__new` may nest.
  unfoldable pub perf_cpu_map_new_online_cpus : Option PerfCpuMap
  perf_cpu_map_new_online_cpus = elim (new_online_cpus sys (perf_cpu_map_new sys 2)) [
    | none ↦ none
    | some cpus ↦ cpus
  ]

  unfoldable pub get_cpuid : PerfCpu → Cpuid
  get_cpuid cpu =
      if cpu == any_cpu
      then elim perf_cpu_map_new_online_cpus [ none ↦ einval | some cpus ↦ first_cpuid cpus ]
      else get_cpuid_of cpu

  -- `malloc_ok` says whether the buffer is given; the NULL is `einval`.
  unfoldable pub get_cpuid_str : Bool → PerfCpu → Cpuid
  get_cpuid_str malloc_ok cpu = if malloc_ok then get_cpuid cpu else einval
