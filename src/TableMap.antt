-- ===== src/TableMap.antt =====
-- `map_for_cpu` of the generated file, whose text is in jevents.py: the table for a CPU, found by the
-- CPU's identifier, with the results of the last call and of the last search kept.
pub mod Laws
use pmu_events.Base.{
  ℕ, ◌≡◌, refl, Bool, true, false, ◌==◌, if◌then◌else◌, Option, none, some, List, [], ◌∷◌, Bytes,
}
use pmu_events.CpuMap.{PerfCpu}
use pmu_events.Libc.Text.{streq}
use pmu_events.Pmu.{PmuTableEntry}

-- `struct pmu_events_map`, with the table of events; the array ends with an entry whose `arch` is NULL.
pub record PmuEventsMap : Type 0 where
  pub arch : Bytes
  pub cpuid : Bytes
  pub event_table : List PmuTableEntry

-- The static variables; `none` where `has_last_result` or `has_last_map_search` is not set. A map that
-- is NULL is a `none` of its own.
pub record Last : Type 0 where
  pub result : Option (PerfCpu × Option PmuEventsMap)
  pub map_search : Option (Bytes × Option PmuEventsMap)

abbrev pub no_last : Last
no_last = record { result = none; map_search = none }

-- `get_cpuid_allow_env_override`, with the variable `PERF_CPUID` as it is when it is called.
unfoldable pub get_cpuid_allow_env_override :
    Option Bytes → (PerfCpu → Option Bytes) → PerfCpu → Option Bytes
get_cpuid_allow_env_override (some cpuid) get_cpuid_str cpu = some cpuid
get_cpuid_allow_env_override none get_cpuid_str cpu = get_cpuid_str cpu

-- `strcmp_cpuid_str` of the platform.
module _ (strcmp_cpuid_str : Bytes → Bytes → ℕ) (pmu_events_map : List PmuEventsMap) where
  -- The loop over the entries.
  unfoldable pub search_maps : List PmuEventsMap → Bytes → Option PmuEventsMap
  search_maps [] cpuid = none
  search_maps (map ∷ maps) cpuid =
      let rest = search_maps maps cpuid in
      if strcmp_cpuid_str map.cpuid cpuid == 0 then some map else rest

  -- From the identifier on: the map, and what is kept of the search.
  unfoldable pub search_again :
      Option (Bytes × Option PmuEventsMap)
      → Bytes
      → Option PmuEventsMap × Option (Bytes × Option PmuEventsMap)
  search_again none cpuid = let map = search_maps pmu_events_map cpuid in (map, some (cpuid, map))
  search_again (some (last_cpuid, last_map)) cpuid =
      let map = search_maps pmu_events_map cpuid in
      if streq last_cpuid cpuid
      then (last_map, some (last_cpuid, last_map))
      else (map, some (cpuid, map))

  -- Behind the test of the last result. `get_cpuid` is what the system answers during the call.
  unfoldable pub look_up : (PerfCpu → Option Bytes) → Last → PerfCpu → Option PmuEventsMap × Last
  look_up get_cpuid last cpu = elim (get_cpuid cpu) [
    | none ↦ (none, record last { result = some (cpu, none) })
    | some cpuid ↦
        let (map, search) = search_again last.map_search cpuid in
        (map, record { result = some (cpu, map); map_search = search })
  ]

  unfoldable pub map_for_cpu :
      (PerfCpu → Option Bytes) → Last → PerfCpu → Option PmuEventsMap × Last
  map_for_cpu get_cpuid last cpu = elim last.result [
    | none ↦ look_up get_cpuid last cpu
    | some (last_cpu, last_map) ↦
        if last_cpu == cpu then (last_map, last) else look_up get_cpuid last cpu
  ]
