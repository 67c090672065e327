-- ===== src/TableMap/Laws.antt =====
-- What `map_for_cpu` keeps between its calls, and what shows of it.
use pmu_events.Base.{
  ℕ, ◌≡◌, refl, ap, ◌∙◌, inl, inr, ◌==◌, ==_iff, if◌then◌else◌, Option, none, some, List, [], ◌∷◌,
  Bytes, Bool-cases, map,
}
use pmu_events.CpuMap.{PerfCpu}
use pmu_events.Libc.Text.{streq, streq_iff}
use pmu_events.TableMap.{
  PmuEventsMap, Last, no_last, search_maps, search_again, look_up, map_for_cpu,
}

-- A call: the CPU, and what the system answers for the identifiers of CPUs while it runs.
pub record Call : Type 0 where
  pub cpu : PerfCpu
  pub get_cpuid : PerfCpu → Option Bytes

-- The identifier that a call goes by, behind a call for this CPU with this identifier: in a run of calls
-- for one CPU, the one that the first of them read.
unfoldable pub identifier_of : Option (PerfCpu × Option Bytes) → Call → Option Bytes
identifier_of none c = c.get_cpuid c.cpu
identifier_of (some (cpu, kept)) c = if cpu == c.cpu then kept else c.get_cpuid c.cpu

unfoldable pub identifiers : Option (PerfCpu × Option Bytes) → List Call → List (Option Bytes)
identifiers front [] = []
identifiers front (c ∷ calls) =
    let id = identifier_of front c in id ∷ identifiers (some (c.cpu, id)) calls

module _ (strcmp_cpuid_str : Bytes → Bytes → ℕ) (pmu_events_map : List PmuEventsMap) where
  -- The table for an identifier, with nothing kept: the first entry that matches.
  unfoldable pub map_of : Option Bytes → Option PmuEventsMap
  map_of none = none
  map_of (some cpuid) = search_maps strcmp_cpuid_str pmu_events_map pmu_events_map cpuid

  abbrev IsSearched : Option (Bytes × Option PmuEventsMap) → Type 0
  IsSearched none = Unit
  IsSearched (some (cpuid, m)) = m ≡ map_of (some cpuid)

  -- The last result is that for the CPU and the identifier of the call in front.
  abbrev IsResult :
      Option (PerfCpu × Option Bytes) → Option (PerfCpu × Option PmuEventsMap) → Type 0
  IsResult none result = result ≡ none
  IsResult (some (cpu, id)) result = result ≡ some (cpu, map_of id)

  abbrev IsCurrent : Option (PerfCpu × Option Bytes) → Last → Type 0
  IsCurrent front last = IsResult front last.result × IsSearched last.map_search

  search_again_lem :
      (kept : Option (Bytes × Option PmuEventsMap)) (cpuid : Bytes)
      → IsSearched kept
      → ((search_again strcmp_cpuid_str pmu_events_map kept cpuid).0 ≡ map_of (some cpuid))
        × IsSearched (search_again strcmp_cpuid_str pmu_events_map kept cpuid).1
  unfolding search_again map_of
  search_again_lem none cpuid h = (refl, refl)
  search_again_lem (some (last_cpuid, m)) cpuid h = elim (Bool-cases (streq last_cpuid cpuid)) [
    | inl e ↦ let same = (streq_iff last_cpuid cpuid).0 e in rw (search_again, e) (rw (← same) h, h)
    | inr e ↦ rw (search_again, e) (refl, refl)
  ]

  -- After a call that read this identifier.
  abbrev Finds : PerfCpu → Option Bytes → Option PmuEventsMap × Last → Type 0
  Finds cpu id r = (r.0 ≡ map_of id) × IsCurrent (some (cpu, id)) r.1

  look_up-from :
      (last : Last) (cpu : PerfCpu) (id : Option Bytes) (get_cpuid : PerfCpu → Option Bytes)
      → get_cpuid cpu ≡ id
      → IsSearched last.map_search
      → Finds cpu id (look_up strcmp_cpuid_str pmu_events_map get_cpuid last cpu)
  unfolding look_up map_of
  look_up-from last cpu none get_cpuid e s = rw (look_up, e) (refl, (refl, s))
  look_up-from last cpu (some cpuid) get_cpuid e s =
      let (found, kept) = search_again_lem last.map_search cpuid s in
      rw (look_up, e) (found, (ap (λ (m : Option PmuEventsMap). some (cpu, m)) found, kept))

  -- The results of calls in a row, the static variables passed from each to the next.
  unfoldable pub results : Last → List Call → List (Option PmuEventsMap)
  results last [] = []
  results last (c ∷ calls) =
      let (found, last') = map_for_cpu strcmp_cpuid_str pmu_events_map c.get_cpuid last c.cpu in
      found ∷ results last' calls

  map_for_cpu-Finds :
      (front : Option (PerfCpu × Option Bytes)) (last : Last) (c : Call)
      → IsCurrent front last
      → Finds c.cpu
          (identifier_of front c)
          (map_for_cpu strcmp_cpuid_str pmu_events_map c.get_cpuid last c.cpu)
  unfolding map_for_cpu identifier_of
  map_for_cpu-Finds none last c (r, s) =
      rw (map_for_cpu, r) (look_up-from last c.cpu (c.get_cpuid c.cpu) c.get_cpuid refl s)
  map_for_cpu-Finds (some (cpu, kept)) last c (r, s) = elim (Bool-cases (cpu == c.cpu)) [
    | inl k ↦
        let same : cpu ≡ c.cpu = (==_iff cpu c.cpu).0 k in
        rw (map_for_cpu, r, k) (refl, (r ∙ ap (λ (p : PerfCpu). some (p, map_of kept)) same, s))
    | inr k ↦
        rw (map_for_cpu, r, k) (look_up-from last c.cpu (c.get_cpuid c.cpu) c.get_cpuid refl s)
  ]

  results_lem :
      (front : Option (PerfCpu × Option Bytes)) (last : Last) (calls : List Call)
      → IsCurrent front last
      → results last calls ≡ map map_of (identifiers front calls)
  unfolding results identifiers
  results_lem front last [] h = refl
  results_lem front last (c ∷ calls) h =
      let (found, current) = map_for_cpu-Finds front last c h in
      rw
        (
          results,
          found,
          results_lem (some (c.cpu, identifier_of front c))
              (map_for_cpu strcmp_cpuid_str pmu_events_map c.get_cpuid last c.cpu).1 calls current,
        )
        refl

  -- In any sequence of calls from the start of the program, whatever the identifiers are at each of
  -- them: each call of `map_for_cpu` returns the first entry of the table that matches an
  -- identifier, and NULL if there is none. In a run of calls for one CPU it is the identifier that
  -- the first of them read, else that of the CPU at the call. The last search, kept between the
  -- calls, never shows.
  pub map_for_cpu-map_of :
      (calls : List Call) → results no_last calls ≡ map map_of (identifiers none calls)
  map_for_cpu-map_of calls = results_lem none no_last calls (refl, tt)
