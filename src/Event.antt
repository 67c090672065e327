-- ===== src/Event.antt =====
-- `get_event_by_name` of src/pmu-events.c. `decompress_event` is in the generated file: a parameter.
pub mod Laws
use pmu_events.Base.{ℕ, Option, none, some, List, [], ◌∷◌, Bytes, if◌then◌else◌}
use pmu_events.Libc.Text.{streq}
use pmu_events.Pmu.{PmuEvent, CompactPmuEvent, PmuInstance}

-- `found` is 0 with the event in `pmu_ev`, `missing` is -1; a name that is NULL crashes `strcmp`.
pub data Search : Type 0 where
  found : PmuEvent → Search
  missing crashed : Search

module _ (decompress_event : ℕ → PmuEvent) where
  unfoldable pub search_entries : Bytes → List CompactPmuEvent → Search
  search_entries ev [] = missing
  search_entries ev (entry ∷ entries) =
      let pmu_ev = decompress_event entry.offset in
      let rest = search_entries ev entries in
      elim pmu_ev.name [ none ↦ crashed | some name ↦ if streq name ev then found pmu_ev else rest ]

  unfoldable pub get_event_by_name : PmuInstance → Bytes → Search
  unfolding search_entries
  get_event_by_name pmu_instance ev = search_entries ev pmu_instance.entries
