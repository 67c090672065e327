-- ===== src/Event/Laws.antt =====
-- What `get_event_by_name` finds.
use pmu_events.Base.{
  ℕ, ◌≡◌, refl, ◌≢◌, ◌↔◌, none, some, List, [], ◌∷◌, Bytes, if◌then◌else◌, arith, Option-cases,
  Bool-cases, inl, inr, ap, ◌∙◌, All,
}
use pmu_events.Event.{found, missing, crashed, search_entries, get_event_by_name}
use pmu_events.Libc.Text.{streq, streq_iff}
use pmu_events.Pmu.{PmuEvent, CompactPmuEvent, PmuInstance}

module _ (decompress_event : ℕ → PmuEvent) (ev : Bytes) where
  -- The entry has a name, and it is another.
  abbrev pub HasOtherName : CompactPmuEvent → Type 0
  HasOtherName entry =
      (name : Bytes) × ((decompress_event entry.offset).name ≡ some name) × (name ≢ ev)

  -- `pmu_ev` has the name, and no entry in front of it does.
  pub data FirstNamed (pmu_ev : PmuEvent) : List CompactPmuEvent → Type 0 where
    here :
        {entry : CompactPmuEvent} {entries : List CompactPmuEvent}
        → decompress_event entry.offset ≡ pmu_ev
        → pmu_ev.name ≡ some ev
        → FirstNamed pmu_ev (entry ∷ entries)
    there :
        {entry : CompactPmuEvent} {entries : List CompactPmuEvent}
        → HasOtherName entry
        → FirstNamed pmu_ev entries
        → FirstNamed pmu_ev (entry ∷ entries)

  search_entries_named :
      (entry : CompactPmuEvent) (entries : List CompactPmuEvent) (name : Bytes)
      → (decompress_event entry.offset).name ≡ some name
      → search_entries decompress_event ev (entry ∷ entries) ≡ (
          if streq name ev
          then found (decompress_event entry.offset)
          else search_entries decompress_event ev entries)
  unfolding search_entries
  search_entries_named entry entries name e = ground arith

  search_entries_null :
      (entry : CompactPmuEvent) (entries : List CompactPmuEvent)
      → (decompress_event entry.offset).name ≡ none
      → search_entries decompress_event ev (entry ∷ entries) ≡ crashed
  unfolding search_entries
  search_entries_null entry entries e = ground arith

  search_entries_other :
      (entry : CompactPmuEvent) (entries : List CompactPmuEvent)
      → HasOtherName entry
      → search_entries decompress_event ev (entry ∷ entries)
        ≡ search_entries decompress_event ev entries
  search_entries_other entry entries (name, e, ne) =
      rw (search_entries_named entry entries name e) (ground (arith, streq_iff name ev))

  search_entries_complete :
      {pmu_ev : PmuEvent} {entries : List CompactPmuEvent}
      → FirstNamed pmu_ev entries
      → search_entries decompress_event ev entries ≡ found pmu_ev
  search_entries_complete (here {entry} {entries} e named) =
      rw (search_entries_named entry entries ev (ap (λ (p : PmuEvent). p.name) e ∙ named))
        (rw ((streq_iff ev ev).1 refl) (ap found e))
  search_entries_complete (there {entry} {entries} other rest) =
      rw (search_entries_other entry entries other) (search_entries_complete rest)

  search_entries_sound :
      (pmu_ev : PmuEvent) (entries : List CompactPmuEvent)
      → search_entries decompress_event ev entries ≡ found pmu_ev
      → FirstNamed pmu_ev entries
  search_entries_sound pmu_ev [] h = unfold search_entries in cc
  search_entries_sound pmu_ev (entry ∷ entries) h =
      elim (Option-cases (decompress_event entry.offset).name) [
        | inl e ↦ absurd (cc (h, search_entries_null entry entries e))
        | inr (name, e) ↦ elim (Bool-cases (streq name ev)) [
          | inl k ↦
              let same : decompress_event entry.offset ≡ pmu_ev =
                ground (arith, h, search_entries_named entry entries name e) in
              here same (rw (← same) (e ∙ ap some ((streq_iff name ev).0 k)))
          | inr k ↦
              let other : HasOtherName entry =
                (name, e, λ q. absurd (ground (arith, streq_iff name ev))) in
              there other (
                search_entries_sound pmu_ev entries
                  (rw (search_entries_other entry entries other) at h))
        ]
      ]

  -- An event is found exactly if it is the event of that name whose entry comes first, and every
  -- entry in front of it has another name.
  pub get_event_by_name-found_iff :
      (pmu_instance : PmuInstance) (pmu_ev : PmuEvent)
      → (get_event_by_name decompress_event pmu_instance ev ≡ found pmu_ev)
        ↔ FirstNamed pmu_ev pmu_instance.entries
  unfolding get_event_by_name
  get_event_by_name-found_iff pmu_instance pmu_ev =
      (search_entries_sound pmu_ev pmu_instance.entries, search_entries_complete)

  missing_complete :
      (entries : List CompactPmuEvent)
      → All HasOtherName entries
      → search_entries decompress_event ev entries ≡ missing
  missing_complete [] h = unfold search_entries in refl
  missing_complete (entry ∷ entries) (other, rest) =
      rw (search_entries_other entry entries other) (missing_complete entries rest)

  missing_sound :
      (entries : List CompactPmuEvent)
      → search_entries decompress_event ev entries ≡ missing
      → All HasOtherName entries
  missing_sound [] h = tt
  missing_sound (entry ∷ entries) h = elim (Option-cases (decompress_event entry.offset).name) [
    | inl e ↦ absurd (cc (h, search_entries_null entry entries e))
    | inr (name, e) ↦ elim (Bool-cases (streq name ev)) [
      | inl k ↦ absurd (ground (arith, h, search_entries_named entry entries name e))
      | inr k ↦
          let other : HasOtherName entry =
            (name, e, λ q. absurd (ground (arith, streq_iff name ev))) in
          (other, missing_sound entries (rw (search_entries_other entry entries other) at h))
    ]
  ]

  -- The search fails exactly if every entry has another name.
  get_event_by_name-missing_iff :
      (pmu_instance : PmuInstance)
      → (get_event_by_name decompress_event pmu_instance ev ≡ missing)
        ↔ All HasOtherName pmu_instance.entries
  unfolding get_event_by_name
  get_event_by_name-missing_iff pmu_instance =
      (missing_sound pmu_instance.entries, missing_complete pmu_instance.entries)
