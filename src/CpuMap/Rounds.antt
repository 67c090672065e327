-- ===== src/CpuMap/Rounds.antt =====
-- The loop over the entries of a list of CPUs, as rounds that follow each other: it ends.
use pmu_events.Base.{
  ℕ, zero, suc, ◌+◌, ◌-◌, ◌<◌, ◌≤◌, ◌≡◌, ap, inl, inr, Bool, true, false, Option, none, some, [],
  ◌∷◌, Bytes, arith, length, drop, Option-cases, Bool-cases,
}
use pmu_events.CpuMap.{TmpCpus, parse_end_cpu, parse_entry, add_cpus, parse_entries}
use pmu_events.Libc.Number.Rest.{strtoull-le, strtoull_auto-lt}
use pmu_events.Libc.Number.{strtoull, starts_with_digit}
use pmu_events.Libc.Text.{starts_with}

drop-le : (s : Bytes) → length (drop 1 s) ≤ length s
drop-le [] = omega arith
drop-le (c ∷ s) = omega arith

parse_end_cpu-rest :
    (start : ℕ) (s : Bytes) (start_cpu end_cpu : ℕ) (p : Bytes)
    → parse_end_cpu start s ≡ some (start_cpu, end_cpu, p)
    → p ≡ (strtoull 0 s).rest
unfolding parse_end_cpu
parse_end_cpu-rest start s start_cpu end_cpu p h = ground arith

-- An entry that is accepted is not empty.
parse_entry-lt :
    (s : Bytes) (start_cpu end_cpu : ℕ) (p : Bytes)
    → starts_with_digit 10 s ≡ true
    → parse_entry s ≡ some (start_cpu, end_cpu, p)
    → length p < length s
unfolding parse_entry
parse_entry-lt s start_cpu end_cpu p d h =
    let rest = (strtoull 0 s).rest in
    let shorter = strtoull_auto-lt s d in
    elim (Bool-cases (starts_with b'-' rest)) [
      | inl e ↦
          let last : parse_end_cpu (strtoull 0 s).value (drop 1 rest)
              ≡ some (start_cpu, end_cpu, p) =
            ground arith in
          let same =
            parse_end_cpu-rest (strtoull 0 s).value (drop 1 rest) start_cpu end_cpu p last in
          omega (arith, ap length same, strtoull-le 0 (drop 1 rest), drop-le rest, shorter)
      | inr e ↦ let same : p ≡ rest = ground arith in omega (arith, ap length same, shorter)
    ]

-- The rounds from `tmp_cpus` and a text on, one behind the other, to the loop's outcome: what it
-- leaves when no digit stands in front, or a jump to `invalid`, from the entry or from its CPUs.
pub data Rounds (realloc_ok : ℕ → Bool) : TmpCpus → Bytes → Option (TmpCpus × Bytes) → Type 0 where
  ends :
      {tmp : TmpCpus} {cpu_list : Bytes}
      → starts_with_digit 10 cpu_list ≡ false
      → Rounds realloc_ok tmp cpu_list (some (tmp, cpu_list))
  invalid_entry :
      {tmp : TmpCpus} {cpu_list : Bytes}
      → starts_with_digit 10 cpu_list ≡ true
      → parse_entry cpu_list ≡ none
      → Rounds realloc_ok tmp cpu_list none
  invalid_cpus :
      {tmp : TmpCpus} {cpu_list p : Bytes} {start_cpu end_cpu : ℕ}
      → starts_with_digit 10 cpu_list ≡ true
      → parse_entry cpu_list ≡ some (start_cpu, end_cpu, p)
      → add_cpus realloc_ok (end_cpu + 1 - start_cpu) start_cpu tmp ≡ none
      → Rounds realloc_ok tmp cpu_list none
  round :
      {tmp tmp' : TmpCpus} {cpu_list p : Bytes} {start_cpu end_cpu : ℕ}
      {outcome : Option (TmpCpus × Bytes)}
      → starts_with_digit 10 cpu_list ≡ true
      → parse_entry cpu_list ≡ some (start_cpu, end_cpu, p)
      → add_cpus realloc_ok (end_cpu + 1 - start_cpu) start_cpu tmp ≡ some tmp'
      → length (drop 1 p) < length cpu_list
      → Rounds realloc_ok tmp' (drop 1 p) outcome
      → Rounds realloc_ok tmp cpu_list outcome

-- The loop ends on every text, however far the array grows: with more fuel than the text has bytes,
-- what is returned is the outcome of rounds one behind the other, each of which leaves a shorter
-- text. A failure is that of an entry or of its CPUs, never the end of the fuel.
pub parse_entries-Rounds :
    (realloc_ok : ℕ → Bool) (fuel : ℕ) (tmp : TmpCpus) (cpu_list : Bytes)
    → length cpu_list < fuel
    → Rounds realloc_ok tmp cpu_list (parse_entries realloc_ok fuel tmp cpu_list)
unfolding parse_entries
parse_entries-Rounds realloc_ok zero tmp cpu_list h = absurd (omega arith)
parse_entries-Rounds realloc_ok (suc fuel) tmp cpu_list h =
    elim (Bool-cases (starts_with_digit 10 cpu_list)) [
      | inr d ↦ rw (parse_entries, d) (ends d)
      | inl d ↦ elim (Option-cases (parse_entry cpu_list)) [
        | inl e ↦ rw (parse_entries, d, e) (invalid_entry d e)
        | inr ((a, b, p), e) ↦ elim (Option-cases (add_cpus realloc_ok (b + 1 - a) a tmp)) [
          | inl k ↦ rw (parse_entries, d, e, k) (invalid_cpus d e k)
          | inr (next, k) ↦
              let shorter : length (drop 1 p) < length cpu_list =
                omega (arith, drop-le p, parse_entry-lt cpu_list a b p d e) in
              rw (parse_entries, d, e, k)
                (round d e k shorter
                  (parse_entries-Rounds realloc_ok fuel next (drop 1 p) (omega (arith, shorter))))
        ]
      ]
    ]
