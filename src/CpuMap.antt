-- ===== src/CpuMap.antt =====
-- `struct perf_cpu_map` of include/pmu-events/aarch64/util.h and the functions that build one.
pub mod Trim
pub mod Order
pub mod New
pub mod Depth
pub mod Rounds
pub mod Add
pub mod RoundTrip
use pmu_events.Base.{
  ℕ, zero, suc, ◌+◌, ◌-◌, ◌^◌, ◌≡◌, refl, Bool, true, false, not, ◌||◌, ◌==◌, ltb, leb,
  if◌then◌else◌, Option, none, some, List, [], ◌∷◌, ◌++◌, Bytes, codes, length, drop, take,
}
use pmu_events.Libc.Number.{strtoull, starts_with_digit}
use pmu_events.Libc.Text.{starts_with}
use pmu_events.Word.{◌>>=◌}

-- `struct perf_cpu`, as the 16 bits of its `int16_t`.
abbrev pub PerfCpu : Type 0
PerfCpu = ℕ

-- -1, which stands for any CPU.
abbrev pub any_cpu : PerfCpu
any_cpu = 2 ^ 16 - 1

-- `nr` is the length.
abbrev pub PerfCpuMap : Type 0
PerfCpuMap = List PerfCpu

abbrev int16_max : ℕ
int16_max = 32767

-- `perf_cpu_map__cpu`
unfoldable pub perf_cpu_map_cpu : Option PerfCpuMap → ℕ → PerfCpu
perf_cpu_map_cpu none idx = any_cpu
perf_cpu_map_cpu (some []) idx = any_cpu
perf_cpu_map_cpu (some (c ∷ cpus)) zero = c
perf_cpu_map_cpu (some (c ∷ cpus)) (suc idx) = perf_cpu_map_cpu (some cpus) idx

-- What may stand behind an entry's last number: the end, a comma or a newline.
unfoldable pub is_entry_end : Bytes → Bool
is_entry_end [] = true
is_entry_end (c ∷ s) = (c == b',') || (c == b'\n')

-- `start_cpu`, `end_cpu` and `p` behind one entry; `none` is a jump to `invalid`.
unfoldable pub parse_end_cpu : ℕ → Bytes → Option (ℕ × ℕ × Bytes)
parse_end_cpu start_cpu cpu_list =
    let last = strtoull 0 cpu_list in
    if leb int16_max last.value || not (is_entry_end last.rest)
    then none
    else if ltb last.value start_cpu
    then none
    else some (start_cpu, last.value, last.rest)

unfoldable pub parse_entry : Bytes → Option (ℕ × ℕ × Bytes)
parse_entry cpu_list =
    let first = strtoull 0 cpu_list in
    if leb int16_max first.value || not (is_entry_end first.rest || starts_with b'-' first.rest)
    then none
    else if starts_with b'-' first.rest
    then parse_end_cpu first.value (drop 1 first.rest)
    else some (first.value, first.value, first.rest)

-- `tmp_cpus` with its `max_entries`; `nr_cpus` is the length.
pub record TmpCpus : Type 0 where
  pub cpus : List ℕ
  pub max_entries : ℕ

unfoldable pub has_cpu : ℕ → List ℕ → Bool
has_cpu n [] = false
has_cpu n (c ∷ cpus) = if c == n then true else has_cpu n cpus

-- How many entries the array grows to.
unfoldable pub grown_entries : ℕ → ℕ → ℕ
grown_entries left max_entries = if ltb 16 left then max_entries + left else max_entries + 16

module _ (realloc_ok : ℕ → Bool) where
  -- One round of the loop over an entry's CPUs, `left` of them with this one.
  unfoldable pub add_cpu : ℕ → ℕ → TmpCpus → Option TmpCpus
  add_cpu left start_cpu tmp =
      let max_entries = grown_entries left tmp.max_entries in
      if has_cpu start_cpu tmp.cpus
      then none
      else if length tmp.cpus == tmp.max_entries
      then (if realloc_ok max_entries
          then some (record { cpus = tmp.cpus ++ start_cpu ∷ []; max_entries = max_entries })
          else none)
      else some (record tmp { cpus = tmp.cpus ++ start_cpu ∷ [] })

  unfoldable pub add_cpus : ℕ → ℕ → TmpCpus → Option TmpCpus
  add_cpus zero start_cpu tmp = some tmp
  add_cpus (suc left) start_cpu tmp = do
    tmp' ← add_cpu (suc left) start_cpu tmp
    add_cpus left (start_cpu + 1) tmp'

  -- The loop over the entries, with fuel for the text; what it leaves of the text is returned too.
  unfoldable pub parse_entries : ℕ → TmpCpus → Bytes → Option (TmpCpus × Bytes)
  parse_entries zero tmp cpu_list = none
  parse_entries (suc fuel) tmp cpu_list =
      if starts_with_digit 10 cpu_list
      then (do
        (start_cpu, end_cpu, p) ← parse_entry cpu_list
        tmp' ← add_cpus (end_cpu + 1 - start_cpu) start_cpu tmp
        parse_entries fuel tmp' (drop 1 p))
      else some (tmp, cpu_list)

-- `cmp_cpu` on two entries, in which no -1 occurs here: whether the first comes first.
unfoldable pub cmp_cpu : ℕ → ℕ → Bool
cmp_cpu a b = leb a b

-- `qsort` with it.
unfoldable pub insert_cpu : ℕ → List ℕ → List ℕ
insert_cpu n [] = n ∷ []
insert_cpu n (c ∷ cpus) = if cmp_cpu n c then n ∷ c ∷ cpus else c ∷ insert_cpu n cpus

unfoldable pub qsort_cpus : List ℕ → List ℕ
qsort_cpus [] = []
qsort_cpus (c ∷ cpus) = insert_cpu c (qsort_cpus cpus)

-- `map[i]`, and 0 outside.
unfoldable pub cpu_at : ℕ → List ℕ → ℕ
cpu_at i [] = 0
cpu_at zero (c ∷ cpus) = c
cpu_at (suc i) (c ∷ cpus) = cpu_at i cpus

-- `map[j] = n`
unfoldable pub set_cpu : ℕ → ℕ → List ℕ → List ℕ
set_cpu j n [] = []
set_cpu zero n (c ∷ cpus) = n ∷ cpus
set_cpu (suc j) n (c ∷ cpus) = c ∷ set_cpu j n cpus

-- One round of the loop that removes duplicates in place: `j` and the array.
unfoldable pub trim_round : ℕ → ℕ × List ℕ → ℕ × List ℕ
trim_round i (j, cpus) =
    if (i == 0) || not (cpu_at i cpus == cpu_at (i - 1) cpus)
    then (j + 1, set_cpu j (cpu_at i cpus) cpus)
    else (j, cpus)

-- The rounds from `i` on, `left` of them.
unfoldable pub trim_loop : ℕ → ℕ → ℕ × List ℕ → ℕ × List ℕ
trim_loop zero i state = state
trim_loop (suc left) i state = trim_loop left (i + 1) (trim_round i state)

-- The copy is sorted and trimmed, and `nr` becomes `j`.
unfoldable pub trimmed : List ℕ → List ℕ
trimmed tmp_cpus =
    let (j, cpus) = trim_loop (length tmp_cpus) 0 (0, qsort_cpus tmp_cpus) in take j cpus

-- `perf_cpu_map__alloc` gives NULL for no entries.
unfoldable pub cpu_map_trim_new : List ℕ → Option PerfCpuMap
cpu_map_trim_new [] = none
cpu_map_trim_new (c ∷ cpus) = some (trimmed (c ∷ cpus))
