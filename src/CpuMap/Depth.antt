-- ===== src/CpuMap/Depth.antt =====
-- How deep the calls of `perf_cpu_map__new` and `perf_cpu_map__new_online_cpus` nest.
use pmu_events.Base.{
  ℕ, zero, suc, ◌+◌, ◌-◌, ◌<◌, ◌≤◌, ◌≡◌, refl, ap, inl, inr, Bool, true, false, Option, none, some,
  List, [], ◌∷◌, ◌++◌, Bytes, arith, length, length-append, drop, is_empty, Bool-cases,
  Option-cases,
}
use pmu_events.CpuMap.{
  PerfCpuMap, any_cpu, TmpCpus, parse_end_cpu, parse_entry, add_cpu, add_cpus, parse_entries,
  cpu_map_trim_new,
}
use pmu_events.Libc.Text.{c_string}
use pmu_events.CpuMap.New.{
  CpuSystem, sysfs_read_str, cpu_map_new_sysconf, new_from_entries, new_from_text, online_file,
  new_online_cpus, new_sysfs_online, perf_cpu_map_new, perf_cpu_map_new_any_cpu,
}
use pmu_events.Libc.Number.{starts_with_digit}

-- An entry's CPUs do not end before they start, and are below 32767.
parse_entry-le :
    (s : Bytes) (start_cpu end_cpu : ℕ) (p : Bytes)
    → parse_entry s ≡ some (start_cpu, end_cpu, p)
    → (start_cpu ≤ end_cpu) × (end_cpu < 32767)
unfolding parse_entry parse_end_cpu
parse_entry-le s start_cpu end_cpu p h = ground arith

add_cpu-length :
    (ok : ℕ → Bool) (left start_cpu : ℕ) (tmp out : TmpCpus)
    → add_cpu ok left start_cpu tmp ≡ some out
    → out.cpus ≡ tmp.cpus ++ start_cpu ∷ []
unfolding add_cpu
add_cpu-length ok left start_cpu tmp out h = ground arith

add_cpus-length :
    (ok : ℕ → Bool) (left start_cpu : ℕ) (tmp out : TmpCpus)
    → add_cpus ok left start_cpu tmp ≡ some out
    → length out.cpus ≡ length tmp.cpus + left
unfolding add_cpus
add_cpus-length ok zero start_cpu tmp out h = ground arith
add_cpus-length ok (suc left) start_cpu tmp out h =
    elim (Option-cases (add_cpu ok (suc left) start_cpu tmp)) [
      | inl e ↦ absurd (ground arith)
      | inr (tmp', e) ↦
          let more = add_cpus-length ok left (start_cpu + 1) tmp' out (ground arith) in
          omega (
            arith,
            more,
            ap length (add_cpu-length ok (suc left) start_cpu tmp tmp' e),
            length-append tmp.cpus (start_cpu ∷ []),
          )
    ]

-- A round of the loop over the entries.
pub record Round (ok : ℕ → Bool) (fuel : ℕ) (tmp : TmpCpus) (s : Bytes) (state : TmpCpus × Bytes)
    : Type 0 where
  pub start_cpu : ℕ
  pub end_cpu : ℕ
  pub p : Bytes
  pub next : TmpCpus
  pub entry : parse_entry s ≡ some (start_cpu, end_cpu, p)
  pub added : add_cpus ok (end_cpu + 1 - start_cpu) start_cpu tmp ≡ some next
  pub rest : parse_entries ok fuel next (drop 1 p) ≡ some state

parse_entries-Round :
    (ok : ℕ → Bool) (fuel : ℕ) (tmp : TmpCpus) (s : Bytes) (state : TmpCpus × Bytes)
    → parse_entries ok (suc fuel) tmp s ≡ some state
    → starts_with_digit 10 s ≡ true
    → Round ok fuel tmp s state
unfolding parse_entries
parse_entries-Round ok fuel tmp s state h d = elim (Option-cases (parse_entry s)) [
  | inl e ↦ absurd (ground arith)
  | inr ((a, b, p), e) ↦ elim (Option-cases (add_cpus ok (b + 1 - a) a tmp)) [
    | inl k ↦ absurd (ground arith)
    | inr (next, k) ↦ record {
      start_cpu = a;
      end_cpu = b;
      p = p;
      next = next;
      entry = e;
      added = k;
      rest = rw (parse_entries, d, e, k) at h;
    }
  ]
]

pub parse_entries-end :
    (ok : ℕ → Bool) (fuel : ℕ) (tmp : TmpCpus) (s : Bytes)
    → starts_with_digit 10 s ≡ false
    → parse_entries ok (suc fuel) tmp s ≡ some (tmp, s)
unfolding parse_entries
parse_entries-end ok fuel tmp s d = rw (parse_entries, d) refl

-- The loop over the entries keeps the CPUs, and adds one if the text starts with a digit.
parse_entries-grows :
    (ok : ℕ → Bool) (fuel : ℕ) (tmp : TmpCpus) (s : Bytes) (state : TmpCpus × Bytes)
    → parse_entries ok fuel tmp s ≡ some state
    → (length tmp.cpus ≤ length state.0.cpus)
      × (starts_with_digit 10 s ≡ true → length tmp.cpus < length state.0.cpus)
parse_entries-grows ok zero tmp s state h = absurd (unfold parse_entries in cc)
parse_entries-grows ok (suc fuel) tmp s state h = elim (Bool-cases (starts_with_digit 10 s)) [
  | inr d ↦
      let same : (tmp, s) ≡ state = ground (arith, h, parse_entries-end ok fuel tmp s d) in
      rw (← same) (omega arith, λ e. absurd (cc (d, e)))
  | inl d ↦
      let r = parse_entries-Round ok fuel tmp s state h d in
      let later = (parse_entries-grows ok fuel r.next (drop 1 r.p) state r.rest).0 in
      let grown = add_cpus-length ok (r.end_cpu + 1 - r.start_cpu) r.start_cpu tmp r.next r.added in
      let ordered = (parse_entry-le s r.start_cpu r.end_cpu r.p r.entry).0 in
      (omega arith, λ _. omega arith)
]

is_empty_pos : (xs : List ℕ) → 0 < length xs → is_empty xs ≡ false
is_empty_pos [] h = absurd (omega arith)
is_empty_pos (x ∷ xs) h = refl

module _ (sys : CpuSystem) where
  abbrev no_cpus : TmpCpus
  no_cpus = record { cpus = []; max_entries = 0 }

  -- The branch of `perf_cpu_map__new` that asks for the online CPUs is never taken on a text.
  new_from_text-closed :
      (s : Bytes)
      → (r : Option PerfCpuMap) × ((online : Option (Option PerfCpuMap))
          → new_from_text sys online s ≡ some r)
  unfolding new_from_text new_from_entries
  new_from_text-closed [] = (
    some (any_cpu ∷ []),
    λ online. unfold starts_with_digit parse_entries perf_cpu_map_new_any_cpu in refl,
  )
  new_from_text-closed (c ∷ s) = elim (Bool-cases (starts_with_digit 10 (c ∷ s))) [
    | inr d ↦ (none, λ online. rw d refl)
    | inl d ↦
        elim (Option-cases (parse_entries sys.realloc_ok (length (c ∷ s) + 1) no_cpus (c ∷ s))) [
          | inl e ↦ (none, λ online. rw (d, e) refl)
          | inr (state, e) ↦
              let some_cpu =
                (parse_entries-grows sys.realloc_ok (length (c ∷ s) + 1) no_cpus (c ∷ s) state e).1
                  d in
              (
                cpu_map_trim_new state.0.cpus,
                λ online. rw (d, e, is_empty_pos state.0.cpus some_cpu) refl,
              )
        ]
  ]

  online_closed :
      (r : Option PerfCpuMap) × ((depth : ℕ)
        → new_online_cpus sys (perf_cpu_map_new sys (suc depth)) ≡ some r)
  unfolding new_online_cpus new_sysfs_online perf_cpu_map_new
  online_closed = elim (Option-cases (sysfs_read_str sys online_file)) [
    | inl e ↦ (cpu_map_new_sysconf sys, λ depth. rw (new_online_cpus, new_sysfs_online, e) refl)
    | inr (buf, e) ↦
        let (r, closed) = new_from_text-closed (c_string buf) in
        let again = λ (depth : ℕ). closed (new_online_cpus sys (perf_cpu_map_new sys depth)) in
        elim (Option-cases r) [
          | inl k ↦ (
            cpu_map_new_sysconf sys,
            λ depth.
                rw (new_online_cpus, new_sysfs_online, e, perf_cpu_map_new, again depth, k) refl,
          )
          | inr (cpus, k) ↦ (
            some cpus,
            λ depth.
                rw (new_online_cpus, new_sysfs_online, e, perf_cpu_map_new, again depth, k) refl,
          )
        ]
  ]

  -- The two functions that call each other come to an end: two calls of `perf_cpu_map__new` within
  -- each other are enough, whatever the argument, the files and the memory, and the result does not
  -- depend on how many more are allowed.
  pub perf_cpu_map_new-depth :
      (cpu_list : Option Bytes)
      → (r : Option PerfCpuMap) × ((depth : ℕ)
          → perf_cpu_map_new sys (suc (suc depth)) cpu_list ≡ some r)
  unfolding perf_cpu_map_new
  perf_cpu_map_new-depth none = online_closed
  perf_cpu_map_new-depth (some text) =
      let (r, closed) = new_from_text-closed text in
      (r, λ depth. closed (new_online_cpus sys (perf_cpu_map_new sys (suc depth))))
