-- ===== src/CpuMap/RoundTrip.antt =====
-- Lists of CPUs as the kernel writes them, through `perf_cpu_map__new`.
use pmu_events.Apply.Field.{within}
use pmu_events.Apply.Gather.{Disjoint}
use pmu_events.Base.{
  ℕ, zero, suc, ◌+◌, ◌-◌, ◌<◌, ◌≤◌, ◌≡◌, refl, ◌∙◌, inl, inr, Bool, true, false, ◌&&◌, ◌||◌, ltb,
  leb, Option, some, List, [], ◌∷◌, ◌++◌, Bytes, arith, All, length, length-append, append_assoc,
  ◌==◌, drop, is_empty, Bool-cases,
}
use pmu_events.CpuMap.Add.{
  IsEntry, IsBehind, comma, newline, parse_entry-print_range, IsAdded, add_cpus-IsAdded,
}
use pmu_events.CpuMap.New.{CpuSystem, new_from_text, new_from_entries, perf_cpu_map_new}
use pmu_events.CpuMap.Order.{IsAscending, cpu_map_trim_new-IsMapOf}
use pmu_events.CpuMap.{PerfCpuMap, TmpCpus, add_cpus, parse_entries, has_cpu, cpu_map_trim_new}
use pmu_events.CpuMap.Depth.{parse_entries-end}
use pmu_events.Libc.Number.{starts_with_digit}
use pmu_events.Libc.Print.{print, starts_with_digit-print}
use pmu_events.Range.Print.{print_range}
use pmu_events.Range.{Range, RangeList, in_range_list}

-- The ranges as the kernel writes them to a file: commas between, a newline at the end.
unfoldable pub cpulist : Range → RangeList → Bytes
cpulist r [] = print_range r ++ b'\n' ∷ []
cpulist r (q ∷ ranges) = print_range r ++ b',' ∷ cpulist q ranges

-- Ranges of CPUs, no two of which overlap.
abbrev pub AreEntries : RangeList → Type 0
AreEntries [] = Unit
AreEntries (r ∷ ranges) = IsEntry r × All (Disjoint r) ranges × AreEntries ranges

print_range-digit : (r : Range) (t : Bytes) → starts_with_digit 10 (print_range r ++ t) ≡ true
unfolding print_range
print_range-digit r t = elim (Bool-cases (r.start == r.end)) [
  | inl e ↦ rw e (starts_with_digit-print 10 r.start t (omega arith) (omega arith))
  | inr e ↦ rw e (
      rw (append_assoc (print 10 r.start) (b'-' ∷ print 10 r.end) t) (
        starts_with_digit-print 10 r.start (b'-' ∷ (print 10 r.end ++ t)) (omega arith)
          (omega arith)))
]

-- No CPU of the ranges is there yet.
abbrev AreNew : TmpCpus → RangeList → Type 0
AreNew tmp ranges = (n : ℕ) → in_range_list n ranges ≡ true → has_cpu n tmp.cpus ≡ false

Disjoint-outside :
    (r : Range) (ranges : RangeList) (n : ℕ)
    → All (Disjoint r) ranges
    → in_range_list n ranges ≡ true
    → within r n ≡ false
unfolding in_range_list
Disjoint-outside r [] n d h = cc
Disjoint-outside r (q ∷ ranges) n (d, ds) h = elim (Bool-cases (within q n)) [
  | inl e ↦ ground arith
  | inr e ↦ Disjoint-outside r ranges n ds (rw e at h)
]

in_range_list-cons :
    (n : ℕ) (r : Range) (ranges : RangeList)
    → in_range_list n (r ∷ ranges) ≡ (within r n || in_range_list n ranges)
unfolding in_range_list
in_range_list-cons n r ranges = ground arith

-- All CPUs of the ranges were added, and the whole text was read.
record IsParsed (tmp : TmpCpus) (ranges : RangeList) (result : Option (TmpCpus × Bytes))
    : Type 0 where
  out : TmpCpus
  returns : result ≡ some (out, [])
  holds : (n : ℕ) → has_cpu n out.cpus ≡ (has_cpu n tmp.cpus || in_range_list n ranges)

module _ (ok : ℕ → Bool) (mem : (n : ℕ) → ok n ≡ true) where
  add_range :
      (r : Range) (tmp : TmpCpus)
      → IsEntry r
      → ((n : ℕ) → within r n ≡ true → has_cpu n tmp.cpus ≡ false)
      → IsAdded r.start (r.end + 1 - r.start) tmp (add_cpus ok (r.end + 1 - r.start) r.start tmp)
  add_range r tmp f new =
      add_cpus-IsAdded ok mem (r.end + 1 - r.start) r.start tmp
        (λ n low high. new n (ground (arith, f.ordered)))

  round :
      (fuel : ℕ) (r : Range) (t : Bytes) (tmp : TmpCpus) {out : TmpCpus}
      → IsEntry r
      → IsBehind t
      → add_cpus ok (r.end + 1 - r.start) r.start tmp ≡ some out
      → parse_entries ok (suc fuel) tmp (print_range r ++ t) ≡ parse_entries ok fuel out (drop 1 t)
  unfolding parse_entries
  round fuel r t tmp f b e =
      rw (parse_entries, print_range-digit r t, parse_entry-print_range r t f b, e) refl

  holds_range :
      (r : Range) (tmp out : TmpCpus) (n : ℕ)
      → r.start ≤ r.end
      → has_cpu n out.cpus
        ≡ (has_cpu n tmp.cpus || (leb r.start n && ltb n (r.start + (r.end + 1 - r.start))))
      → has_cpu n out.cpus ≡ (has_cpu n tmp.cpus || within r n)
  holds_range r tmp out n le h = h ∙ ground arith

  still_new :
      (r : Range) (ranges : RangeList) (tmp out : TmpCpus)
      → All (Disjoint r) ranges
      → AreNew tmp (r ∷ ranges)
      → ((n : ℕ) → has_cpu n out.cpus ≡ (has_cpu n tmp.cpus || within r n))
      → AreNew out ranges
  still_new r ranges tmp out d new holds n h =
      holds n
      ∙ ground (arith, new n, in_range_list-cons n r ranges, Disjoint-outside r ranges n d h)

  parse_entries-cpulist :
      (ranges : RangeList) (r : Range) (fuel : ℕ) (tmp : TmpCpus)
      → AreEntries (r ∷ ranges)
      → AreNew tmp (r ∷ ranges)
      → length ranges < fuel
      → IsParsed tmp (r ∷ ranges) (parse_entries ok (suc fuel) tmp (cpulist r ranges))
  unfolding cpulist
  parse_entries-cpulist ranges r zero tmp f new h = absurd (omega arith)
  parse_entries-cpulist [] r (suc fuel) tmp (f, d, fs) new h =
      let a = add_range r tmp f (λ n w. new n (ground (arith, in_range_list-cons n r []))) in
      rw
        (
          round (suc fuel) r (b'\n' ∷ []) tmp f (newline []) a.returns,
          parse_entries-end ok fuel a.out [] (unfold starts_with_digit in refl),
        )
        (record {
          out = a.out;
          returns = refl;
          holds = λ n.
              holds_range r tmp a.out n f.ordered (a.holds n)
              ∙ (rw (in_range_list-cons n r []) (unfold in_range_list in ground arith));
        })
  parse_entries-cpulist (q ∷ ranges) r (suc fuel) tmp (f, d, fs) new h =
      let a =
        add_range r tmp f (λ n w. new n (ground (arith, in_range_list-cons n r (q ∷ ranges)))) in
      let holds : (n : ℕ) → has_cpu n a.out.cpus ≡ (has_cpu n tmp.cpus || within r n) =
        λ n. holds_range r tmp a.out n f.ordered (a.holds n) in
      let rest =
        parse_entries-cpulist ranges q fuel a.out fs
          (still_new r (q ∷ ranges) tmp a.out d new holds) (omega arith) in
      rw (round (suc fuel) r (b',' ∷ cpulist q ranges) tmp f (comma (cpulist q ranges)) a.returns)
        (record {
          out = rest.out;
          returns = rest.returns;
          holds = λ n. ground (arith, rest.holds n, holds n, in_range_list-cons n r (q ∷ ranges));
        })

cpulist-digit : (ranges : RangeList) (r : Range) → starts_with_digit 10 (cpulist r ranges) ≡ true
unfolding cpulist
cpulist-digit [] r = print_range-digit r (b'\n' ∷ [])
cpulist-digit (q ∷ ranges) r = print_range-digit r (b',' ∷ cpulist q ranges)

length-cpulist : (ranges : RangeList) (r : Range) → length ranges < length (cpulist r ranges)
unfolding cpulist
length-cpulist [] r = omega (arith, length-append (print_range r) (b'\n' ∷ []))
length-cpulist (q ∷ ranges) r =
    omega (arith, length-append (print_range r) (b',' ∷ cpulist q ranges), length-cpulist ranges q)

-- The map holds exactly the CPUs of the ranges, each of them once and in ascending order.
pub record IsMapOfRanges (ranges : RangeList) (result : Option PerfCpuMap) : Type 0 where
  pub cpus : List ℕ
  pub returns : result ≡ some cpus
  pub ascending : IsAscending cpus
  pub same_cpus : (n : ℕ) → has_cpu n cpus ≡ in_range_list n ranges

IsMapOfRanges-trim :
    (r : Range) (ranges : RangeList) (tmp_cpus : List ℕ)
    → r.start ≤ r.end
    → ((n : ℕ) → has_cpu n tmp_cpus ≡ in_range_list n (r ∷ ranges))
    → (is_empty tmp_cpus ≡ false) × IsMapOfRanges (r ∷ ranges) (cpu_map_trim_new tmp_cpus)
IsMapOfRanges-trim r ranges [] le h =
    let first : in_range_list r.start (r ∷ ranges) ≡ true = unfold in_range_list in ground arith in
    absurd (cc (first, h r.start, no_cpu r.start))
  where
    no_cpu : (n : ℕ) → has_cpu n [] ≡ false
    no_cpu n = unfold has_cpu in refl
IsMapOfRanges-trim r ranges (c ∷ tmp_cpus) le h =
    let m = cpu_map_trim_new-IsMapOf c tmp_cpus in
    (
      refl,
      record {
        cpus = m.cpus;
        returns = m.returns;
        ascending = m.ascending;
        same_cpus = λ n. m.same_cpus n ∙ h n;
      },
    )

-- With memory for all, a list of CPUs as the kernel writes it, of ranges below 32767 that do not
-- overlap, gives a map that holds exactly the CPUs of the ranges, each once and in ascending order.
pub perf_cpu_map_new-cpulist :
    (sys : CpuSystem) (depth : ℕ) (r : Range) (ranges : RangeList)
    → ((n : ℕ) → sys.realloc_ok n ≡ true)
    → AreEntries (r ∷ ranges)
    → (result : Option PerfCpuMap) × (perf_cpu_map_new sys (suc depth) (some (cpulist r ranges))
        ≡ some result)
      × IsMapOfRanges (r ∷ ranges) result
unfolding perf_cpu_map_new new_from_text new_from_entries
perf_cpu_map_new-cpulist sys depth r ranges mem f =
    let text = cpulist r ranges in
    let p =
      parse_entries-cpulist sys.realloc_ok mem ranges r (length text)
        (record { cpus = []; max_entries = 0 }) f (λ n h. unfold has_cpu in refl)
        (length-cpulist ranges r) in
    let (filled, m) =
      IsMapOfRanges-trim r ranges p.out.cpus f.0.ordered
        (λ n. p.holds n ∙ (unfold has_cpu in refl)) in
    let fuel : length text + 1 ≡ suc (length text) = omega arith in
    (cpu_map_trim_new p.out.cpus, rw (cpulist-digit ranges r, fuel, p.returns, filled) refl, m)
