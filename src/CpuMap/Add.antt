-- ===== src/CpuMap/Add.antt =====
-- Entries of a list of CPUs in `perf_cpu_map__new`: parsing one, and adding its CPUs.
use pmu_events.Base.{
  ℕ, zero, suc, ◌+◌, ◌<◌, ◌≤◌, ◌≡◌, refl, ap, ◌∙◌, inl, inr, Bool, true, false, ◌&&◌, ◌||◌, ◌==◌,
  ==_iff, ltb, leb, Option, some, List, [], ◌∷◌, ◌++◌, Bytes, arith, length, append_assoc,
  Bool-cases,
}
use pmu_events.CpuMap.{
  TmpCpus, parse_end_cpu, parse_entry, add_cpu, add_cpus, has_cpu, is_entry_end, grown_entries,
}
use pmu_events.Libc.Number.Prefix.{IsStop}
use pmu_events.Libc.Print.{print}
use pmu_events.Libc.Print.Prefix.{strtoull-print_auto}
use pmu_events.Libc.Text.{starts_with}
use pmu_events.Range.Print.{print_range}
use pmu_events.Range.{Range}

-- A range that an entry may be.
pub record IsEntry (r : Range) : Type 0 where
  pub ordered : r.start ≤ r.end
  pub small : r.end < 32767

-- What stands behind an entry: a comma or a newline, and more.
pub data IsBehind : Bytes → Type 0 where
  comma : (s : Bytes) → IsBehind (b',' ∷ s)
  newline : (s : Bytes) → IsBehind (b'\n' ∷ s)

IsBehind-ends :
    {t : Bytes} → IsBehind t → (is_entry_end t ≡ true) × (starts_with b'-' t ≡ false) × IsStop t
unfolding is_entry_end starts_with
IsBehind-ends (comma s) = (refl, refl, omega arith)
IsBehind-ends (newline s) = (refl, refl, omega arith)

parse_entry_single :
    (a : ℕ) (t : Bytes) → a < 32767 → IsBehind t → parse_entry (print 10 a ++ t) ≡ some (a, a, t)
unfolding parse_entry
parse_entry_single a t h b =
    let (ends, no_minus, stop) = IsBehind-ends b in
    rw (parse_entry, strtoull-print_auto a t (omega arith) stop) (ground arith)

parse_entry_pair :
    (a b : ℕ) (t : Bytes)
    → a ≤ b
    → b < 32767
    → IsBehind t
    → parse_entry (print 10 a ++ b'-' ∷ (print 10 b ++ t)) ≡ some (a, b, t)
unfolding parse_entry parse_end_cpu starts_with
parse_entry_pair a b t le h behind =
    let (ends, no_minus, stop) = IsBehind-ends behind in
    rw
      (
        parse_entry,
        strtoull-print_auto a (b'-' ∷ (print 10 b ++ t)) (omega arith) (omega arith),
        strtoull-print_auto b t (omega arith) stop,
      )
      (ground arith)

-- A printed range is parsed back.
pub parse_entry-print_range :
    (r : Range) (t : Bytes)
    → IsEntry r
    → IsBehind t
    → parse_entry (print_range r ++ t) ≡ some (r.start, r.end, t)
unfolding print_range
parse_entry-print_range r t f b = elim (Bool-cases (r.start == r.end)) [
  | inl e ↦
      let same : r.start ≡ r.end = (==_iff r.start r.end).0 e in
      rw e (
        parse_entry_single r.start t (omega (arith, f.ordered, f.small)) b
        ∙ ap (λ (m : ℕ). some (r.start, m, t)) same)
  | inr e ↦ rw e (
      rw (append_assoc (print 10 r.start) (b'-' ∷ print 10 r.end) t)
        (parse_entry_pair r.start r.end t f.ordered f.small b))
]

has_cpu-append : (n : ℕ) (xs ys : List ℕ) → has_cpu n (xs ++ ys) ≡ (has_cpu n xs || has_cpu n ys)
unfolding has_cpu
has_cpu-append n [] ys = refl
has_cpu-append n (x ∷ xs) ys = ground (arith, has_cpu-append n xs ys)

-- The CPUs of one entry were added.
pub record IsAdded (start_cpu left : ℕ) (tmp : TmpCpus) (result : Option TmpCpus) : Type 0 where
  pub out : TmpCpus
  pub returns : result ≡ some out
  pub holds :
      (n : ℕ)
      → has_cpu n out.cpus ≡ (has_cpu n tmp.cpus || (leb start_cpu n && ltb n (start_cpu + left)))

module _ (ok : ℕ → Bool) (mem : (n : ℕ) → ok n ≡ true) where
  add_cpu_new :
      (left start_cpu : ℕ) (tmp : TmpCpus)
      → has_cpu start_cpu tmp.cpus ≡ false
      → (out : TmpCpus) × (add_cpu ok left start_cpu tmp ≡ some out)
        × (out.cpus ≡ tmp.cpus ++ start_cpu ∷ [])
  unfolding add_cpu
  add_cpu_new left start_cpu tmp h = elim (Bool-cases (length tmp.cpus == tmp.max_entries)) [
    | inl e ↦ (
      record {
        cpus = tmp.cpus ++ start_cpu ∷ [];
        max_entries = grown_entries left tmp.max_entries;
      },
      rw (add_cpu, h, e, mem (grown_entries left tmp.max_entries)) refl,
      refl,
    )
    | inr e ↦ (record tmp { cpus = tmp.cpus ++ start_cpu ∷ [] }, rw (add_cpu, h, e) refl, refl)
  ]

  -- New CPUs are added, all of them.
  pub add_cpus-IsAdded :
      (left start_cpu : ℕ) (tmp : TmpCpus)
      → ((n : ℕ) → start_cpu ≤ n → n < start_cpu + left → has_cpu n tmp.cpus ≡ false)
      → IsAdded start_cpu left tmp (add_cpus ok left start_cpu tmp)
  unfolding add_cpus
  add_cpus-IsAdded zero start_cpu tmp h = record {
    out = tmp;
    returns = refl;
    holds = λ n. ground arith;
  }
  add_cpus-IsAdded (suc left) start_cpu tmp h =
      let (tmp', e, appended) =
        add_cpu_new (suc left) start_cpu tmp (h start_cpu (omega arith) (omega arith)) in
      let one : (n : ℕ) → has_cpu n tmp'.cpus ≡ (has_cpu n tmp.cpus || (start_cpu == n)) = λ n.
        rw appended
          (has_cpu-append n tmp.cpus (start_cpu ∷ []) ∙ (unfold has_cpu in ground arith)) in
      let rest =
        add_cpus-IsAdded left (start_cpu + 1) tmp'
          (λ n low high. one n ∙ rw (h n (omega arith) (omega arith)) (ground arith)) in
      record {
        out = rest.out;
        returns = rw (add_cpus, e) rest.returns;
        holds = λ n. ground (arith, rest.holds n, one n);
      }
