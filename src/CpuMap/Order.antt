-- ===== src/CpuMap/Order.antt =====
-- The order of the CPUs in a map that `cpu_map__trim_new` returns, and which CPUs it holds.
use pmu_events.Base.{
  ℕ, ◌+◌, ◌<◌, ◌≤◌, ◌≡◌, refl, ◌∙◌, inl, inr, ◌==◌, Option, some, List, [], ◌∷◌, arith, length,
  Bool-cases, All,
}
use pmu_events.CpuMap.{
  PerfCpuMap, has_cpu, cmp_cpu, insert_cpu, qsort_cpus, trimmed, cpu_map_trim_new,
}
use pmu_events.CpuMap.Trim.{distinct, firsts, trim_loop-firsts}

-- Every number is above those in front of it.
abbrev pub IsAscending : List ℕ → Type 0
IsAscending [] = Unit
IsAscending (c ∷ cpus) = All (λ d. c < d) cpus × IsAscending cpus

abbrev IsSorted : List ℕ → Type 0
IsSorted [] = Unit
IsSorted (c ∷ cpus) = All (λ d. c ≤ d) cpus × IsSorted cpus

All-le : (b c : ℕ) (cpus : List ℕ) → b ≤ c → All (λ d. c ≤ d) cpus → All (λ d. b ≤ d) cpus
All-le b c [] h k = tt
All-le b c (d ∷ cpus) h (k, ks) = (omega arith, All-le b c cpus h ks)

insert_cpu-All :
    (b n : ℕ) (cpus : List ℕ) → b ≤ n → All (λ d. b ≤ d) cpus → All (λ d. b ≤ d) (insert_cpu n cpus)
unfolding insert_cpu
insert_cpu-All b n [] h k = (h, tt)
insert_cpu-All b n (c ∷ cpus) h (k, ks) = elim (Bool-cases (cmp_cpu n c)) [
  | inl e ↦ rw e (h, (k, ks))
  | inr e ↦ rw e (k, insert_cpu-All b n cpus h ks)
]

insert_cpu-IsSorted : (n : ℕ) (cpus : List ℕ) → IsSorted cpus → IsSorted (insert_cpu n cpus)
unfolding insert_cpu
insert_cpu-IsSorted n [] s = (tt, tt)
insert_cpu-IsSorted n (c ∷ cpus) (k, s) = elim (Bool-cases (cmp_cpu n c)) [
  | inl e ↦
      let le : n ≤ c = unfold cmp_cpu in ground arith in rw e ((le, All-le n c cpus le k), (k, s))
  | inr e ↦
      let le : c ≤ n = unfold cmp_cpu in ground arith in
      rw e (insert_cpu-All c n cpus le k, insert_cpu-IsSorted n cpus s)
]

qsort_cpus-IsSorted : (cpus : List ℕ) → IsSorted (qsort_cpus cpus)
unfolding qsort_cpus
qsort_cpus-IsSorted [] = tt
qsort_cpus-IsSorted (c ∷ cpus) = insert_cpu-IsSorted c (qsort_cpus cpus) (qsort_cpus-IsSorted cpus)

length-insert_cpu : (n : ℕ) (cpus : List ℕ) → length (insert_cpu n cpus) ≡ length cpus + 1
unfolding insert_cpu
length-insert_cpu n [] = refl
length-insert_cpu n (c ∷ cpus) = ground (arith, length-insert_cpu n cpus)

length-qsort_cpus : (cpus : List ℕ) → length (qsort_cpus cpus) ≡ length cpus
unfolding qsort_cpus
length-qsort_cpus [] = refl
length-qsort_cpus (c ∷ cpus) =
    omega (arith, length-insert_cpu c (qsort_cpus cpus), length-qsort_cpus cpus)

has_cpu-insert_cpu :
    (a n : ℕ) (cpus : List ℕ) → has_cpu a (insert_cpu n cpus) ≡ has_cpu a (n ∷ cpus)
unfolding has_cpu insert_cpu
has_cpu-insert_cpu a n [] = refl
has_cpu-insert_cpu a n (c ∷ cpus) = ground (arith, has_cpu-insert_cpu a n cpus)

has_cpu-cons :
    (a c : ℕ) (xs ys : List ℕ)
    → has_cpu a xs ≡ has_cpu a ys
    → has_cpu a (c ∷ xs) ≡ has_cpu a (c ∷ ys)
unfolding has_cpu
has_cpu-cons a c xs ys h = rw h refl

has_cpu-qsort_cpus : (a : ℕ) (cpus : List ℕ) → has_cpu a (qsort_cpus cpus) ≡ has_cpu a cpus
unfolding qsort_cpus
has_cpu-qsort_cpus a [] = refl
has_cpu-qsort_cpus a (c ∷ cpus) =
    has_cpu-insert_cpu a c (qsort_cpus cpus)
    ∙ has_cpu-cons a c (qsort_cpus cpus) cpus (has_cpu-qsort_cpus a cpus)

has_cpu-distinct :
    (a p : ℕ) (cpus : List ℕ) → has_cpu a (p ∷ distinct p cpus) ≡ has_cpu a (p ∷ cpus)
unfolding has_cpu distinct
has_cpu-distinct a p [] = refl
has_cpu-distinct a p (c ∷ cpus) = ground (arith, has_cpu-distinct a c cpus)

All-lt : (b c : ℕ) (cpus : List ℕ) → b ≤ c → All (λ d. c < d) cpus → All (λ d. b < d) cpus
All-lt b c [] h k = tt
All-lt b c (d ∷ cpus) h (k, ks) = (omega arith, All-lt b c cpus h ks)

distinct-above :
    (p : ℕ) (cpus : List ℕ)
    → All (λ d. p ≤ d) cpus
    → IsSorted cpus
    → All (λ d. p < d) (distinct p cpus) × IsAscending (distinct p cpus)
unfolding distinct
distinct-above p [] h s = (tt, tt)
distinct-above p (c ∷ cpus) (h, hs) (k, s) =
    let (above, ascending) = distinct-above c cpus k s in
    let weaker = All-lt p c (distinct c cpus) h above in
    elim (Bool-cases (c == p)) [
      | inl e ↦ rw e (weaker, ascending)
      | inr e ↦ rw e ((ground arith, weaker), (above, ascending))
    ]

firsts-IsAscending : (cpus : List ℕ) → IsSorted cpus → IsAscending (firsts cpus)
unfolding firsts
firsts-IsAscending [] s = tt
firsts-IsAscending (c ∷ cpus) (k, s) = distinct-above c cpus k s

has_cpu-firsts : (a : ℕ) (cpus : List ℕ) → has_cpu a (firsts cpus) ≡ has_cpu a cpus
unfolding firsts
has_cpu-firsts a [] = refl
has_cpu-firsts a (c ∷ cpus) = has_cpu-distinct a c cpus

trimmed-firsts : (tmp_cpus : List ℕ) → trimmed tmp_cpus ≡ firsts (qsort_cpus tmp_cpus)
unfolding trimmed
trimmed-firsts tmp_cpus = rw (← length-qsort_cpus tmp_cpus) (trim_loop-firsts (qsort_cpus tmp_cpus))

-- The map of a list of numbers: ascending, and with the same CPUs.
pub record IsMapOf (tmp_cpus : List ℕ) (result : Option PerfCpuMap) : Type 0 where
  pub cpus : List ℕ
  pub returns : result ≡ some cpus
  pub ascending : IsAscending cpus
  pub same_cpus : (n : ℕ) → has_cpu n cpus ≡ has_cpu n tmp_cpus

-- Of at least one number, `cpu_map__trim_new` makes a map that is ascending, so that it has no
-- duplicates, and that holds the same CPUs.
pub cpu_map_trim_new-IsMapOf :
    (c : ℕ) (tmp_cpus : List ℕ) → IsMapOf (c ∷ tmp_cpus) (cpu_map_trim_new (c ∷ tmp_cpus))
unfolding cpu_map_trim_new
cpu_map_trim_new-IsMapOf c tmp_cpus =
    let sorted = qsort_cpus (c ∷ tmp_cpus) in
    record {
      cpus = firsts sorted;
      returns = rw (trimmed-firsts (c ∷ tmp_cpus)) refl;
      ascending = firsts-IsAscending sorted (qsort_cpus-IsSorted (c ∷ tmp_cpus));
      same_cpus = λ n. has_cpu-firsts n sorted ∙ has_cpu-qsort_cpus n (c ∷ tmp_cpus);
    }
