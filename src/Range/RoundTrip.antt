-- ===== src/Range/RoundTrip.antt =====
-- Parsing what the example prints, with `parse_range_list`.
use pmu_events.Base.{
  ℕ, ◌^◌, ◌<◌, ◌≡◌, refl, ap, ◌∙◌, true, false, some, List, [], ◌∷◌, ◌++◌, arith, ◌==◌, Bytes,
  Lacks, length, Bool-cases, inl, inr, All, All-append, traverse, traverse-cons,
}
use pmu_events.Commas.Refine.{parse_commas-split, can_grow_always}
use pmu_events.Commas.Split.{join, split-join}
use pmu_events.Libc.Number.{digit_value, strtoull, starts_with_digit}
use pmu_events.Libc.Print.{print, print-Lacks, reads, starts_with_digit-print}
use pmu_events.Libc.Print.Strtoull.{
  strtoull-print, strtoull-print_blank, strtoull-print_all, strtoull-print_all_blank,
  starts_with_digit-print_all,
}
use pmu_events.Libc.Text.{strchr, starts_with, strchr-Lacks, strchr-append}
use pmu_events.Range.Print.{print_range, print_cpus}
use pmu_events.Range.{
  Range, RangeList, range, parse_single, parse_pair, parse_term, parse_range, parse_range_list,
}

-- Both bounds are 64-bit words.
abbrev pub Fits : Range → Type 0
Fits r = (r.start < 2 ^ 64) × (r.end < 2 ^ 64)

print-Lacks_minus : (n : ℕ) → Lacks b'-' (print 10 n)
unfolding digit_value
print-Lacks_minus n = print-Lacks 10 n b'-' (omega arith) (omega arith) (omega arith)

print-Lacks_comma : (n : ℕ) → Lacks b',' (print 10 n)
unfolding digit_value
print-Lacks_comma n = print-Lacks 10 n b',' (omega arith) (omega arith) (omega arith)

abbrev Enters : Bytes → Type 0
Enters s = parse_range s ≡ parse_term (strchr b'-' s) s

Enters-digit : (s : Bytes) → starts_with_digit 10 s ≡ true → Enters s
unfolding parse_range starts_with_digit
Enters-digit [] h = cc
Enters-digit (c ∷ s) h = refl

Enters-cons : (c : ℕ) (s : Bytes) → Enters (c ∷ s)
unfolding parse_range
Enters-cons c s = refl

parse_single_all :
    (s : Bytes) (n : ℕ)
    → Enters s
    → Lacks b'-' s
    → strtoull 10 s ≡ reads n []
    → parse_range s ≡ some (range n n)
unfolding parse_single parse_term
parse_single_all s n enters lacks h = rw (enters, strchr-Lacks b'-' s lacks, h)

parse_pair_cons :
    (s back : Bytes) (a b : ℕ)
    → strtoull 10 s ≡ reads a (b'-' ∷ back)
    → starts_with_digit 10 back ≡ true
    → strtoull 10 back ≡ reads b []
    → parse_pair s back ≡ some (range a b)
unfolding parse_pair starts_with starts_with_digit
parse_pair_cons s [] a b h d k = cc
parse_pair_cons s (c ∷ back) a b h d k = rw (h, k)

parse_pair_all :
    (front back : Bytes) (a b : ℕ)
    → Enters (front ++ b'-' ∷ back)
    → Lacks b'-' front
    → strtoull 10 (front ++ b'-' ∷ back) ≡ reads a (b'-' ∷ back)
    → starts_with_digit 10 back ≡ true
    → strtoull 10 back ≡ reads b []
    → parse_range (front ++ b'-' ∷ back) ≡ some (range a b)
unfolding parse_term
parse_pair_all front back a b enters lacks h d k =
    enters ∙ rw (strchr-append b'-' front back lacks) (parse_pair_cons _ back a b h d k)

stops_at_minus : (s : Bytes) → starts_with_digit 10 (b'-' ∷ s) ≡ false
unfolding starts_with_digit
stops_at_minus s = refl

-- A printed range, with a blank in front or without, is read back.
parse_range-print :
    (r : Range)
    → Fits r
    → (parse_range (print_range r) ≡ some r) × (parse_range (b' ' ∷ print_range r) ≡ some r)
unfolding print_range
parse_range-print r (low, high) = elim (Bool-cases (r.start == r.end)) [
  | inl e ↦
      let same : range r.start r.start ≡ r = ground arith in
      rw e (
        parse_single_all _ _ (Enters-digit _ (starts_with_digit-print_all r.start))
              (print-Lacks_minus r.start) (strtoull-print_all r.start low)
            ∙ ap some same,
        parse_single_all _ _ (Enters-cons _ _) (ground arith, print-Lacks_minus r.start)
              (strtoull-print_all_blank r.start low)
            ∙ ap some same,
      )
  | inr e ↦
      let stop = stops_at_minus (print 10 r.end) in
      let digits = starts_with_digit-print_all r.end in
      let last = strtoull-print_all r.end high in
      rw e (
        parse_pair_all (print 10 r.start) (print 10 r.end) r.start r.end
            (Enters-digit _ (starts_with_digit-print 10 r.start _ (omega arith) (omega arith)))
            (print-Lacks_minus r.start) (strtoull-print r.start _ low stop) digits last,
        parse_pair_all (b' ' ∷ print 10 r.start) (print 10 r.end) r.start r.end (Enters-cons _ _)
            (ground arith, print-Lacks_minus r.start) (strtoull-print_blank r.start _ low stop)
            digits last,
      )
]

print_range-Lacks : (r : Range) → Lacks b',' (print_range r)
unfolding print_range
print_range-Lacks r = elim (Bool-cases (r.start == r.end)) [
  | inl e ↦ rw e (print-Lacks_comma r.start)
  | inr e ↦ rw e (
      All-append _ (print 10 r.start) (b'-' ∷ print 10 r.end) (print-Lacks_comma r.start)
        (omega arith, print-Lacks_comma r.end))
]

-- The ranges behind the first, each with its blank.
blanked : RangeList → List Bytes
blanked [] = []
blanked (r ∷ ranges) = (b' ' ∷ print_range r) ∷ blanked ranges

join_blank :
    (p : Bytes) (ps : List Bytes)
    → b' ' ∷ join (b',' ∷ []) (p ∷ ps) ≡ join (b',' ∷ []) ((b' ' ∷ p) ∷ ps)
unfolding join
join_blank p [] = refl
join_blank p (q ∷ ps) = refl

print_cpus-join :
    (r : Range) (ranges : RangeList)
    → print_cpus (r ∷ ranges) ≡ join (b',' ∷ []) (print_range r ∷ blanked ranges)
unfolding print_cpus blanked join
print_cpus-join r [] = refl
print_cpus-join r (q ∷ ranges) =
    ap (λ (t : Bytes). print_range r ++ b',' ∷ b' ' ∷ t) (print_cpus-join q ranges)
    ∙ ap (λ (t : Bytes). print_range r ++ b',' ∷ t) (join_blank (print_range q) (blanked ranges))

blanked-Lacks : (ranges : RangeList) → All (Lacks b',') (blanked ranges)
unfolding blanked
blanked-Lacks [] = tt
blanked-Lacks (r ∷ ranges) = ((omega arith, print_range-Lacks r), blanked-Lacks ranges)

traverse-blanked :
    (ranges : RangeList) → All Fits ranges → traverse parse_range (blanked ranges) ≡ some ranges
unfolding blanked traverse
traverse-blanked [] h = refl
traverse-blanked (r ∷ ranges) (fits, h) =
    traverse-cons parse_range _ (blanked ranges) (parse_range-print r fits).1
      (traverse-blanked ranges h)

-- If memory lasts, a list of at least one range, with bounds that are 64-bit words, is parsed back
-- from how the example prints it.
pub parse_range_list-print_cpus :
    (r : Range) (ranges : RangeList)
    → Fits r
    → All Fits ranges
    → parse_range_list (λ _. true) (print_cpus (r ∷ ranges)) ≡ some (r ∷ ranges)
unfolding parse_range_list
parse_range_list-print_cpus r ranges fits h =
    parse_commas-split (λ _. true) parse_range (print_cpus (r ∷ ranges))
    ∙ rw
        (
          print_cpus-join r ranges,
          split-join b',' (print_range r) (blanked ranges) (print_range-Lacks r)
              (blanked-Lacks ranges),
          can_grow_always 0 (length (print_range r ∷ blanked ranges)),
        )
        (traverse-cons parse_range _ (blanked ranges) (parse_range-print r fits).0
          (traverse-blanked ranges h))
