-- ===== src/Range/Spec.antt =====
-- What `parse_range` and `parse_range_list` accept and return.
use pmu_events.Base.{
  ℕ, ◌-◌, ◌%◌, ◌^◌, ◌<◌, ◌≤◌, ◌≡◌, refl, ◌↔◌, Bool, true, Option, none, some, [], ◌∷◌, arith, leb,
  if◌then◌else◌, Bytes, length, All, traverse, traverse-All, traverse-length, ◌&&◌, inl, inr,
  Bool-cases,
}
use pmu_events.Commas.Refine.{can_grow, parse_commas-split, parse_commas-terms}
use pmu_events.Commas.Split.{split, split-length_pos}
use pmu_events.Libc.Number.{strtoull-lt, starts_with_digit}
use pmu_events.Libc.Number.Start.{strtoull_dash}
use pmu_events.Libc.Print.{print}
use pmu_events.Libc.Print.Strtoull.{strtoull-print_minus}
use pmu_events.Libc.Text.{strchr, starts_with}
use pmu_events.Range.RoundTrip.{Fits}
use pmu_events.Range.{
  Range, RangeList, range, in_range_list, parse_pair, parse_term, parse_range, parse_range_list,
}

-- The list is the ranges of the terms between the commas, in order, if every term is a range and
-- the array can grow to their number; else the parser fails.
parse_range_list-split :
    (realloc_ok : ℕ → Bool) (term : Bytes)
    → parse_range_list realloc_ok term ≡ (
        if can_grow realloc_ok 0 (length (split b',' term))
        then traverse parse_range (split b',' term)
        else none)
unfolding parse_range_list
parse_range_list-split realloc_ok term = parse_commas-split realloc_ok parse_range term

parse_term-Fits :
    (found : Option (Bytes × Bytes)) (term : Bytes) {r : Range}
    → parse_term found term ≡ some r
    → Fits r
unfolding parse_term
parse_term-Fits none term h = ground (arith, strtoull-lt 10 term)
parse_term-Fits (some (before, after)) term h =
    ground (arith, strtoull-lt 10 term, strtoull-lt 10 after)

parse_range-Fits : (term : Bytes) {r : Range} → parse_range term ≡ some r → Fits r
unfolding parse_range
parse_range-Fits [] h = cc
parse_range-Fits (c ∷ term) h = parse_term-Fits (strchr b'-' (c ∷ term)) (c ∷ term) h

-- The bounds of every range of a parsed list are 64-bit words.
parse_range_list-Fits :
    (realloc_ok : ℕ → Bool) (term : Bytes) {list : RangeList}
    → parse_range_list realloc_ok term ≡ some list
    → All Fits list
unfolding parse_range_list
parse_range_list-Fits realloc_ok term h =
    traverse-All Fits parse_range (λ s r. parse_range-Fits s {r = r}) (split b',' term)
      (parse_commas-terms realloc_ok parse_range term h)

-- Two minus signs and the decimal digits of a 64-bit number are taken for a range from 0 up to the
-- negated number modulo 2 ^ 64.
parse_range_dashes :
    (n : ℕ)
    → n < 2 ^ 64
    → parse_range (b'-' ∷ b'-' ∷ print 10 n) ≡ some (range 0 ((2 ^ 64 - n) % 2 ^ 64))
unfolding parse_range parse_term parse_pair strchr starts_with
parse_range_dashes n h =
    rw (
      strtoull_dash (b'-' ∷ print 10 n) (unfold starts_with_digit in refl),
      strtoull-print_minus n h,
    )

-- A number is in the list exactly if it lies between the bounds of one of the ranges.
pub data Covers (num : ℕ) : RangeList → Type 0 where
  here : {r : Range} {ranges : RangeList} → r.start ≤ num → num ≤ r.end → Covers num (r ∷ ranges)
  there : {r : Range} {ranges : RangeList} → Covers num ranges → Covers num (r ∷ ranges)

in_range_list_sound :
    (num : ℕ) (ranges : RangeList) → in_range_list num ranges ≡ true → Covers num ranges
unfolding in_range_list
in_range_list_sound num [] h = cc
in_range_list_sound num (r ∷ ranges) h = elim (Bool-cases (leb r.start num && leb num r.end)) [
  | inl e ↦ here (ground arith) (ground arith)
  | inr e ↦ there (in_range_list_sound num ranges (rw e at h))
]

in_range_list_complete :
    {num : ℕ} {ranges : RangeList} → Covers num ranges → in_range_list num ranges ≡ true
unfolding in_range_list
in_range_list_complete (here low high) = ground arith
in_range_list_complete (there c) = ground (arith, in_range_list_complete c)

-- `in_range_list` says that a number is in the list exactly if one of the ranges covers it.
in_range_list_iff :
    (num : ℕ) (ranges : RangeList) → (in_range_list num ranges ≡ true) ↔ Covers num ranges
in_range_list_iff num ranges = (in_range_list_sound num ranges, in_range_list_complete)

-- A parsed list holds a range.
pub parse_range_list-ne-nil :
    (realloc_ok : ℕ → Bool) (term : Bytes) {list : RangeList}
    → parse_range_list realloc_ok term ≡ some list
    → 0 < length list
unfolding parse_range_list
parse_range_list-ne-nil realloc_ok term h = omega (
  arith,
  traverse-length parse_range (split b',' term) (parse_commas-terms realloc_ok parse_range term h),
  split-length_pos b',' term,
)
