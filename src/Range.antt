-- ===== src/Range.antt =====
-- Ranges and range lists of include/pmu-events/types.h, and their parsers in src/pmu-events.c.
-- A parser's -1 is `none`.
pub mod Spec
pub mod Print
pub mod RoundTrip
use pmu_events.Base.{
  ℕ, zero, suc, ◌+◌, Bool, true, false, ◌&&◌, Option, none, some, List, [], ◌∷◌, ◌++◌, ◌≡◌, refl,
  leb, if◌then◌else◌, Bytes, codes, length, is_empty,
}
use pmu_events.Commas.{parse_commas}
use pmu_events.Libc.Number.{strtoull}
use pmu_events.Libc.Text.{strchr, starts_with}

pub record Range : Type 0 where
  pub start : ℕ
  pub end : ℕ

-- `len` is the length of the list.
abbrev pub RangeList : Type 0
RangeList = List Range

unfoldable pub in_range_list : ℕ → RangeList → Bool
in_range_list num [] = false
in_range_list num (r ∷ ranges) =
    if leb r.start num && leb num r.end then true else in_range_list num ranges

-- A term with no minus: one number, up to the end of the text.
unfoldable pub parse_single : Bytes → Option Range
parse_single term =
    let val = strtoull 10 term in
    if is_empty val.rest then some (record { start = val.value; end = val.value }) else none

-- A term with a minus; `after` stands behind its first minus.
unfoldable pub parse_pair : Bytes → Bytes → Option Range
parse_pair term after =
    let first = strtoull 10 term in
    let last = strtoull 10 after in
    if starts_with b'-' first.rest
    then (if is_empty after
        then none
        else if is_empty last.rest
        then some (record { start = first.value; end = last.value })
        else none)
    else none

unfoldable pub parse_term : Option (Bytes × Bytes) → Bytes → Option Range
unfolding parse_single parse_pair
parse_term none term = parse_single term
parse_term (some (before, after)) term = parse_pair term after

unfoldable pub parse_range : Bytes → Option Range
unfolding parse_term
parse_range [] = none
parse_range (c ∷ term) = parse_term (strchr b'-' (c ∷ term)) (c ∷ term)

unfoldable pub parse_range_list : (ℕ → Bool) → Bytes → Option RangeList
parse_range_list realloc_ok term = parse_commas realloc_ok parse_range term

abbrev pub range : ℕ → ℕ → Range
range a b = record { start = a; end = b }

single_and_pair : parse_range_list (λ _. true) (codes "1,7-9") ≡ some (range 1 1 ∷ range 7 9 ∷ [])
unfolding parse_range_list parse_commas parse_range strchr strtoull starts_with
single_and_pair = refl

refused :
    (parse_range (codes "9-23hg") ≡ none)
    × (parse_range (codes "9-") ≡ none)
    × (parse_range (codes "dasfklahsgkj") ≡ none)
    × (parse_range_list (λ _. true) (codes "1,,7-9") ≡ none)
unfolding parse_range_list parse_commas parse_range strchr strtoull starts_with
refused = (refl, refl, refl, refl)
