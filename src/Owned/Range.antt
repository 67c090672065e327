-- ===== src/Owned/Range.antt =====
-- `parse_range_list` and `parse_config_def` of src/pmu-events.c with the array that they allocate.
use pmu_events.Base.{
  ℕ, ◌≡◌, refl, sym, ◌∙◌, ap, Bool, Option, none, some, List, [], ◌∷◌, ◌++◌, Bytes, arith, map,
  Option-cases, inl, inr,
}
use pmu_events.Config
use pmu_events.Config.{AttrVar, ConfigDef, strip_var}
use pmu_events.Free.Laws.{pointed, blocks_of, array_blocks, range_list_blocks, config_def_blocks}
use pmu_events.Free.{Block, null, block, RangeListBlocks, ConfigDefBlocks}
use pmu_events.Memory.{Mem, pure, ◌>>=◌}
use pmu_events.Memory.Holds.{count, count-append}
use pmu_events.Memory.Owning.{Owning, owning, optional, value_of, Parses, Parses-none}
use pmu_events.Memory.Triple.{triple-pure, triple-return}
use pmu_events.Owned.Commas.{Parsed, parsed, failed, parse_commas}
use pmu_events.Owned.Commas.Loop.{parse_commas-Triple}
use pmu_events.Owned.Commas.Laws.{members_of, values_of, parsed_blocks}
use pmu_events.Range
use pmu_events.Range.{Range, RangeList, parse_range}

abbrev pub OwnedRanges : Type 0
OwnedRanges = Owning RangeList RangeListBlocks

abbrev pub ranges_blocks : OwnedRanges → List Block
ranges_blocks r = range_list_blocks r.blocks

-- The list that a parse of ranges stores; the ranges own no blocks.
unfoldable pub stored_ranges : Parsed Range → Option OwnedRanges
stored_ranges (parsed null) = some (owning [] (record { ranges = none }))
stored_ranges (parsed (block array ranges)) = some (owning ranges (record { ranges = some array }))
stored_ranges (failed ranges) = none

unfoldable pub parse_range_list : (ℕ → Bool) → Bytes → Mem (Option OwnedRanges)
parse_range_list realloc_ok term = do
  result ← parse_commas realloc_ok (λ t. pure (parse_range t)) term
  pure (stored_ranges result)

no_blocks : Range → List Block
no_blocks r = []

same : Range → Range
same r = r

count-no_blocks : (ranges : List Range) (b : Block) → count b (blocks_of no_blocks ranges) ≡ 0
unfolding blocks_of count no_blocks
count-no_blocks [] b = refl
count-no_blocks (r ∷ ranges) b = count-no_blocks ranges b

map-same : (ranges : List Range) → map same ranges ≡ ranges
unfolding same
map-same [] = refl
map-same (r ∷ ranges) = ap (λ (t : List Range). r ∷ t) (map-same ranges)

parse_range-Parses :
    (term : Bytes) → Parses same no_blocks (pure (parse_range term)) (parse_range term)
parse_range-Parses term blocks = elim (Option-cases (parse_range term)) [
  | inl e ↦ rw e (Parses-none same no_blocks blocks)
  | inr (r, e) ↦ rw e (
      unfold optional value_of no_blocks same in
      triple-pure (λ s. optional no_blocks s ++ blocks) (λ s. value_of same s ≡ some r) (some r)
        refl)
]

stored_blocks :
    (r : Parsed Range) (b : Block)
    → count b (parsed_blocks no_blocks r) ≡ count b (optional ranges_blocks (stored_ranges r))
unfolding parsed_blocks optional stored_ranges array_blocks pointed count
stored_blocks (parsed null) b = refl
stored_blocks (parsed (block array ranges)) b =
    omega
      (arith, count-append b (blocks_of no_blocks ranges) (array ∷ []), count-no_blocks ranges b)
stored_blocks (failed ranges) b = count-no_blocks ranges b

stored_value : (r : Parsed Range) → value_of (λ s. s.value) (stored_ranges r) ≡ values_of same r
unfolding value_of stored_ranges values_of members_of
stored_value (parsed null) = refl
stored_value (parsed (block array ranges)) = ap some (sym (map-same ranges))
stored_value (failed ranges) = refl

pub parse_range_list-Parses :
    (realloc_ok : ℕ → Bool) (term : Bytes)
    → Parses
        (λ s. s.value)
        ranges_blocks
        (parse_range_list realloc_ok term)
        (Range.parse_range_list realloc_ok term)
unfolding parse_range_list Range.parse_range_list
parse_range_list-Parses realloc_ok term blocks =
    let post = λ (r : Option OwnedRanges). optional ranges_blocks r ++ blocks in
    let Q = λ (r : Option OwnedRanges).
      value_of (λ s. s.value) r ≡ Range.parse_range_list realloc_ok term in
    triple-return post Q stored_ranges (λ r. parsed_blocks no_blocks r ++ blocks) _
      (parse_commas-Triple same no_blocks realloc_ok (λ t. pure (parse_range t)) parse_range
        parse_range-Parses blocks term)
      λ r (e, _). (
        (λ b. omega (
          arith,
          count-append b (parsed_blocks no_blocks r) blocks,
          count-append b (optional ranges_blocks (stored_ranges r)) blocks,
          stored_blocks r b,
        )),
        stored_value r ∙ e,
      )

abbrev pub OwnedDef : Type 0
OwnedDef = Owning ConfigDef ConfigDefBlocks

abbrev pub def_blocks : OwnedDef → List Block
def_blocks d = config_def_blocks d.blocks

unfoldable pub def_with : AttrVar → Option OwnedRanges → Option OwnedDef
def_with var none = none
def_with var (some list) =
    some (owning (record { var = var; range = list.value }) (record { range = list.blocks }))

unfoldable pub parse_config_def : (ℕ → Bool) → Bytes → Mem (Option OwnedDef)
parse_config_def realloc_ok term = elim (strip_var term) [
  | none ↦ pure none
  | some (var, start_term) ↦ do
    range ← parse_range_list realloc_ok start_term
    pure (def_with var range)
]

pub parse_config_def-Parses :
    (realloc_ok : ℕ → Bool) (term : Bytes)
    → Parses
        (λ d. d.value)
        def_blocks
        (parse_config_def realloc_ok term)
        (Config.parse_config_def realloc_ok term)
unfolding parse_config_def Config.parse_config_def
parse_config_def-Parses realloc_ok term blocks = elim (Option-cases (strip_var term)) [
  | inl e ↦ rw (parse_config_def, e) (Parses-none (λ (d : OwnedDef). d.value) def_blocks blocks)
  | inr ((var, start_term), e) ↦
      rw (parse_config_def, e)
        (triple-return (λ r. optional def_blocks r ++ blocks) _ (def_with var)
          (λ r. optional ranges_blocks r ++ blocks) _
          (parse_range_list-Parses realloc_ok start_term blocks)
          (elim [
            | none ↦ λ k. unfold def_with optional value_of in ((λ b. refl), rw (← k) refl)
            | some list ↦ λ k. unfold def_with optional value_of in ((λ b. refl), rw (← k) refl)
          ]))
]
