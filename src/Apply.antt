-- ===== src/Apply.antt =====
-- `apply_range_list_to_val`: the low bits of a value go into the bit ranges of a config word.
-- A shift that C leaves undefined gives `none`.
pub mod Field
pub mod Defined
pub mod Gather
use pmu_events.Base.{ℕ, Option, none, some, List, [], ◌∷◌, ◌≡◌, refl, bit_and, bit_or}
use pmu_events.Range.{Range, RangeList, range}
use pmu_events.Word.{uint64_max, add64, sub64, not64, shift_left, shift_right, ◌>>=◌}

-- `end - start + 1` in 64 bits.
unfoldable pub range_len : Range → ℕ
range_len r = add64 (sub64 r.end r.start) 1

-- One round of the loop: the new `*config`, and what is left of `to_apply`.
unfoldable pub apply_range : ℕ → ℕ → Range → Option (ℕ × ℕ)
apply_range config to_apply r = do
  ones ← shift_right uint64_max (sub64 64 (range_len r))
  mask ← shift_left ones r.start
  moved ← shift_left to_apply r.start
  let cur_apply = bit_and moved mask
  let cleared = bit_and config (not64 mask)
  rest ← shift_right to_apply (range_len r)
  some (bit_or cleared cur_apply, rest)

unfoldable pub apply_range_list_to_val : ℕ → ℕ → RangeList → Option ℕ
unfolding apply_range
apply_range_list_to_val config to_apply [] = some config
apply_range_list_to_val config to_apply (r ∷ list) = do
  (config', rest) ← apply_range config to_apply r
  apply_range_list_to_val config' rest list

-- The cases of tests/test.c.
odd_bits :
    apply_range_list_to_val 0 uint64_max
      (range 1 1 ∷ range 3 3 ∷ range 5 5 ∷ range 7 7 ∷ range 9 9 ∷ [])
    ≡ some 0b1010101010
unfolding apply_range_list_to_val shift_left shift_right range_len
odd_bits = refl

two_nibbles :
    apply_range_list_to_val 0 uint64_max (range 0 3 ∷ range 8 11 ∷ []) ≡ some 0b111100001111
unfolding apply_range_list_to_val shift_left shift_right range_len
two_nibbles = refl
