-- ===== src/Apply/Field.antt =====
-- One range of `apply_range_list_to_val`, bit by bit.
use pmu_events.Apply.{range_len, apply_range}
use pmu_events.Base.{
  ℕ, ◌+◌, ◌-◌, ◌*◌, ◌/◌, ◌%◌, ◌^◌, ◌<◌, ◌≤◌, ◌≡◌, ◌∙◌, Bool, ◌&&◌, some, arith, ltb, leb,
  if◌then◌else◌, bit_and, bit_or, lt→ltb,
}
use pmu_events.Range.{Range}
use pmu_events.Word.Bit.{bit, bit-lt, bit-zero, bit-bit_and, bit-bit_or}
use pmu_events.Word.BitLaws.{
  bit-mul_pow, bit-div_pow, bit-mod_pow, bit-complement, bit_above, lt_of_bits,
}
use pmu_events.Word.{uint64_max, not64, shift_left, shift_right, sub64}

-- A range of bits of a 64-bit word that is not the whole word.
pub record IsField (r : Range) : Type 0 where
  pub ordered : r.start ≤ r.end
  pub inside : r.end < 64
  pub partial : r.end - r.start < 63

-- How many bits the range has.
abbrev pub width : Range → ℕ
width r = r.end - r.start + 1

range_len-IsField : {r : Range} → IsField r → range_len r ≡ width r
unfolding range_len
range_len-IsField f = omega arith

-- The ones in the bits of the range.
mask_of : Range → ℕ
mask_of r = uint64_max / 2 ^ (64 - width r) * 2 ^ r.start % 2 ^ 64

pub placed : ℕ → ℕ → Range → ℕ
placed config v r =
    bit_or (bit_and config (not64 (mask_of r))) (bit_and (v * 2 ^ r.start % 2 ^ 64) (mask_of r))

abbrev pub within : Range → ℕ → Bool
within r i = leb r.start i && leb i r.end

shift_left_lt : (x k : ℕ) → k < 64 → shift_left x k ≡ some (x * 2 ^ k % 2 ^ 64)
unfolding shift_left
shift_left_lt x k h = rw (lt→ltb k 64 h)

shift_right_lt : (x k : ℕ) → k < 64 → shift_right x k ≡ some (x / 2 ^ k)
unfolding shift_right
shift_right_lt x k h = rw (lt→ltb k 64 h)

-- On such a range every shift is defined.
pub apply_range-placed :
    (config v : ℕ) {r : Range}
    → IsField r
    → apply_range config v r ≡ some (placed config v r, v / 2 ^ width r)
unfolding apply_range placed mask_of
apply_range-placed config v {r} f =
    let amount : sub64 64 (width r) ≡ 64 - width r = omega arith in
    rw (
      range_len-IsField f,
      amount,
      shift_right_lt uint64_max (64 - width r) (omega arith),
      shift_left_lt (uint64_max / 2 ^ (64 - width r)) r.start (omega arith),
      shift_left_lt v r.start (omega arith),
      shift_right_lt v (width r) (omega arith),
    )

bit-uint64_max : (i : ℕ) → bit uint64_max i ≡ (if ltb i 64 then 1 else 0)
bit-uint64_max i = ground (arith, bit-complement 64 0 i (omega arith), bit-zero i)

bit-ones : (n i : ℕ) → n ≤ 64 → bit (uint64_max / 2 ^ (64 - n)) i ≡ (if ltb i n then 1 else 0)
bit-ones n i h = bit-div_pow (64 - n) uint64_max i ∙ bit-uint64_max (64 - n + i) ∙ ground arith

bit-mask_of : {r : Range} (i : ℕ) → IsField r → bit (mask_of r) i ≡ (if within r i then 1 else 0)
unfolding mask_of
bit-mask_of {r} i f =
    bit-mod_pow 64 (uint64_max / 2 ^ (64 - width r) * 2 ^ r.start) i
    ∙ ground (
      arith,
      bit-mul_pow r.start (uint64_max / 2 ^ (64 - width r)) i,
      bit-ones (width r) (i - r.start) (omega arith),
    )

mask_of-lt : (r : Range) → mask_of r < 2 ^ 64
unfolding mask_of
mask_of-lt r = omega arith

bit-moved :
    (v : ℕ) (r : Range) (i : ℕ)
    → r.start ≤ i
    → i < 64
    → bit (v * 2 ^ r.start % 2 ^ 64) i ≡ bit v (i - r.start)
bit-moved v r i low high =
    bit-mod_pow 64 (v * 2 ^ r.start) i ∙ ground (arith, bit-mul_pow r.start v i)

pub bit-placed :
    (config v : ℕ) {r : Range} (i : ℕ)
    → config < 2 ^ 64
    → IsField r
    → bit (placed config v r) i ≡ (if within r i then bit v (i - r.start) else bit config i)
unfolding placed
bit-placed config v {r} i h f =
    rw
      (
        bit-bit_or (bit_and config (not64 (mask_of r)))
            (bit_and (v * 2 ^ r.start % 2 ^ 64) (mask_of r)) i,
        bit-bit_and config (not64 (mask_of r)) i,
        bit-bit_and (v * 2 ^ r.start % 2 ^ 64) (mask_of r) i,
      )
      (ground (
        arith,
        bit-complement 64 (mask_of r) i (mask_of-lt r),
        bit-mask_of i f,
        bit-moved v r i,
        bit_above config i h,
        bit-lt config i,
        bit-lt v (i - r.start),
      ))

pub placed-lt :
    (config v : ℕ) {r : Range} → config < 2 ^ 64 → IsField r → placed config v r < 2 ^ 64
placed-lt config v {r} h f =
    lt_of_bits (placed config v r)
      λ i k. ground (arith, bit-placed config v i h f, bit_above config i h)
