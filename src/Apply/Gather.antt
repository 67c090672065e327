-- ===== src/Apply/Gather.antt =====
-- Reading the ranges of a config word back, for `apply_range_list_to_val`.
use native.Mathlib.Nat.{div-add-mod', mod-lt, mul-add-mod_self_right, mod-eq_of_lt, one-le-pow}
use pmu_events.Apply.{apply_range_list_to_val}
use pmu_events.Apply.Field.{
  IsField, width, within, placed, apply_range-placed, bit-placed, placed-lt,
}
use pmu_events.Base.{
  ℕ, ◌+◌, ◌-◌, ◌*◌, ◌/◌, ◌%◌, ◌^◌, ◌<◌, ◌≤◌, ◌≡◌, refl, sym, ap, ◌∙◌, ◌⊎◌, true, false, Option,
  some, [], ◌∷◌, arith, ltb, if◌then◌else◌, All,
}
use pmu_events.Range.{Range, RangeList}
use pmu_events.Word.Bit.{bit, bits_ext}
use pmu_events.Word.BitLaws.{bit-div_pow, bit-mod_pow}

abbrev pub Disjoint : Range → Range → Type 0
Disjoint r q = (r.end < q.start) ⊎ (q.end < r.start)

-- Ranges of bits, no two of which overlap.
abbrev pub AreFields : RangeList → Type 0
AreFields [] = Unit
AreFields (r ∷ list) = IsField r × All (Disjoint r) list × AreFields list

-- Bit `i` is in none of the ranges.
abbrev pub Outside : RangeList → ℕ → Type 0
Outside list i = All (λ r. within r i ≡ false) list

-- The number in the bits of `r`.
unfoldable pub field : Range → ℕ → ℕ
field r config = config / 2 ^ r.start % 2 ^ width r

-- The number in the bits of all ranges, the first range lowest.
unfoldable pub gather : RangeList → ℕ → ℕ
unfolding field
gather [] config = 0
gather (r ∷ list) config = field r config + 2 ^ width r * gather list config

-- 2 to the number of bits of all ranges.
unfoldable pub span : RangeList → ℕ
span [] = 1
span (r ∷ list) = 2 ^ width r * span list

span_pos : (list : RangeList) → 0 < span list
unfolding span
span_pos [] = omega arith
span_pos (r ∷ list) = grind (arith, span_pos list, one-le-pow (width r) 2)

product_bound : (p q a b : ℕ) → a < p → b < q → a + p * b < p * q
product_bound p q a b h k = grind arith

mod-mul : (p q v : ℕ) → 0 < p → 0 < q → v % (p * q) ≡ v % p + p * (v / p % q)
mod-mul p q v hp hq =
    let r = v % p + p * (v / p % q) in
    let below : r < p * q =
      product_bound p q (v % p) (v / p % q) (mod-lt v hp) (mod-lt (v / p) hq) in
    let sum : v ≡ v / p / q * (p * q) + r =
      omega (arith, div-add-mod' v p, ap (λ (t : ℕ). t * p) (div-add-mod' (v / p) q)) in
    ap (λ (t : ℕ). t % (p * q)) sum
    ∙ mul-add-mod_self_right (v / p / q) (p * q) r
    ∙ mod-eq_of_lt below

pub bit-field :
    (r : Range) (config i : ℕ)
    → bit (field r config) i ≡ (if ltb i (width r) then bit config (r.start + i) else 0)
unfolding field
bit-field r config i =
    ground (arith, bit-mod_pow (width r) (config / 2 ^ r.start) i, bit-div_pow r.start config i)

-- The result has the low bits of `v` in the bits of `r`, if the rest agrees with one round there.
field_of_bits :
    (r : Range) (c v : ℕ)
    → ((i : ℕ) → i < width r → bit c (r.start + i) ≡ bit v i)
    → field r c ≡ v % 2 ^ width r
field_of_bits r c v h =
    bits_ext (field r c) (v % 2 ^ width r)
      λ i. ground (arith, bit-field r c i, bit-mod_pow (width r) v i, h i)

Disjoint-Outside :
    (r : Range) (list : RangeList) (i : ℕ)
    → within r i ≡ true
    → All (Disjoint r) list
    → Outside list i
Disjoint-Outside r [] i h d = tt
Disjoint-Outside r (q ∷ list) i h (d, ds) = (ground arith, Disjoint-Outside r list i h ds)

pub record IsApplied (list : RangeList) (config v : ℕ) (result : Option ℕ) : Type 0 where
  pub out : ℕ
  pub returns : result ≡ some out
  pub word : out < 2 ^ 64
  pub kept : (i : ℕ) → Outside list i → bit out i ≡ bit config i
  pub gathered : gather list out ≡ v % span list

gather-cons :
    (r : Range) (list : RangeList) (c v : ℕ)
    → ((i : ℕ) → i < width r → bit c (r.start + i) ≡ bit v i)
    → gather list c ≡ v / 2 ^ width r % span list
    → gather (r ∷ list) c ≡ v % span (r ∷ list)
unfolding gather span
gather-cons r list c v h e =
    rw (field_of_bits r c v h, e)
      (sym (
        mod-mul (2 ^ width r) (span list) v (one-le-pow (width r) 2 (omega arith)) (span_pos list)))

inside_range :
    (r : Range) (v config i : ℕ)
    → r.start ≤ r.end
    → i < width r
    → (if within r (r.start + i) then bit v (r.start + i - r.start) else bit config (r.start + i))
      ≡ bit v i
inside_range r v config i o h =
    let back : r.start + i - r.start ≡ i = omega arith in rw back (ground arith)

IsApplied-cons :
    (r : Range) (list : RangeList) (config v : ℕ)
    → config < 2 ^ 64
    → AreFields (r ∷ list)
    → IsApplied list
        (placed config v r)
        (v / 2 ^ width r)
        (apply_range_list_to_val (placed config v r) (v / 2 ^ width r) list)
    → IsApplied (r ∷ list) config v (apply_range_list_to_val config v (r ∷ list))
unfolding apply_range_list_to_val
IsApplied-cons r list config v h (f, d, fs) rest = record {
  out = rest.out;
  returns = rw (apply_range-placed config v f) rest.returns;
  word = rest.word;
  kept = λ i o. rest.kept i o.1 ∙ bit-placed config v i h f ∙ rw o.0;
  gathered =
      gather-cons r list rest.out v
        (λ i k.
          rest.kept (r.start + i) (Disjoint-Outside r list (r.start + i) (ground arith) d)
          ∙ bit-placed config v (r.start + i) h f
          ∙ inside_range r v config i f.ordered k)
        rest.gathered;
}

-- On a 64-bit word and ranges of its bits that do not overlap, none of them the whole word, the
-- loop is defined at every shift and returns a 64-bit word; the ranges, read in their order with
-- the first lowest, hold the low bits of the value, and every other bit is as it was.
pub apply_range_list_to_val-IsApplied :
    (list : RangeList) (config v : ℕ)
    → config < 2 ^ 64
    → AreFields list
    → IsApplied list config v (apply_range_list_to_val config v list)
apply_range_list_to_val-IsApplied [] config v h f = record {
  out = config;
  returns = unfold apply_range_list_to_val in refl;
  word = h;
  kept = λ i o. refl;
  gathered = unfold gather span in omega arith;
}
apply_range_list_to_val-IsApplied (r ∷ list) config v h f = IsApplied-cons r list config v h f (
    apply_range_list_to_val-IsApplied list (placed config v r) (v / 2 ^ width r)
      (placed-lt config v h f.0) f.2)
