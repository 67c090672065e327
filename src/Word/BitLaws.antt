-- ===== src/Word/BitLaws.antt =====
-- The digits of shifted, truncated and complemented words.
use native.Mathlib.Nat.{
  pow-suc, pow-succ', div-div-eq-div-mul, one-le-pow, mod-eq_of_lt, mod-lt, mul-add-mod_self_right,
  div-add-mod',
}
use pmu_events.Base.{
  ℕ, zero, suc, ◌+◌, ◌-◌, ◌*◌, ◌/◌, ◌%◌, ◌^◌, ◌≤◌, ◌<◌, ◌≡◌, arith, sym, ◌∙◌, ap, ltb, le→ltb,
  if◌then◌else◌, bit_and,
}
use pmu_events.Word.Bit.{bit, bit-zero, bit-lt, bits_ext, bit-bit_and}

doubled : (k x : ℕ) → x * 2 ^ suc k ≡ 2 * (x * 2 ^ k)
doubled k x = omega (arith, ap (λ (t : ℕ). x * t) (pow-suc 2 k))

halved : (k x : ℕ) → x * 2 ^ suc k / 2 ≡ x * 2 ^ k
halved k x = omega (arith, doubled k x)

pub bit-mul_pow : (k x i : ℕ) → bit (x * 2 ^ k) i ≡ (if ltb i k then 0 else bit x (i - k))
bit-mul_pow zero x i =
    let same : x * 2 ^ 0 ≡ x = omega arith in
    let back : i - 0 ≡ i = omega arith in rw (same, le→ltb i 0 (omega arith), back)
bit-mul_pow (suc k) x zero = ground (arith, doubled k x)
bit-mul_pow (suc k) x (suc i) =
    let back : suc i - suc k ≡ i - k = omega arith in
    rw (halved k x) (ground (arith, bit-mul_pow k x i, back))

pub bit-div_pow : (k x i : ℕ) → bit (x / 2 ^ k) i ≡ bit x (k + i)
bit-div_pow zero x i =
    let same : x / 2 ^ 0 ≡ x = omega arith in let sum : 0 + i ≡ i = omega arith in rw (same, sum)
bit-div_pow (suc k) x i =
    let sum : suc k + i ≡ suc (k + i) = omega arith in
    let quotient : x / 2 ^ suc k ≡ x / 2 / 2 ^ k =
      ap (λ (t : ℕ). x / t) (pow-succ' 2 k) ∙ sym (div-div-eq-div-mul x 2 (2 ^ k)) in
    rw (quotient, sum) (bit-div_pow k (x / 2) i)

half_mod_pow : (n x : ℕ) → x % 2 ^ suc n ≡ x / 2 % 2 ^ n * 2 + x % 2
half_mod_pow n x =
    let r = x / 2 % 2 ^ n * 2 + x % 2 in
    let q = x / 2 / 2 ^ n in
    let below : r < 2 ^ suc n =
      omega (arith, pow-suc 2 n, mod-lt (x / 2) {m = 2 ^ n} (one-le-pow n 2 (omega arith))) in
    let sum : x ≡ q * 2 ^ suc n + r = omega (arith, doubled n q, div-add-mod' (x / 2) (2 ^ n)) in
    ap (λ (t : ℕ). t % 2 ^ suc n) sum ∙ mul-add-mod_self_right q (2 ^ suc n) r ∙ mod-eq_of_lt below

pub bit-mod_pow : (n x i : ℕ) → bit (x % 2 ^ n) i ≡ (if ltb i n then bit x i else 0)
bit-mod_pow zero x i =
    let none_left : x % 1 ≡ 0 = omega arith in rw (none_left, le→ltb i 0 (omega arith)) (bit-zero i)
bit-mod_pow (suc n) x zero = ground (arith, half_mod_pow n x)
bit-mod_pow (suc n) x (suc i) =
    let half : x % 2 ^ suc n / 2 ≡ x / 2 % 2 ^ n = omega (arith, half_mod_pow n x) in
    rw half (ground (arith, bit-mod_pow n (x / 2) i))

pub bit-complement :
    (n x i : ℕ) → x < 2 ^ n → bit (2 ^ n - 1 - x) i ≡ (if ltb i n then 1 - bit x i else 0)
bit-complement zero x i h =
    let none_left : 0 - x ≡ 0 = omega arith in rw (none_left, le→ltb i 0 (omega arith)) (bit-zero i)
bit-complement (suc n) x zero h = ground (arith, pow-suc 2 n, one-le-pow n 2)
bit-complement (suc n) x (suc i) h =
    let half : (2 ^ suc n - 1 - x) / 2 ≡ 2 ^ n - 1 - x / 2 =
      omega (arith, pow-suc 2 n, one-le-pow n 2 (omega arith)) in
    rw half (ground (arith, bit-complement n (x / 2) i (omega (arith, pow-suc 2 n))))

-- A 64-bit word has no digit from 64 on, and the other way round.
pub bit_above : (x i : ℕ) → x < 2 ^ 64 → 64 ≤ i → bit x i ≡ 0
bit_above x i h k =
    ap (λ (t : ℕ). bit t i) (sym (mod-eq_of_lt h)) ∙ bit-mod_pow 64 x i ∙ rw (le→ltb i 64 k)

pub lt_of_bits : (x : ℕ) → ((i : ℕ) → 64 ≤ i → bit x i ≡ 0) → x < 2 ^ 64
lt_of_bits x h = let same : x % 2 ^ 64 ≡ x = bits_ext (x % 2 ^ 64) x cut in omega arith
  where
    cut : (i : ℕ) → bit (x % 2 ^ 64) i ≡ bit x i
    cut i = ground (arith, bit-mod_pow 64 x i, h i)

bit-ones : (w i : ℕ) → bit (2 ^ w - 1) i ≡ (if ltb i w then 1 else 0)
bit-ones w i = ground (arith, bit-complement w 0 i (omega (arith, one-le-pow w 2)), bit-zero i)

-- A mask of `w` ones keeps the last `w` bits.
pub bit_and_ones : (w x : ℕ) → bit_and x (2 ^ w - 1) ≡ x % 2 ^ w
bit_and_ones w x =
    bits_ext (bit_and x (2 ^ w - 1)) (x % 2 ^ w)
      λ i. ground (arith, bit-bit_and x (2 ^ w - 1) i, bit-ones w i, bit-mod_pow w x i, bit-lt x i)
