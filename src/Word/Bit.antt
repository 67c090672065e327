-- ===== src/Word/Bit.antt =====
-- The binary digits of a number, and those of what `&` and `|` return.
use Prim.Native.Nat.{digits, bit_and-bitwise, bit_or-bitwise}
use pmu_events.Base.{
  ℕ, zero, suc, ◌+◌, ◌/◌, ◌%◌, ◌≤◌, ◌<◌, min, max, bit_and, bit_or, ◌≡◌, refl, arith, sym, ◌∙◌, ap,
}

-- Bit `i` of `x`, 0 or 1.
abbrev pub bit : ℕ → ℕ → ℕ
bit x zero = x % 2
bit x (suc i) = bit (x / 2) i

pub bit-lt : (x i : ℕ) → bit x i < 2
bit-lt x zero = omega arith
bit-lt x (suc i) = bit-lt (x / 2) i

pub bit-zero : (i : ℕ) → bit 0 i ≡ 0
bit-zero zero = refl
bit-zero (suc i) = bit-zero i

-- An operation on digits, `f`, with `z` for what is left when the first number has run out.
module _ (z : ℕ → ℕ) (f : ℕ → ℕ → ℕ) (ends : (b i : ℕ) → bit (z b) i ≡ f 0 (bit b i))
    (digit : (a b : ℕ) → f (a % 2) (b % 2) < 2) where
  bit-digits : (n a b i : ℕ) → a ≤ n → bit (digits z f n a b) i ≡ f (bit a i) (bit b i)
  bit-digits zero zero b i h = ends b i ∙ ap (λ (t : ℕ). f t (bit b i)) (sym (bit-zero i))
  bit-digits (suc n) zero b i h = ends b i ∙ ap (λ (t : ℕ). f t (bit b i)) (sym (bit-zero i))
  bit-digits zero (suc a) b i h = absurd (omega arith)
  bit-digits (suc n) (suc a) b zero h = omega (arith, digit (suc a) b)
  bit-digits (suc n) (suc a) b (suc i) h =
      ap (λ (t : ℕ). bit t i) (omega (arith, digit (suc a) b))
      ∙ bit-digits n (suc a / 2) (b / 2) i (omega arith)

pub bit-bit_and : (a b i : ℕ) → bit (bit_and a b) i ≡ min (bit a i) (bit b i)
bit-bit_and a b i =
    ap (λ (t : ℕ). bit t i) (λ j. bit_and-bitwise a b j)
    ∙ bit-digits (λ _. 0) min (λ c k. bit-zero k ∙ omega arith) (λ c d. omega arith) a a b i
        (omega arith)

pub bit-bit_or : (a b i : ℕ) → bit (bit_or a b) i ≡ max (bit a i) (bit b i)
bit-bit_or a b i =
    ap (λ (t : ℕ). bit t i) (λ j. bit_or-bitwise a b j)
    ∙ bit-digits (λ c. c) max (λ c k. omega arith) (λ c d. omega arith) a a b i (omega arith)

bits_ext_below : (n a b : ℕ) → a ≤ n → b ≤ n → ((i : ℕ) → bit a i ≡ bit b i) → a ≡ b
bits_ext_below zero a b p q h = omega arith
bits_ext_below (suc n) a b p q h =
    omega
      (arith, h 0, bits_ext_below n (a / 2) (b / 2) (omega arith) (omega arith) (λ i. h (suc i)))

-- Two numbers with the same digits are equal.
pub bits_ext : (a b : ℕ) → ((i : ℕ) → bit a i ≡ bit b i) → a ≡ b
bits_ext a b h = bits_ext_below (a + b) a b (omega arith) (omega arith) h
