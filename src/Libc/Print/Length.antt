-- ===== src/Libc/Print/Length.antt =====
-- How many digits a number has.
use native.Mathlib.Nat.{pow-suc, pow-zero, div-lt_iff_lt-mul, div-lt_self}
use pmu_events.Base.{
  ℕ, zero, suc, ◌+◌, ◌*◌, ◌/◌, ◌%◌, ◌^◌, ◌<◌, ◌≤◌, ◌≡◌, ◌∙◌, arith, ltb, Bytes, length, Bool-cases,
  inl, inr, [], ◌∷◌,
}
use pmu_events.Libc.Print.{print, emit, digit_char}

power : (base k : ℕ) → base ^ suc (suc k) ≡ base ^ suc k * base
power base k = pow-suc base (suc k)

power_one : (base : ℕ) → base ^ 1 ≡ base
power_one base = pow-suc base 0 ∙ rw (pow-zero base) (omega arith)

length-emit :
    (fuel base k n : ℕ) (out : Bytes)
    → 2 ≤ base
    → n < base ^ suc k
    → n < fuel
    → length (emit fuel base n out) ≤ length out + suc k
unfolding emit
length-emit zero base k n out two h f = absurd (omega arith)
length-emit (suc fuel) base zero n out two h f = elim (Bool-cases (ltb n base)) [
  | inl e ↦ rw e (omega arith)
  | inr e ↦ absurd (ground (arith, power_one base))
]
length-emit (suc fuel) base (suc k) n out two h f = elim (Bool-cases (ltb n base)) [
  | inl e ↦ rw e (omega arith)
  | inr e ↦
      let less : n / base < base ^ suc k =
        (div-lt_iff_lt-mul {k = base} (omega arith)).1 (omega (arith, h, power base k)) in
      let smaller : n / base < n = div-lt_self (ground arith) (omega arith) in
      let shorter =
        length-emit fuel base k (n / base) (digit_char (n % base) ∷ out) two less (omega arith) in
      rw e (omega (arith, shorter))
]

-- A number below the k-th power of the base has k digits at most.
pub length-print : (base k n : ℕ) → 2 ≤ base → n < base ^ suc k → length (print base n) ≤ suc k
unfolding print
length-print base k n two h = omega (arith, length-emit (suc n) base k n [] two h (omega arith))
