-- ===== src/Libc/Print/Prefix.antt =====
-- Printed decimal numbers read with base 0.
use pmu_events.Base.{
  ℕ, zero, suc, ◌/◌, ◌%◌, ◌^◌, ◌<◌, ◌≡◌, refl, ◌∙◌, false, inl, inr, [], ◌∷◌, ◌++◌, arith, Bytes,
  ltb, Bool-cases, ltb→lt,
}
use pmu_events.Libc.Number.Prefix.{
  IsStop, IsStop-stops_ten, strtoull_auto_decimal, strtoull_auto_zero,
}
use pmu_events.Libc.Number.{strtoull, lead_zero}
use pmu_events.Libc.Print.{
  print, emit, digit_char, reads, emit-append, scan_digits-print, scan_digits_stop,
  finish_number_fits, starts_with_digit-print,
}

lead_zero-emit :
    (fuel n : ℕ) (out : Bytes) → 0 < n → n < fuel → lead_zero (emit fuel 10 n out) ≡ false
unfolding emit lead_zero digit_char
lead_zero-emit zero n out pos h = absurd (omega arith)
lead_zero-emit (suc fuel) n out pos h = elim (Bool-cases (ltb n 10)) [
  | inl e ↦ rw e (ground arith)
  | inr e ↦
      rw e (lead_zero-emit fuel (n / 10) (digit_char (n % 10) ∷ out) (ground arith) (ground arith))
]

lead_zero-print : (n : ℕ) (rest : Bytes) → 0 < n → lead_zero (print 10 n ++ rest) ≡ false
unfolding print
lead_zero-print n rest pos =
    rw (emit-append (suc n) 10 n [] rest) (lead_zero-emit (suc n) n rest pos (omega arith))

print_zero : (rest : Bytes) → print 10 0 ++ rest ≡ b'0' ∷ rest
unfolding print
print_zero rest = refl

-- A decimal number is read back with base 0 too.
pub strtoull-print_auto :
    (n : ℕ) (rest : Bytes)
    → n < 2 ^ 64
    → IsStop rest
    → strtoull 0 (print 10 n ++ rest) ≡ reads n rest
strtoull-print_auto n rest fits stop = elim (Bool-cases (ltb 0 n)) [
  | inl e ↦
      strtoull_auto_decimal (print 10 n ++ rest)
        (starts_with_digit-print 10 n rest (omega arith) (omega arith))
        (lead_zero-print n rest (ltb→lt 0 n e))
      ∙ rw
          (
            scan_digits-print 10 n rest (omega arith) (omega arith),
            scan_digits_stop 10 n rest (IsStop-stops_ten rest stop),
          )
          (finish_number_fits n rest fits)
  | inr e ↦
      let none_left : n ≡ 0 = ground arith in
      rw (none_left, print_zero rest)
        (strtoull_auto_zero rest stop ∙ finish_number_fits 0 rest (omega arith))
]
