-- ===== src/Libc/Print/Strtoull.antt =====
-- What `strtoull` reads from printed numbers.
use pmu_events.Base.{
  ℕ, ◌-◌, ◌%◌, ◌^◌, ◌<◌, ◌≤◌, ◌≡◌, refl, true, false, [], ◌∷◌, ◌++◌, arith, Bytes, lt→ltb,
  append-nil, ap, ◌∙◌,
}
use pmu_events.Libc.Number.Start.{
  strtoull_one_digit, strtoull_decimal, strtoull_blank, strtoull_minus, strtoull_hex,
}
use pmu_events.Libc.Number.{is_digit, strtoull, finish_number, scan_digits, starts_with_digit}
use pmu_events.Libc.Print.{
  print, digit_char, reads, scan_digits-print, scan_digits_stop, finish_number_fits,
  starts_with_digit-print, scan_digits_digit,
}

module _ (n : ℕ) (rest : Bytes) (fits : n < 2 ^ 64) where
  scan_number :
      (base : ℕ)
      → 2 ≤ base
      → base ≤ 36
      → starts_with_digit base rest ≡ false
      → finish_number false (scan_digits base 0 (print base n ++ rest)) ≡ reads n rest
  scan_number base two top stop =
      rw (scan_digits-print base n rest two top, scan_digits_stop base n rest stop)
        (finish_number_fits n rest fits)

  -- `strtoull` reads a printed number back, up to a byte that is no digit.
  pub strtoull-print :
      starts_with_digit 10 rest ≡ false → strtoull 10 (print 10 n ++ rest) ≡ reads n rest
  strtoull-print stop =
      strtoull_decimal _ (starts_with_digit-print 10 n rest (omega arith) (omega arith))
      ∙ scan_number 10 (omega arith) (omega arith) stop

  pub strtoull-print_blank :
      starts_with_digit 10 rest ≡ false → strtoull 10 (b' ' ∷ (print 10 n ++ rest)) ≡ reads n rest
  strtoull-print_blank stop =
      strtoull_blank _ (starts_with_digit-print 10 n rest (omega arith) (omega arith))
      ∙ scan_number 10 (omega arith) (omega arith) stop

  strtoull-print_hex :
      starts_with_digit 16 rest ≡ false
      → strtoull 16 (b'0' ∷ b'x' ∷ (print 16 n ++ rest)) ≡ reads n rest
  strtoull-print_hex stop =
      strtoull_hex _ (starts_with_digit-print 16 n rest (omega arith) (omega arith))
      ∙ scan_number 16 (omega arith) (omega arith) stop

finish_number_negates :
    (n : ℕ) → n < 2 ^ 64 → finish_number true (n, []) ≡ reads ((2 ^ 64 - n) % 2 ^ 64) []
unfolding finish_number
finish_number_negates n h = ground arith

scan_digits-print_all : (n : ℕ) → scan_digits 10 0 (print 10 n) ≡ (n, [])
scan_digits-print_all n =
    rw append-nil at (scan_digits-print 10 n [] (omega arith) (omega arith))
    ∙ scan_digits_stop 10 n [] (unfold starts_with_digit in refl)

pub starts_with_digit-print_all : (n : ℕ) → starts_with_digit 10 (print 10 n) ≡ true
starts_with_digit-print_all n =
    rw append-nil at (starts_with_digit-print 10 n [] (omega arith) (omega arith))

pub strtoull-print_all : (n : ℕ) → n < 2 ^ 64 → strtoull 10 (print 10 n) ≡ reads n []
strtoull-print_all n fits =
    strtoull_decimal (print 10 n) (starts_with_digit-print_all n)
    ∙ ap (finish_number false) (scan_digits-print_all n)
    ∙ finish_number_fits n [] fits

pub strtoull-print_all_blank : (n : ℕ) → n < 2 ^ 64 → strtoull 10 (b' ' ∷ print 10 n) ≡ reads n []
strtoull-print_all_blank n fits =
    strtoull_blank (print 10 n) (starts_with_digit-print_all n)
    ∙ ap (finish_number false) (scan_digits-print_all n)
    ∙ finish_number_fits n [] fits

-- A minus in front of a printed number gives its negation modulo 2 ^ 64.
pub strtoull-print_minus :
    (n : ℕ) → n < 2 ^ 64 → strtoull 10 (b'-' ∷ print 10 n) ≡ reads ((2 ^ 64 - n) % 2 ^ 64) []
strtoull-print_minus n fits =
    strtoull_minus (print 10 n) (starts_with_digit-print_all n)
    ∙ ap (finish_number true) (scan_digits-print_all n)
    ∙ finish_number_negates n fits

-- A lone digit below 10, in base 16.
pub strtoull_digit : (x : ℕ) → x < 10 → strtoull 16 (digit_char x ∷ []) ≡ reads x []
strtoull_digit x h =
    strtoull_one_digit (digit_char x) (is_digit_char x h)
    ∙ ap (finish_number false) (
        scan_digits_digit 16 0 x [] (omega arith) (omega arith)
        ∙ ap (λ (n : ℕ). scan_digits 16 n []) (omega arith)
        ∙ scan_digits_stop 16 x [] (unfold starts_with_digit in refl))
    ∙ finish_number_fits x [] (omega arith)
  where
    is_digit_char : (d : ℕ) → d < 10 → is_digit (digit_char d) ≡ true
    is_digit_char d k = unfold is_digit digit_char in ground arith

pub strtoull-print_hex_all :
    (n : ℕ) → n < 2 ^ 64 → strtoull 16 (b'0' ∷ b'x' ∷ print 16 n) ≡ reads n []
strtoull-print_hex_all n fits =
    rw append-nil at (strtoull-print_hex n [] fits (unfold starts_with_digit in refl))

pub print_one_digit : (x : ℕ) → x < 10 → print 10 x ≡ digit_char x ∷ []
unfolding print
print_one_digit x h = rw (lt→ltb x 10 h)
