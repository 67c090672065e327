-- ===== src/Libc/Print.antt =====
-- The digits that `%lu` and `%llx` print, and how they scan.
pub mod Strtoull
pub mod Prefix
pub mod Length
use pmu_events.Base.{
  ℕ, zero, suc, ◌+◌, ◌-◌, ◌*◌, ◌/◌, ◌%◌, ◌^◌, ◌<◌, ◌≤◌, ◌≡◌, refl, true, false, ◌≢◌, [], ◌∷◌, ◌++◌,
  arith, ltb, Bytes, codes, if◌then◌else◌, Lacks, lt→ltb, ltb→lt, tests, append-nil, Bool-cases,
  inl, inr, ap, ◌∙◌,
}
use native.Mathlib.Nat.{div-lt_self, mod-lt, div-add-mod'}
use pmu_events.Libc.Number.Start.{strtoull_decimal, strtoull_blank, strtoull_minus, strtoull_hex}
use pmu_events.Libc.Number.{
  Scanned, strtoull, finish_number, digit_value, scan_digits, starts_with_digit,
}

unfoldable pub digit_char : ℕ → ℕ
digit_char d = if ltb d 10 then b'0' + d else b'a' + (d - 10)

-- The digits of `n` in front of `out`, with fuel for the digits.
unfoldable pub emit : ℕ → ℕ → ℕ → Bytes → Bytes
emit zero base n out = out
emit (suc fuel) base n out =
    let more = emit fuel base (n / base) (digit_char (n % base) ∷ out) in
    if ltb n base then digit_char n ∷ out else more

-- Each round divides by the base, so that `n + 1` rounds are enough.
unfoldable pub print : ℕ → ℕ → Bytes
unfolding emit digit_char
print base n = emit (suc n) base n []

print_hex : print 16 0x1f40 ≡ codes "1f40"
unfolding print
print_hex = refl

digit_value-digit_char : (d : ℕ) → d < 36 → digit_value (digit_char d) ≡ d
unfolding digit_value digit_char
digit_value-digit_char d h = ground arith

pub scan_digits_digit :
    (base n d : ℕ) (out : Bytes)
    → d < base
    → base ≤ 36
    → scan_digits base n (digit_char d ∷ out) ≡ scan_digits base (n * base + d) out
unfolding scan_digits
scan_digits_digit base n d out h k =
    let e = digit_value-digit_char d (omega arith) in rw (scan_digits, e, lt→ltb d base h)

digit_char-ne : (d c : ℕ) → d < 36 → d < digit_value c → digit_char d ≢ c
digit_char-ne d c h k e = omega (arith, digit_value-digit_char d h, k, ap digit_value e)

scan_digits-emit :
    (fuel base n : ℕ) (out : Bytes)
    → 2 ≤ base
    → base ≤ 36
    → n < fuel
    → scan_digits base 0 (emit fuel base n out) ≡ scan_digits base n out
unfolding emit
scan_digits-emit zero base n out two top h = absurd (omega arith)
scan_digits-emit (suc fuel) base n out two top h = elim (Bool-cases (ltb n base)) [
  | inl e ↦ rw e (
      rw (scan_digits_digit base 0 n out (ltb→lt n base e) top)
        (ap (λ (m : ℕ). scan_digits base m out) (omega arith)))
  | inr e ↦ rw e (
      scan_digits-emit fuel base (n / base) _ two top
        (ground (arith, div-lt_self {n = n} {k = base}))
      ∙ scan_digits_digit base (n / base) (n % base) out (mod-lt n (omega arith)) top
      ∙ ap (λ (m : ℕ). scan_digits base m out) (div-add-mod' n base))
]

starts_with_digit_char :
    (base d : ℕ) (out : Bytes)
    → d < base
    → base ≤ 36
    → starts_with_digit base (digit_char d ∷ out) ≡ true
unfolding starts_with_digit
starts_with_digit_char base d out h top =
    let e = digit_value-digit_char d (omega arith) in rw (e, lt→ltb d base h)

starts_with_digit-emit :
    (fuel base n : ℕ) (out : Bytes)
    → 2 ≤ base
    → base ≤ 36
    → n < fuel
    → starts_with_digit base (emit fuel base n out) ≡ true
unfolding emit
starts_with_digit-emit zero base n out two top h = absurd (omega arith)
starts_with_digit-emit (suc fuel) base n out two top h = elim (Bool-cases (ltb n base)) [
  | inl e ↦ rw e (starts_with_digit_char base n out (ltb→lt n base e) top)
  | inr e ↦ rw e (
      starts_with_digit-emit fuel base (n / base) _ two top
        (ground (arith, div-lt_self {n = n} {k = base})))
]

pub emit-append :
    (fuel base n : ℕ) (out rest : Bytes)
    → emit fuel base n out ++ rest ≡ emit fuel base n (out ++ rest)
unfolding emit
emit-append zero base n out rest = refl
emit-append (suc fuel) base n out rest =
    ground (arith, emit-append fuel base (n / base) (digit_char (n % base) ∷ out) rest)

-- A byte that is no digit of the base is not printed.
emit-Lacks :
    (fuel base n c : ℕ) (out : Bytes)
    → 2 ≤ base
    → base ≤ 36
    → base ≤ digit_value c
    → Lacks c out
    → Lacks c (emit fuel base n out)
unfolding emit
emit-Lacks zero base n c out two top h lacks = lacks
emit-Lacks (suc fuel) base n c out two top h lacks = elim (Bool-cases (ltb n base)) [
  | inl e ↦
      rw e
        (digit_char-ne n c (omega (tests, ltb→lt n base e)) (omega (tests, ltb→lt n base e)), lacks)
  | inr e ↦ rw e (
      emit-Lacks fuel base (n / base) c _ two top h (
        digit_char-ne (n % base) c (omega (arith, mod-lt n {m = base} (omega arith)))
            (omega (arith, mod-lt n {m = base} (omega arith))),
        lacks,
      ))
]

pub print-Lacks :
    (base n c : ℕ) → 2 ≤ base → base ≤ 36 → base ≤ digit_value c → Lacks c (print base n)
unfolding print
print-Lacks base n c two top h = emit-Lacks (suc n) base n c [] two top h tt

module _ (base n : ℕ) (rest : Bytes) (two : 2 ≤ base) (top : base ≤ 36) where
  pub starts_with_digit-print : starts_with_digit base (print base n ++ rest) ≡ true
  unfolding print
  starts_with_digit-print =
      rw (emit-append (suc n) base n [] rest)
        (starts_with_digit-emit (suc n) base n rest two top (omega arith))

  pub scan_digits-print : scan_digits base 0 (print base n ++ rest) ≡ scan_digits base n rest
  unfolding print
  scan_digits-print =
      rw (emit-append (suc n) base n [] rest)
        (scan_digits-emit (suc n) base n rest two top (omega arith))

pub scan_digits_stop :
    (base n : ℕ) (rest : Bytes)
    → starts_with_digit base rest ≡ false
    → scan_digits base n rest ≡ (n, rest)
unfolding scan_digits starts_with_digit
scan_digits_stop base n [] h = refl
scan_digits_stop base n (c ∷ rest) h = rw h

pub finish_number_fits :
    (n : ℕ) (rest : Bytes)
    → n < 2 ^ 64
    → finish_number false (n, rest) ≡ record { value = n; rest = rest; erange = false }
unfolding finish_number
finish_number_fits n rest h = ground arith

abbrev pub reads : ℕ → Bytes → Scanned
reads n rest = record { value = n; rest = rest; erange = false }
