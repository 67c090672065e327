-- ===== src/Assign/Decimal.antt =====
-- Values that jevents.py writes with decimal digits, against `parse_assignment`, which reads base 16.
use pmu_events.Assign.{asn, parse_value, parse_assignment}
use pmu_events.Assign.Encode.{IsKey, decimal, canonicalize_value, Field, encode}
use pmu_events.Assign.Laws.{parse_assignment_iff}
use pmu_events.Base.{
  ℕ, zero, suc, ◌+◌, ◌-◌, ◌*◌, ◌/◌, ◌%◌, ◌^◌, ◌<◌, ◌≤◌, ◌≡◌, refl, ap, ◌≢◌, ◌∙◌, true, false, some,
  [], ◌∷◌, arith, Bytes, codes, ltb, if◌then◌else◌, inl, inr, Bool-cases, min, ltb→lt, tests,
}
use pmu_events.Libc.Number.{strtoull, finish_number, scan_digits, digit_value, starts_with_digit}
use pmu_events.Libc.Print.{print, emit, scan_digits_digit, scan_digits_stop, print-Lacks}
use pmu_events.Libc.Print.Strtoull.{starts_with_digit-print_all}
use pmu_events.Libc.Number.Start.{strtoull_plain}
use pmu_events.Libc.Text.{streq, streq_iff}

-- The decimal digits of `n`, read in base 16.
unfoldable pub hex_value : ℕ → ℕ → ℕ
hex_value zero n = 0
hex_value (suc fuel) n =
    let more = hex_value fuel (n / 10) * 16 + n % 10 in if ltb n 10 then n else more

scan_digits-emit_hex :
    (fuel n : ℕ) (out : Bytes)
    → n < fuel
    → scan_digits 16 0 (emit fuel 10 n out) ≡ scan_digits 16 (hex_value fuel n) out
unfolding emit hex_value
scan_digits-emit_hex zero n out h = absurd (omega arith)
scan_digits-emit_hex (suc fuel) n out h = elim (Bool-cases (ltb n 10)) [
  | inl e ↦ rw e (
      scan_digits_digit 16 0 n out (omega (tests, ltb→lt n 10 e)) (omega arith)
      ∙ ap (λ (t : ℕ). scan_digits 16 t out) (omega arith))
  | inr e ↦ rw e (
      scan_digits-emit_hex fuel (n / 10) _ (ground arith)
      ∙ scan_digits_digit 16 (hex_value fuel (n / 10)) (n % 10) out (omega arith) (omega arith))
]

le-hex_value : (fuel n : ℕ) → n < fuel → n ≤ hex_value fuel n
unfolding hex_value
le-hex_value zero n h = absurd (omega arith)
le-hex_value (suc fuel) n h = ground (arith, le-hex_value fuel (n / 10))

lt-hex_value : (fuel n : ℕ) → n < fuel → 10 ≤ n → n < hex_value fuel n
unfolding hex_value
lt-hex_value zero n h k = absurd (omega arith)
lt-hex_value (suc fuel) n h k = ground (arith, le-hex_value fuel (n / 10))

scan_digits-print_hex : (n : ℕ) → scan_digits 16 0 (print 10 n) ≡ (hex_value (suc n) n, [])
unfolding print
scan_digits-print_hex n =
    scan_digits-emit_hex (suc n) n [] (omega arith)
    ∙ scan_digits_stop 16 (hex_value (suc n) n) [] (unfold starts_with_digit in refl)

starts_with_digit-wider :
    (s : Bytes) → starts_with_digit 10 s ≡ true → starts_with_digit 16 s ≡ true
unfolding starts_with_digit
starts_with_digit-wider [] h = cc
starts_with_digit-wider (c ∷ s) h = ground arith

abbrev misread : ℕ → ℕ
misread n = min (hex_value (suc n) n) (2 ^ 64 - 1)

finish_number-min : (n : ℕ) → (finish_number false (n, [])).value ≡ min n (2 ^ 64 - 1)
unfolding finish_number
finish_number-min n = ground arith

finish_number-rest : (n : ℕ) → (finish_number false (n, [])).rest ≡ []
unfolding finish_number
finish_number-rest n = ground arith

strtoull-decimal_digits :
    (n : ℕ) → strtoull 16 (print 10 n) ≡ finish_number false (hex_value (suc n) n, [])
unfolding digit_value
strtoull-decimal_digits n =
    strtoull_plain (print 10 n) (starts_with_digit-print_all n)
      (starts_with_digit-wider (print 10 n) (starts_with_digit-print_all n))
      (print-Lacks 10 n b'x' (omega arith) (omega arith) (omega arith))
      (print-Lacks 10 n b'X' (omega arith) (omega arith) (omega arith))
    ∙ ap (finish_number false) (scan_digits-print_hex n)

not_empty : (n : ℕ) → print 10 n ≢ []
not_empty n e = absurd (starts_empty (rw e at (starts_with_digit-print_all n)))
  where
    starts_empty : starts_with_digit 10 [] ≢ true
    starts_empty h = unfold starts_with_digit in cc

not_none : (n : ℕ) → streq (print 10 n) (codes "None") ≡ false
not_none n = elim (Bool-cases (streq (print 10 n) (codes "None"))) [
  | inl e ↦ absurd (starts_n (rw ((streq_iff _ _).0 e) at (starts_with_digit-print_all n)))
  | inr e ↦ e
]
  where
    starts_n : starts_with_digit 10 (codes "None") ≢ true
    starts_n h = unfold starts_with_digit in cc

parse_value-decimal : (n : ℕ) → parse_value (print 10 n) ≡ some (misread n)
unfolding parse_value
parse_value-decimal n =
    rw (not_none n, strtoull-decimal_digits n, finish_number-rest (hex_value (suc n) n))
      (ap some (finish_number-min (hex_value (suc n) n)))

abbrev pub decimal_field : Bytes → ℕ → Field
decimal_field key n = record { key = key; val = decimal n }

-- A decimal value of two digits or more, below the largest word, is read as a larger number, behind
-- a key that is not empty and has no comma and no equal sign.
pub parse_assignment-encode_decimal :
    (key : Bytes) (n : ℕ)
    → IsKey key
    → 10 ≤ n
    → n < 2 ^ 64 - 1
    → (v : ℕ) × (parse_assignment (encode (decimal_field key n)) ≡ some (asn key v)) × (n < v)
unfolding encode canonicalize_value
parse_assignment-encode_decimal key n k two fits = (
  misread n,
  (parse_assignment_iff (encode (decimal_field key n)) (asn key (misread n))).1 (record {
    text = print 10 n;
    splits = refl;
    plain_key = k.no_equal;
    has_key = k.has_key;
    has_text = not_empty n;
    is_value = parse_value-decimal n;
  }),
  omega (arith, lt-hex_value (suc n) n (omega arith) two),
)
