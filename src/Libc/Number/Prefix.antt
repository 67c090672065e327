-- ===== src/Libc/Number/Prefix.antt =====
-- `strtoull` with base 0, which goes by the prefix of the number.
use pmu_events.Base.{
  ℕ, ◌<◌, ◌≤◌, ◌≡◌, refl, ap, ◌∙◌, true, false, none, [], ◌∷◌, arith, if◌then◌else◌, Bytes,
}
use pmu_events.Libc.Number.Start.{strtoull_steps, scan_unsigned_digit, take_sign_start}
use pmu_events.Libc.Number.{
  strtoull, strip_hex, lead_zero, prefixed, starts_with_digit, scan_digits, finish_number,
  digit_value, is_digit,
}

-- The text starts with nothing that stands above the digits, such as a digit or a letter.
abbrev pub IsStop : Bytes → Type 0
IsStop [] = Unit
IsStop (c ∷ s) = c < b'0'

strip_hex-none : (s : Bytes) → lead_zero s ≡ false → strip_hex s ≡ none
unfolding strip_hex lead_zero
strip_hex-none [] h = refl
strip_hex-none (z ∷ []) h = refl
strip_hex-none (z ∷ x ∷ s) h = ground arith

strip_hex_zero : (rest : Bytes) → IsStop rest → strip_hex (b'0' ∷ rest) ≡ none
unfolding strip_hex
strip_hex_zero [] h = refl
strip_hex_zero (c ∷ rest) h = ground arith

prefixed_auto : (s : Bytes) → strip_hex s ≡ none → prefixed 0 s ≡ (if lead_zero s then 8 else 10, s)
unfolding prefixed
prefixed_auto s h = rw (prefixed, h) refl

-- Without a leading zero the base is 10.
pub strtoull_auto_decimal :
    (s : Bytes)
    → starts_with_digit 10 s ≡ true
    → lead_zero s ≡ false
    → strtoull 0 s ≡ finish_number false (scan_digits 10 0 s)
strtoull_auto_decimal s h k =
    strtoull_steps 0 s false s (10, s) (take_sign_start s h)
      (prefixed_auto s (strip_hex-none s k) ∙ rw k refl)
    ∙ scan_unsigned_digit 10 s false s h

IsStop-stops :
    (base : ℕ) (rest : Bytes) → base ≤ 36 → IsStop rest → starts_with_digit base rest ≡ false
unfolding starts_with_digit digit_value is_digit
IsStop-stops base [] top h = refl
IsStop-stops base (c ∷ rest) top h = ground arith

pub IsStop-stops_ten : (rest : Bytes) → IsStop rest → starts_with_digit 10 rest ≡ false
IsStop-stops_ten rest h = IsStop-stops 10 rest (omega arith) h

scan_digits_zero :
    (rest : Bytes) → starts_with_digit 8 rest ≡ false → scan_digits 8 0 (b'0' ∷ rest) ≡ (0, rest)
unfolding scan_digits starts_with_digit digit_value is_digit
scan_digits_zero [] h = refl
scan_digits_zero (c ∷ rest) h = rw h refl

-- A zero alone is octal, and is 0 all the same.
pub strtoull_auto_zero :
    (rest : Bytes) → IsStop rest → strtoull 0 (b'0' ∷ rest) ≡ finish_number false (0, rest)
strtoull_auto_zero rest h =
    let digit : starts_with_digit 10 (b'0' ∷ rest) ≡ true =
      unfold starts_with_digit digit_value is_digit in refl in
    let octal : starts_with_digit 8 (b'0' ∷ rest) ≡ true =
      unfold starts_with_digit digit_value is_digit in refl in
    strtoull_steps 0 (b'0' ∷ rest) false (b'0' ∷ rest) (8, b'0' ∷ rest)
      (take_sign_start (b'0' ∷ rest) digit)
      (prefixed_auto (b'0' ∷ rest) (strip_hex_zero rest h) ∙ (unfold lead_zero in refl))
    ∙ scan_unsigned_digit 8 (b'0' ∷ rest) false (b'0' ∷ rest) octal
    ∙ ap (finish_number false) (scan_digits_zero rest (IsStop-stops 8 rest (omega arith) h))
