-- ===== src/Libc/Number/Rest.antt =====
-- What `strtoull` leaves of a text is no longer than the text, and shorter if it starts with a digit.
use pmu_events.Base.{
  ℕ, ◌+◌, ◌*◌, ◌<◌, ◌≤◌, ◌≡◌, refl, inl, inr, Bool, true, false, some, [], ◌∷◌, arith,
  if◌then◌else◌, Bytes, length, Option-cases, Bool-cases,
}
use pmu_events.Libc.Number.Start.{strtoull_steps, take_sign_start}
use pmu_events.Libc.Number.{
  strtoull, skip_space, take_sign, prefixed, strip_hex, lead_zero, scan_unsigned, finish_number,
  scan_digits, starts_with_digit, digit_value, is_digit,
}

skip_space-le : (s : Bytes) → length (skip_space s) ≤ length s
unfolding skip_space
skip_space-le [] = omega arith
skip_space-le (c ∷ s) = ground (arith, skip_space-le s)

take_sign-le : (s : Bytes) → length (take_sign s).1 ≤ length s
unfolding take_sign
take_sign-le [] = omega arith
take_sign-le (c ∷ s) = ground arith

strip_hex-lt : (s : Bytes) {r : Bytes} → strip_hex s ≡ some r → length r < length s
unfolding strip_hex
strip_hex-lt [] {r} h = cc
strip_hex-lt (z ∷ []) {r} h = cc
strip_hex-lt (z ∷ x ∷ s) {r} h = ground arith

prefixed-le : (base : ℕ) (s : Bytes) → length (prefixed base s).1 ≤ length s
unfolding prefixed
prefixed-le base s = elim (Option-cases (strip_hex s)) [
  | inl e ↦ rw (prefixed, e) (ground arith)
  | inr (r, e) ↦ rw (prefixed, e) (ground (arith, strip_hex-lt s e))
]

scan_digits-le : (base n : ℕ) (s : Bytes) → length (scan_digits base n s).1 ≤ length s
unfolding scan_digits
scan_digits-le base n [] = omega arith
scan_digits-le base n (c ∷ s) = ground (arith, scan_digits-le base (n * base + digit_value c) s)

scan_digits-lt :
    (base n : ℕ) (s : Bytes)
    → starts_with_digit base s ≡ true
    → length (scan_digits base n s).1 < length s
unfolding scan_digits starts_with_digit
scan_digits-lt base n [] h = cc
scan_digits-lt base n (c ∷ s) h =
    rw (scan_digits, h) (omega (arith, scan_digits-le base (n * base + digit_value c) s))

finish_number-rest : (minus : Bool) (p : ℕ × Bytes) → (finish_number minus p).rest ≡ p.1
unfolding finish_number
finish_number-rest minus (n, rest) = ground arith

scan_unsigned-le :
    (base : ℕ) (whole : Bytes) (minus : Bool) (s : Bytes)
    → length s ≤ length whole
    → length (scan_unsigned base whole minus s).rest ≤ length whole
unfolding scan_unsigned
scan_unsigned-le base whole minus s h = elim (Bool-cases (starts_with_digit base s)) [
  | inl e ↦
      rw (scan_unsigned, e, finish_number-rest minus (scan_digits base 0 s))
        (omega (arith, scan_digits-le base 0 s))
  | inr e ↦ rw (scan_unsigned, e) (omega arith)
]

pub strtoull-le : (base : ℕ) (s : Bytes) → length (strtoull base s).rest ≤ length s
unfolding strtoull
strtoull-le base s =
    let (minus, u) = take_sign (skip_space s) in
    let (b, digits) = prefixed base u in
    scan_unsigned-le b s minus digits
      (omega (arith, prefixed-le base u, take_sign-le (skip_space s), skip_space-le s))

scan_unsigned-lt :
    (base : ℕ) (whole : Bytes) (minus : Bool) (s : Bytes)
    → length s ≤ length whole
    → starts_with_digit base s ≡ true
    → length (scan_unsigned base whole minus s).rest < length whole
unfolding scan_unsigned
scan_unsigned-lt base whole minus s h e =
    rw (scan_unsigned, e, finish_number-rest minus (scan_digits base 0 s))
      (omega (arith, scan_digits-lt base 0 s e))

strip_hex-digit : (s : Bytes) {r : Bytes} → strip_hex s ≡ some r → starts_with_digit 16 r ≡ true
unfolding strip_hex
strip_hex-digit [] {r} h = cc
strip_hex-digit (z ∷ []) {r} h = cc
strip_hex-digit (z ∷ x ∷ s) {r} h = ground arith

own_base :
    (s : Bytes)
    → starts_with_digit 10 s ≡ true
    → starts_with_digit (if lead_zero s then 8 else 10) s ≡ true
unfolding lead_zero starts_with_digit digit_value is_digit
own_base [] h = cc
own_base (c ∷ s) h = ground arith

-- Whatever the prefix, a digit of the base follows.
prefixed-digit :
    (s : Bytes)
    → starts_with_digit 10 s ≡ true
    → starts_with_digit (prefixed 0 s).0 (prefixed 0 s).1 ≡ true
unfolding prefixed
prefixed-digit s h = elim (Option-cases (strip_hex s)) [
  | inl e ↦ rw (prefixed, e) (own_base s h)
  | inr (r, e) ↦ rw (prefixed, e) (strip_hex-digit s e)
]

-- With base 0 too, a digit is read if the text starts with one.
pub strtoull_auto-lt :
    (s : Bytes) → starts_with_digit 10 s ≡ true → length (strtoull 0 s).rest < length s
strtoull_auto-lt s h =
    let p = prefixed 0 s in
    rw (strtoull_steps 0 s false s p (take_sign_start s h) refl)
      (scan_unsigned-lt p.0 s false p.1 (prefixed-le 0 s) (prefixed-digit s h))
