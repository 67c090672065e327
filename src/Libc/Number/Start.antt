-- ===== src/Libc/Number/Start.antt =====
-- What `strtoull` returns, by the way the text starts.
use pmu_events.Base.{
  ℕ, ◌≡◌, refl, Bool, true, false, some, [], ◌∷◌, arith, Bytes, Lacks, none, Option-cases, ◌∙◌, inl,
  inr,
}
use pmu_events.Libc.Number.{
  skip_space, take_sign, scan_digits, starts_with_digit, strip_hex, finish_number, scan_unsigned,
  prefixed, strtoull, is_digit,
}

skip_space_digit : (s : Bytes) → starts_with_digit 10 s ≡ true → skip_space s ≡ s
unfolding skip_space starts_with_digit
skip_space_digit [] h = refl
skip_space_digit (c ∷ s) h = ground arith

take_sign_digit : (s : Bytes) → starts_with_digit 10 s ≡ true → take_sign s ≡ (false, s)
unfolding take_sign starts_with_digit
take_sign_digit [] h = refl
take_sign_digit (c ∷ s) h = ground arith

prefixed_ten : (s : Bytes) → prefixed 10 s ≡ (10, s)
unfolding prefixed
prefixed_ten s = elim (Option-cases (strip_hex s)) [
  | inl e ↦ rw (e, prefixed)
  | inr (t, e) ↦ rw (e, prefixed)
]

-- The steps of `strtoull`, each of them shut.
pub strtoull_steps :
    (base : ℕ) (s : Bytes) (minus : Bool) (u : Bytes) (p : ℕ × Bytes)
    → take_sign (skip_space s) ≡ (minus, u)
    → prefixed base u ≡ p
    → strtoull base s ≡ scan_unsigned p.0 s minus p.1
unfolding strtoull
strtoull_steps base s minus u p e k = rw (e, k)

pub scan_unsigned_digit :
    (base : ℕ) (whole : Bytes) (minus : Bool) (s : Bytes)
    → starts_with_digit base s ≡ true
    → scan_unsigned base whole minus s ≡ finish_number minus (scan_digits base 0 s)
unfolding scan_unsigned
scan_unsigned_digit base whole minus s h = rw h

scan_unsigned_stop :
    (base : ℕ) (whole : Bytes) (minus : Bool) (s : Bytes)
    → starts_with_digit base s ≡ false
    → scan_unsigned base whole minus s ≡ record { value = 0; rest = whole; erange = false }
unfolding scan_unsigned
scan_unsigned_stop base whole minus s h = rw h

take_sign_blank : (s : Bytes) → take_sign (skip_space (b' ' ∷ s)) ≡ take_sign (skip_space s)
unfolding skip_space
take_sign_blank s = refl

take_sign_minus : (s : Bytes) → take_sign (skip_space (b'-' ∷ s)) ≡ (true, s)
unfolding skip_space take_sign
take_sign_minus s = refl

pub take_sign_start :
    (s : Bytes) → starts_with_digit 10 s ≡ true → take_sign (skip_space s) ≡ (false, s)
take_sign_start s h = rw (skip_space_digit s h) (take_sign_digit s h)

-- On a text that starts with a digit, base 10 reads all the digits.
pub strtoull_decimal :
    (s : Bytes)
    → starts_with_digit 10 s ≡ true
    → strtoull 10 s ≡ finish_number false (scan_digits 10 0 s)
strtoull_decimal s h =
    strtoull_steps 10 s false s (10, s) (take_sign_start s h) (prefixed_ten s)
    ∙ scan_unsigned_digit 10 s false s h

-- A blank in front is skipped.
pub strtoull_blank :
    (s : Bytes)
    → starts_with_digit 10 s ≡ true
    → strtoull 10 (b' ' ∷ s) ≡ finish_number false (scan_digits 10 0 s)
strtoull_blank s h =
    strtoull_steps 10 (b' ' ∷ s) false s (10, s) (take_sign_blank s ∙ take_sign_start s h)
      (prefixed_ten s)
    ∙ scan_unsigned_digit 10 (b' ' ∷ s) false s h

-- A minus in front negates.
pub strtoull_minus :
    (s : Bytes)
    → starts_with_digit 10 s ≡ true
    → strtoull 10 (b'-' ∷ s) ≡ finish_number true (scan_digits 10 0 s)
strtoull_minus s h =
    strtoull_steps 10 (b'-' ∷ s) true s (10, s) (take_sign_minus s) (prefixed_ten s)
    ∙ scan_unsigned_digit 10 (b'-' ∷ s) true s h

-- Behind a minus that no digit follows, nothing is read.
pub strtoull_dash :
    (s : Bytes)
    → starts_with_digit 10 s ≡ false
    → strtoull 10 (b'-' ∷ s) ≡ record { value = 0; rest = b'-' ∷ s; erange = false }
strtoull_dash s h =
    strtoull_steps 10 (b'-' ∷ s) true s (10, s) (take_sign_minus s) (prefixed_ten s)
    ∙ scan_unsigned_stop 10 (b'-' ∷ s) true s h

strip_hex_prefix :
    (s : Bytes) → starts_with_digit 16 s ≡ true → strip_hex (b'0' ∷ b'x' ∷ s) ≡ some s
unfolding strip_hex
strip_hex_prefix s h = ground arith

prefixed_strip : (s t : Bytes) → strip_hex t ≡ some s → prefixed 16 t ≡ (16, s)
unfolding prefixed
prefixed_strip s t h = rw (h, prefixed)

prefixed_hex : (s : Bytes) → starts_with_digit 16 s ≡ true → prefixed 16 (b'0' ∷ b'x' ∷ s) ≡ (16, s)
prefixed_hex s h = prefixed_strip s (b'0' ∷ b'x' ∷ s) (strip_hex_prefix s h)

-- `0x` before a hexadecimal digit is a prefix.
pub strtoull_hex :
    (s : Bytes)
    → starts_with_digit 16 s ≡ true
    → strtoull 16 (b'0' ∷ b'x' ∷ s) ≡ finish_number false (scan_digits 16 0 s)
strtoull_hex s h =
    strtoull_steps 16 (b'0' ∷ b'x' ∷ s) false (b'0' ∷ b'x' ∷ s) (16, s) take_sign_hex
      (prefixed_hex s h)
    ∙ scan_unsigned_digit 16 (b'0' ∷ b'x' ∷ s) false s h
  where
    take_sign_hex : take_sign (skip_space (b'0' ∷ b'x' ∷ s)) ≡ (false, b'0' ∷ b'x' ∷ s)
    take_sign_hex = unfold skip_space take_sign in refl

digit_starts :
    (c : ℕ)
    → is_digit c ≡ true
    → (starts_with_digit 10 (c ∷ []) ≡ true) × (starts_with_digit 16 (c ∷ []) ≡ true)
unfolding starts_with_digit
digit_starts c h = ground arith

prefixed_one : (c : ℕ) → prefixed 16 (c ∷ []) ≡ (16, c ∷ [])
unfolding prefixed
prefixed_one c = refl

-- A lone decimal digit.
pub strtoull_one_digit :
    (c : ℕ)
    → is_digit c ≡ true
    → strtoull 16 (c ∷ []) ≡ finish_number false (scan_digits 16 0 (c ∷ []))
strtoull_one_digit c h =
    strtoull_steps 16 (c ∷ []) false (c ∷ []) (16, c ∷ [])
      (take_sign_start (c ∷ []) (digit_starts c h).0) (prefixed_one c)
    ∙ scan_unsigned_digit 16 (c ∷ []) false (c ∷ []) (digit_starts c h).1

strip_hex-none : (s : Bytes) → Lacks b'x' s → Lacks b'X' s → strip_hex s ≡ none
unfolding strip_hex
strip_hex-none [] h k = refl
strip_hex-none (z ∷ []) h k = refl
strip_hex-none (z ∷ x ∷ s) h k = ground arith

prefixed_plain : (s : Bytes) → strip_hex s ≡ none → prefixed 16 s ≡ (16, s)
unfolding prefixed
prefixed_plain s h = rw (h, prefixed)

-- Decimal digits with no `0x` in front are read in base 16 like any others.
pub strtoull_plain :
    (s : Bytes)
    → starts_with_digit 10 s ≡ true
    → starts_with_digit 16 s ≡ true
    → Lacks b'x' s
    → Lacks b'X' s
    → strtoull 16 s ≡ finish_number false (scan_digits 16 0 s)
strtoull_plain s h k no_x no_upper =
    strtoull_steps 16 s false s (16, s) (take_sign_start s h)
      (prefixed_plain s (strip_hex-none s no_x no_upper))
    ∙ scan_unsigned_digit 16 s false s k
