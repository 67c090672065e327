-- ===== src/Libc/Number.antt =====
-- `strtoull`, and `strtoul` where `unsigned long` has 64 bits, as on both platforms of the library.
-- In the C locale: white space, a sign, `0x` in base 16, digits; with no digit nothing is read.
pub mod Start
pub mod Prefix
pub mod Rest
use pmu_events.Base.{
  ℕ, ◌+◌, ◌-◌, ◌*◌, ◌%◌, ◌^◌, ◌<◌, ◌≤◌, ◌≡◌, refl, Bool, true, false, ◌&&◌, ◌||◌, Option, none,
  some, List, [], ◌∷◌, ◌++◌, arith, ltb, leb, ◌==◌, if◌then◌else◌, Bytes, codes, Option-cases, inl,
  inr, ◌⊎◌, ltb→lt, Bool-cases, ap, sym, ◌∙◌,
}

abbrev pub ullong_max : ℕ
ullong_max = 2 ^ 64 - 1

-- `rest` is what `endptr` points at; `erange` says that `errno` becomes `ERANGE`.
pub record Scanned : Type 0 where
  pub value : ℕ
  pub rest : Bytes
  pub erange : Bool

unfoldable pub is_space : ℕ → Bool
is_space c = (c == b' ') || (leb 9 c && leb c 13)

unfoldable pub is_digit : ℕ → Bool
is_digit c = leb b'0' c && leb c b'9'

-- What `c` is worth as a digit in any base, or 36.
unfoldable pub digit_value : ℕ → ℕ
unfolding is_digit
digit_value c =
    if is_digit c
    then c - b'0'
    else if leb b'a' c && leb c b'z'
    then c - b'a' + 10
    else if leb b'A' c && leb c b'Z'
    then c - b'A' + 10
    else 36

unfoldable pub skip_space : Bytes → Bytes
unfolding is_space
skip_space [] = []
skip_space (c ∷ s) = if is_space c then skip_space s else c ∷ s

-- The sign, `true` for a minus, and the text behind it.
unfoldable pub take_sign : Bytes → Bool × Bytes
take_sign [] = (false, [])
take_sign (c ∷ s) =
    if c == b'-' then (true, s) else if c == b'+' then (false, s) else (false, c ∷ s)

-- The digits behind the number `n`, with no bound.
unfoldable pub scan_digits : ℕ → ℕ → Bytes → ℕ × Bytes
unfolding digit_value
scan_digits base n [] = (n, [])
scan_digits base n (c ∷ s) =
    let more = scan_digits base (n * base + digit_value c) s in
    if ltb (digit_value c) base then more else (n, c ∷ s)

unfoldable pub starts_with_digit : ℕ → Bytes → Bool
unfolding digit_value
starts_with_digit base [] = false
starts_with_digit base (c ∷ s) = ltb (digit_value c) base

-- `0x` or `0X`, where a hexadecimal digit follows.
unfoldable pub strip_hex : Bytes → Option Bytes
unfolding starts_with_digit
strip_hex [] = none
strip_hex (z ∷ []) = none
strip_hex (z ∷ x ∷ s) =
    if (z == b'0') && ((x == b'x') || (x == b'X')) && starts_with_digit 16 s then some s else none

-- A number that does not fit gives the maximum; a minus negates modulo 2 ^ 64.
unfoldable pub finish_number : Bool → ℕ × Bytes → Scanned
finish_number minus (n, rest) =
    if leb (2 ^ 64) n
    then record { value = ullong_max; rest = rest; erange = true }
    else record { value = if minus then (2 ^ 64 - n) % 2 ^ 64 else n; rest = rest; erange = false }

-- The digits that follow the sign, if there is one; `whole` is the text from the start.
unfoldable pub scan_unsigned : ℕ → Bytes → Bool → Bytes → Scanned
unfolding starts_with_digit scan_digits finish_number
scan_unsigned base whole minus s =
    if starts_with_digit base s
    then finish_number minus (scan_digits base 0 s)
    else record { value = 0; rest = whole; erange = false }

unfoldable pub lead_zero : Bytes → Bool
lead_zero [] = false
lead_zero (c ∷ r) = c == b'0'

-- Base 0 goes by the prefix: `0x` for 16, `0` for 8, else 10.
unfoldable pub prefixed : ℕ → Bytes → ℕ × Bytes
unfolding strip_hex lead_zero
prefixed base s = elim (strip_hex s) [
  | some digits ↦ if (base == 0) || (base == 16) then (16, digits) else (base, s)
  | none ↦ if base == 0 then (if lead_zero s then 8 else 10, s) else (base, s)
]

unfoldable pub strtoull : ℕ → Bytes → Scanned
unfolding skip_space take_sign prefixed scan_unsigned
strtoull base s =
    let (minus, u) = take_sign (skip_space s) in
    let (b, digits) = prefixed base u in scan_unsigned b s minus digits

signed :
    strtoull 10 (codes " -12,") ≡ record { value = 2 ^ 64 - 12; rest = codes ","; erange = false }
unfolding strtoull
signed = refl

hexadecimal : strtoull 16 (codes "0x1fg") ≡ record { value = 31; rest = codes "g"; erange = false }
unfolding strtoull
hexadecimal = refl

bare_prefix : strtoull 16 (codes "0x") ≡ record { value = 0; rest = codes "x"; erange = false }
unfolding strtoull
bare_prefix = refl

out_of_range :
    strtoull 10 (codes "18446744073709551616")
    ≡ record { value = ullong_max; rest = []; erange = true }
unfolding strtoull
out_of_range = refl

finish_number-lt : (minus : Bool) (p : ℕ × Bytes) → (finish_number minus p).value < 2 ^ 64
unfolding finish_number
finish_number-lt minus (n, rest) = ground arith

scan_unsigned-lt :
    (base : ℕ) (whole : Bytes) (minus : Bool) (s : Bytes)
    → (scan_unsigned base whole minus s).value < 2 ^ 64
unfolding scan_unsigned
scan_unsigned-lt base whole minus s = ground (arith, finish_number-lt minus (scan_digits base 0 s))

-- Whatever the text, the value is a 64-bit word.
pub strtoull-lt : (base : ℕ) (s : Bytes) → (strtoull base s).value < 2 ^ 64
unfolding strtoull
strtoull-lt base s =
    let (minus, u) = take_sign (skip_space s) in
    let (b, digits) = prefixed base u in scan_unsigned-lt b s minus digits
