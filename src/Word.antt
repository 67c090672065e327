-- ===== src/Word.antt =====
-- `uint64_t` as a native number below 2 ^ 64. A shift by 64 or more is undefined in C: `none`.
pub mod Bit
pub mod BitLaws
use pmu_events.Base.{ℕ, ◌+◌, ◌-◌, ◌*◌, ◌/◌, ◌%◌, ◌^◌, Option, none, some, ltb, if◌then◌else◌}

abbrev pub uint64_max : ℕ
uint64_max = 2 ^ 64 - 1

abbrev pub add64 : ℕ → ℕ → ℕ
add64 a b = (a + b) % 2 ^ 64

-- `a - b` wraps around.
abbrev pub sub64 : ℕ → ℕ → ℕ
sub64 a b = (a + 2 ^ 64 - b) % 2 ^ 64

abbrev pub not64 : ℕ → ℕ
not64 a = 2 ^ 64 - 1 - a

unfoldable pub shift_left : ℕ → ℕ → Option ℕ
shift_left x k = if ltb k 64 then some (x * 2 ^ k % 2 ^ 64) else none

unfoldable pub shift_right : ℕ → ℕ → Option ℕ
shift_right x k = if ltb k 64 then some (x / 2 ^ k) else none

infixl 5 ◌>>=◌
abbrev pub ◌>>=◌ {ℓ κ} : {A : Type ℓ} {B : Type κ} → Option A → (A → Option B) → Option B
none >>= f = none
some a >>= f = f a
