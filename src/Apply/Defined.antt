-- ===== src/Apply/Defined.antt =====
-- The shifts in a round of `apply_range_list_to_val`.
use pmu_events.Apply.{range_len, apply_range}
use pmu_events.Base.{ℕ, ◌-◌, ◌<◌, ◌≤◌, ◌≡◌, ◌↔◌, ◌⊎◌, none, arith}
use pmu_events.Range.{Range}
use pmu_events.Range.RoundTrip.{Fits}
use pmu_events.Word.{shift_left, shift_right, sub64}

-- The two shift amounts that depend on the range's length.
amounts_lt :
    (r : Range)
    → Fits r
    → r.start < 64
    → ((sub64 64 (range_len r) < 64) × (range_len r < 64))
      ↔ ((r.start ≤ r.end) × (r.end - r.start < 63))
unfolding range_len
amounts_lt r f h = (λ k. omega arith, λ k. omega arith)

-- On a range whose bounds are 64-bit words, a round reaches an undefined shift exactly if the range
-- starts above the word's last bit, ends before its start, or has 64 bits or more: the whole word
-- too.
pub apply_range-none_iff :
    (config v : ℕ) (r : Range)
    → Fits r
    → (apply_range config v r ≡ none)
      ↔ ((64 ≤ r.start) ⊎ (r.end < r.start) ⊎ (63 ≤ r.end - r.start))
unfolding apply_range shift_left shift_right
apply_range-none_iff config v r f = ground (arith, amounts_lt r f)
