-- ===== src/Assign.antt =====
-- `struct assignment` of include/pmu-events/_impl/pmu-events.h and its parsers in
-- src/pmu-events.c. A list of them has its length from the list.
pub mod Decimal
pub mod Encode
pub mod Laws
use pmu_events.Base.{
  ℕ, ◌+◌, Bool, true, false, Option, none, some, List, [], ◌∷◌, ◌≡◌, refl, if◌then◌else◌, Bytes,
  codes, is_empty,
}
use pmu_events.Commas.{parse_commas}
use pmu_events.Libc.Number.{strtoull}
use pmu_events.Libc.Text.{strchr, streq}

pub record Assignment : Type 0 where
  pub key : Bytes
  pub value : ℕ

-- The value behind the equal sign. `strncmp` over `sizeof("None")` bytes takes in the final NUL,
-- so that it tests for that very text.
unfoldable pub parse_value : Bytes → Option ℕ
parse_value text =
    let number = strtoull 16 text in
    if streq text (codes "None")
    then some 0
    else if is_empty number.rest
    then some number.value
    else none

-- The key in front of the first equal sign, and the text behind it: neither may be empty.
unfoldable pub make_assignment : Bytes → Bytes → Option Assignment
make_assignment [] text = none
make_assignment (c ∷ key) [] = none
make_assignment (c ∷ key) (d ∷ text) = elim (parse_value (d ∷ text)) [
  | none ↦ none
  | some value ↦ some (record { key = c ∷ key; value = value })
]

unfoldable pub parse_assignment : Bytes → Option Assignment
parse_assignment term = elim (strchr b'=' term) [
  | none ↦ none
  | some (key, text) ↦ make_assignment key text
]

unfoldable pub parse_assignment_list : (ℕ → Bool) → Bytes → Option (List Assignment)
parse_assignment_list realloc_ok str = parse_commas realloc_ok parse_assignment str

abbrev pub asn : Bytes → ℕ → Assignment
asn key value = record { key = key; value = value }

event_and_mask :
    parse_assignment_list (λ _. true) (codes "event=0xa3,umask=2,filter=None")
    ≡ some (asn (codes "event") 0xa3 ∷ asn (codes "umask") 2 ∷ asn (codes "filter") 0 ∷ [])
unfolding parse_assignment_list parse_commas parse_assignment make_assignment parse_value strchr
    streq strtoull
event_and_mask = refl

refused :
    (parse_assignment (codes "=3") ≡ none)
    × (parse_assignment (codes "event=") ≡ none)
    × (parse_assignment (codes "event") ≡ none)
    × (parse_assignment (codes "event=0x") ≡ none)
unfolding parse_assignment make_assignment parse_value strchr streq strtoull
refused = (refl, refl, refl, refl)
