-- ===== src/Assign/Laws.antt =====
-- What the parsers of assignments accept.
use pmu_events.Assign.{
  Assignment, parse_value, make_assignment, parse_assignment, parse_assignment_list,
}
use pmu_events.Base.{
  ℕ, ◌^◌, ◌<◌, ◌≡◌, refl, ◌≢◌, ◌↔◌, Bool, none, some, List, [], ◌∷◌, ◌++◌, arith, Bytes, Lacks,
  Option-cases, inl, inr, traverse, traverse-All, All, length, if◌then◌else◌,
}
use pmu_events.Commas.Refine.{can_grow, parse_commas-split, parse_commas-terms}
use pmu_events.Commas.Split.{split}
use pmu_events.Libc.Number.{strtoull-lt}
use pmu_events.Libc.Text.{strchr, strchr_sound, strchr-append}

-- What `parse_assignment` takes a term for.
pub record Assigns (term : Bytes) (a : Assignment) : Type 0 where
  pub text : Bytes
  pub splits : term ≡ a.key ++ b'=' ∷ text
  pub plain_key : Lacks b'=' a.key
  pub has_key : a.key ≢ []
  pub has_text : text ≢ []
  pub is_value : parse_value text ≡ some a.value

make_assignment_cases :
    (key text : Bytes) (a : Assignment)
    → (make_assignment key text ≡ some a)
      ↔ ((key ≡ a.key) × (key ≢ []) × (text ≢ []) × (parse_value text ≡ some a.value))
unfolding make_assignment
make_assignment_cases [] text a = ground arith
make_assignment_cases (c ∷ key) [] a = ground arith
make_assignment_cases (c ∷ key) (d ∷ text) a = elim (Option-cases (parse_value (d ∷ text))) [
  | inl e ↦ ground arith
  | inr (v, e) ↦ ground arith
]

parse_assignment_sound :
    (term : Bytes) (a : Assignment) → parse_assignment term ≡ some a → Assigns term a
unfolding parse_assignment
parse_assignment_sound term a h = elim (Option-cases (strchr b'=' term)) [
  | inl e ↦ absurd (ground arith)
  | inr ((key, text), e) ↦
      let (same, has_key, has_text, value) =
        (make_assignment_cases key text a).0 (rw (parse_assignment, e) at h) in
      let (splits, plain) = strchr_sound b'=' term {front = key} {back = text} e in
      record {
        text = text;
        splits = rw (← same) splits;
        plain_key = rw (← same) plain;
        has_key = rw (← same) has_key;
        has_text = has_text;
        is_value = value;
      }
]

parse_assignment_complete :
    (term : Bytes) (a : Assignment) → Assigns term a → parse_assignment term ≡ some a
unfolding parse_assignment
parse_assignment_complete term a h =
    rw (h.splits, parse_assignment, strchr-append b'=' a.key h.text h.plain_key)
      ((make_assignment_cases a.key h.text a).1 (refl, h.has_key, h.has_text, h.is_value))

-- A term is read as an assignment exactly if it is its key with no equal sign, an equal sign and a
-- text that reads as its value, and neither the key nor the text is empty.
pub parse_assignment_iff :
    (term : Bytes) (a : Assignment) → (parse_assignment term ≡ some a) ↔ Assigns term a
parse_assignment_iff term a = (parse_assignment_sound term a, parse_assignment_complete term a)

parse_value-lt : (text : Bytes) {v : ℕ} → parse_value text ≡ some v → v < 2 ^ 64
unfolding parse_value
parse_value-lt text h = ground (arith, strtoull-lt 16 text)

-- The value is a 64-bit word, and the key is not empty.
abbrev pub IsStored : Assignment → Type 0
IsStored a = (a.value < 2 ^ 64) × (a.key ≢ [])

parse_assignment-IsStored :
    (term : Bytes) (a : Assignment) → parse_assignment term ≡ some a → IsStored a
parse_assignment-IsStored term a h =
    let s = parse_assignment_sound term a h in (parse_value-lt s.text s.is_value, s.has_key)

-- The list is the assignments of the terms between the commas, in order, if every term is an
-- assignment and the array can grow to their number; else the parser fails.
pub parse_assignment_list-split :
    (realloc_ok : ℕ → Bool) (str : Bytes)
    → parse_assignment_list realloc_ok str ≡ (
        if can_grow realloc_ok 0 (length (split b',' str))
        then traverse parse_assignment (split b',' str)
        else none)
unfolding parse_assignment_list
parse_assignment_list-split realloc_ok str = parse_commas-split realloc_ok parse_assignment str

-- In a list that was parsed, every value is a 64-bit word and no key is empty.
parse_assignment_list-IsStored :
    (realloc_ok : ℕ → Bool) (str : Bytes) {list : List Assignment}
    → parse_assignment_list realloc_ok str ≡ some list
    → All IsStored list
unfolding parse_assignment_list
parse_assignment_list-IsStored realloc_ok str h =
    traverse-All IsStored parse_assignment parse_assignment-IsStored (split b',' str)
      (parse_commas-terms realloc_ok parse_assignment str h)
