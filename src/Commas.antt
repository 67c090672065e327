-- ===== src/Commas.antt =====
-- The loop that `parse_range_list` and `parse_assignment_list` share: cut the text at its commas,
-- grow the array by one element and parse the term into it. The buffer of `strdup` that is cut is
-- the text not yet read; `realloc_ok n` says whether the array can grow to `n` elements.
pub mod Split
pub mod Refine
use pmu_events.Base.{
  ℕ, zero, suc, ◌+◌, Bool, Option, none, some, List, [], ◌∷◌, ◌++◌, if◌then◌else◌, Bytes, length,
}
use pmu_events.Libc.Text.{strchr}

module _ {ℓ} {A : Type ℓ} (realloc_ok : ℕ → Bool) (parse : Bytes → Option A) where
  -- `list` so far, and the text from `cur_range` on, with fuel for the rounds.
  unfoldable pub comma_loop : ℕ → List A → Bytes → Option (List A)
  comma_loop zero list cur_range = none
  comma_loop (suc fuel) list cur_range =
      if realloc_ok (length list + 1)
      then elim (strchr b',' cur_range) [
        | none ↦ elim (parse cur_range) [ none ↦ none | some r ↦ some (list ++ r ∷ []) ]
        | some (term, rest) ↦ elim (parse term) [
          | none ↦ none
          | some r ↦ comma_loop fuel (list ++ r ∷ []) rest
        ]
      ]
      else none

  -- One round for each comma and one more: the text's length and one are enough.
  unfoldable pub parse_commas : Bytes → Option (List A)
  unfolding comma_loop
  parse_commas text = comma_loop (length text + 1) [] text
