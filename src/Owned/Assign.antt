-- ===== src/Owned/Assign.antt =====
-- `parse_assignment` and `parse_assignment_list` of src/pmu-events.c with the keys and the array that
-- they allocate.
use pmu_events.Assign
use pmu_events.Assign.{Assignment}
use pmu_events.Base.{
  ℕ, ◌≡◌, refl, Bool, Option, none, some, List, ◌∷◌, ◌++◌, Bytes, Option-cases, inl, inr,
}
use pmu_events.Free.Laws.{pointed, array_blocks, assignment_blocks, free_assignment_list-Frees}
use pmu_events.Free.{Block, Array, AssignmentBlocks, free_assignment_list}
use pmu_events.Memory.{Mem, pure, ◌>>=◌, malloc, freeing}
use pmu_events.Memory.Owning.{
  Owning, owning, optional, value_of, Parses, Parses-none, pointers, triple-pointers,
}
use pmu_events.Memory.Triple.{Triple, Always, triple-pure, triple-bind, triple-malloc}
use pmu_events.Owned.Commas.{Parsed, parse_commas}
use pmu_events.Owned.Commas.Loop.{parse_commas-Triple}
use pmu_events.Owned.Commas.Lost.{LostFirst}
use pmu_events.Owned.Commas.Laws.{values_of, parsed_blocks}

abbrev pub OwnedAssignment : Type 0
OwnedAssignment = Owning Assignment AssignmentBlocks

abbrev pub key_blocks : OwnedAssignment → List Block
key_blocks asn = assignment_blocks asn.blocks

-- The key is allocated when nothing can fail any more.
unfoldable pub parse_assignment : Bytes → Mem (Option OwnedAssignment)
parse_assignment term = elim (Assign.parse_assignment term) [
  | none ↦ pure none
  | some asn ↦ do key ← malloc; pure (some (owning asn (record { key = some key })))
]

-- In this function `strchr` comes before `realloc`; the two do not depend on each other.
unfoldable pub parse_assignment_list : (ℕ → Bool) → Bytes → Mem (Parsed OwnedAssignment)
parse_assignment_list realloc_ok str = parse_commas realloc_ok parse_assignment str

parse_assignment-Parses :
    (term : Bytes)
    → Parses (λ s. s.value) key_blocks (parse_assignment term) (Assign.parse_assignment term)
unfolding parse_assignment
parse_assignment-Parses term blocks = elim (Option-cases (Assign.parse_assignment term)) [
  | inl e ↦
      rw (parse_assignment, e) (Parses-none (λ (s : OwnedAssignment). s.value) key_blocks blocks)
  | inr (asn, e) ↦
      rw (parse_assignment, e)
        (unfold optional value_of pointed in
          triple-bind (λ r. optional key_blocks r ++ blocks) _ (λ b. b ∷ blocks) Always
            (triple-malloc blocks)
            λ b _.
              triple-pure (λ r. optional key_blocks r ++ blocks)
                (λ r. value_of (λ (s : OwnedAssignment). s.value) r ≡ some asn)
                (some (owning asn (record { key = some b }))) refl)
]

-- Whatever the text is, a 0 leaves the array and its keys, and a -1 the keys of the terms in front of
-- the one that was refused.
pub parse_assignment_list-Triple :
    (realloc_ok : ℕ → Bool) (str : Bytes) (blocks : List Block)
    → Triple blocks
        (parse_assignment_list realloc_ok str)
        (λ r. parsed_blocks key_blocks r ++ blocks)
        (λ r.
          (values_of (λ s. s.value) r ≡ Assign.parse_assignment_list realloc_ok str)
          × LostFirst (λ s. s.value) Assign.parse_assignment str r)
unfolding parse_assignment_list Assign.parse_assignment_list
parse_assignment_list-Triple realloc_ok str blocks =
    parse_commas-Triple (λ s. s.value) key_blocks realloc_ok parse_assignment
      Assign.parse_assignment parse_assignment-Parses blocks str

pub free_list-Triple :
    (array : Array OwnedAssignment) (blocks : List Block)
    → Triple
        (array_blocks key_blocks array ++ blocks)
        (freeing (free_assignment_list (pointers array)))
        (λ _. blocks)
        Always
free_list-Triple = triple-pointers assignment_blocks free_assignment_list free_assignment_list-Frees
