-- ===== src/Owned/Commas/Laws.antt =====
-- What the comma loop leaves where it ends.
use mathlib.Core.List.{map}
use pmu_events.Base.{ℕ, ◌+◌, ◌≡◌, Bool, Option, none, some, List, [], ◌∷◌, ◌++◌, Bytes, arith}
use pmu_events.Free.Laws.{pointed, blocks_of, array_blocks}
use pmu_events.Free.{Block, Array, null, block}
use pmu_events.Memory.{Mem}
use pmu_events.Memory.Holds.{count, count-append}
use pmu_events.Memory.Triple.{Triple, Always, triple-pure, triple-same, triple-bind, triple-free}
use pmu_events.Owned.Commas.{Parsed, parsed, failed, give_up, finish}

pub blocks_of-append :
    {B : Type 0} (of : B → List Block) (xs ys : List B) (b : Block)
    → count b (blocks_of of (xs ++ ys)) ≡ count b (blocks_of of xs) + count b (blocks_of of ys)
unfolding blocks_of count
blocks_of-append of [] ys b = omega arith
blocks_of-append of (x ∷ xs) ys b = omega (
  arith,
  count-append b (of x) (blocks_of of (xs ++ ys)),
  count-append b (of x) (blocks_of of xs),
  blocks_of-append of xs ys b,
)

module _ {A B : Type 0} (val : B → A) where
  unfoldable pub members_of : Array B → List A
  members_of null = []
  members_of (block array list) = map val list

  -- What the code computes, with the blocks forgotten.
  unfoldable pub values_of : Parsed B → Option (List A)
  values_of (parsed array) = some (members_of array)
  values_of (failed list) = none

unfoldable pub parsed_blocks : {B : Type 0} → (B → List Block) → Parsed B → List Block
parsed_blocks of (parsed array) = array_blocks of array
parsed_blocks of (failed list) = blocks_of of list

-- What is held in a round: the array, the copy, and what the elements hold.
unfoldable pub held :
    {B : Type 0} → (B → List Block) → Option Block → Block → List B → List Block → List Block
held of array text list blocks = pointed array ++ (text ∷ (blocks_of of list ++ blocks))

abbrev pub post : {B : Type 0} → (B → List Block) → List Block → Parsed B → List Block
post of blocks r = parsed_blocks of r ++ blocks

module _ {B : Type 0} (of : B → List Block) (text : Block) (blocks : List Block)
    (Q : Parsed B → Type 0) where
  pub give_up-Triple :
      (realloc_ok : ℕ → Bool) (parse : Bytes → Mem (Option B)) (array : Option Block)
      (list : List B)
      → Q (failed list)
      → Triple
          (held of array text list blocks)
          (give_up realloc_ok parse text array list)
          (post of blocks)
          Q
  unfolding give_up held parsed_blocks pointed
  give_up-Triple realloc_ok parse array list q =
      let rest = blocks_of of list ++ blocks in
      triple-bind (post of blocks) Q (λ _. text ∷ rest) Always (triple-free (text ∷ rest) array)
        λ _ _.
          triple-bind (post of blocks) Q (λ _. rest) Always (triple-free rest (some text))
            λ _ _. triple-pure (post of blocks) Q (failed list) q

  pub finish-Triple :
      (realloc_ok : ℕ → Bool) (parse : Bytes → Mem (Option B)) (array : Block) (list : List B)
      → Q (parsed (block array list))
      → Triple
          (held of (some array) text list blocks)
          (finish realloc_ok parse text array list)
          (post of blocks)
          Q
  unfolding finish held parsed_blocks pointed array_blocks
  finish-Triple realloc_ok parse array list q =
      let rest = array ∷ (blocks_of of list ++ blocks) in
      let members = blocks_of of list in
      triple-same (post of blocks) Q {pre = text ∷ rest} (λ b. unfold count in omega arith)
        (triple-bind (post of blocks) Q (λ _. rest) Always (triple-free rest (some text))
          λ _ _.
            triple-same (post of blocks) Q {pre = (members ++ array ∷ []) ++ blocks}
              (λ b.
                unfold count in
                omega (
                  arith,
                  count-append b members blocks,
                  count-append b (members ++ array ∷ []) blocks,
                  count-append b members (array ∷ []),
                ))
              (triple-pure (post of blocks) Q (parsed (block array list)) q))
